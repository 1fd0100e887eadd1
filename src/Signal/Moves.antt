-- ===== src/Signal/Moves.antt =====
-- What one signal does to the bits: where they are before and after it is sent, delivered and
-- confirmed.
use task_lunev.Base.{
  ℕ, zero, suc, ◌+◌, ◌-◌, ◌*◌, ◌%◌, ◌^◌, ◌≤◌, ◌<◌, ◌≡◌, arith, refl, ap, ◌∙◌, sym, Bool,
}
use task_lunev.Base.{List, [], ◌∷◌, ◌++◌, append_assoc, append-nil, if◌then◌else◌, pos, negsuc}
use native.Mathlib.Nat.{mul_comm}
use task_lunev.Base.{bit_or, ne→==, ℕ_discrete, true, ◌⊎◌, inl, inr}
use task_lunev.Memory.{Bytes}
use task_lunev.Memory.Bits.{IsBytes}
use task_lunev.Signal.{
  Writer, sending, waiting, exited, Reader, Pending, shift_char, send_bit, confirmed, receive_bit,
  write_byte,
}
use task_lunev.Signal.Bits.{bits, stream, bits-shift_char, bits_top, bit_or_top, stream-append}

-- The bits from the `i`th of the first byte on, which the shifts have brought to its bottom.
abbrev pub stream_from : Bytes → ℕ → List ℕ
stream_from [] i = []
stream_from (c ∷ cs) i = bits (8 - i) c ++ stream cs

-- The bits that the writer has still to send.
abbrev pub to_send : Writer → List ℕ
to_send (sending left i) = stream_from left i
to_send (waiting [] i) = []
to_send (waiting (c ∷ cs) i) = bits (7 - i) c ++ stream cs
to_send (exited _ [] i) = []
to_send (exited _ (c ∷ cs) i) = bits (7 - i) c ++ stream cs

-- The bits on the way to the reader.
abbrev pub in_flight : Pending → List ℕ
in_flight p = (if p.usr1 then 0 ∷ [] else []) ++ (if p.usr2 then 1 ∷ [] else [])

abbrev pub received : Reader → List ℕ
received r = stream r.output ++ bits r.i r.buf

abbrev pub one_if : Bool → ℕ
one_if b = if b then 1 else 0

abbrev pub count : Pending → ℕ
count p = one_if p.usr1 + one_if p.usr2 + one_if p.confirm

-- How many signals may be pending, for each place of the writer.
abbrev pub Agrees : Writer → Pending → Type 0
Agrees (sending _ i) p = (count p ≡ 0) × (i < 8)
Agrees (waiting _ i) p = (count p ≡ 1) × (i < 8)
Agrees (exited (pos _) left _) p = (count p ≡ 0) × (left ≡ [])
Agrees (exited (negsuc _) _ _) p = count p ≤ 1

-- The reader has bits of one byte only, and wrote bytes.
pub record IsSound (r : Reader) : Type 0 where
  pub index : r.i ≤ 8
  pub small : r.buf < 2 ^ r.i
  pub bytes : IsBytes r.output
  pub waits : (r.running ≡ true) ⊎ (r.i < 8)

send-flight :
    (c : ℕ) (p : Pending)
    → count p ≡ 0
    → (in_flight p ≡ []) × (in_flight (send_bit c p) ≡ c % 2 ∷ [])
send-flight c p e = (ground arith, ground arith)

pub sent_one : (c : ℕ) (p : Pending) → count p ≡ 0 → count (send_bit c p) ≡ 1
sent_one c p e = ground arith

-- One more bit, the lowest bit of the byte, is on the way instead of in the writer.
pub send-moves :
    (c : ℕ) (cs : Bytes) (i : ℕ) (p : Pending)
    → i < 8
    → count p ≡ 0
    → (in_flight (send_bit c p) ++ to_send (waiting (shift_char c ∷ cs) i))
      ≡ in_flight p ++ to_send (sending (c ∷ cs) i)
send-moves c cs i p h e =
    let low = bits-shift_char (7 - i) c (omega arith) in
    let n : 8 - i ≡ suc (7 - i) = omega arith in let f = send-flight c p e in rw (low, n, f.0, f.1)

pub stream_from_zero : (xs : Bytes) → stream_from xs 0 ≡ stream xs
stream_from_zero [] = refl
stream_from_zero (x ∷ xs) = refl

pub confirm-moves :
    (left : Bytes) (i : ℕ) → i < 8 → to_send (confirmed left i) ≡ to_send (waiting left i)
unfolding confirmed
confirm-moves [] i h = refl
confirm-moves (c ∷ cs) i h = elim (ℕ_discrete i 7) [
  | yes e ↦ rw e (stream_from_zero cs)
  | no d ↦ let n : 8 - (i + 1) ≡ 7 - i = omega arith in rw (ne→== i 7 d, n)
]

pub receive-moves :
    (bit : ℕ) (r : Reader)
    → bit < 2
    → IsSound r
    → received (receive_bit bit r) ≡ received r ++ (bit ∷ [])
unfolding receive_bit
receive-moves bit r h v =
    let e : bit_or r.buf (bit * 2 ^ r.i) ≡ r.buf + 2 ^ r.i * bit =
      ap (bit_or r.buf) (mul_comm bit (2 ^ r.i)) ∙ bit_or_top r.i r.buf bit v.small h in
    let x = bit_or r.buf (bit * 2 ^ r.i) in
    let n : r.i + 1 ≡ suc r.i = omega arith in
    ap (λ t. stream r.output ++ t)
      (ap (λ k. bits k x) n ∙ ap (bits (suc r.i)) e ∙ bits_top r.i r.buf bit v.small h)
    ∙ sym (append_assoc (stream r.output) (bits r.i r.buf) (bit ∷ []))

pub snoc-IsBytes : (xs : Bytes) (x : ℕ) → IsBytes xs → x < 256 → IsBytes (xs ++ (x ∷ []))
snoc-IsBytes [] x h k zero = k
snoc-IsBytes [] x h k (suc i) = omega arith
snoc-IsBytes (y ∷ xs) x h k zero = h 0
snoc-IsBytes (y ∷ xs) x h k (suc i) = snoc-IsBytes xs x (λ j. h (suc j)) k i

pub receive-IsSound :
    (bit : ℕ) (r : Reader)
    → bit < 2
    → r.running ≡ true
    → r.i < 8
    → IsSound r
    → IsSound (receive_bit bit r)
unfolding receive_bit
receive-IsSound bit r h on free v =
    let e : bit_or r.buf (bit * 2 ^ r.i) ≡ r.buf + 2 ^ r.i * bit =
      ap (bit_or r.buf) (mul_comm bit (2 ^ r.i)) ∙ bit_or_top r.i r.buf bit v.small h in
    let p : 2 ^ r.i * bit ≤ 2 ^ r.i = grind arith in
    let n : 2 ^ (r.i + 1) ≡ 2 * 2 ^ r.i =
      ap (λ k. 2 ^ k) (let one : r.i + 1 ≡ suc r.i = omega arith in one) ∙ grind arith in
    record {
      index = omega arith;
      small = omega (arith, e, p, n, v.small);
      bytes = v.bytes;
      waits = inl on;
    }

-- The byte that is written is the one whose bits the reader had.
pub write-moves : (r : Reader) → r.i ≡ 8 → received (write_byte r) ≡ received r
write-moves r e =
    append-nil (stream (r.output ++ (r.buf ∷ [])))
    ∙ stream-append r.output (r.buf ∷ [])
    ∙ ap (λ t. stream r.output ++ t) (append-nil (bits 8 r.buf) ∙ ap (λ k. bits k r.buf) (sym e))

pub write-IsSound : (r : Reader) → r.i ≡ 8 → IsSound r → IsSound (write_byte r)
write-IsSound r e v = record {
  index = omega arith;
  small = omega arith;
  bytes =
      snoc-IsBytes r.output _ v.bytes
        (let t : 2 ^ r.i ≡ 256 = ap (λ k. 2 ^ k) e in omega (arith, t, v.small));
  waits = inr (omega arith);
}
