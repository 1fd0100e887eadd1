-- ===== src/Signal/Transfer.antt =====
-- What a transfer achieves: the output against the file, and that no run gets stuck.
use task_lunev.Base.{ℕ, zero, suc, ◌<◌, ◌≡◌, arith, refl, ap, ◌∙◌, ap₂, Bool, true, false}
use task_lunev.Base.{
  List, [], ◌∷◌, ◌++◌, append-nil, append_assoc, sym, ◌/◌, take, drop, length, pos,
}
use task_lunev.Base.{◌⊎◌, inl, inr, ◌==◌, ℕ_discrete, eq→==, ne→==}
use task_lunev.Memory.{Bytes}
use task_lunev.Memory.Bits.{IsBytes}
use task_lunev.Signal.{
  confirmed, waiting, exited, Reader, Pending, State, Step, Reachable, unwritten,
}
use task_lunev.Signal.Bits.{bits, stream, bits_injective}
use task_lunev.Signal.Order.{Reachable-Inv}
use task_lunev.Signal.Moves.{
  to_send, in_flight, count, received, IsSound, write-moves, write-IsSound,
}

length-bits : (n x : ℕ) → length (bits n x) ≡ n
length-bits zero x = refl
length-bits (suc n) x = ap suc (length-bits n (x / 2))

-- Bytes whose bits begin the bits of other bytes begin them.
prefix_of_stream :
    (out file : Bytes) (rest : List ℕ)
    → IsBytes out
    → IsBytes file
    → stream out ++ rest ≡ stream file
    → (left : Bytes) × (out ++ left ≡ file) × (rest ≡ stream left)
prefix_of_stream [] file rest h k e = (file, refl, e)
prefix_of_stream (o ∷ out) [] rest h k e = absurd (omega (arith, ap length e))
prefix_of_stream (o ∷ out) (f ∷ file) rest h k e =
    let same = bits_injective 8 o f (h 0) (k 0) (ap (take 8) e) in
    let (left, whole, others) =
      prefix_of_stream out file rest (λ i. h (suc i)) (λ i. k (suc i)) (ap (drop 8) e) in
    (left, ap₂ ◌∷◌ same whole, others)

no_byte : (n x : ℕ) (left : Bytes) → n < 8 → bits n x ≡ stream left → left ≡ []
no_byte n x [] h e = refl
no_byte n x (c ∷ left) h e = absurd (omega (arith, ap length e, length-bits n x))

-- At every moment of a transfer of a file of bytes, also where the writer has given up, what the
-- reader has written is the beginning of the file.
pub output_prefix :
    (file : Bytes) {s : State}
    → IsBytes file
    → Reachable file s
    → (left : Bytes) × (s.reader.output ++ left ≡ file)
output_prefix file {s} h run =
    let v = Reachable-Inv file run in
    let r = s.reader in
    let whole =
      sym
        (append_assoc (stream r.output) (bits r.i r.buf) (in_flight s.pending ++ to_send s.writer))
      ∙ v.total in
    let (left, e, others) = prefix_of_stream r.output file _ v.sound.bytes h whole in (left, e)

empty_flight : (p : Pending) → count p ≡ 0 → in_flight p ≡ []
empty_flight p e = ground arith

-- The bits of a partial byte, or of the byte that is not written yet, where no other bits are left.
last_byte :
    (file : Bytes) (r : Reader)
    → IsBytes file
    → IsSound r
    → received r ≡ stream file
    → r.output ++ unwritten r ≡ file
last_byte file r h v e = elim (ℕ_discrete r.i 8) [
  | yes whole ↦
      let all : stream (r.output ++ (r.buf ∷ [])) ++ [] ≡ stream file = write-moves r whole ∙ e in
      let (rest, f, none_left) =
        prefix_of_stream (r.output ++ (r.buf ∷ [])) file [] (write-IsSound r whole v).bytes h all in
      let nothing = no_byte 0 0 rest (omega arith) none_left in
      rw (eq→== r.i 8 whole)
        (sym (append-nil _) ∙ ap (λ t. (r.output ++ (r.buf ∷ [])) ++ t) (sym nothing) ∙ f)
  | no other ↦
      let (rest, f, others) = prefix_of_stream r.output file _ v.bytes h e in
      let nothing = no_byte r.i r.buf rest (let i = v.index in ground arith) others in
      rw (ne→== r.i 8 other) (ap (λ t. r.output ++ t) (sym nothing) ∙ f)
]

-- Where the writer of a reachable state of a transfer of a file of bytes has returned 0, what the
-- reader has written is, together with a byte that it has confirmed and not written yet, the whole
-- file and nothing else; and the reader still runs or has written the whole file.
pub output_complete :
    (file : Bytes) {left : Bytes} {i : ℕ} {r : Reader} {p : Pending}
    → IsBytes file
    → Reachable file (record { writer = exited (pos 0) left i; reader = r; pending = p })
    → (r.output ++ unwritten r ≡ file) × ((r.running ≡ true) ⊎ (r.output ≡ file))
output_complete file {left} {i} {r} {p} h run =
    let v = Reachable-Inv file run in
    let none_left : in_flight p ++ to_send (exited (pos 0) left i) ≡ [] =
      ap₂ ◌++◌ (empty_flight p v.agrees.0) (ap (λ t. to_send (exited (pos 0) t i)) v.agrees.1) in
    let all = sym (ap (λ t. received r ++ t) none_left ∙ append-nil (received r)) ∙ v.total in
    let whole = last_byte file r h v.sound all in
    (
      whole,
      elim v.sound.waits [
        | inl on ↦ inl on
        | inr free ↦
            let n : (r.i == 8) ≡ false = ground arith in
            let e : unwritten r ≡ [] = rw n refl in
            inr (sym (append-nil r.output) ∙ ap (λ t. r.output ++ t) (sym e) ∙ whole)
      ],
    )

-- While the reader runs, in a reachable state with a waiting writer some signal can be delivered:
-- its bit to the reader, or the confirmation to the writer, which then goes on with the next bit.
pub waiting_answered :
    (file : Bytes) {left : Bytes} {i : ℕ} {r : Reader} {p : Pending}
    → Reachable file (record { writer = waiting left i; reader = r; pending = p })
    → r.running ≡ true
    → (t : State) × Step (record { writer = waiting left i; reader = r; pending = p }) t
      × ((t.writer ≡ waiting left i) ⊎ (t.writer ≡ confirmed left i))
waiting_answered file {left} {i} {r} {p} run on =
    let v = Reachable-Inv file run in
    elim (ℕ_discrete r.i 8) [
      | yes e ↦ (_, Step.writes e, inl refl)
      | no n ↦ answer (let i = v.sound.index in ground arith) p.usr1 p.usr2 p.confirm v.agrees.0
    ]
  where
    answer :
        r.i < 8
        → (a b c : Bool) → count (record { usr1 = a; usr2 = b; confirm = c }) ≡ 1
        → (t : State) × Step
            (record {
              writer = waiting left i;
              reader = r;
              pending = record { usr1 = a; usr2 = b; confirm = c };
            })
            t
          × ((t.writer ≡ waiting left i) ⊎ (t.writer ≡ confirmed left i))
    answer free true b c e = (_, Step.usr1 b c on free, inl refl)
    answer free false true c e = (_, Step.usr2 false c on free, inl refl)
    answer free false false true e = (_, Step.confirm false false, inr refl)
    answer free false false false e = absurd (omega arith)
