-- ===== src/BinArray/Visit/Laws.antt =====
-- What the visits of an array see: the callback of `baForeach`, and the text of the dumps.
use task_lunev.Base.{ℕ, zero, suc, ◌+◌, ◌-◌, ◌*◌, ◌^◌, ◌%◌, ◌<◌, ◌≡◌, arith, if◌then◌else◌, ◌==◌}
use task_lunev.Base.{
  Bool, true, false, some, List, [], ◌∷◌, ◌++◌, refl, ap, ◌∙◌, not, ◌&&◌, bit_and,
}
use task_lunev.Bits.{test_bit, test_bit-lt, bit_and-single, pow-pos}
use task_lunev.Memory.{Bytes, ok}
use task_lunev.Memory.Bits.{bit_at}
use task_lunev.BinArray.{BinArray, array, check_ptr, IsValid}
use task_lunev.BinArray.Access.Laws.{is_one, raw_get_value_lem, room}
use task_lunev.BinArray.Create.{members}
use task_lunev.BinArray.Visit.{
  digit, print_bits, print_byte, dump_bits, dump_buf_full, foreach_bits, foreach,
}

-- The bits from index `i` on.
abbrev pub bits_from : ℕ → ℕ → Bytes → List Bool
bits_from zero i buf = []
bits_from (suc left) i buf = is_one (bit_at buf i) ∷ bits_from left (i + 1) buf

-- The digits of a line, without the spaces.
abbrev pub digits : Bytes → List Bool
digits [] = []
digits (c ∷ text) =
    let rest = digits text in if c == 32 then rest else if c == 10 then [] else (c == 49) ∷ rest

digits_space :
    (spaced b : Bool) (text : Bytes)
    → digits ((if spaced then 32 ∷ digit b ∷ text else digit b ∷ text) ++ 10 ∷ [])
      ≡ b ∷ digits (text ++ 10 ∷ [])
digits_space true true text = refl
digits_space true false text = refl
digits_space false true text = refl
digits_space false false text = refl

module _ {buf : Bytes} {n : ℕ} (v : IsValid buf n) where
  dump_bits-digits :
      (left i : ℕ)
      → i + left ≡ n
      → (text : Bytes) × (dump_bits left i buf ≡ ok text)
        × (digits (text ++ 10 ∷ []) ≡ bits_from left i buf)
  unfolding dump_bits
  dump_bits-digits zero i e = ([], refl, refl)
  dump_bits-digits (suc left) i e =
      let (text, r, d) = dump_bits-digits left (i + 1) (omega arith) in
      let b = is_one (bit_at buf i) in
      let spaced = (i % 8 == 0) && not (i == 0) in
      (
        (if spaced then 32 ∷ digit b ∷ text else digit b ∷ text),
        rw (raw_get_value_lem buf v.bytes i (room v i (omega arith)), r) refl,
        digits_space spaced b text ∙ ap (λ (bs : List Bool). b ∷ bs) d,
      )

  -- On a valid array baDumpBufFull prints a line from which, without the spaces, the bits of the
  -- array can be read back in order.
  pub dump_buf_full-digits :
      (text : Bytes) × (dump_buf_full (some (array buf n)) ≡ ok text)
      × (digits text ≡ bits_from n 0 buf)
  unfolding dump_buf_full check_ptr
  dump_buf_full-digits =
      let (text, r, d) = dump_bits-digits n 0 (omega arith) in (text ++ 10 ∷ [], rw r refl, d)

module _ {ℓ} {D : Type ℓ} (f : Bool → D → D) where
  abbrev pub fold : List Bool → D → D
  fold [] d = d
  fold (b ∷ bs) d = fold bs (f b d)

  foreach_bits-fold :
      {buf : Bytes} {n : ℕ} (v : IsValid buf n) (cb : BinArray → Bool → D → BinArray × D)
      → ((b : Bool) (d : D) → cb (array buf n) b d ≡ (array buf n, f b d))
      → (left i : ℕ) (d : D) → i + left ≡ n
      → foreach_bits cb left i (array buf n) d ≡ ok (array buf n, fold (bits_from left i buf) d)
  unfolding foreach_bits members
  foreach_bits-fold v cb h zero i d e = refl
  foreach_bits-fold {buf} {n} v cb h (suc left) i d e =
      let b = is_one (bit_at buf i) in
      rw (raw_get_value_lem buf v.bytes i (room v i (omega arith)), h b d)
        (foreach_bits-fold v cb h left (i + 1) (f b d) (omega arith))

  -- On a valid array, with a callback that leaves the array as it is, baForeach ends with the data
  -- that a fold of the callback over the bits of the array, in order, gives.
  pub foreach-fold :
      {buf : Bytes} {n : ℕ} (v : IsValid buf n) (cb : BinArray → Bool → D → BinArray × D)
      → ((b : Bool) (d : D) → cb (array buf n) b d ≡ (array buf n, f b d))
      → (d : D) → foreach cb (some (array buf n)) d ≡ ok (array buf n, fold (bits_from n 0 buf) d)
  unfolding foreach
  foreach-fold {n = n} v cb h d = foreach_bits-fold v cb h n 0 d (omega arith)

-- The number that a line of binary digits shows.
abbrev pub number : Bytes → ℕ → ℕ
number [] acc = acc
number (c ∷ text) acc = number text (2 * acc + (c - 48))

shown : (x j : ℕ) → digit (not (bit_and x (2 ^ j) == 0)) - 48 ≡ test_bit x j
shown x j = rw (bit_and-single j x) (is_shown (test_bit x j) (2 ^ j) (test_bit-lt x j) (pow-pos j))
  where
    is_shown : (b t : ℕ) → b < 2 → 0 < t → digit (not (b * t == 0)) - 48 ≡ b
    is_shown zero t h k = ground arith
    is_shown (suc zero) t h k = ground arith
    is_shown (suc (suc b)) t h k = absurd (omega arith)

-- The digits of print_byte are those of the byte.
pub print_byte-number : (byte : ℕ) → byte < 256 → number (print_byte byte) 0 ≡ byte
unfolding print_byte print_bits test_bit
print_byte-number byte h = omega (
  arith,
  shown byte 0,
  shown byte 1,
  shown byte 2,
  shown byte 3,
  shown byte 4,
  shown byte 5,
  shown byte 6,
  shown byte 7,
)
