-- ===== src/BinArray/Find/Qword.antt =====
-- Searches inside one quadword.
use native.Mathlib.Nat.{div-lt_iff_lt-mul, div-le_self}
use task_lunev.Base.{
  ℕ, zero, suc, ◌+◌, ◌-◌, ◌*◌, ◌/◌, ◌%◌, ◌^◌, ◌≤◌, ◌<◌, ◌≡◌, ◌≢◌, arith, ltb, ◌==◌,
}
use task_lunev.Base.{
  Bool, true, false, Option, none, some, inl, inr, if◌then◌else◌, lt→ltb, le→ltb_false, sym, dec_lt,
  ap, ◌∙◌, Bool-cases, ==→eq, ◌↔◌,
}
use task_lunev.Bits.{
  test_bit, test_bit-zero, test_bit-lt, test_bit-not, test_bit-shr, test_bit_low, test_bit_high,
  zero_of_bits, pow-add, pow-pos, test_bit_beyond, test_bit_ones,
}
use task_lunev.Memory.{not64}
use task_lunev.BinArray.Find.{
  first_one, find_bit_one_in_qword, find_bit_zero_in_qword, shift_logical, shift_arithmetic,
  is_nonzero, is_not_full,
}

-- `p` is the first position from `lo` on, below `hi`, at which the bits `b` read `c`.
pub record IsFirst (b : ℕ → ℕ) (c lo hi p : ℕ) : Type 0 where
  pub from : lo ≤ p
  pub below : p < hi
  pub here : b p ≡ c
  pub before : (j : ℕ) → lo ≤ j → j < p → b j ≢ c

abbrev pub Nowhere : (ℕ → ℕ) → ℕ → ℕ → ℕ → Type 0
Nowhere b c lo hi = (j : ℕ) → lo ≤ j → j < hi → b j ≢ c

-- A search reports the first position, or nothing where there is none.
abbrev pub Searches : (ℕ → ℕ) → ℕ → ℕ → ℕ → Option ℕ → Type 0
Searches b c lo hi none = Nowhere b c lo hi
Searches b c lo hi (some p) = IsFirst b c lo hi p

Searches-later :
    (n x : ℕ) (o : Option ℕ)
    → x % 2 ≢ 1
    → Searches (test_bit (x / 2)) 1 0 n o
    → Searches (test_bit x) 1 0 (suc n) (elim o [ none ↦ none | some i ↦ some (suc i) ])
unfolding test_bit
Searches-later n x none odd h = λ j p q e. later j q e
  where
    later : (j : ℕ) → j < suc n → test_bit x j ≡ 1 → ⊥
    later zero q e = odd e
    later (suc j) q e = h j (omega arith) (omega arith) e
Searches-later n x (some i) odd h = record {
  from = omega arith;
  below = omega (arith, h.below);
  here = h.here;
  before = λ j p q e. earlier j q e;
}
  where
    earlier : (j : ℕ) → j < suc i → test_bit x j ≡ 1 → ⊥
    earlier zero q e = odd e
    earlier (suc j) q e = h.before j (omega arith) (omega arith) e

first_one-Searches : (n x : ℕ) → Searches (test_bit x) 1 0 n (first_one n x)
unfolding first_one
first_one-Searches zero x = λ j p q. absurd (omega arith)
first_one-Searches (suc n) x = elim (Bool-cases (x % 2 == 1)) [
  | inl e ↦ rw e (record {
    from = omega arith;
    below = omega arith;
    here = unfold test_bit in ==→eq (x % 2) 1 e;
    before = λ j p q. absurd (omega arith);
  })
  | inr e ↦
      rw e (
        Searches-later n x (first_one n (x / 2)) (λ q. ground arith) (first_one-Searches n (x / 2)))
]

abbrev pub at_offset : ℕ → Option ℕ → Option ℕ
at_offset off none = none
at_offset off (some i) = some (off + i)

-- A search over one row of bits is a search over another that agrees with it, `off` places on.
module _ (f g : ℕ → ℕ) (c d lo hi off : ℕ)
    (same : (j : ℕ) → lo ≤ j → j < hi → (f j ≡ c) ↔ (g (off + j) ≡ d)) where
  back : (j : ℕ) → off + lo ≤ j → j < off + hi → g j ≡ d → f (j - off) ≡ c
  back j p q r =
      let e : off + (j - off) ≡ j = omega arith in
      (same (j - off) (omega arith) (omega arith)).1 (ap g e ∙ r)

  pub Searches-offset :
      (o : Option ℕ) → Searches f c lo hi o → Searches g d (off + lo) (off + hi) (at_offset off o)
  Searches-offset none h = λ j p q r. h (j - off) (omega arith) (omega arith) (back j p q r)
  Searches-offset (some i) h = record {
    from = omega (arith, h.from);
    below = omega (arith, h.below);
    here = (same i h.from h.below).0 h.here;
    before = λ j p q r.
        h.before (j - off) (omega arith) (omega arith) (back j p (omega (arith, h.below)) r);
  }

-- Where a match from `mid` on implies one just below `mid`, the search may stop there.
Searches-narrow :
    (f : ℕ → ℕ) (c mid hi : ℕ) (o : Option ℕ)
    → 0 < mid
    → mid ≤ hi
    → ((j : ℕ) → mid ≤ j → j < hi → f j ≡ c → f (mid - 1) ≡ c)
    → Searches f c 0 hi o
    → Searches f c 0 mid o
Searches-narrow f c mid hi none some_room le e h = λ j p q. h j p (omega arith)
Searches-narrow f c mid hi (some i) some_room le e h = elim (dec_lt i mid) [
  | yes p ↦ record { from = omega arith; below = p; here = h.here; before = h.before }
  | no p ↦
      absurd (h.before (mid - 1) (omega arith) (omega arith) (e i (omega arith) h.below h.here))
]

Searches-ext :
    (f g : ℕ → ℕ) (c d hi : ℕ) (o : Option ℕ)
    → ((j : ℕ) → j < hi → (f j ≡ c) ↔ (g j ≡ d))
    → Searches f c 0 hi o
    → Searches g d 0 hi o
Searches-ext f g c d hi none e h = λ j p q r. h j p q ((e j q).1 r)
Searches-ext f g c d hi (some i) e h = record {
  from = h.from;
  below = h.below;
  here = (e i h.below).0 h.here;
  before = λ j p q r. h.before j p q ((e j (omega (arith, h.below))).1 r);
}

-- What the body of the search needs of its three parameters to find the bits that read `c`.
pub record Finder (shift : ℕ → ℕ → ℕ) (hit : ℕ → Bool) (find : ℕ → Option ℕ) (c : ℕ) : Type 0 where
  pub passes : (q : ℕ) → q < 2 ^ 64 → hit q ≡ false → Nowhere (test_bit q) c 0 64
  pub hits : (q : ℕ) → q < 2 ^ 64 → hit q ≡ true → ¬ Nowhere (test_bit q) c 0 64
  pub finds : (q : ℕ) → q < 2 ^ 64 → Searches (test_bit q) c 0 64 (find q)
  pub first :
      (q r : ℕ)
      → q < 2 ^ 64
      → 0 < r
      → r < 64
      → Searches (test_bit (shift q r)) c 0 (64 - r) (find (shift q r))
  pub keeps :
      (q r i : ℕ)
      → q < 2 ^ 64
      → 0 < r
      → r < 64
      → i < 64 - r
      → test_bit (shift q r) i ≡ test_bit q (r + i)

one_finds : (q : ℕ) → Searches (test_bit q) 1 0 64 (find_bit_one_in_qword q)
unfolding find_bit_one_in_qword
one_finds q = first_one-Searches 64 q

zero_finds : (q : ℕ) → q < 2 ^ 64 → Searches (test_bit q) 0 0 64 (find_bit_zero_in_qword q)
unfolding find_bit_zero_in_qword
zero_finds q h =
    Searches-ext (test_bit (not64 q)) (test_bit q) 1 0 64 (find_bit_one_in_qword (not64 q))
      (λ j p. ground (arith, test_bit-not 64 q j h p, test_bit-lt q j)) (one_finds (not64 q))

pub one-Finder : Finder shift_logical is_nonzero find_bit_one_in_qword 1
one-Finder = record {
  passes = λ q h e j p k r.
      let z : q ≡ 0 = ground arith in
      omega (arith, test_bit-zero j, ap (λ (t : ℕ). test_bit t j) z, r);
  hits = λ q h e nowhere.
      let z : q ≡ 0 = zero_of_bits 64 q h (λ i p. ground (arith, nowhere i, test_bit-lt q i)) in
      ground arith;
  finds = λ q h. one_finds q;
  first = λ q r h p k.
      Searches-narrow _ 1 (64 - r) 64 _ (omega arith) (omega arith)
        (λ j a b e.
          absurd
            (omega (arith, test_bit-shr r q j, test_bit_beyond 64 q (r + j) h (omega arith), e)))
        (one_finds (q / 2 ^ r));
  keeps = λ q r i h p k j. test_bit-shr r q i;
}

-- The arithmetic shift: the bits moved down, below `r` copies of the sign.
module _ (q r : ℕ) (fits : q < 2 ^ 64) (some_shift : 0 < r) (short : r < 64) where
  whole_width : 2 ^ (64 - r) * 2 ^ r ≡ 2 ^ 64
  whole_width =
      let e : 64 - r + r ≡ 64 = omega arith in sym (pow-add (64 - r) r) ∙ ap (λ (t : ℕ). 2 ^ t) e

  moved-lt : q / 2 ^ r < 2 ^ (64 - r)
  moved-lt = (div-lt_iff_lt-mul (pow-pos r)).1 (rw whole_width fits)

  negative_lt : q / 2 ^ r + 2 ^ (64 - r) * (2 ^ r - 1) < 2 ^ 64
  negative_lt =
      let e : 2 ^ r ≡ 2 ^ r - 1 + 1 = omega (arith, pow-pos r) in
      omega (arith, moved-lt, whole_width, ap (λ (t : ℕ). 2 ^ (64 - r) * t) e)

  shift_arithmetic-lt : shift_arithmetic q r < 2 ^ 64
  shift_arithmetic-lt = elim (dec_lt q (2 ^ 63)) [
    | yes p ↦ rw (lt→ltb q (2 ^ 63) p) (omega (arith, div-le_self q (2 ^ r)))
    | no p ↦ rw (le→ltb_false q (2 ^ 63) (omega arith)) negative_lt
  ]

  kept_bit : (i : ℕ) → i < 64 - r → test_bit (shift_arithmetic q r) i ≡ test_bit q (r + i)
  kept_bit i h =
      test_bit_low (64 - r) (if ltb q (2 ^ 63) then 0 else 2 ^ r - 1) (q / 2 ^ r) i h
      ∙ test_bit-shr r q i

  top_bit : 2 ^ 63 ≤ q → test_bit q 63 ≡ 1
  top_bit p = sym (test_bit-shr 63 q 0) ∙ unfold test_bit in omega arith

  sign_bit : (j : ℕ) → 64 - r ≤ j → j < 64 → test_bit (shift_arithmetic q r) j ≡ test_bit q 63
  sign_bit j p h =
      let e : j ≡ 64 - r + (j - (64 - r)) = omega arith in
      ap (test_bit (shift_arithmetic q r)) e
      ∙ test_bit_high (64 - r) (if ltb q (2 ^ 63) then 0 else 2 ^ r - 1) (q / 2 ^ r) (j - (64 - r))
          moved-lt
      ∙ copies (dec_lt q (2 ^ 63))
    where
      copies :
          Dec (q < 2 ^ 63)
          → test_bit (if ltb q (2 ^ 63) then 0 else 2 ^ r - 1) (j - (64 - r)) ≡ test_bit q 63
      copies (yes k) =
          rw (lt→ltb q (2 ^ 63) k)
            (test_bit-zero (j - (64 - r)) ∙ sym (test_bit_beyond 63 q 63 k (omega arith)))
      copies (no k) =
          rw (le→ltb_false q (2 ^ 63) (omega arith))
            (test_bit_ones r (j - (64 - r)) (omega arith) ∙ sym (top_bit (omega arith)))

pub zero-Finder : Finder shift_arithmetic is_not_full find_bit_zero_in_qword 0
zero-Finder = record {
  passes = λ q h e j p k r.
      let z : q ≡ 2 ^ 64 - 1 = ground arith in
      omega (arith, test_bit_ones 64 j k, ap (λ (t : ℕ). test_bit t j) z, r);
  hits = λ q h e nowhere.
      let z : not64 q ≡ 0 =
        zero_of_bits 64 (not64 q) (omega arith)
          (λ i p. ground (arith, nowhere i, test_bit-not 64 q i h p, test_bit-lt q i)) in
      ground arith;
  finds = zero_finds;
  first = λ q r h p k.
      Searches-narrow _ 0 (64 - r) 64 _ (omega arith) (omega arith)
        (λ j a b e.
          kept_bit q r h p k (64 - r - 1) (omega arith)
          ∙ ap (test_bit q) (omega arith)
          ∙ sym (sign_bit q r h p k j a b)
          ∙ e)
        (zero_finds (shift_arithmetic q r) (shift_arithmetic-lt q r h p k));
  keeps = λ q r i h p k j. kept_bit q r h p k i j;
}
