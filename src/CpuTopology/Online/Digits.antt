-- ===== src/CpuTopology/Online/Digits.antt =====
-- Decimal numbers: what `atoi` reads of them.
use task_lunev.Base.{
  ℕ, zero, suc, ◌+◌, ◌-◌, ◌*◌, ◌/◌, ◌%◌, ◌^◌, ◌<◌, ◌≡◌, arith, refl, ◌∙◌, Bool, true, false,
  if◌then◌else◌, ltb, ◌==◌, lt→ltb, le→ltb_false, dec_lt,
}
use task_lunev.Base.{[], ◌∷◌, ◌++◌, length, length-append, pos}
use task_lunev.Memory.{Bytes, ok}
use task_lunev.CpuTopology.Online.{
  is_digit, is_space, skip_spaces, digits_value, signed_value, atoi, behind_dash,
}

-- The decimal digits of a number with at most as many as `fuel` says, and at least one.
abbrev decimal : ℕ → ℕ → Bytes
decimal zero n = []
decimal (suc fuel) n =
    let front = decimal fuel (n / 10) in
    if ltb n 10 then (n + b'0') ∷ [] else front ++ ((n % 10 + b'0') ∷ [])

-- Only digits.
abbrev pub AllDigits : Bytes → Type 0
AllDigits [] = Unit {0}
AllDigits (b ∷ bs) = (is_digit b ≡ true) × AllDigits bs

-- No digit comes first.
abbrev pub ends_number : Bytes → Bool
ends_number [] = true
ends_number (b ∷ bs) = if is_digit b then false else true

AllDigits-append : (xs ys : Bytes) → AllDigits xs → AllDigits ys → AllDigits (xs ++ ys)
AllDigits-append [] ys h k = k
AllDigits-append (x ∷ xs) ys h k = (h.0, AllDigits-append xs ys h.1 k)

decimal-AllDigits : (fuel n : ℕ) → AllDigits (decimal fuel n)
decimal-AllDigits zero n = tt
decimal-AllDigits (suc fuel) n = elim (dec_lt n 10) [
  | yes l ↦ rw (lt→ltb n 10 l) ((ground arith, tt))
  | no l ↦ rw (le→ltb_false n 10 (omega arith)) (
      AllDigits-append (decimal fuel (n / 10)) _ (decimal-AllDigits fuel (n / 10))
        ((ground arith, tt)))
]

digits_value-append :
    (acc : ℕ) (xs ys : Bytes)
    → AllDigits xs
    → digits_value acc (xs ++ ys) ≡ digits_value (digits_value acc xs) ys
unfolding digits_value
digits_value-append acc [] ys h = refl
digits_value-append acc (x ∷ xs) ys h =
    rw h.0 (digits_value-append (10 * acc + (x - b'0')) xs ys h.1)

digits_value_end : (acc : ℕ) (ys : Bytes) → ends_number ys ≡ true → digits_value acc ys ≡ acc
unfolding digits_value
digits_value_end acc [] h = refl
digits_value_end acc (y ∷ ys) h = ground arith

digit_value : (acc d : ℕ) → d < 10 → digits_value acc ((d + b'0') ∷ []) ≡ 10 * acc + d
unfolding digits_value
digit_value acc d h = ground arith

digits_value-decimal : (fuel n : ℕ) → n < 10 ^ fuel → digits_value 0 (decimal fuel n) ≡ n
digits_value-decimal zero n h = unfold digits_value in (omega arith)
digits_value-decimal (suc fuel) n h = elim (dec_lt n 10) [
  | yes l ↦ rw (lt→ltb n 10 l, digit_value 0 n l) (omega arith)
  | no l ↦
      let p : 10 ^ suc fuel ≡ 10 * 10 ^ fuel = grind arith in
      let front = digits_value-decimal fuel (n / 10) (omega (arith, p)) in
      rw
        (
          le→ltb_false n 10 (omega arith),
          digits_value-append 0 (decimal fuel (n / 10)) ((n % 10 + b'0') ∷ [])
              (decimal-AllDigits fuel (n / 10)),
          front,
          digit_value (n / 10) (n % 10) (omega arith),
        )
        (omega arith)
]

some_digit : (fuel n : ℕ) → 0 < length (decimal (suc fuel) n)
some_digit fuel n = elim (dec_lt n 10) [
  | yes l ↦ rw (lt→ltb n 10 l) (omega arith)
  | no l ↦
      rw (le→ltb_false n 10 (omega arith))
        (omega (arith, length-append (decimal fuel (n / 10)) ((n % 10 + b'0') ∷ [])))
]

pub digit_tests :
    (b : ℕ)
    → is_digit b ≡ true
    → (is_space b ≡ false) × ((b == b'-') ≡ false) × ((b == b'+') ≡ false) × ((b == b',') ≡ false)
digit_tests b h = (ground arith, ground arith, ground arith, ground arith)

no_sign :
    (xs ys : Bytes)
    → AllDigits xs
    → 0 < length xs
    → signed_value (skip_spaces (xs ++ ys)) ≡ pos (digits_value 0 (xs ++ ys))
unfolding signed_value skip_spaces
no_sign [] ys h k = absurd (omega arith)
no_sign (b ∷ bs) ys h k = let t = digit_tests b h.0 in rw (t.0, t.1, t.2, h.0)

atoi-decimal :
    (fuel n : ℕ) (ys : Bytes)
    → n < 10 ^ suc fuel
    → n < 2 ^ 31
    → ends_number ys ≡ true
    → atoi (decimal (suc fuel) n ++ ys) ≡ ok (pos n)
unfolding atoi
atoi-decimal fuel n ys h small e =
    let xs = decimal (suc fuel) n in
    let value =
      digits_value-append 0 xs ys (decimal-AllDigits (suc fuel) n)
      ∙ digits_value_end (digits_value 0 xs) ys e
      ∙ digits_value-decimal (suc fuel) n h in
    rw (
      no_sign xs ys (decimal-AllDigits (suc fuel) n) (some_digit fuel n),
      value,
      lt→ltb n (2 ^ 31) small,
    )

pub behind_dash_none : (xs ys : Bytes) → AllDigits xs → behind_dash (xs ++ ys) ≡ behind_dash ys
unfolding behind_dash
behind_dash_none [] ys h = refl
behind_dash_none (b ∷ bs) ys h = rw (behind_dash_none bs ys h.1, (digit_tests b h.0).1)

-- An id as the kernel prints it, of at most 9 digits.
pub shown : ℕ → Bytes
shown n = decimal 9 n

pub shown-AllDigits : (n : ℕ) → AllDigits (shown n)
unfolding shown
shown-AllDigits n = decimal-AllDigits 9 n

pub atoi-shown :
    (n : ℕ) (ys : Bytes) → n < 10 ^ 9 → ends_number ys ≡ true → atoi (shown n ++ ys) ≡ ok (pos n)
unfolding shown
atoi-shown n ys h e = atoi-decimal 8 n ys h (omega arith) e

pub shown_some : (n : ℕ) → 0 < length (shown n)
unfolding shown
shown_some n = some_digit 8 n
