-- ===== src/Bits/Step.antt =====
-- The equations of `&` and `|` for the lowest digit. The native operations stand for a recursion
-- on digits whose fuel is the first number.
use Prim.Native.Nat.{digits, bit_and-bitwise, bit_or-bitwise}
use task_lunev.Base.{arith, bit_and, bit_or, min, max, refl, ap, sym, ◌∙◌, ◌≡◌}
use task_lunev.Base.{ℕ, zero, suc, ◌+◌, ◌-◌, ◌*◌, ◌/◌, ◌%◌, ◌≤◌}

module _ (base : ℕ → ℕ) (join : ℕ → ℕ → ℕ) where
  abbrev run : ℕ → ℕ → ℕ → ℕ
  run = digits base join

  -- One more unit of fuel than needed changes nothing.
  spare : (fuel x y : ℕ) → x ≤ fuel → run (suc fuel) x y ≡ run fuel x y
  spare fuel zero y enough = at_zero fuel
    where
      at_zero : (n : ℕ) → run (suc n) 0 y ≡ run n 0 y
      at_zero zero = refl
      at_zero (suc n) = refl
  spare zero (suc x) y enough = elim enough [ ]
  spare (suc fuel) (suc x) y enough =
      ap (λ (t : ℕ). t * 2 + join (suc x % 2) (y % 2))
        (spare fuel (suc x / 2) (y / 2) (omega arith))

  spare_many : (more x y : ℕ) → run (more + x) x y ≡ run x x y
  spare_many zero x y = ap (λ t. run t x y) (omega arith)
  spare_many (suc more) x y =
      let one : suc more + x ≡ suc (more + x) = omega arith in
      ap (λ t. run t x y) one ∙ spare (more + x) x y (omega arith) ∙ spare_many more x y

  last_digit :
      (x y : ℕ)
      → run (suc x) (suc x) y ≡ run (suc x / 2) (suc x / 2) (y / 2) * 2 + join (suc x % 2) (y % 2)
  last_digit x y =
      let fuel : x ≡ x - suc x / 2 + suc x / 2 = omega arith in
      ap (λ (t : ℕ). t * 2 + join (suc x % 2) (y % 2))
        (ap (λ t. run t (suc x / 2) (y / 2)) fuel ∙ spare_many (x - suc x / 2) (suc x / 2) (y / 2))

-- `x | y` by the lowest digits.
pub bit_or_step : (x y : ℕ) → bit_or x y ≡ bit_or (x / 2) (y / 2) * 2 + max (x % 2) (y % 2)
bit_or_step zero y = omega (arith, bit_or-bitwise 0 y, bit_or-bitwise 0 (y / 2))
bit_or_step (suc x) y =
    bit_or-bitwise (suc x) y
    ∙ last_digit (λ t. t) max x y
    ∙ ap (λ (t : ℕ). t * 2 + max (suc x % 2) (y % 2)) (sym (bit_or-bitwise (suc x / 2) (y / 2)))

-- `x & y` by the lowest digits.
pub bit_and_step : (x y : ℕ) → bit_and x y ≡ bit_and (x / 2) (y / 2) * 2 + min (x % 2) (y % 2)
bit_and_step zero y = omega (arith, bit_and-bitwise 0 y, bit_and-bitwise 0 (y / 2))
bit_and_step (suc x) y =
    bit_and-bitwise (suc x) y
    ∙ last_digit (λ t. 0) min x y
    ∙ ap (λ (t : ℕ). t * 2 + min (suc x % 2) (y % 2)) (sym (bit_and-bitwise (suc x / 2) (y / 2)))
