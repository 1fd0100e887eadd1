-- ===== src/Signal/Bits.antt =====
-- Bytes as rows of bits, the lowest first, in the order in which they are sent.
use task_lunev.Base.{
  ℕ, zero, suc, ◌+◌, ◌-◌, ◌*◌, ◌/◌, ◌%◌, ◌^◌, ◌≤◌, ◌<◌, ◌≡◌, arith, refl, ap, ap₂, dec_lt, sym, ◌∙◌,
}
use task_lunev.Base.{List, [], ◌∷◌, ◌++◌, bit_or}
use mathlib.Core.List.{head-eq_of_cons-eq, tail-eq_of_cons-eq}
use task_lunev.Bits.{pow-add}
use task_lunev.Bits.Step.{bit_or_step}
use task_lunev.Memory.{Bytes}
use task_lunev.Signal.{shift_char}

abbrev pub bits : ℕ → ℕ → List ℕ
bits zero x = []
bits (suc n) x = x % 2 ∷ bits n (x / 2)

-- The bits of the bytes one after the other.
abbrev pub stream : Bytes → List ℕ
stream [] = []
stream (x ∷ xs) = bits 8 x ++ stream xs

double : (n k : ℕ) → 2 ^ suc n * k ≡ 2 * (2 ^ n * k)
double n k = grind arith

pub bits_low : (n x k : ℕ) → bits n (x + 2 ^ n * k) ≡ bits n x
bits_low zero x k = refl
bits_low (suc n) x k =
    let e : 2 ^ suc n * k ≡ 2 * (2 ^ n * k) = double n k in
    ap₂ ◌∷◌ (omega (arith, e)) (ap (bits n) (omega (arith, e)) ∙ bits_low n (x / 2) k)

pub bits-shift_char : (n c : ℕ) → n ≤ 7 → bits n (shift_char c) ≡ bits n (c / 2)
unfolding shift_char
bits-shift_char n c h = elim (dec_lt c 128) [
  | yes l ↦ ap (bits n) (ground arith)
  | no l ↦
      let e : 2 ^ n * 2 ^ (7 - n) ≡ 2 ^ 7 =
        sym (pow-add n (7 - n)) ∙ (let t : n + (7 - n) ≡ 7 = omega arith in ap (λ m. 2 ^ m) t) in
      ap (bits n) (ground (arith, e)) ∙ bits_low n (c / 2) (2 ^ (7 - n))
]

-- A bit more, at the top.
pub bits_top : (n x b : ℕ) → x < 2 ^ n → b < 2 → bits (suc n) (x + 2 ^ n * b) ≡ bits n x ++ (b ∷ [])
bits_top zero x b h k = ap (λ m. m ∷ []) (omega arith)
bits_top (suc n) x b h k =
    let e : 2 ^ suc n * b ≡ 2 * (2 ^ n * b) = double n b in
    ap₂ ◌∷◌ (omega (arith, e))
      (ap (bits (suc n)) (omega (arith, e)) ∙ bits_top n (x / 2) b (omega arith) k)

pub bits_injective : (n x y : ℕ) → x < 2 ^ n → y < 2 ^ n → bits n x ≡ bits n y → x ≡ y
bits_injective zero x y h k e = omega arith
bits_injective (suc n) x y h k e =
    let low = head-eq_of_cons-eq e in
    let high =
      bits_injective n (x / 2) (y / 2) (omega arith) (omega arith) (tail-eq_of_cons-eq e) in
    omega (arith, low, high)

pub stream-append : (xs ys : Bytes) → stream (xs ++ ys) ≡ stream xs ++ stream ys
stream-append [] ys = refl
stream-append (x ∷ xs) ys = ap (λ t. bits 8 x ++ t) (stream-append xs ys)

bit_or_zero : (b : ℕ) → b < 2 → bit_or 0 b ≡ b
bit_or_zero zero k = refl
bit_or_zero (suc zero) k = refl
bit_or_zero (suc (suc b)) k = absurd (omega arith)

pub bit_or_top : (n x b : ℕ) → x < 2 ^ n → b < 2 → bit_or x (2 ^ n * b) ≡ x + 2 ^ n * b
bit_or_top zero x b h k =
    let e : x ≡ 0 = omega arith in
    let one : 2 ^ 0 * b ≡ b = omega arith in
    ap₂ bit_or e one ∙ bit_or_zero b k ∙ (let back : b ≡ x + 2 ^ 0 * b = omega (arith, e) in back)
bit_or_top (suc n) x b h k =
    let e : 2 ^ suc n * b ≡ 2 * (2 ^ n * b) = double n b in
    let half : bit_or (x / 2) (2 ^ suc n * b / 2) ≡ x / 2 + 2 ^ n * b =
      ap (bit_or (x / 2)) (omega (arith, e)) ∙ bit_or_top n (x / 2) b (omega arith) k in
    omega (arith, e, half, bit_or_step x (2 ^ suc n * b))
