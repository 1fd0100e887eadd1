-- ===== src/Bits.antt =====
-- Single bits of a number, and how each C operation on words acts on them.
pub mod Step
use Step.{bit_or_step, bit_and_step}
use native.Mathlib.Nat.{add-zero, pow-zero, pow-suc, pow-succ', div-add-mod, mod-lt, mul_comm}
use task_lunev.Base.{ℕ, zero, suc, ◌+◌, ◌-◌, ◌*◌, ◌/◌, ◌%◌, ◌^◌, ◌≤◌, ◌<◌, min, max}
use mathlib.Core.WellFounded
use Prim.Native.Nat.{bit_and-bitwise}
use task_lunev.Base.{
  ℕ_discrete, if◌then◌else◌, ◌==◌, lt_wf, bit_and, bit_or, ◌≡◌, refl, sym, ◌∙◌, ap, ap₂, arith,
}

-- Bit `i` of `x`, 0 or 1.
unfoldable pub test_bit : ℕ → ℕ → ℕ
test_bit x zero = x % 2
test_bit x (suc i) = test_bit (x / 2) i

pub test_bit-lt : (x i : ℕ) → test_bit x i < 2
unfolding test_bit
test_bit-lt x zero = omega arith
test_bit-lt x (suc i) = test_bit-lt (x / 2) i

pub test_bit-or : (a b i : ℕ) → test_bit (bit_or a b) i ≡ max (test_bit a i) (test_bit b i)
unfolding test_bit
test_bit-or a b zero = omega (arith, bit_or_step a b)
test_bit-or a b (suc i) =
    let e : bit_or a b / 2 ≡ bit_or (a / 2) (b / 2) = omega (arith, bit_or_step a b) in
    rw e (test_bit-or (a / 2) (b / 2) i)

pub test_bit-and : (a b i : ℕ) → test_bit (bit_and a b) i ≡ min (test_bit a i) (test_bit b i)
unfolding test_bit
test_bit-and a b zero = omega (arith, bit_and_step a b)
test_bit-and a b (suc i) =
    let e : bit_and a b / 2 ≡ bit_and (a / 2) (b / 2) = omega (arith, bit_and_step a b) in
    rw e (test_bit-and (a / 2) (b / 2) i)

pub test_bit-zero : (i : ℕ) → test_bit 0 i ≡ 0
unfolding test_bit
test_bit-zero zero = refl
test_bit-zero (suc i) = test_bit-zero i

-- A low field `r` of `k` bits and a number `q` above it.
half_fields :
    (k q r : ℕ) → ((r + 2 ^ suc k * q) / 2 ≡ r / 2 + 2 ^ k * q) × ((r + 2 ^ suc k * q) % 2 ≡ r % 2)
half_fields k q r =
    let e : 2 ^ suc k * q ≡ 2 * (2 ^ k * q) =
      omega (arith, ap (λ (t : ℕ). t * q) (pow-succ' 2 k)) in
    omega arith

half-lt : (k r : ℕ) → r < 2 ^ suc k → r / 2 < 2 ^ k
half-lt k r h = omega (arith, pow-succ' 2 k)

pub test_bit_low : (k q r i : ℕ) → i < k → test_bit (r + 2 ^ k * q) i ≡ test_bit r i
unfolding test_bit
test_bit_low zero q r i h = absurd (omega arith)
test_bit_low (suc k) q r zero h = (half_fields k q r).1
test_bit_low (suc k) q r (suc i) h =
    rw ((half_fields k q r).0) (test_bit_low k q (r / 2) i (omega arith))

pub test_bit_high : (k q r i : ℕ) → r < 2 ^ k → test_bit (r + 2 ^ k * q) (k + i) ≡ test_bit q i
unfolding test_bit
test_bit_high zero q r i h =
    let e : r + 2 ^ 0 * q ≡ q = omega arith in let j : 0 + i ≡ i = omega arith in rw (e, j)
test_bit_high (suc k) q r i h =
    let e : suc k + i ≡ suc (k + i) = omega arith in
    ap (test_bit (r + 2 ^ suc k * q)) e
    ∙ ap (λ t. test_bit t (k + i)) (half_fields k q r).0
    ∙ test_bit_high k q (r / 2) i (half-lt k r h)

pub pow-pos : (k : ℕ) → 0 < 2 ^ k
pow-pos zero = omega arith
pow-pos (suc k) = omega (arith, pow-suc 2 k, pow-pos k)

parts : (k x : ℕ) → x % 2 ^ k + 2 ^ k * (x / 2 ^ k) ≡ x
parts k x = omega (arith, div-add-mod x (2 ^ k))

mod-lt-pow : (k x : ℕ) → x % 2 ^ k < 2 ^ k
mod-lt-pow k x = mod-lt x (pow-pos k)

-- `x >> k`
pub test_bit-shr : (k x i : ℕ) → test_bit (x / 2 ^ k) i ≡ test_bit x (k + i)
test_bit-shr k x i =
    sym (test_bit_high k (x / 2 ^ k) (x % 2 ^ k) i (mod-lt-pow k x))
    ∙ ap (λ t. test_bit t (k + i)) (parts k x)

-- A cast to `k` bits keeps the bits below `k`.
pub test_bit-mod : (k x i : ℕ) → i < k → test_bit (x % 2 ^ k) i ≡ test_bit x i
test_bit-mod k x i h =
    sym (test_bit_low k (x / 2 ^ k) (x % 2 ^ k) i h) ∙ ap (λ t. test_bit t i) (parts k x)

-- A number of `k` bits has none from `k` on.
pub test_bit_beyond : (k x i : ℕ) → x < 2 ^ k → k ≤ i → test_bit x i ≡ 0
test_bit_beyond k x i h le =
    let e : x ≡ x + 2 ^ k * 0 = omega arith in
    let j : i ≡ k + (i - k) = omega arith in
    ap₂ test_bit e j ∙ test_bit_high k 0 x (i - k) h ∙ test_bit-zero (i - k)

-- `x << k`
pub test_bit-shl_below : (k x i : ℕ) → i < k → test_bit (x * 2 ^ k) i ≡ 0
test_bit-shl_below k x i h =
    ap (λ t. test_bit t i) (omega (arith, mul_comm x (2 ^ k)))
    ∙ test_bit_low k x 0 i h
    ∙ test_bit-zero i

pub test_bit-shl : (k x i : ℕ) → k ≤ i → test_bit (x * 2 ^ k) i ≡ test_bit x (i - k)
test_bit-shl k x i h =
    let e : x * 2 ^ k ≡ 0 + 2 ^ k * x = omega (arith, mul_comm x (2 ^ k)) in
    let j : i ≡ k + (i - k) = omega arith in
    ap₂ test_bit e j ∙ test_bit_high k x 0 (i - k) (pow-pos k)

-- A run of `k` ones.
pub test_bit_ones : (k i : ℕ) → i < k → test_bit (2 ^ k - 1) i ≡ 1
unfolding test_bit
test_bit_ones zero i h = absurd (omega arith)
test_bit_ones (suc k) zero h = omega (arith, pow-succ' 2 k, pow-pos k)
test_bit_ones (suc k) (suc i) h =
    let e : (2 ^ suc k - 1) / 2 ≡ 2 ^ k - 1 = omega (arith, pow-succ' 2 k, pow-pos k) in
    rw e (test_bit_ones k i (omega arith))

-- `~x` at `k` bits is `2 ^ k - 1 - x`.
pub test_bit-not : (k x i : ℕ) → x < 2 ^ k → i < k → test_bit (2 ^ k - 1 - x) i ≡ 1 - test_bit x i
unfolding test_bit
test_bit-not zero x i h p = absurd (omega arith)
test_bit-not (suc k) x zero h p = omega (arith, pow-succ' 2 k, pow-pos k)
test_bit-not (suc k) x (suc i) h p =
    let e : (2 ^ suc k - 1 - x) / 2 ≡ 2 ^ k - 1 - x / 2 = omega (arith, pow-succ' 2 k, pow-pos k) in
    rw e (test_bit-not k (x / 2) i (half-lt k x h) (omega arith))

bit_and-zero : (a : ℕ) → bit_and a 0 ≡ 0
bit_and-zero a =
    WellFounded.induction lt_wf {C = λ k. bit_and k 0 ≡ 0} a
      λ k ih. ground (arith, bit_and_step k 0, ih (k / 2))

-- `x & (1 << k)`
pub bit_and-single : (k x : ℕ) → bit_and x (2 ^ k) ≡ test_bit x k * 2 ^ k
unfolding test_bit
bit_and-single zero x = omega (arith, bit_and_step x 1, bit_and-zero (x / 2))
bit_and-single (suc k) x = omega (
  arith,
  bit_and_step x (2 ^ suc k),
  ap (λ (t : ℕ). bit_and (x / 2) t) half,
  bit_and-single k (x / 2),
  ap (λ (t : ℕ). test_bit (x / 2) k * t) (pow-succ' 2 k),
  pow-succ' 2 k,
)
  where
    half : 2 ^ suc k / 2 ≡ 2 ^ k
    half = omega (arith, pow-succ' 2 k)

-- `1 << k` has bit `k` alone.
pub test_bit_single : (k i : ℕ) → test_bit (2 ^ k) i ≡ (if i == k then 1 else 0)
unfolding test_bit
test_bit_single zero zero = refl
test_bit_single zero (suc i) = ground (arith, test_bit-zero i)
test_bit_single (suc k) zero = ground (arith, pow-succ' 2 k)
test_bit_single (suc k) (suc i) =
    let half : 2 ^ suc k / 2 ≡ 2 ^ k = omega (arith, pow-succ' 2 k) in
    rw half (ground (arith, test_bit_single k i))

pub pow-lt : (k n : ℕ) → k < n → 2 ^ k < 2 ^ n
pow-lt k zero h = elim h [ ]
pow-lt zero (suc n) h = omega (arith, pow-succ' 2 n, pow-pos n)
pow-lt (suc k) (suc n) h = omega (arith, pow-succ' 2 n, pow-succ' 2 k, pow-lt k n)

pub pow-add : (a b : ℕ) → 2 ^ (a + b) ≡ 2 ^ a * 2 ^ b
pow-add a zero = rw (add-zero a) (omega (arith, pow-zero 2))
pow-add a (suc b) =
    let e : a + suc b ≡ suc (a + b) = omega arith in
    rw (e, pow-suc 2 (a + b), pow-suc 2 b, pow-add a b) (omega arith)

-- A number of `n` bits, all of them 0, is 0.
pub zero_of_bits : (n x : ℕ) → x < 2 ^ n → ((i : ℕ) → i < n → test_bit x i ≡ 0) → x ≡ 0
unfolding test_bit
zero_of_bits zero x h b = omega arith
zero_of_bits (suc n) x h b = omega (
  arith,
  b 0 (omega arith),
  zero_of_bits n (x / 2) (half-lt n x h) (λ i p. b (suc i) (omega arith)),
)

pub bit_and-le : (a b : ℕ) → bit_and a b ≤ a
bit_and-le a b =
    WellFounded.induction lt_wf {C = λ k. (b : ℕ) → bit_and k b ≤ k} a
      (λ k ih b. below (ℕ_discrete k 0) b ih) b
  where
    below :
        {k : ℕ}
        → Dec (k ≡ 0)
        → (b : ℕ) → ((m : ℕ) → m < k → (b : ℕ) → bit_and m b ≤ m)
        → bit_and k b ≤ k
    below {k} (yes z) b ih = rw z (omega (arith, bit_and-bitwise 0 b))
    below {k} (no p) b ih = omega (arith, bit_and_step k b, ih (k / 2) (omega arith) (b / 2))

-- A number of `n` bits is known by its bits.
pub eq_of_bits :
    (n x y : ℕ) → x < 2 ^ n → y < 2 ^ n → ((i : ℕ) → i < n → test_bit x i ≡ test_bit y i) → x ≡ y
unfolding test_bit
eq_of_bits zero x y h k b = omega arith
eq_of_bits (suc n) x y h k b = omega (
  arith,
  b 0 (omega arith),
  eq_of_bits n (x / 2) (y / 2) (half-lt n x h) (half-lt n y k) (λ i p. b (suc i) (omega arith)),
)
