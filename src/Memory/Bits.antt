-- ===== src/Memory/Bits.antt =====
-- Memory as a row of bits, and what each access does to it.
use task_lunev.Base.{ℕ, zero, suc, ◌+◌, ◌*◌, ◌/◌, ◌%◌, ◌^◌, ◌-◌, ◌≤◌, ◌<◌, ◌≡◌, refl, arith}
use task_lunev.Base.{[], ◌∷◌, length, set, ap, ◌∙◌, ◌≢◌}
use mathlib.Core.Path.{subst₂}
use task_lunev.Base.{list_ext, length-set, get_or-set_self, get_or-set_ne, dec_lt, ◌⊎◌, inl}
use task_lunev.Bits.{
  test_bit, test_bit_low, test_bit_high, test_bit-shr, test_bit-mod, test_bit-lt, pow-add,
  eq_of_bits,
}
use task_lunev.Memory.{Bytes, byte, load_from, store_from, fill_from}

-- Bit `p`, counted from the lowest bit of byte 0.
unfoldable pub bit_at : Bytes → ℕ → ℕ
bit_at mem p = test_bit (byte mem (p / 8)) (p % 8)

-- Every element is a byte.
abbrev pub IsBytes : Bytes → Type 0
IsBytes mem = (i : ℕ) → byte mem i < 256

pub IsBytes-set : (mem : Bytes) (a v : ℕ) → IsBytes mem → v < 256 → IsBytes (set mem a v)
IsBytes-set [] a v h hv i = h i
IsBytes-set (x ∷ mem) zero v h hv zero = hv
IsBytes-set (x ∷ mem) zero v h hv (suc i) = h (suc i)
IsBytes-set (x ∷ mem) (suc a) v h hv zero = h 0
IsBytes-set (x ∷ mem) (suc a) v h hv (suc i) = IsBytes-set mem a v (λ j. h (suc j)) hv i

pub length-store_from : (n : ℕ) (mem : Bytes) (a v : ℕ) → length (store_from n mem a v) ≡ length mem
unfolding store_from
length-store_from zero mem a v = refl
length-store_from (suc n) mem a v =
    length-store_from n (set mem a (v % 2 ^ 8)) (a + 1) (v / 2 ^ 8) ∙ length-set mem a (v % 2 ^ 8)

pub IsBytes-store_from :
    (n : ℕ) (mem : Bytes) (a v : ℕ) → IsBytes mem → IsBytes (store_from n mem a v)
unfolding store_from
IsBytes-store_from zero mem a v h = h
IsBytes-store_from (suc n) mem a v h =
    IsBytes-store_from n (set mem a (v % 2 ^ 8)) (a + 1) (v / 2 ^ 8)
      (IsBytes-set mem a (v % 2 ^ 8) h (omega arith))

-- Bit `i` of a loaded word is the bit of memory `i` places on.
pub test_bit-load_from :
    (n : ℕ) (mem : Bytes) (a i : ℕ)
    → IsBytes mem
    → i < 8 * n
    → test_bit (load_from n mem a) i ≡ bit_at mem (8 * a + i)
unfolding load_from bit_at
test_bit-load_from zero mem a i h p = absurd (omega arith)
test_bit-load_from (suc n) mem a i h p = elim (dec_lt i 8) [
  | yes q ↦
      let d : (8 * a + i) / 8 ≡ a = omega arith in
      let m : (8 * a + i) % 8 ≡ i = omega arith in
      rw (d, m) (test_bit_low 8 (load_from n mem (a + 1)) (byte mem a) i q)
  | no q ↦
      let e : i ≡ 8 + (i - 8) = omega arith in
      let f : 8 * (a + 1) + (i - 8) ≡ 8 * a + i = omega arith in
      ap (test_bit (byte mem a + 2 ^ 8 * load_from n mem (a + 1))) e
      ∙ test_bit_high 8 (load_from n mem (a + 1)) (byte mem a) (i - 8) (h a)
      ∙ test_bit-load_from n mem (a + 1) (i - 8) h (omega arith)
      ∙ ap (bit_at mem) f
]

bit_at-set_ne : (mem : Bytes) (a v p : ℕ) → a ≢ p / 8 → bit_at (set mem a v) p ≡ bit_at mem p
unfolding bit_at
bit_at-set_ne mem a v p ne = ap (λ t. test_bit t (p % 8)) (get_or-set_ne mem a (p / 8) v 0 ne)

bit_at-set :
    (mem : Bytes) (a v p : ℕ)
    → a ≡ p / 8
    → a < length mem
    → bit_at (set mem a v) p ≡ test_bit v (p % 8)
unfolding bit_at
bit_at-set mem a v p e h = ap (λ t. test_bit t (p % 8)) (rw (← e) (get_or-set_self mem a v 0 h))

-- A store leaves the bits outside its word alone.
pub bit_at-store_from_outside :
    (n : ℕ) (mem : Bytes) (a v p : ℕ)
    → (p < 8 * a) ⊎ (8 * (a + n) ≤ p)
    → bit_at (store_from n mem a v) p ≡ bit_at mem p
unfolding store_from
bit_at-store_from_outside zero mem a v p h = refl
bit_at-store_from_outside (suc n) mem a v p h =
    bit_at-store_from_outside n (set mem a (v % 2 ^ 8)) (a + 1) (v / 2 ^ 8) p (omega arith)
    ∙ bit_at-set_ne mem a (v % 2 ^ 8) p (omega arith)

-- Within the word it writes the bits of the value.
pub bit_at-store_from :
    (n : ℕ) (mem : Bytes) (a v p : ℕ)
    → a + n ≤ length mem
    → 8 * a ≤ p
    → p < 8 * (a + n)
    → bit_at (store_from n mem a v) p ≡ test_bit v (p - 8 * a)
unfolding store_from
bit_at-store_from zero mem a v p h lo hi = absurd (omega arith)
bit_at-store_from (suc n) mem a v p h lo hi = elim (dec_lt p (8 * (a + 1))) [
  | yes first ↦
      let e : p % 8 ≡ p - 8 * a = omega arith in
      bit_at-store_from_outside n (set mem a (v % 2 ^ 8)) (a + 1) (v / 2 ^ 8) p (inl first)
      ∙ bit_at-set mem a (v % 2 ^ 8) p (omega arith) (omega arith)
      ∙ ap (test_bit (v % 2 ^ 8)) e
      ∙ test_bit-mod 8 v (p - 8 * a) (omega arith)
  | no later ↦
      let e : 8 + (p - 8 * (a + 1)) ≡ p - 8 * a = omega arith in
      bit_at-store_from n (set mem a (v % 2 ^ 8)) (a + 1) (v / 2 ^ 8) p
        (omega (arith, length-set mem a (v % 2 ^ 8))) (omega arith) (omega arith)
      ∙ test_bit-shr 8 v (p - 8 * (a + 1))
      ∙ ap (test_bit v) e
]

pub length-fill_from : (n : ℕ) (mem : Bytes) (a v : ℕ) → length (fill_from n mem a v) ≡ length mem
unfolding fill_from
length-fill_from zero mem a v = refl
length-fill_from (suc n) mem a v = length-fill_from n (set mem a v) (a + 1) v ∙ length-set mem a v

pub IsBytes-fill_from :
    (n : ℕ) (mem : Bytes) (a v : ℕ) → IsBytes mem → v < 256 → IsBytes (fill_from n mem a v)
unfolding fill_from
IsBytes-fill_from zero mem a v h hv = h
IsBytes-fill_from (suc n) mem a v h hv =
    IsBytes-fill_from n (set mem a v) (a + 1) v (IsBytes-set mem a v h hv) hv

pub bit_at-fill_from_outside :
    (n : ℕ) (mem : Bytes) (a v p : ℕ)
    → (p < 8 * a) ⊎ (8 * (a + n) ≤ p)
    → bit_at (fill_from n mem a v) p ≡ bit_at mem p
unfolding fill_from
bit_at-fill_from_outside zero mem a v p h = refl
bit_at-fill_from_outside (suc n) mem a v p h =
    bit_at-fill_from_outside n (set mem a v) (a + 1) v p (omega arith)
    ∙ bit_at-set_ne mem a v p (omega arith)

-- `memset` writes the bits of its byte, over and over.
pub bit_at-fill_from :
    (n : ℕ) (mem : Bytes) (a v p : ℕ)
    → a + n ≤ length mem
    → 8 * a ≤ p
    → p < 8 * (a + n)
    → bit_at (fill_from n mem a v) p ≡ test_bit v (p % 8)
unfolding fill_from
bit_at-fill_from zero mem a v p h lo hi = absurd (omega arith)
bit_at-fill_from (suc n) mem a v p h lo hi = elim (dec_lt p (8 * (a + 1))) [
  | yes first ↦
      bit_at-fill_from_outside n (set mem a v) (a + 1) v p (inl first)
      ∙ bit_at-set mem a v p (omega arith) (omega arith)
  | no later ↦
      bit_at-fill_from n (set mem a v) (a + 1) v p (omega (arith, length-set mem a v)) (omega arith)
        (omega arith)
]

pub bit_at-lt : (mem : Bytes) (p : ℕ) → bit_at mem p < 2
unfolding bit_at
bit_at-lt mem p = test_bit-lt (byte mem (p / 8)) (p % 8)

-- A word of `n` bytes is below `2 ^ (8 * n)`.
pub load_from-lt : (n : ℕ) (mem : Bytes) (a : ℕ) → IsBytes mem → load_from n mem a < 2 ^ (8 * n)
unfolding load_from
load_from-lt zero mem a h = omega arith
load_from-lt (suc n) mem a h =
    let e : 8 * suc n ≡ 8 + 8 * n = omega arith in
    rw (e, pow-add 8 (8 * n)) (omega (arith, h a, load_from-lt n mem (a + 1) h))

-- Memory is known by its length and its bits.
pub bytes_ext :
    (xs ys : Bytes)
    → IsBytes xs
    → IsBytes ys
    → length xs ≡ length ys
    → ((p : ℕ) → bit_at xs p ≡ bit_at ys p)
    → xs ≡ ys
unfolding bit_at
bytes_ext xs ys h k e b = list_ext 0 xs ys e (λ i.
    eq_of_bits 8 (byte xs i) (byte ys i) (h i) (k i) (λ j p.
      let d : (8 * i + j) / 8 ≡ i = omega arith in
      let m : (8 * i + j) % 8 ≡ j = omega arith in
      subst₂ (λ u w. test_bit (byte xs u) w ≡ test_bit (byte ys u) w) d m (b (8 * i + j))))

pub bit_at_eq : (mem : Bytes) (p : ℕ) → bit_at mem p ≡ test_bit (byte mem (p / 8)) (p % 8)
unfolding bit_at
bit_at_eq mem p = refl
