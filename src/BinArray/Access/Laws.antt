-- ===== src/BinArray/Access/Laws.antt =====
-- What the getters and setters do to the bits of the array.
use task_lunev.Base.{ℕ, ◌+◌, ◌-◌, ◌*◌, ◌/◌, ◌%◌, ◌^◌, ◌<◌, ◌≡◌, arith, if◌then◌else◌}
use task_lunev.Base.{Bool, true, false, not, ◌==◌, length, bit_or, bit_and, refl, ap, ◌∙◌}
use task_lunev.Base.{Option, suc, zero, some, le→ltb_false, lt→ltb}
use task_lunev.Bits.{
  test_bit, test_bit-or, test_bit-and, test_bit-not, test_bit-lt, test_bit_single, bit_and-single,
  pow-pos, pow-lt,
}
use task_lunev.Memory.{Bytes, ok, fail, fault, ◌>>=◌, load_from, not8, Errno}
use task_lunev.Memory.Bits.{bit_at, IsBytes, test_bit-load_from}
use task_lunev.Memory.Words.{Rewrites, Rewrites-ext, load-ok, load-fault, store-Rewrites}
use task_lunev.BinArray.{
  BinArray, array, check_ptr, size_in_8byte_bounds, size_in_8byte_exact, IsValid,
}
use task_lunev.BinArray.Check.{Becomes, Rewrites-Becomes}
use task_lunev.BinArray.Access.{
  mask_bit, get_bit_from_byte, raw_get_value, raw_set_one, raw_set_zero, raw_set_value, get_value,
  set_one, set_zero, set_value,
}

-- A bit as the C `bool` that it reads as.
abbrev pub is_one : ℕ → Bool
is_one b = b == 1

mask_bit-eq : (j : ℕ) → j < 8 → mask_bit j ≡ 2 ^ j
unfolding mask_bit
mask_bit-eq j h = omega (arith, pow-lt j 8 h)

mask_bit-lt : (j : ℕ) → mask_bit j < 2 ^ 8
unfolding mask_bit
mask_bit-lt j = omega arith

mask_bit_bits : (j i : ℕ) → j < 8 → test_bit (mask_bit j) i ≡ (if i == j then 1 else 0)
mask_bit_bits j i h = rw (mask_bit-eq j h) (test_bit_single j i)

nonzero : (b t : ℕ) → b < 2 → 0 < t → not (b * t == 0) ≡ is_one b
nonzero zero t h k = ground arith
nonzero (suc zero) t h k = ground arith
nonzero (suc (suc b)) t h k = absurd (omega arith)

get_bit : (x j : ℕ) → j < 8 → get_bit_from_byte x j ≡ is_one (test_bit x j)
unfolding get_bit_from_byte
get_bit x j h =
    rw (mask_bit-eq j h, bit_and-single j x)
      (nonzero (test_bit x j) (2 ^ j) (test_bit-lt x j) (pow-pos j))

module _ (buf : Bytes) (h : IsBytes buf) (i : ℕ) (inside : i < 8 * length buf) where
  bit_of_load : (p : ℕ) → p / 8 ≡ i / 8 → test_bit (load_from 1 buf (i / 8)) (p % 8) ≡ bit_at buf p
  bit_of_load p e =
      let j : 8 * (i / 8) + p % 8 ≡ p = omega arith in
      test_bit-load_from 1 buf (i / 8) (p % 8) h (omega arith) ∙ ap (bit_at buf) j

  pub raw_get_value_lem : raw_get_value buf i ≡ ok (is_one (bit_at buf i))
  unfolding raw_get_value
  raw_get_value_lem = rw (load-ok 1 buf (i / 8) (omega arith)) (
      ap ok
        (get_bit (load_from 1 buf (i / 8)) (i % 8) (omega arith) ∙ ap is_one (bit_of_load i refl)))

  raw_set_one-Rewrites : Rewrites buf (λ p. if p == i then 1 else bit_at buf p) (raw_set_one buf i)
  unfolding raw_set_one
  raw_set_one-Rewrites =
      let x = load_from 1 buf (i / 8) in
      let m = mask_bit (i % 8) in
      rw (load-ok 1 buf (i / 8) (omega arith)) (
        Rewrites-ext _
          (λ p. ground (
            arith,
            test_bit-or x m (p - 8 * (i / 8)),
            mask_bit_bits (i % 8) (p - 8 * (i / 8)),
            test_bit-lt x (p - 8 * (i / 8)),
            test_bit-load_from 1 buf (i / 8) (p - 8 * (i / 8)) h,
          ))
          (store-Rewrites 1 buf (i / 8) (bit_or x m) h (omega arith)))

  raw_set_zero-Rewrites :
      Rewrites buf (λ p. if p == i then 0 else bit_at buf p) (raw_set_zero buf i)
  unfolding raw_set_zero
  raw_set_zero-Rewrites =
      let x = load_from 1 buf (i / 8) in
      let m = mask_bit (i % 8) in
      rw (load-ok 1 buf (i / 8) (omega arith)) (
        Rewrites-ext _
          (λ p. ground (
            arith,
            test_bit-and x (not8 m) (p - 8 * (i / 8)),
            test_bit-not 8 m (p - 8 * (i / 8)) (mask_bit-lt (i % 8)),
            mask_bit_bits (i % 8) (p - 8 * (i / 8)),
            test_bit-lt x (p - 8 * (i / 8)),
            test_bit-load_from 1 buf (i / 8) (p - 8 * (i / 8)) h,
          ))
          (store-Rewrites 1 buf (i / 8) (bit_and x (not8 m)) h (omega arith)))

  raw_set_value-Rewrites :
      (val : Bool)
      → Rewrites buf
          (λ p. if p == i then (if val then 1 else 0) else bit_at buf p)
          (raw_set_value buf i val)
  unfolding raw_set_value
  raw_set_value-Rewrites true = raw_set_one-Rewrites
  raw_set_value-Rewrites false = raw_set_zero-Rewrites

pub room : {buf : Bytes} {n : ℕ} → IsValid buf n → (i : ℕ) → i < n → i < 8 * length buf
room {n = n} v i h = omega (arith, v.whole, size_in_8byte_bounds n)

-- On a valid array baGetValue at an index of it returns the bit there.
pub get_value_lem :
    {buf : Bytes} {n : ℕ}
    → IsValid buf n
    → (i : ℕ) → i < n
    → get_value (some (array buf n)) i ≡ ok (is_one (bit_at buf i))
unfolding get_value check_ptr
get_value_lem {buf} {n} v i h =
    rw (le→ltb_false n i (omega arith)) (raw_get_value_lem buf v.bytes i (room v i h))

module _ {buf : Bytes} {n : ℕ} (v : IsValid buf n) where
  -- On a valid array baSetValue at an index of it returns normally, makes that bit the value, and
  -- keeps every other bit and the invariant.
  pub set_value-Becomes :
      (i : ℕ) (val : Bool)
      → i < n
      → Becomes n
          (λ p. if p == i then (if val then 1 else 0) else bit_at buf p)
          (set_value (some (array buf n)) i val)
  unfolding set_value check_ptr
  set_value-Becomes i val h =
      let w = raw_set_value-Rewrites buf v.bytes i (room v i h) val in
      Rewrites-Becomes v _ w (rw (le→ltb_false n i (omega arith), w.returns))

  -- On a valid array, after baSetValue at one index of it baGetValue at that index returns the
  -- value written, and at any other index of it what it returned before.
  pub get_value-set_value :
      (i j : ℕ) (val : Bool)
      → i < n
      → j < n
      → (set_value (some (array buf n)) i val >>= λ arr. get_value (some arr) j)
        ≡ (if j == i then ok val else get_value (some (array buf n)) j)
  get_value-set_value i j val h k =
      let w = set_value-Becomes i val h in
      rw (w.returns, get_value_lem w.valid j k, get_value_lem v j k) (ground (arith, w.bits j))

-- `baSetOne` and `baSetZero` are `baSetValue` at the two values, for every array and index.
pub set_value_cases :
    (arr : Option BinArray) (i : ℕ)
    → (set_value arr i true ≡ set_one arr i) × (set_value arr i false ≡ set_zero arr i)
unfolding set_one set_zero set_value raw_set_value
set_value_cases arr i = (refl, refl)

-- On a live array baGetValue and baSetValue refuse every index above the size with E2BIG.
pub access_outside :
    (buf : Bytes) (n i : ℕ) (val : Bool)
    → n < i
    → (get_value (some (array buf n)) i ≡ fail Errno.e2big)
      × (set_value (some (array buf n)) i val ≡ fail Errno.e2big)
unfolding get_value set_value check_ptr
access_outside buf n i val h = (rw (lt→ltb n i h), rw (lt→ltb n i h))

-- On a valid array whose size is a multiple of 64, baGetValue and baSetValue accept the index that
-- equals the size and access memory outside the allocation.
pub access_at_size :
    {buf : Bytes} {n : ℕ} (val : Bool)
    → IsValid buf n
    → n % 64 ≡ 0
    → (get_value (some (array buf n)) n ≡ fault) × (set_value (some (array buf n)) n val ≡ fault)
unfolding get_value set_value check_ptr raw_get_value raw_set_value raw_set_one raw_set_zero
access_at_size {buf} {n} val v full =
    let e = le→ltb_false n n (omega arith) in
    let f = load-fault 1 buf (n / 8) (omega (arith, v.whole, size_in_8byte_exact n full)) in
    (rw (e, f), ground (arith, e, f))
