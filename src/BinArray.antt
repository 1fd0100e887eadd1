-- ===== src/BinArray.antt =====
-- BinArray/BinArray.c: the structure, the sizes, and the checks of the arguments.
mod Tests
pub mod Check
pub mod Mask
pub mod Access
pub mod Create
pub mod Find
pub mod Invert
pub mod Fill
pub mod Wrapper
pub mod Visit
pub mod Complement
pub mod SubArray
use task_lunev.Base.{ℕ, zero, suc, ◌+◌, ◌-◌, ◌*◌, ◌/◌, ◌%◌, ◌^◌, ◌≤◌, ◌<◌, ◌≡◌, Bool, true, false}
use task_lunev.Base.{
  Option, none, some, if◌then◌else◌, ltb, leb, ◌==◌, ℤ, pos, negsuc, length, List,
}
use task_lunev.Memory.{Bytes, Reply, ok, fail, fault, Errno, unset, ◌>>=◌}
use task_lunev.Memory.Bits.{IsBytes}
use task_lunev.Base.{arith}

-- `struct bin_array`; `none` is a null pointer.
pub record BinArray : Type 0 where
  pub buf_ : Option Bytes
  pub num_bits_ : ℕ

-- A structure whose buffer is allocated.
abbrev pub array : Bytes → ℕ → BinArray
array buf num_bits = record { buf_ = some buf; num_bits_ = num_bits }

-- `baGetSizeArrayIn8Byte`, `baBits2Bytes`
unfoldable pub size_in_8byte : ℕ → ℕ
size_in_8byte num_bits = num_bits / 64 + (if num_bits % 64 == 0 then 0 else 1)

unfoldable pub bits2bytes : ℕ → ℕ
bits2bytes num_bits = num_bits / 8 + (if num_bits % 8 == 0 then 0 else 1)

-- `baCheckPtr` with the two loads that it guards: the buffer and the number of bits, or the error
-- that the caller reports.
unfoldable pub check_ptr : Option BinArray → Errno → Reply (Bytes × ℕ)
check_ptr none e = fail e
check_ptr (some arr) e = elim arr.buf_ [ none ↦ fail e | some buf ↦ ok (buf, arr.num_bits_) ]

-- `baGetNumBits` does not check the pointer.
unfoldable pub get_num_bits : Option BinArray → Reply ℕ
get_num_bits arr = elim arr [ none ↦ fault | some a ↦ ok a.num_bits_ ]

-- The part of `baCheckCalcArg` behind the check of the pointer: the length to use. The sums are
-- those of `size_t`.
unfoldable pub calc_len : ℕ → ℕ → ℤ → Option ℕ
calc_len num_bits begin (pos len) =
    if ltb ((begin + len) % 2 ^ 64) ((num_bits + 1) % 2 ^ 64) then some len else none
calc_len num_bits begin (negsuc zero) = if ltb begin num_bits then some (num_bits - begin) else none
calc_len num_bits begin (negsuc (suc _)) = none

-- What the callers of `baCheckCalcArg` go on with.
pub record Arg : Type 0 where
  pub buf : Bytes
  pub num_bits : ℕ
  pub len : ℕ

unfoldable pub check_calc_arg : Option BinArray → ℕ → ℤ → Reply Arg
unfolding check_ptr calc_len
check_calc_arg arr begin len = do
  (buf, num_bits) ← check_ptr arr unset
  elim (calc_len num_bits begin len) [
    | none ↦ fail unset
    | some l ↦ ok (record { buf = buf; num_bits = num_bits; len = l })
  ]

-- The invariant of a live array: whole quadwords of bytes, at least one bit, and a size that
-- `ssize_t` can count.
pub record IsValid (buf : Bytes) (num_bits : ℕ) : Type 0 where
  pub whole : length buf ≡ 8 * size_in_8byte num_bits
  pub bytes : IsBytes buf
  pub positive : 0 < num_bits
  pub countable : num_bits < 2 ^ 63

pub size_in_8byte_bounds : (n : ℕ) → (n ≤ 64 * size_in_8byte n) × (64 * size_in_8byte n < n + 64)
unfolding size_in_8byte
size_in_8byte_bounds n = ground arith

pub size_in_8byte_exact : (n : ℕ) → n % 64 ≡ 0 → 64 * size_in_8byte n ≡ n
unfolding size_in_8byte
size_in_8byte_exact n h = ground arith

-- Sizes add up behind a quadword boundary.
pub size_in_8byte_add : (k n : ℕ) → size_in_8byte (64 * k + n) ≡ k + size_in_8byte n
unfolding size_in_8byte
size_in_8byte_add k n = ground arith

pub size_in_8byte_mono : (m n : ℕ) → m ≤ n → size_in_8byte m ≤ size_in_8byte n
size_in_8byte_mono m n h = omega (arith, size_in_8byte_bounds m, size_in_8byte_bounds n)
