-- ===== src/BinArray/Create.antt =====
-- `baCreate`, `baResize`, `baDestroy`, `baGetClone`, and the allocators below them.
pub mod Laws
pub mod Resize
use task_lunev.Base.{
  ℕ, zero, suc, ◌+◌, ◌-◌, ◌*◌, ◌^◌, ◌<◌, Bool, true, false, if◌then◌else◌, leb, ltb, ◌==◌,
}
use task_lunev.Base.{Option, none, some, List, [], ◌∷◌, ◌++◌, take, drop, length, replicate}
use task_lunev.Memory.{Bytes, Reply, ok, fail, fault, Errno, unset, ◌>>=◌}
use task_lunev.BinArray.{BinArray, array, check_ptr, size_in_8byte, bits2bytes}

-- The allocator of the C library: which sizes it grants, and the bytes that a grown block shows
-- behind its old end.
pub record Allocator : Type 0 where
  pub grants : ℕ → Bool
  pub stale : ℕ → ℕ
  pub stale-lt : (i : ℕ) → stale i < 256

-- `KILL_ALLOCATOR`
abbrev pub kill_allocator : ℕ
kill_allocator = 165641546145144896

-- `sizeof (BinArray)`, a pointer and a `size_t`.
abbrev pub sizeof_bin_array : ℕ
sizeof_bin_array = 16

-- `arr->buf_` and `arr->num_bits_`, used without a check.
unfoldable pub members : BinArray → Reply (Bytes × ℕ)
members arr = elim arr.buf_ [ none ↦ fault | some buf ↦ ok (buf, arr.num_bits_) ]

-- The stale bytes from index `i` on.
abbrev pub stale_from : (ℕ → ℕ) → ℕ → ℕ → Bytes
stale_from stale i zero = []
stale_from stale i (suc n) = stale i ∷ stale_from stale (i + 1) n

module _ (m : Allocator) where
  -- `calloc`: zeroed memory, or a null pointer.
  abbrev pub calloc : ℕ → ℕ → Option Bytes
  calloc nmemb size = if m.grants (nmemb * size) then some (replicate (nmemb * size) 0) else none

  -- `realloc`: the old bytes as far as they fit, and stale ones behind.
  abbrev pub realloc : Bytes → ℕ → Option Bytes
  realloc old n =
      if m.grants n
      then some (take n (old ++ stale_from m.stale (length old) (n - length old)))
      else none

  unfoldable pub ba_calloc : ℕ → ℕ → Option Bytes
  ba_calloc nmemb size = if size == bits2bytes kill_allocator then none else calloc nmemb size

  unfoldable pub ba_reallocarray : Bytes → ℕ → ℕ → Option Bytes
  ba_reallocarray ptr nmemb size =
      if size == bits2bytes kill_allocator then none else realloc ptr (nmemb * size)

  -- The structure is allocated first; where the buffer is not granted it is freed again.
  unfoldable pub create : ℕ → Reply BinArray
  create num_bits =
      if num_bits == 0 then fail Errno.einval else elim (ba_calloc 1 sizeof_bin_array) [
        | none ↦ fail unset
        | some _ ↦ elim (ba_calloc 1 (8 * size_in_8byte num_bits)) [
          | none ↦ fail unset
          | some buf ↦ ok (array buf num_bits)
        ]
      ]

  unfoldable pub resize : Option BinArray → ℕ → Reply BinArray
  resize arr new_num_bits = do
    (buf, num_bits) ← check_ptr arr Errno.einval
    if new_num_bits == 0
        then fail unset
        else elim (ba_reallocarray buf (8 * size_in_8byte new_num_bits) 1) [
          | none ↦ fail unset
          | some new_buf ↦ ok (array new_buf new_num_bits)
        ]

  -- `memcpy` of whole quadwords into the fresh buffer; the clone has the size of the original.
  unfoldable pub get_clone : Option BinArray → Reply BinArray
  get_clone arr = do
    (buf, num_bits) ← check_ptr arr unset
    clone ← create num_bits
    (buf', num_bits') ← members clone
    let n = 8 * size_in_8byte num_bits'
    if leb n (length buf)
        then (if leb n (length buf')
            then ok (array (take n buf ++ drop n buf') num_bits')
            else fault)
        else fault

-- `baDestroy`: the argument is a pointer to the pointer, which is null afterwards. A null array is
-- dereferenced.
unfoldable pub destroy : Option (Option BinArray) → Reply (Option BinArray)
destroy none = fail Errno.einval
destroy (some none) = fault
destroy (some (some arr)) = ok none
