-- ===== src/BinArray/Fill.antt =====
-- `baFillOne`, `baFillZero`, `baFillZeroFull`, `baFillOneFull`.
pub mod Laws
pub mod Range
use task_lunev.Base.{ℕ, ◌+◌, ◌-◌, ◌*◌, ◌/◌, ◌%◌, ◌^◌, bit_or, bit_and, if◌then◌else◌, ltb, leb, ℤ}
use task_lunev.Base.{Option}
use task_lunev.Memory.{Bytes, Reply, ok, ◌>>=◌, fill, not64, Errno}
use task_lunev.Memory.Words.{change_qword}
use task_lunev.BinArray.{BinArray, array, Arg, check_ptr, check_calc_arg, size_in_8byte}
use task_lunev.BinArray.Mask.{mask_first, mask_last}

-- `*buf |= mask` and `*buf &= ~mask`
abbrev pub or_mask : ℕ → ℕ → ℕ
or_mask mask q = bit_or q mask

abbrev pub and_not_mask : ℕ → ℕ → ℕ
and_not_mask mask q = bit_and q (not64 mask)

-- The part of both functions behind `baCheckCalcArg`: they differ in how a mask is applied
-- (`apply`) and in the byte that `memset` writes (`v`).
module _ (apply : ℕ → ℕ → ℕ) (v : ℕ) where
  -- After the first quadword: `k` is where `buf` points, `len` what is left.
  unfoldable pub fill_rest : Bytes → ℕ → ℕ → Reply Bytes
  fill_rest buf k len = do
    let num_u64 = size_in_8byte len - 1
    buf' ← if ltb 0 num_u64 then fill buf (8 * k) v (8 * num_u64) else ok buf
    let k' = if ltb 0 num_u64 then k + num_u64 else k
    let len' = if ltb 0 num_u64 then len - 64 * num_u64 else len
    mask ← mask_last (len' % 2 ^ 8)
    change_qword (apply mask) buf' k'

  unfoldable pub fill_range : Bytes → ℕ → ℕ → Reply Bytes
  fill_range buf begin len =
      let k = begin / 64 in
      let rshift = begin % 64 in
      let rlen = 64 - rshift in
      if leb (rshift + len) 64
      then (do mask ← mask_first rshift (len % 2 ^ 8); change_qword (apply mask) buf k)
      else (do
        mask ← mask_first rshift (rlen % 2 ^ 8)
        buf' ← change_qword (apply mask) buf k
        fill_rest buf' (k + 1) (len - rlen))

unfoldable pub fill_one : Option BinArray → ℕ → ℤ → Reply BinArray
fill_one arr begin len = do
  a ← check_calc_arg arr begin len
  buf ← fill_range or_mask 0xFF a.buf begin a.len
  ok (array buf a.num_bits)

unfoldable pub fill_zero : Option BinArray → ℕ → ℤ → Reply BinArray
fill_zero arr begin len = do
  a ← check_calc_arg arr begin len
  buf ← fill_range and_not_mask 0x00 a.buf begin a.len
  ok (array buf a.num_bits)

unfoldable pub fill_zero_full : Option BinArray → Reply BinArray
fill_zero_full arr = do
  (buf, num_bits) ← check_ptr arr Errno.einval
  buf' ← fill buf 0 0x00 (8 * size_in_8byte num_bits)
  ok (array buf' num_bits)

unfoldable pub fill_one_full : Option BinArray → Reply BinArray
fill_one_full arr = do
  (buf, num_bits) ← check_ptr arr Errno.einval
  buf' ← fill buf 0 0xFF (8 * size_in_8byte num_bits)
  ok (array buf' num_bits)
