-- ===== src/BinArray/Invert.antt =====
-- `baInvert`, `baGetInvert`.
pub mod Laws
pub mod Range
pub mod Effect
use task_lunev.Base.{
  ℕ, zero, suc, ◌+◌, ◌-◌, ◌*◌, ◌/◌, ◌%◌, ◌^◌, bit_and, if◌then◌else◌, leb, ltb, ℤ,
}
use task_lunev.Base.{Option}
use task_lunev.Memory.{Bytes, Reply, ok, ◌>>=◌, not64}
use task_lunev.Memory.Words.{change_qword}
use task_lunev.BinArray.{BinArray, array, Arg, check_calc_arg, size_in_8byte}
use task_lunev.BinArray.Mask.{mask_first, mask_last}

-- `~(*buf & mask) & mask`
abbrev pub invert_masked : ℕ → ℕ → ℕ
invert_masked mask q = bit_and (not64 (bit_and q mask)) mask

-- `len -= 64 * num_u64` of a `ssize_t`, in two's complement.
abbrev pub sub_len : ℕ → ℕ → ℕ
sub_len len num_u64 = (len + 2 ^ 64 - 64 * num_u64 % 2 ^ 64) % 2 ^ 64

-- The loop over the whole quadwords, with `left` rounds to go: the buffer and `len` behind it.
unfoldable pub invert_words : ℕ → Bytes → ℕ → ℕ → ℕ → Reply (Bytes × ℕ)
invert_words zero buf k num_u64 len = ok (buf, len)
invert_words (suc left) buf k num_u64 len = do
  buf' ← change_qword not64 buf k
  invert_words left buf' (k + 1) num_u64 (sub_len len num_u64)

unfoldable pub invert_rest : Bytes → ℕ → ℕ → Reply Bytes
invert_rest buf k len = do
  let num_u64 = size_in_8byte len - 1
  (buf', len') ← invert_words num_u64 buf k num_u64 len
  mask ← mask_last (len' % 2 ^ 8)
  change_qword (invert_masked mask) buf' (k + num_u64)

unfoldable pub invert_range : Bytes → ℕ → ℕ → Reply Bytes
invert_range buf begin len =
    let k = begin / 64 in
    let rshift = begin % 64 in
    let rlen = 64 - rshift in
    if leb (rshift + len) 64
    then (do mask ← mask_first rshift (len % 2 ^ 8); change_qword (invert_masked mask) buf k)
    else (do
      mask ← mask_first rshift (rlen % 2 ^ 8)
      buf' ← change_qword (invert_masked mask) buf k
      invert_rest buf' (k + 1) (len - rlen))

unfoldable pub invert : Option BinArray → ℕ → ℤ → Reply BinArray
invert arr begin len = do
  a ← check_calc_arg arr begin len
  buf ← invert_range a.buf begin a.len
  ok (array buf a.num_bits)
