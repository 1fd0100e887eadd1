-- ===== src/BinArray/SubArray.antt =====
-- `baGetSubArray`: a fresh array with the bits of a range.
mod Tests
pub mod Laws
pub mod Whole
pub mod Overflow
pub mod Dump
use task_lunev.Base.{
  ℕ, zero, suc, ◌+◌, ◌-◌, ◌*◌, ◌/◌, ◌%◌, ◌^◌, if◌then◌else◌, ltb, leb, ◌==◌, not, Bool,
}
use task_lunev.Base.{Option, ℤ, take, drop, ◌++◌, length}
use task_lunev.Memory.{Bytes, Reply, ok, fault, ◌>>=◌, load, store}
use task_lunev.BinArray.{BinArray, array, Arg, check_calc_arg, bits2bytes}
use task_lunev.BinArray.Create.{Allocator, create, members}

-- `memcpy` of the first `n` bytes from address `k` on.
unfoldable pub copy_bytes : Bytes → Bytes → ℕ → ℕ → Reply Bytes
copy_bytes buf sub k n =
    if leb (k + n) (length buf)
    then (if leb n (length sub) then ok (take n (drop k buf) ++ drop n sub) else fault)
    else fault

-- `*sub_buf = *buf >> rshift` with words of `v` bytes from, and of `w` bytes to, address `a`; `k` is
-- the byte where the range begins.
unfoldable pub shift_word : Bytes → ℕ → ℕ → ℕ → ℕ → Bytes → ℕ → Reply Bytes
shift_word buf k rshift v w sub a = do x ← load v buf (k + a); store w sub a (x / 2 ^ rshift)

-- A loop over such words, with `left` rounds to go, that moves by `d` bytes.
unfoldable pub shift_words : Bytes → ℕ → ℕ → ℕ → ℕ → ℕ → Bytes → ℕ → Reply Bytes
shift_words buf k rshift w d zero sub a = ok sub
shift_words buf k rshift w d (suc left) sub a = do
  sub' ← shift_word buf k rshift w w sub a
  shift_words buf k rshift w d left sub' (a + d)

-- `num_u56`
unfoldable pub count_u56 : ℕ → ℕ → ℕ
count_u56 over_bytes len = if ltb (bits2bytes len) 8 then 0 else (over_bytes - 1) / 7

-- The part behind the test of `rshift`; a negative `num_u8` makes no round.
unfoldable pub shift_range : Bytes → ℕ → ℕ → ℕ → Bytes → Reply Bytes
shift_range buf k rshift len sub = do
  let over_bytes = bits2bytes (len + rshift)
  let num_u56 = count_u56 over_bytes len
  let state = not (over_bytes == bits2bytes len)
  let num_u8 = over_bytes - 7 * num_u56 - 1 - (if state then 1 else 0)
  sub' ← shift_words buf k rshift 8 7 num_u56 sub 0
  sub'' ← shift_words buf k rshift 2 1 num_u8 sub' (7 * num_u56)
  shift_word buf k rshift (if state then 2 else 1) 1 sub'' (7 * num_u56 + num_u8)

unfoldable pub get_sub_array : Allocator → Option BinArray → ℕ → ℤ → Reply BinArray
get_sub_array m arr begin len = do
  a ← check_calc_arg arr begin len
  clone ← create m a.len
  (sub, sub_bits) ← members clone
  out ←
      if begin % 8 == 0
      then copy_bytes a.buf sub (begin / 8) (bits2bytes a.len)
      else shift_range a.buf (begin / 8) (begin % 8) a.len sub
  ok (array out sub_bits)
