-- ===== src/BinArray/Complement.antt =====
-- `baGetInvert`: a fresh array with the inverted bits.
mod Tests
pub mod Laws
use task_lunev.Base.{ℕ, zero, suc, ◌+◌, ◌-◌, ◌*◌, ◌/◌, ◌%◌, ◌^◌, Option}
use task_lunev.Memory.{Bytes, Reply, ok, fail, Errno, ◌>>=◌, load, store}
use task_lunev.BinArray.{BinArray, array, check_ptr, bits2bytes}
use task_lunev.BinArray.Create.{Allocator, create, members}

-- `*inv_buf++ = ~*buf++` of words of `w` bytes, with `left` rounds to go, from address `a` on.
unfoldable pub invert_into : ℕ → ℕ → Bytes → Bytes → ℕ → Reply Bytes
invert_into w zero buf inv a = ok inv
invert_into w (suc left) buf inv a = do
  x ← load w buf a
  inv' ← store w inv a (2 ^ (8 * w) - 1 - x)
  invert_into w left buf inv' (a + w)

unfoldable pub get_invert : Allocator → Option BinArray → Reply BinArray
get_invert m arr = do
  (buf, num_bits) ← check_ptr arr Errno.einval
  inv_arr ← create m num_bits
  (inv_buf, inv_bits) ← members inv_arr
  let num_u64 = num_bits / 64
  let num_u8 = bits2bytes (num_bits % 64)
  inv_buf' ← invert_into 8 num_u64 buf inv_buf 0
  inv_buf'' ← invert_into 1 num_u8 buf inv_buf' (8 * num_u64)
  ok (array inv_buf'' inv_bits)
