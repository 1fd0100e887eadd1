-- ===== src/BinArray/Visit.antt =====
-- `baForeach`, the dumps of BinArray.c and `print_byte`.
mod Tests
pub mod Laws
use task_lunev.Base.{ℕ, zero, suc, ◌+◌, ◌-◌, ◌*◌, ◌/◌, ◌%◌, ◌^◌, bit_and, Bool, true, false, not}
use task_lunev.Base.{if◌then◌else◌, ◌==◌, ◌&&◌, Option, none, some, List, [], ◌∷◌, ◌++◌}
use task_lunev.Memory.{Bytes, Reply, ok, fail, fault, Errno, ◌>>=◌}
use task_lunev.BinArray.{BinArray, check_ptr, get_num_bits}
use task_lunev.BinArray.Access.{raw_get_value}
use task_lunev.BinArray.Create.{members}

-- The characters that a call prints.
abbrev pub digit : Bool → ℕ
digit b = if b then 49 else 48

-- The loop of `print_byte`, with `left` characters to go.
unfoldable pub print_bits : ℕ → ℕ → ℕ → Bytes
print_bits zero i byte = []
print_bits (suc left) i byte =
    digit (not (bit_and byte (2 ^ 7 / 2 ^ i) == 0)) ∷ print_bits left (i + 1) byte

unfoldable pub print_byte : ℕ → Bytes
print_byte byte = print_bits 8 0 byte

-- `bprint`
unfoldable pub bprint : List ℕ → Bytes
bprint [] = []
bprint (b ∷ bytes) = print_byte b ++ 32 ∷ bprint bytes

-- The loop of `baDumpBufFull`, with `left` bits to go.
unfoldable pub dump_bits : ℕ → ℕ → Bytes → Reply Bytes
dump_bits zero i buf = ok []
dump_bits (suc left) i buf = do
  b ← raw_get_value buf i
  text ← dump_bits left (i + 1) buf
  ok (if (i % 8 == 0) && not (i == 0) then 32 ∷ digit b ∷ text else digit b ∷ text)

-- The text; what the function returns behind it is not determined, since it has no return there.
unfoldable pub dump_buf_full : Option BinArray → Reply Bytes
dump_buf_full arr = do
  (buf, num_bits) ← check_ptr arr Errno.einval
  text ← dump_bits num_bits 0 buf
  ok (text ++ 10 ∷ [])

-- `baForeach`: the callback may change the array and the data; the number of bits is read once, and
-- what the callback returns is not used.
module _ {ℓ} {D : Type ℓ} (cb : BinArray → Bool → D → BinArray × D) where
  unfoldable pub foreach_bits : ℕ → ℕ → BinArray → D → Reply (BinArray × D)
  foreach_bits zero i arr data' = ok (arr, data')
  foreach_bits (suc left) i arr data' = do
    (buf, _) ← members arr
    element ← raw_get_value buf i
    let (arr', data'') = cb arr element data'
    foreach_bits left (i + 1) arr' data''

  unfoldable pub foreach : Option BinArray → D → Reply (BinArray × D)
  foreach none data' = fault
  foreach (some arr) data' = foreach_bits arr.num_bits_ 0 arr data'
