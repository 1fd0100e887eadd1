-- ===== src/BinArray/Access.antt =====
-- The getters and setters of one bit.
pub mod Laws
use task_lunev.Base.{ℕ, ◌/◌, ◌%◌, ◌^◌, bit_or, bit_and, if◌then◌else◌, ltb, ◌==◌, Bool, not}
use task_lunev.Base.{Option}
use task_lunev.Memory.{Bytes, Reply, ok, fail, ◌>>=◌, load, store, not8, Errno}
use task_lunev.BinArray.{BinArray, array, check_ptr}

-- `(uint8_t) (1U << num_bit)`
unfoldable pub mask_bit : ℕ → ℕ
mask_bit num_bit = 2 ^ num_bit % 2 ^ 8

unfoldable pub get_bit_from_byte : ℕ → ℕ → Bool
get_bit_from_byte byte num_bit = not (bit_and byte (mask_bit num_bit) == 0)

-- `_baGetValue`, `_baSetOne`, `_baSetZero`, `_baSetValue`: no check of the index.
unfoldable pub raw_get_value : Bytes → ℕ → Reply Bool
raw_get_value buf num_bit = do
  byte ← load 1 buf (num_bit / 8)
  ok (get_bit_from_byte byte (num_bit % 8))

unfoldable pub raw_set_one : Bytes → ℕ → Reply Bytes
raw_set_one buf num_bit = do
  byte ← load 1 buf (num_bit / 8)
  store 1 buf (num_bit / 8) (bit_or byte (mask_bit (num_bit % 8)))

unfoldable pub raw_set_zero : Bytes → ℕ → Reply Bytes
raw_set_zero buf num_bit = do
  byte ← load 1 buf (num_bit / 8)
  store 1 buf (num_bit / 8) (bit_and byte (not8 (mask_bit (num_bit % 8))))

unfoldable pub raw_set_value : Bytes → ℕ → Bool → Reply Bytes
raw_set_value buf num_bit val = if val then raw_set_one buf num_bit else raw_set_zero buf num_bit

unfoldable pub get_value : Option BinArray → ℕ → Reply Bool
get_value arr num_bit = do
  (buf, num_bits) ← check_ptr arr Errno.einval
  if ltb num_bits num_bit then fail Errno.e2big else raw_get_value buf num_bit

unfoldable pub set_one : Option BinArray → ℕ → Reply BinArray
set_one arr num_bit = do
  (buf, num_bits) ← check_ptr arr Errno.einval
  if ltb num_bits num_bit
      then fail Errno.e2big
      else (do buf' ← raw_set_one buf num_bit; ok (array buf' num_bits))

unfoldable pub set_zero : Option BinArray → ℕ → Reply BinArray
set_zero arr num_bit = do
  (buf, num_bits) ← check_ptr arr Errno.einval
  if ltb num_bits num_bit
      then fail Errno.e2big
      else (do buf' ← raw_set_zero buf num_bit; ok (array buf' num_bits))

unfoldable pub set_value : Option BinArray → ℕ → Bool → Reply BinArray
set_value arr num_bit val = do
  (buf, num_bits) ← check_ptr arr Errno.einval
  if ltb num_bits num_bit
      then fail Errno.e2big
      else (do buf' ← raw_set_value buf num_bit val; ok (array buf' num_bits))
