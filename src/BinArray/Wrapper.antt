-- ===== src/BinArray/Wrapper.antt =====
-- BinArray/wrapper/BinArray.cpp: the class `binarray` over the C library.
mod Tests
pub mod Laws
use task_lunev.Base.{ℕ, zero, suc, Bool, true, false, if◌then◌else◌, ◌==◌, ◌&&◌, ◌||◌}
use task_lunev.Base.{Option, some}
use task_lunev.Memory.{Reply, ok, fail, fault}
use task_lunev.BinArray.{BinArray, get_num_bits}
use task_lunev.BinArray.Access.{get_value, set_value}
use task_lunev.BinArray.Create.{Allocator, create, get_clone, destroy}

-- What a member function does: it returns, throws `std::runtime_error`, or has undefined behaviour.
pub data Message : Type 0 where
  sizes_differ create_error clone_error get_value_error : Message

pub data Result {ℓ} (A : Type ℓ) : Type ℓ where
  value : A → Result A
  throws : Message → Result A
  undefined : Result A

infixl 5 ◌>>=◌
abbrev pub ◌>>=◌ {ℓ κ} : {A : Type ℓ} {B : Type κ} → Result A → (A → Result B) → Result B
value a >>= k = k a
throws m >>= k = throws m
undefined >>= k = undefined

-- The member `arr_`.
abbrev pub Handle : Type 0
Handle = Option BinArray

-- A call of the C library whose error is thrown.
abbrev pub or_throw {ℓ} : {A : Type ℓ} → Message → Reply A → Result A
or_throw m (ok a) = value a
or_throw m (fail e) = throws m
or_throw m fault = undefined

unfoldable pub num_bits_of : Handle → Result ℕ
num_bits_of arr = elim (get_num_bits arr) [
  | ok n ↦ value n
  | fail e ↦ undefined
  | fault ↦ undefined
]

-- `CheckNumBits`, with what the caller does behind it.
unfoldable pub check_num_bits {ℓ} : {A : Type ℓ} → Handle → Handle → Result A → Result A
check_num_bits self other next = do
  n ← num_bits_of self
  n' ← num_bits_of other
  if n == n' then next else throws Message.sizes_differ

-- `proxyBit::operator=`: an error of `baSetValue` is ignored.
unfoldable pub assign : Handle → ℕ → Bool → Result Handle
assign self i val = elim (set_value self i val) [
  | ok arr ↦ value (some arr)
  | fail e ↦ value self
  | fault ↦ undefined
]

-- `proxyBit::operator bool`: the -1 of an error is true.
unfoldable pub read_bit : Handle → ℕ → Result Bool
read_bit self i = elim (get_value self i) [
  | ok b ↦ value b
  | fail e ↦ value true
  | fault ↦ undefined
]

-- `operator[]` of a constant array.
unfoldable pub const_at : Handle → ℕ → Result Bool
const_at self i = or_throw Message.get_value_error (get_value self i)

-- `proxyBit::operator&=` and `|=`, which end without a return: undefined behaviour behind the
-- store. An element of -1 has all bits set.
unfoldable pub and_bit : Handle → ℕ → Bool → Result Handle
and_bit self i val = do elem ← read_bit self i; _ ← assign self i (elem && val); undefined

unfoldable pub or_bit : Handle → ℕ → Bool → Result Handle
or_bit self i val = do elem ← read_bit self i; _ ← assign self i (elem || val); undefined

-- `operator|=` and `operator&=` of whole arrays, with so many bits to go.
unfoldable pub or_bits : ℕ → Handle → Handle → Result Handle
or_bits zero self other = value self
or_bits (suc i) self other = do b ← const_at other i; self' ← or_bit self i b; or_bits i self' other

unfoldable pub or_with : Handle → Handle → Result Handle
or_with self other = do
  n ← num_bits_of self
  n' ← num_bits_of other
  if n == n' then or_bits n self other else throws Message.sizes_differ

unfoldable pub and_bits : ℕ → Handle → Handle → Result Handle
and_bits zero self other = value self
and_bits (suc i) self other = do
  b ← const_at other i
  self' ← and_bit self i b
  and_bits i self' other

unfoldable pub and_with : Handle → Handle → Result Handle
and_with self other = check_num_bits self other (do n ← num_bits_of self; and_bits n self other)

-- `logicAnd`, with so many bits to go: the other bit is read only where the own one is set.
unfoldable pub logic_and_bits : ℕ → Handle → Handle → Result Handle
logic_and_bits zero self other = value self
logic_and_bits (suc i) self other = do
  b ← read_bit self i
  c ← if b then const_at other i else value false
  self' ← assign self i c
  logic_and_bits i self' other

unfoldable pub logic_and : Handle → Handle → Result Handle
logic_and self other =
    check_num_bits self other (do n ← num_bits_of self; logic_and_bits n self other)

module _ (m : Allocator) where
  -- The constructors from a size and from another array.
  unfoldable pub construct : ℕ → Result Handle
  construct size = do arr ← or_throw Message.create_error (create m size); value (some arr)

  unfoldable pub copy : Handle → Result Handle
  copy other = do arr ← or_throw Message.clone_error (get_clone m other); value (some arr)

  -- `operator &`, `operator |`, `operator &&`
  unfoldable pub and_op : Handle → Handle → Result Handle
  and_op lhs rhs = do result ← copy lhs; and_with result rhs

  unfoldable pub or_op : Handle → Handle → Result Handle
  or_op lhs rhs = do result ← copy lhs; or_with result rhs

  unfoldable pub logic_and_op : Handle → Handle → Result Handle
  logic_and_op lhs rhs = do result ← copy lhs; logic_and result rhs

-- The member `arr_` of an object: the move constructor starts from one that has no value yet.
pub data Slot : Type 0 where
  holds : Handle → Slot
  indeterminate : Slot

-- `swap`
abbrev pub swap : Slot × Slot → Slot × Slot
swap (a, b) = (b, a)

-- The move constructor: the new object and the old one.
unfoldable pub move : Slot → Slot × Slot
move other = swap (Slot.indeterminate, other)

-- `operator=`: both objects.
unfoldable pub move_assign : Slot → Slot → Slot × Slot
move_assign self other = swap (self, other)

-- The destructor.
unfoldable pub destruct : Slot → Result Handle
destruct (Slot.holds arr) = elim (destroy (some arr)) [
  | ok h ↦ value h
  | fail e ↦ undefined
  | fault ↦ undefined
]
destruct Slot.indeterminate = undefined
