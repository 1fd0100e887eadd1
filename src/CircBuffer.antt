-- ===== src/CircBuffer.antt =====
-- Proxy/CircBuffer.cpp: the circular buffer, its pointers as offsets into its own allocation.
-- Differences of an `int` are exact: with a capacity and a size from 0 to 2^31 - 1 none overflows.
mod Tests
pub mod Laws
pub mod Client
use task_lunev.Base.{ℕ, zero, suc, Bool, true, false, not, ◌&&◌, Option, none, some}
use task_lunev.Base.{
  if◌then◌else◌, ℤ, pos, negsuc, minus_one, ◌+ℤ◌, ◌-ℤ◌, lebℤ, ltbℤ, eqbℤ, is_int, length,
}
use task_lunev.Memory.{Bytes}
use task_lunev.BinArray.Create.{Allocator, calloc}

-- `m_buf` is the allocation, `none` a null pointer; `m_reader` points into it, as an offset.
pub record CircBuffer : Type 0 where
  pub m_capacity : ℤ
  pub m_size : ℤ
  pub m_buf : Option Bytes
  pub m_reader : Option ℤ

-- A return, an exception that `MYASSERT` throws, or undefined behaviour.
pub data Outcome {ℓ} (A : Type ℓ) : Type ℓ where
  returned : A → Outcome A
  thrown : Outcome A
  undefined : Outcome A

infixl 5 ◌>>=◌
abbrev pub ◌>>=◌ {ℓ κ} : {A : Type ℓ} {B : Type κ} → Outcome A → (A → Outcome B) → Outcome B
returned a >>= k = k a
thrown >>= k = thrown
undefined >>= k = undefined

-- `calloc` gave a null pointer: only `m_buf` was written.
abbrev pub not_granted : CircBuffer → CircBuffer
not_granted cb = record {
  m_capacity = cb.m_capacity;
  m_size = cb.m_size;
  m_buf = none;
  m_reader = cb.m_reader;
}

abbrev pub empty_of : Bytes → ℕ → CircBuffer
empty_of buf capacity = record {
  m_capacity = pos capacity;
  m_size = pos 0;
  m_buf = some buf;
  m_reader = some (pos 0);
}

-- The code that is returned and the structure behind the call. The reader is set where the buffer
-- was granted.
unfoldable pub initialize : Allocator → Option CircBuffer → ℤ → ℤ × Option CircBuffer
initialize m none capacity = (minus_one, none)
initialize m (some cb) (negsuc n) = (minus_one, some cb)
initialize m (some cb) (pos zero) = (minus_one, some cb)
initialize m (some cb) (pos (suc n)) = elim (calloc m (suc n) 1) [
  | none ↦ (minus_one, some (not_granted cb))
  | some buf ↦ (pos 0, some (empty_of buf (suc n)))
]

-- `free` takes the buffer.
unfoldable pub release : CircBuffer → CircBuffer
release cb = record { m_capacity = pos 0; m_size = pos 0; m_buf = none; m_reader = none }

unfoldable pub verifier : CircBuffer → Bool
verifier cb = elim cb.m_buf [ none ↦ false | some _ ↦ ltbℤ (pos 0) cb.m_capacity ]

-- The start of the four getters: the assertion, and the reader; arithmetic on a null reader is
-- undefined. `begin` has offset 0.
unfoldable pub reader_of : CircBuffer → Outcome ℤ
reader_of cb =
    if verifier cb
    then elim cb.m_reader [ none ↦ undefined | some reader ↦ returned reader ]
    else thrown

unfoldable pub get_empty : CircBuffer → Outcome ℤ
get_empty cb = do
  reader ← reader_of cb
  let writer = reader +ℤ cb.m_size
  if lebℤ writer cb.m_capacity
      then returned (cb.m_capacity -ℤ writer)
      else returned (cb.m_capacity -ℤ cb.m_size)

unfoldable pub get_size : CircBuffer → Outcome ℤ
get_size cb = do
  reader ← reader_of cb
  let writer = reader +ℤ cb.m_size
  if lebℤ writer cb.m_capacity then returned cb.m_size else returned (cb.m_capacity -ℤ reader)

-- `*buffer` and the number returned.
unfoldable pub get_writer : CircBuffer → Outcome (ℤ × ℤ)
get_writer cb = do
  reader ← reader_of cb
  let writer = reader +ℤ cb.m_size
  if ltbℤ writer cb.m_capacity
      then returned (writer, cb.m_capacity -ℤ writer)
      else (if eqbℤ writer cb.m_capacity
          then (if not (eqbℤ reader (pos 0))
              then returned (pos 0, reader)
              else returned (pos 0, pos 0))
          else returned (reader +ℤ cb.m_size -ℤ cb.m_capacity, cb.m_capacity -ℤ cb.m_size))

unfoldable pub get_reader : CircBuffer → Outcome (ℤ × ℤ)
get_reader cb = do
  reader ← reader_of cb
  let writer = reader +ℤ cb.m_size
  if lebℤ writer cb.m_capacity
      then returned (reader, cb.m_size)
      else returned (pos 0, cb.m_capacity -ℤ cb.m_size)

unfoldable pub have_empty : CircBuffer → Bool
have_empty cb = not (eqbℤ (cb.m_capacity -ℤ cb.m_size) (pos 0))

unfoldable pub have_size : CircBuffer → Bool
have_size cb = not (eqbℤ cb.m_size (pos 0))

abbrev pub with_size : CircBuffer → ℤ → Option ℤ → CircBuffer
with_size cb size reader = record {
  m_capacity = cb.m_capacity;
  m_size = size;
  m_buf = cb.m_buf;
  m_reader = reader;
}

-- The pointers are read where the value is negative; arithmetic on null ones is undefined, and so
-- is an overflow of the `int`.
unfoldable pub reset_reader : CircBuffer → Outcome CircBuffer
reset_reader cb = elim cb.m_buf [
  | none ↦ undefined
  | some _ ↦ elim cb.m_reader [
    | none ↦ undefined
    | some reader ↦
        if eqbℤ (reader +ℤ cb.m_size) cb.m_capacity
        then returned (with_size cb cb.m_size (some (pos 0)))
        else returned cb
  ]
]

unfoldable pub change_size : CircBuffer → ℤ → Outcome CircBuffer
change_size cb value =
    let size = cb.m_size +ℤ value in
    if is_int size
    then (if ltbℤ value (pos 0)
        then reset_reader (with_size cb size cb.m_reader)
        else returned (with_size cb size cb.m_reader))
    else undefined
