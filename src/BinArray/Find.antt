-- ===== src/BinArray/Find.antt =====
-- `baFind`, `baFindOne`, `baFindZero`.
pub mod Qword
pub mod Scan
pub mod Laws
pub mod Range
use task_lunev.Base.{ℕ, zero, suc, ◌+◌, ◌-◌, ◌*◌, ◌/◌, ◌%◌, ◌^◌, if◌then◌else◌, ltb, leb, ◌==◌, not}
use task_lunev.Base.{Bool, true, false, Option, none, some, ℤ, minus_one}
use task_lunev.Memory.{Bytes, Reply, ok, fail, ◌>>=◌, load, not64, unset}
use task_lunev.BinArray.{BinArray, Arg, check_calc_arg, size_in_8byte}

-- `ffsll (x) - 1` over `n` bits; `none` is -1.
unfoldable pub first_one : ℕ → ℕ → Option ℕ
first_one zero x = none
first_one (suc n) x =
    if x % 2 == 1
    then some 0
    else elim (first_one n (x / 2)) [ none ↦ none | some i ↦ some (suc i) ]

-- `_baFindBitOneInQWord`, `_baFindBitZeroInQWord`
unfoldable pub find_bit_one_in_qword : ℕ → Option ℕ
find_bit_one_in_qword qword = first_one 64 qword

unfoldable pub find_bit_zero_in_qword : ℕ → Option ℕ
find_bit_zero_in_qword qword = find_bit_one_in_qword (not64 qword)

-- `qword >> rshift` of a `uint64_t`, and of an `int64_t`, which copies the sign in from the left.
abbrev pub shift_logical : ℕ → ℕ → ℕ
shift_logical qword rshift = qword / 2 ^ rshift

abbrev pub shift_arithmetic : ℕ → ℕ → ℕ
shift_arithmetic qword rshift =
    qword / 2 ^ rshift + 2 ^ (64 - rshift) * (if ltb qword (2 ^ 63) then 0 else 2 ^ rshift - 1)

-- The test behind the loop; `64 * i` is a product of `uint32_t`.
unfoldable pub report : ℕ → ℕ → ℕ × Option ℕ → Reply ℕ
report len pos (i, none) = fail unset
report len pos (i, some add_pos) =
    if ltb add_pos len then ok (64 * i % 2 ^ 32 + pos + add_pos) else fail unset

-- The body of both searches. They differ in the shift of the first quadword, in the test by which
-- the loop passes over a quadword, and in the search inside one.
module _ (shift : ℕ → ℕ → ℕ) (hit : ℕ → Bool) (find : ℕ → Option ℕ) where
  -- The `for` loop at `i`, with `left` rounds to go: `i` and `add_pos` behind it.
  unfoldable pub scan_words : ℕ → Bytes → ℕ → ℕ → Reply (ℕ × Option ℕ)
  scan_words zero buf k i = ok (i, none)
  scan_words (suc left) buf k i = do
    qword ← load 8 buf (8 * (k + i))
    elim (hit qword) [ true ↦ ok (i, find qword) | false ↦ scan_words left buf k (i + 1) ]

  -- From a quadword boundary, where `buf` points at quadword `k`. The count of quadwords is a
  -- `uint32_t`.
  unfoldable pub find_aligned : Bytes → ℕ → ℕ → ℕ → Reply ℕ
  find_aligned buf k len pos = scan_words (size_in_8byte len % 2 ^ 32) buf k 0 >>= report len pos

  unfoldable pub find_range : Bytes → ℕ → ℕ → Reply ℕ
  find_range buf begin len =
      let k = begin / 64 in
      let rshift = begin % 64 in
      if rshift == 0 then find_aligned buf k len begin else (do
        qword ← load 8 buf (8 * k)
        let pos = find (shift qword rshift)
        if leb (rshift + len) 64
            then elim pos [
              | none ↦ fail unset
              | some p ↦ if ltb p len then ok (begin + p) else fail unset
            ]
            else elim pos [
              | none ↦ find_aligned buf (k + 1) (len - (64 - rshift)) (begin + (64 - rshift))
              | some p ↦ ok (begin + p)
            ])

abbrev pub is_nonzero : ℕ → Bool
is_nonzero qword = not (qword == 0)

abbrev pub is_not_full : ℕ → Bool
is_not_full qword = not (qword == 2 ^ 64 - 1)

-- The result is the position; the -1 of "not found" is that of a refused argument.
unfoldable pub find_one : Option BinArray → ℕ → ℤ → Reply ℕ
find_one arr begin len = do
  a ← check_calc_arg arr begin len
  find_range shift_logical is_nonzero find_bit_one_in_qword a.buf begin a.len

unfoldable pub find_zero : Option BinArray → ℕ → ℤ → Reply ℕ
find_zero arr begin len = do
  a ← check_calc_arg arr begin len
  find_range shift_arithmetic is_not_full find_bit_zero_in_qword a.buf begin a.len

-- `baFind` passes on neither `begin` nor `len`.
unfoldable pub find : Option BinArray → ℕ → ℤ → Bool → Reply ℕ
find arr begin len val = if val then find_one arr 0 minus_one else find_zero arr 0 minus_one
