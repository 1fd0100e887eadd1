-- ===== src/BinArray/Tests.antt =====
-- Runs of the functions of BinArray.c on small arrays, and the theorems at concrete inputs.
use task_lunev.Base.{ℕ, ◌+◌, ◌*◌, ◌/◌, ◌≡◌, arith, refl}
use task_lunev.Base.{true, false, some, none, pos, minus_one, if◌then◌else◌}
use task_lunev.Base.{[], ◌∷◌, replicate}
use task_lunev.Bits.{test_bit}
use task_lunev.Memory.{Bytes, ok, fail, fault, Errno, ◌>>=◌, load, store, load_from, store_from}
use task_lunev.Memory.{shr64, shl64}
use task_lunev.Memory.Bits.{bit_at, IsBytes}
use task_lunev.Memory.Words.{within, change_qword}
use task_lunev.BinArray.{array, IsValid, size_in_8byte, check_calc_arg, check_ptr}
use task_lunev.BinArray.Check.{Becomes}
use task_lunev.BinArray.Mask.{mask_first, mask_last}
use task_lunev.BinArray.Access.{
  raw_set_value, raw_set_zero, get_bit_from_byte, get_value, set_value, raw_get_value, mask_bit,
}
use task_lunev.BinArray.Access.Laws.{get_value-set_value}
use task_lunev.BinArray.Fill.{fill_range, fill_rest, fill_one, fill_zero}
use task_lunev.BinArray.Fill.Range.{fill_one-Becomes}
use task_lunev.BinArray.Find.{
  find_range, find_aligned, scan_words, report, find_bit_one_in_qword, find_bit_zero_in_qword,
  first_one, find_one, find_zero,
}
use task_lunev.BinArray.Find.Qword.{IsFirst}
use task_lunev.BinArray.Find.Range.{find_one_complete, find_zero_complete, find_one_sound}
use task_lunev.BinArray.Invert.{invert, invert_range}
use task_lunev.BinArray.Invert.Laws.{flipped}
use task_lunev.BinArray.Invert.Effect.{invert-Becomes, invert-fault}
use task_lunev.BinArray.Create.{Allocator, resize}
use task_lunev.BinArray.Create.Laws.{Granted, zero-IsBytes}
use task_lunev.BinArray.Create.Resize.{Resized, resize-Resized}

-- Seven zero bytes.
abbrev pub zeros : Bytes
zeros = 0 ∷ 0 ∷ 0 ∷ 0 ∷ 0 ∷ 0 ∷ 0 ∷ []

-- 64 bits, of which 2, 3 and 8 are set.
abbrev pub few : Bytes
few = 0x0c ∷ 0x01 ∷ 0 ∷ 0 ∷ 0 ∷ 0 ∷ 0 ∷ 0 ∷ []

-- Two quadwords, of which bit 70 is set.
abbrev late : Bytes
late = 0 ∷ 0 ∷ 0 ∷ 0 ∷ 0 ∷ 0 ∷ 0 ∷ 0 ∷ 0x40 ∷ zeros

few-IsBytes : IsBytes few
few-IsBytes = ground arith

late-IsBytes : IsBytes late
late-IsBytes = ground arith

pub few-IsValid : IsValid few 64
unfolding size_in_8byte
few-IsValid = record {
  whole = refl;
  bytes = few-IsBytes;
  positive = omega arith;
  countable = omega arith;
}

late-IsValid : IsValid late 80
unfolding size_in_8byte
late-IsValid = record {
  whole = refl;
  bytes = late-IsBytes;
  positive = omega arith;
  countable = omega arith;
}

-- Four clear quadwords.
abbrev clear : Bytes
clear = replicate 32 0

clear-IsValid : IsValid clear 256
unfolding size_in_8byte
clear-IsValid = record {
  whole = refl;
  bytes = zero-IsBytes 32;
  positive = omega arith;
  countable = omega arith;
}

-- Runs.
run_find :
    (find_one (some (array few 64)) 0 (pos 64) ≡ ok 2)
    × (find_one (some (array few 64)) 4 (pos 4) ≡ fail Errno.unset)
    × (find_zero (some (array few 64)) 2 (pos 9) ≡ ok 4)
    × (find_one (some (array late 80)) 0 (pos 65) ≡ ok 70)
unfolding find_one find_zero find_range find_aligned scan_words report find_bit_one_in_qword
    find_bit_zero_in_qword first_one check_calc_arg load load_from size_in_8byte
run_find = (refl, refl, refl, refl)

run_fill :
    (fill_one (some (array few 64)) 4 (pos 6)
      ≡ ok (array (0xfc ∷ 0x03 ∷ 0 ∷ 0 ∷ 0 ∷ 0 ∷ 0 ∷ 0 ∷ []) 64))
    × (fill_zero (some (array few 64)) 3 minus_one ≡ ok (array (0x04 ∷ zeros) 64))
unfolding fill_one fill_zero fill_range fill_rest check_calc_arg mask_first mask_last shr64 shl64
    change_qword load store load_from store_from size_in_8byte
run_fill = (refl, refl)

-- The bits beside the range are lost.
run_invert : invert (some (array few 64)) 3 (pos 2) ≡ ok (array (0x10 ∷ zeros) 64)
unfolding invert invert_range check_calc_arg mask_first mask_last shr64 shl64 change_qword load
    store load_from store_from size_in_8byte
run_invert = refl

run_access :
    (get_value (some (array few 64)) 3 ≡ ok true)
    × (get_value none 3 ≡ fail Errno.einval)
    × (set_value (some (array few 64)) 8 false ≡ ok (array (0x0c ∷ zeros) 64))
unfolding get_value set_value raw_get_value raw_set_value raw_set_zero get_bit_from_byte mask_bit
    check_ptr load store load_from store_from
run_access = (refl, refl, refl)

-- The theorems at inputs that meet their hypotheses.
find_one_complete_example :
    (p : ℕ) × (find_one (some (array few 64)) 3 (pos 20) ≡ ok p) × IsFirst (bit_at few) 1 3 23 p
unfolding bit_at test_bit
find_one_complete_example =
    find_one_complete few-IsValid (omega arith) 3 20 8 (omega arith) (omega arith) (omega arith)
      refl

find_zero_complete_example :
    (p : ℕ) × (find_zero (some (array few 64)) 2 (pos 9) ≡ ok p) × IsFirst (bit_at few) 0 2 11 p
unfolding bit_at test_bit
find_zero_complete_example =
    find_zero_complete few-IsValid (omega arith) 2 9 5 (omega arith) (omega arith) (omega arith)
      refl

late-IsFirst : IsFirst (bit_at late) 1 0 (64 * size_in_8byte (0 + 65)) 70
late-IsFirst =
    find_one_sound late-IsValid (omega arith) 0 65 70 (omega arith) (omega arith) (run_find.3)

fill_one-Becomes_example :
    Becomes 64
      (λ p. if within 4 10 p then 1 else bit_at few p)
      (fill_one (some (array few 64)) 4 (pos 6))
fill_one-Becomes_example = fill_one-Becomes few-IsValid 4 6 (omega arith) (omega arith)

invert-Becomes_example :
    Becomes 64
      (flipped few 3 5 (64 * (3 / 64)) (64 * size_in_8byte (3 + 2)))
      (invert (some (array few 64)) 3 (pos 2))
unfolding size_in_8byte
invert-Becomes_example = invert-Becomes few-IsValid 3 2 (omega arith) (omega arith) (omega arith)

invert-fault_example : invert (some (array clear 256)) 0 (pos 256) ≡ fault
unfolding size_in_8byte
invert-fault_example = invert-fault clear-IsValid 0 256 (omega arith) (omega arith) (omega arith)

get_value-set_value_example :
    (set_value (some (array few 64)) 5 true >>= λ arr. get_value (some arr) 5) ≡ ok true
get_value-set_value_example = get_value-set_value few-IsValid 5 5 true (omega arith) (omega arith)

-- An allocator that grants every block and leaves bytes of ones behind.
abbrev pub generous : Allocator
generous = record { grants = λ _. true; stale = λ _. 0xff; stale-lt = λ _. omega arith }

pub generous-Granted : Granted generous 64
generous-Granted = record { structure = refl; buffer = refl; not_killed = omega arith }

resize-Resized_example : Resized generous few 200 (resize generous (some (array few 64)) 200)
resize-Resized_example = resize-Resized generous 200 few-IsValid (omega arith) (omega arith) refl
