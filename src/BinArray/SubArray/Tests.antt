-- ===== src/BinArray/SubArray/Tests.antt =====
-- Runs of `baGetSubArray` and `baDumpBuf`.
use task_lunev.Base.{◌≡◌, arith, refl, some, pos, replicate, inl, inr}
use task_lunev.Memory.{Bytes, fault}
use task_lunev.BinArray.{array, IsValid, size_in_8byte, bits2bytes}
use task_lunev.BinArray.Create.Laws.{Granted, zero-IsBytes}
use task_lunev.BinArray.Tests.{few, few-IsValid, generous}
use task_lunev.BinArray.SubArray.{get_sub_array}
use task_lunev.BinArray.SubArray.Overflow.{get_sub_array-fault}
use task_lunev.BinArray.SubArray.Whole.{Holds, get_sub_array-Holds}

twenty-Granted : Granted generous 20
twenty-Granted = record { structure = refl; buffer = refl; not_killed = omega arith }

get_sub_array-Holds_example :
    Holds few 3 20 (get_sub_array generous (some (array few 64)) 3 (pos 20))
unfolding bits2bytes
get_sub_array-Holds_example =
    get_sub_array-Holds generous few-IsValid 3 20 (omega arith) (omega arith) twenty-Granted
      (inr (omega arith, inl refl))

-- Eight clear quadwords.
abbrev clear : Bytes
clear = replicate 64 0

clear-IsValid : IsValid clear 512
unfolding size_in_8byte
clear-IsValid = record {
  whole = refl;
  bytes = zero-IsBytes 64;
  positive = omega arith;
  countable = omega arith;
}

half-Granted : Granted generous 448
half-Granted = record { structure = refl; buffer = refl; not_killed = omega arith }

get_sub_array-fault_example : get_sub_array generous (some (array clear 512)) 3 (pos 448) ≡ fault
get_sub_array-fault_example =
    get_sub_array-fault generous clear-IsValid 3 448 (omega arith) refl (omega arith) (omega arith)
      half-Granted
