-- ===== src/BinArray/Complement/Tests.antt =====
-- A run of `baGetInvert`.
use task_lunev.Base.{◌-◌, ◌*◌, if◌then◌else◌, ltb, some}
use task_lunev.Memory.Bits.{bit_at}
use task_lunev.BinArray.{array, bits2bytes}
use task_lunev.BinArray.Check.{Becomes}
use task_lunev.BinArray.Tests.{few, few-IsValid, generous, generous-Granted}
use task_lunev.BinArray.Complement.{get_invert}
use task_lunev.BinArray.Complement.Laws.{get_invert-Becomes}

get_invert-Becomes_example :
    Becomes 64
      (λ p. if ltb p (8 * bits2bytes 64) then 1 - bit_at few p else 0)
      (get_invert generous (some (array few 64)))
get_invert-Becomes_example = get_invert-Becomes generous few-IsValid generous-Granted
