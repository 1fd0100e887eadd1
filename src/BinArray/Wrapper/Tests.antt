-- ===== src/BinArray/Wrapper/Tests.antt =====
-- Runs of the class `binarray`.
use task_lunev.Base.{◌*◌, ◌≡◌, refl, if◌then◌else◌, ltb, some}
use task_lunev.Memory.Bits.{bit_at}
use task_lunev.BinArray.{array}
use task_lunev.BinArray.Tests.{few, few-IsValid, generous, generous-Granted}
use task_lunev.BinArray.Wrapper.{undefined, Slot, move, destruct, logic_and_op}
use task_lunev.BinArray.Wrapper.Laws.{Gives, logic_and_op-Gives}

logic_and_op-Gives_example :
    Gives 64
      (λ p. if ltb p 64 then bit_at few p * bit_at few p else bit_at few p)
      (logic_and_op generous (some (array few 64)) (some (array few 64)))
logic_and_op-Gives_example = logic_and_op-Gives generous few-IsValid few-IsValid generous-Granted

-- The move constructor leaves the old object without a value, and its destructor uses it.
run_move : destruct (move (Slot.holds (some (array few 64)))).1 ≡ undefined
unfolding move destruct
run_move = refl
