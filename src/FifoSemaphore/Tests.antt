-- ===== src/FifoSemaphore/Tests.antt =====
-- Runs of the semaphores of SuperFIFO/semaphore.cpp.
use task_lunev.Base.{◌≡◌, arith, refl, true, false, some, none, [], ◌∷◌}
use task_lunev.FifoSemaphore.{Pipe, Call, mysem_open, mysem_close, make_pipe, mysem_unlink}
use task_lunev.FifoSemaphore.Laws.{Op, session, session-count, roomy}

abbrev nothing : Pipe
nothing = record { exists = false; bytes = 0; readers = 0; writers = 0 }

-- Made by another process, with two bytes.
abbrev shared : Pipe
shared = record { exists = true; bytes = 2; readers = 1; writers = 1 }

session-count_example :
    session
      (roomy 2)
      (record { creat = true; excl = true })
      1
      (Op.wait ∷ Op.wait ∷ Op.post ∷ Op.post ∷ Op.post ∷ [])
      nothing
    ≡ some (Call.done ∷ Call.waits ∷ Call.done ∷ Call.done ∷ Call.failed ∷ [], 2)
session-count_example =
    session-count 2 1 true (Op.wait ∷ Op.wait ∷ Op.post ∷ Op.post ∷ Op.post ∷ []) nothing refl
      (omega arith)

-- An exclusive open of a name that exists fails, and an unlinked name is gone.
run_exclusive :
    (mysem_open (roomy 2) (record { creat = true; excl = true }) 1 shared ≡ (none, shared))
    × (mysem_unlink shared ≡ (Call.done, record shared { exists = false }))
unfolding mysem_open make_pipe mysem_unlink
run_exclusive = (refl, refl)

-- A close leaves the pipe open, and closes the standard input and output.
run_close :
    mysem_close (record { magic = true }) shared (record { input = true; output = true })
    ≡ (Call.done, shared, record { input = false; output = false })
unfolding mysem_close
run_close = refl
