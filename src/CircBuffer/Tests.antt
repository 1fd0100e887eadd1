-- ===== src/CircBuffer/Tests.antt =====
-- Runs of the circular buffer, and the theorems about it at concrete inputs.
use task_lunev.Base.{◌≡◌, arith, refl, true, some, none, List, [], ◌∷◌, pos, minus_one}
use task_lunev.Memory.{Bytes}
use task_lunev.BinArray.Create.{Allocator}
use task_lunev.CircBuffer.{
  CircBuffer, returned, get_writer, get_reader, initialize, reader_of, verifier,
}
use task_lunev.CircBuffer.Laws.{holding, Room, get_writer-Room}
use task_lunev.CircBuffer.Client.{Event, feed, drain, consume, session, queue_run, run}
use task_lunev.CircBuffer.Client.Queue.{session-queue, run-queue, consume-holding}

abbrev four : Bytes
four = 10 ∷ 11 ∷ 12 ∷ 13 ∷ []

abbrev all_granted : Allocator
all_granted = record { grants = λ n. true; stale = λ i. 0; stale-lt = λ i. omega arith }

-- A structure before its initialization.
abbrev fresh : CircBuffer
fresh = record { m_capacity = pos 0; m_size = pos 0; m_buf = none; m_reader = none }

abbrev story : List Event
story = feed (1 ∷ 2 ∷ []) ∷ feed (3 ∷ []) ∷ drain ∷ feed (4 ∷ 5 ∷ []) ∷ []

story-queue : queue_run 4 story [] [] ≡ some ((1 ∷ 2 ∷ 3 ∷ [], 4 ∷ 5 ∷ []))
story-queue = refl

refused : queue_run 4 (feed four ∷ feed (1 ∷ []) ∷ []) [] [] ≡ none
refused = refl

initialize-zero : initialize all_granted (some fresh) (pos 0) ≡ (minus_one, some fresh)
unfolding initialize
initialize-zero = refl

-- The reader in the middle: the place of the writer is in front of it.
get_writer-middle : get_writer (holding four 2 3) ≡ returned (pos 1, pos 1)
unfolding get_writer reader_of verifier
get_writer-middle = refl

-- The bytes at offsets 2, 3 and 0 are held; the reader is offered offset 0.
get_reader-middle : get_reader (holding four 2 3) ≡ returned (pos 0, pos 1)
unfolding get_reader reader_of verifier
get_reader-middle = refl

session-queue_example :
    session all_granted fresh 4 story ≡ returned (some ((1 ∷ 2 ∷ 3 ∷ [], 4 ∷ 5 ∷ [])))
session-queue_example = session-queue all_granted fresh 4 story (omega arith) (omega arith) refl

run-queue_example :
    run (drain ∷ feed (7 ∷ []) ∷ []) (holding four 0 3) []
    ≡ returned (some ((10 ∷ 11 ∷ 12 ∷ [], 7 ∷ [])))
run-queue_example =
    run-queue (drain ∷ feed (7 ∷ []) ∷ []) four 3 [] (omega arith) (omega arith) (omega arith)

consume-holding_example : consume (holding four 0 3) 1 ≡ returned (10 ∷ [], holding four 0 2)
consume-holding_example =
    consume-holding four 3 (omega arith) (omega arith) (omega arith) 1 (omega arith)

get_writer-Room_example : Room four 2 3
get_writer-Room_example = get_writer-Room four 2 3 (omega arith) (omega arith) (omega arith)
