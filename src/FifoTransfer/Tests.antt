-- ===== src/FifoTransfer/Tests.antt =====
-- SuperFIFO/wrrd.cpp with reader 5 and writer 2, whose file has three bytes.
use task_lunev.Base.{ℕ, ◌≡◌, arith, refl, [], ◌∷◌, ◌++◌, true}
use task_lunev.Memory.{Bytes}
use task_lunev.FifoTransfer.{
  State, waits, connected, opened, finished, sends, upd, Step, start, Reachable, at_start,
  then_step, reader_announces, writer_connects, writer_opens, writer_greets, writer_sends,
  writer_ends,
}
use task_lunev.FifoTransfer.Pairs.{served_alone, sent_whole}

abbrev files : ℕ → Bytes
files j = j ∷ 8 ∷ 9 ∷ []

abbrev announced : State
announced = record start { conn = 5 ∷ []; reader = upd start.reader 5 waits }

abbrev taken : State
taken = record announced { conn = []; writer = upd announced.writer 2 (connected 5) }

abbrev opened_pipe : State
opened_pipe = record taken { writer = upd taken.writer 2 (opened 5) }

abbrev greeted_reader : State
greeted_reader = record opened_pipe {
  writer = upd opened_pipe.writer 2 (sends 5 (files 2));
  greeted = upd opened_pipe.greeted 5 true;
}

abbrev all_sent : State
all_sent = record greeted_reader {
  writer = upd greeted_reader.writer 2 (sends 5 []);
  pipe = upd greeted_reader.pipe 5 (2 ∷ 8 ∷ 9 ∷ []);
}

abbrev ended : State
ended = record all_sent { writer = upd all_sent.writer 2 (finished 5) }

ended-Reachable : Reachable files ended
ended-Reachable =
    let a : Step files start announced = reader_announces 5 refl in
    let b : Step files announced taken = writer_connects 5 2 [] refl refl in
    let c : Step files taken opened_pipe = writer_opens 5 2 refl refl in
    let d : Step files opened_pipe greeted_reader = writer_greets 5 2 refl refl in
    let e : Step files greeted_reader all_sent =
      writer_sends 5 2 3 (2 ∷ 8 ∷ 9 ∷ []) refl refl (omega arith) (omega arith) in
    let f : Step files all_sent ended = writer_ends 5 2 refl in
    then_step (then_step (then_step (then_step (then_step (then_step at_start a) b) c) d) e) f

served_alone_example : ◌≡◌ {A = ℕ} 2 2
served_alone_example = served_alone ended-Reachable 2 2 5 refl refl

sent_whole_example : ended.output 5 ++ ended.pipe 5 ≡ files 2
sent_whole_example = sent_whole ended-Reachable 2 5 refl refl
