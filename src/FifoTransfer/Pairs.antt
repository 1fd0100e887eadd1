-- ===== src/FifoTransfer/Pairs.antt =====
-- SuperFIFO/wrrd.cpp: the runs of any number of writers and readers.
use task_lunev.Base.{
  ℕ, ◌≡◌, arith, refl, sym, ap, ap₂, ◌∙◌, true, false, some, [], ◌++◌, append-nil,
}
use task_lunev.Memory.{Bytes}
use task_lunev.FifoTransfer.{
  upd, Reader, reads, done, Writer, opened, finished, lost, sends, cut, State, Step,
  reader_announces, reader_wakes, reader_finds_closed, reader_reads, reader_ends, reader_drops,
  reader_breaks, reader_fails, writer_connects, writer_fails, writer_opens, writer_loses,
  writer_greets, writer_sends, writer_ends, writer_cut, writer_breaks, greeting_cut, start,
  Reachable, at_start, then_step,
}
use task_lunev.FifoTransfer.Order.{
  target, unsent, received, Inv, writer_moves, reader_moves, reader_loses, upd_other,
}
use task_lunev.FifoTransfer.Moves.{announces-Inv, reads-Inv, sends-Inv, connects-Inv}

start-Inv : (file : ℕ → Bytes) → Inv file start
start-Inv file = record {
  once = λ i. omega arith;
  taken = λ j i h. ground arith;
  alone = λ j k i h g. ground arith;
  whole = λ j i h g. ground arith;
  untouched = λ i h g. refl;
}

Step-Inv : {file : ℕ → Bytes} {s t : State} → Inv file s → Step file s t → Inv file t
Step-Inv v (reader_announces i e) = announces-Inv v i e
Step-Inv v (reader_wakes i e g) = reader_moves v i reads _ refl
Step-Inv {s} v (reader_finds_closed i j e g h) = reader_moves v i reads s.greeted refl
Step-Inv v (reader_reads i k e l m) = reads-Inv v i k
Step-Inv {s} v (reader_ends i j e p h) = reader_moves v i done s.greeted refl
Step-Inv {s} v (reader_drops i k m e l n d) =
    reader_loses v i reads s.greeted _ _ refl
      (λ j h. ap₂ ◌++◌ (upd_other s.output i _ j h) (upd_other s.pipe i _ j h))
Step-Inv {s} v (reader_breaks i e) =
    reader_loses v i Reader.astray s.greeted s.output s.pipe refl (λ j h. refl)
Step-Inv {s} v (reader_fails i e) =
    reader_loses v i Reader.failed (upd s.greeted i false) s.output _ refl
      (λ j h. ap (λ t. s.output j ++ t) (upd_other s.pipe i [] j h))
Step-Inv v (writer_connects i j rest e c) = connects-Inv v i j rest e c
Step-Inv {file} {s} v (writer_fails j e) =
    writer_moves v j Writer.failed s.greeted (sym (ap target e)) (sym (ap (unsent (file j)) e))
Step-Inv {file} {s} v (writer_opens i j e o) =
    writer_moves v j (opened i) s.greeted (sym (ap target e)) (sym (ap (unsent (file j)) e))
Step-Inv {file} {s} v (writer_loses i j e) =
    writer_moves v j (lost i) s.greeted (sym (ap target e)) (sym (ap (unsent (file j)) e))
Step-Inv {file} {s} v (writer_greets i j e o) =
    writer_moves v j (sends i (file j)) _ (sym (ap target e)) (sym (ap (unsent (file j)) e))
Step-Inv v (writer_sends i j k rest e o l m) = sends-Inv v i j k rest e
Step-Inv {file} {s} v (writer_ends i j e) =
    writer_moves v j (finished i) s.greeted (sym (ap target e)) (sym (ap (unsent (file j)) e))
Step-Inv {file} {s} v (writer_cut i j rest e) =
    writer_moves v j (cut i rest) s.greeted (sym (ap target e)) (sym (ap (unsent (file j)) e))
Step-Inv {file} {s} v (writer_breaks i j rest e) =
    writer_moves v j (Writer.astray i rest) s.greeted (sym (ap target e))
      (sym (ap (unsent (file j)) e))
Step-Inv {file} {s} v (greeting_cut i j e) =
    writer_moves v j (cut i (file j)) s.greeted (sym (ap target e)) (sym (ap (unsent (file j)) e))

pub Reachable-Inv : {file : ℕ → Bytes} {s : State} → Reachable file s → Inv file s
Reachable-Inv {file} at_start = start-Inv file
Reachable-Inv (then_step r st) = Step-Inv (Reachable-Inv r) st

-- In every reachable state of any number of writers and readers, no two writers have taken the
-- same reader, also where a writer or a reader has failed.
pub served_alone :
    {file : ℕ → Bytes} {s : State}
    → Reachable file s
    → (j k i : ℕ) → target (s.writer j) ≡ some i
    → target (s.writer k) ≡ some i
    → j ≡ k
served_alone r = (Reachable-Inv r).alone

-- In every reachable state of any number of writers and readers, where a writer has finished with
-- a reader whose fwrite calls have taken all that it has read and that has not left its loop by an
-- error, the output of that reader and what is left in its pipe are together the whole file of
-- that writer.
pub sent_whole :
    {file : ℕ → Bytes} {s : State}
    → Reachable file s
    → (j i : ℕ) → s.writer j ≡ finished i
    → s.intact i ≡ true
    → s.output i ++ s.pipe i ≡ file j
sent_whole {file} {s} r j i e g =
    let w = (Reachable-Inv r).whole j i (ap target e) g in
    sym (append-nil (received s i)) ∙ ap (λ t. received s i ++ unsent (file j) t) (sym e) ∙ w
