-- ===== src/ShmTransfer/Tests.antt =====
-- Runs of a transfer of FWRonSemShm/wrrd.cpp on concrete files.
use task_lunev.Base.{◌≡◌, ◌≤◌, ◌≢◌, refl, true, false, [], ◌∷◌, pos, false}
use task_lunev.ShmTransfer.{Chunk, Writer, Reader, State, Step, Reachable, at_start, then_step}
use task_lunev.ShmTransfer.Ends.{stays, goes_on, steps_bounded}
use task_lunev.ShmTransfer.Runs.{whole_file_written, one_at_a_time}

abbrev two_bytes : Chunk
two_bytes = record { first = 7; others = 8 ∷ [] }

abbrev one_byte : Chunk
one_byte = record { first = 9; others = [] }

steps_bounded_example : 1 ≤ 18
steps_bounded_example =
    steps_bounded (two_bytes ∷ []) 1 _ (goes_on stays (Step.writer_takes 0 refl refl refl))

-- The reader has left with the whole file, and the writer is about to give the empty block.
abbrev left_behind : State
left_behind = record {
  removed = true;
  empty = 0;
  full = 0;
  size = pos 0;
  buf = [];
  rest = [];
  writer = Writer.posts;
  reader = Reader.succeeded (pos 0);
  output = 9 ∷ [];
}

left_behind-Reachable : Reachable (one_byte ∷ []) left_behind
left_behind-Reachable =
    let r1 = then_step at_start (Step.writer_takes 0 refl refl refl) in
    let r2 = then_step r1 (Step.writer_reads one_byte [] refl refl) in
    let r3 = then_step r2 (Step.writer_posts refl refl) in
    let r4 = then_step r3 (Step.writer_goes_on refl refl) in
    let r5 = then_step r4 (Step.reader_takes 0 refl refl) in
    let r6 = then_step r5 (Step.reader_writes refl) in
    let r7 = then_step r6 (Step.reader_posts refl) in
    let r8 = then_step r7 (Step.writer_takes 0 refl refl refl) in
    let r9 = then_step r8 (Step.writer_at_end refl refl) in
    let r10 = then_step r9 (Step.reader_leaves refl refl) in
    then_step r10 (Step.reader_removes (pos 0) refl)

whole_file_written_example : left_behind.output ≡ 9 ∷ []
whole_file_written_example = whole_file_written left_behind-Reachable refl

abbrev reading : State
reading = record {
  removed = false;
  empty = 0;
  full = 0;
  size = pos 0;
  buf = [];
  rest = two_bytes ∷ [];
  writer = Writer.reads;
  reader = Reader.waits;
  output = [];
}

one_at_a_time_example :
    (reading.reader ≢ Reader.writes) × (reading.reader ≢ Reader.posts) × (reading.full ≡ 0)
one_at_a_time_example =
    one_at_a_time {file = two_bytes ∷ []} (then_step at_start (Step.writer_takes 0 refl refl refl))
      refl
