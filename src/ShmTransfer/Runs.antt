-- ===== src/ShmTransfer/Runs.antt =====
-- FWRonSemShm/wrrd.cpp: what a transfer delivers, and a race at its end.
use task_lunev.Base.{◌≡◌, ◌≢◌, arith, refl, true, false, inr}
use task_lunev.Base.{List, [], ◌∷◌, ◌++◌, length, ℤ, pos, minus_one, ltbℤ}
use task_lunev.Memory.{Bytes}
use task_lunev.ShmTransfer.{
  Chunk, content, contents, Writer, Reader, State, Step, Reachable, at_start, then_step,
}
use task_lunev.ShmTransfer.Order.{Reachable-Inv, pending}

-- What the reader has written is always a beginning of the file.
pub output-prefix :
    {file : List Chunk} {s : State}
    → Reachable file s
    → (more : Bytes) × (s.output ++ more ≡ contents file)
output-prefix {s = s} r = (pending s ++ contents s.rest, (Reachable-Inv r).total)

-- Where, in a reachable state of a transfer, the reader has returned success and the size at its
-- last test was 0, it has written the whole file and nothing else.
pub whole_file_written :
    {file : List Chunk} {s : State}
    → Reachable file s
    → s.reader ≡ Reader.succeeded (pos 0)
    → s.output ≡ contents file
whole_file_written r e = (Reachable-Inv r).left (pos 0) (inr e) refl

-- In every reachable state of a transfer in which the writer is about to read into the shared
-- block, the reader neither writes that block out nor is about to give it back, and no full block
-- waits.
pub one_at_a_time :
    {file : List Chunk} {s : State}
    → Reachable file s
    → s.writer ≡ Writer.reads
    → (s.reader ≢ Reader.writes) × (s.reader ≢ Reader.posts) × (s.full ≡ 0)
one_at_a_time r w =
    let one = (Reachable-Inv r).one in
    ((λ e. ground (arith, one)), (λ e. ground (arith, one)), ground (arith, one))

-- Both processes wait, and the block is empty.
abbrev between : ℤ → Bytes → List Chunk → Bytes → State
between size buf rest output = record {
  removed = false;
  empty = 1;
  full = 0;
  size = size;
  buf = buf;
  rest = rest;
  writer = Writer.waits;
  reader = Reader.waits;
  output = output;
}

-- The reader has written a block and stands at its test, and the writer waits for the next one.
abbrev written : Chunk → List Chunk → Bytes → State
written c rest output = record {
  removed = false;
  empty = 1;
  full = 0;
  size = pos (length (content c));
  buf = content c;
  rest = rest;
  writer = Writer.waits;
  reader = Reader.tests;
  output = output ++ content c;
}

has_more : (c : Chunk) → ltbℤ (pos 0) (pos (length (content c))) ≡ true
has_more c = ground arith

Reachable-written :
    {file : List Chunk} {size : ℤ} {buf output : Bytes} (c : Chunk) (rest : List Chunk)
    → Reachable file (between size buf (c ∷ rest) output)
    → Reachable file (written c rest output)
Reachable-written c rest r =
    let r1 = then_step r (Step.writer_takes 0 refl refl refl) in
    let r2 = then_step r1 (Step.writer_reads c rest refl refl) in
    let r3 = then_step r2 (Step.writer_posts refl refl) in
    let r4 = then_step r3 (Step.writer_goes_on refl (has_more c)) in
    let r5 = then_step r4 (Step.reader_takes 0 refl refl) in
    let r6 = then_step r5 (Step.reader_writes refl) in then_step r6 (Step.reader_posts refl)

-- Every file can be sent with success on both sides.
pub ends_well :
    (file : List Chunk)
    → (s : State) × Reachable file s
      × (s.writer ≡ Writer.succeeded)
      × (s.reader ≡ Reader.succeeded (pos 0))
ends_well file = finish file at_start
  where
    finish :
        {size : ℤ} {buf output : Bytes} (rest : List Chunk)
        → Reachable file (between size buf rest output)
        → (s : State) × Reachable file s
          × (s.writer ≡ Writer.succeeded)
          × (s.reader ≡ Reader.succeeded (pos 0))
    finish [] r =
        let r1 = then_step r (Step.writer_takes 0 refl refl refl) in
        let r2 = then_step r1 (Step.writer_at_end refl refl) in
        let r3 = then_step r2 (Step.writer_posts refl refl) in
        let r4 = then_step r3 (Step.writer_ends refl refl) in
        let r5 = then_step r4 (Step.reader_takes 0 refl refl) in
        let r6 = then_step r5 (Step.reader_writes refl) in
        let r7 = then_step r6 (Step.reader_posts refl) in
        let r8 = then_step r7 (Step.reader_leaves refl refl) in
        (_, then_step r8 (Step.reader_removes (pos 0) refl), refl, refl)
    finish (c ∷ rest) r =
        finish rest (then_step (Reachable-written c rest r) (Step.reader_goes_on refl (has_more c)))

-- For every nonempty file a state can be reached in which the reader has returned success with the
-- size 0 seen, and the writer has failed at its last operation on the removed semaphores.
pub end_lost :
    (c : Chunk) (cs : List Chunk)
    → (s : State) × Reachable (c ∷ cs) s
      × (s.writer ≡ Writer.dropped)
      × (s.reader ≡ Reader.succeeded (pos 0))
end_lost c cs = overtake c cs at_start
  where
    overtake :
        {size : ℤ} {buf output : Bytes} (d : Chunk) (rest : List Chunk)
        → Reachable (c ∷ cs) (between size buf (d ∷ rest) output)
        → (s : State) × Reachable (c ∷ cs) s
          × (s.writer ≡ Writer.dropped)
          × (s.reader ≡ Reader.succeeded (pos 0))
    overtake d [] r =
        let r1 = then_step (Reachable-written d [] r) (Step.writer_takes 0 refl refl refl) in
        let r2 = then_step r1 (Step.writer_at_end refl refl) in
        let r3 = then_step r2 (Step.reader_leaves refl refl) in
        let r4 = then_step r3 (Step.reader_removes (pos 0) refl) in
        (_, then_step r4 (Step.writer_loses refl refl), refl, refl)
    overtake d (e ∷ rest) r =
        overtake e rest
          (then_step (Reachable-written d (e ∷ rest) r) (Step.reader_goes_on refl (has_more d)))

-- For every nonempty file a state can be reached in which the writer has failed to read behind the
-- first chunk, and the reader has returned success after that chunk alone, with the size -1 seen.
pub read_error_unseen :
    (c : Chunk) (cs : List Chunk)
    → (s : State) × Reachable (c ∷ cs) s
      × (s.writer ≡ Writer.failed)
      × (s.reader ≡ Reader.succeeded minus_one)
      × (s.output ≡ content c)
read_error_unseen c cs =
    let r1 = then_step (Reachable-written c cs at_start) (Step.writer_takes 0 refl refl refl) in
    let r2 = then_step r1 (Step.read_fails refl) in
    let r3 = then_step r2 (Step.reader_leaves refl refl) in
    (_, then_step r3 (Step.reader_removes minus_one refl), refl, refl, refl)
