-- ===== src/ShmTransfer.antt =====
-- FWRonSemShm/wrrd.cpp: a file sent through shared memory, block by block, under two semaphores.
-- This is the part of `writer` and `reader` behind the handshake.
mod Tests
pub mod Order
pub mod Runs
pub mod Ends
use task_lunev.Base.{
  ℕ, zero, suc, ◌+◌, Bool, true, false, ◌||◌, if◌then◌else◌, ltb, ◌≡◌, ◌≢◌, List, [], ◌∷◌, ◌++◌,
  length,
}
use task_lunev.Base.{ℤ, pos, negsuc, minus_one, ltbℤ}
use task_lunev.Memory.{Bytes}

-- What one `read` of the file gives, with at least one byte.
pub record Chunk : Type 0 where
  pub first : ℕ
  pub others : Bytes

abbrev pub content : Chunk → Bytes
content c = c.first ∷ c.others

abbrev pub contents : List Chunk → Bytes
contents [] = []
contents (c ∷ cs) = content c ++ contents cs

-- Where the writer is: before `readerP (EMPTY)`, before `read`, before `readerV (FULL)`, before the
-- test of the loop, and behind its return; `dropped` is a failure of `readerV (FULL)`, with the block still in the shared memory.
pub data Writer : Type 0 where
  waits reads posts tests succeeded failed dropped : Writer

-- Where the reader is: before `persP (FULL)`, before `write`, before `persV (EMPTY)`, before the test
-- of the loop, and behind it, with the size that it saw; then behind its return; `dropped` is a
-- failure of `write`.
pub data Reader : Type 0 where
  waits writes posts tests : Reader
  leaves : ℤ → Reader
  succeeded : ℤ → Reader
  failed dropped : Reader

-- The semaphores `EMPTY` and `FULL` of the reader, until `IPC_RMID`; `currSizeData` and `buf` of the
-- shared memory; what `read` has still to give; and the standard output of the reader.
pub record State : Type 0 where
  pub removed : Bool
  pub empty : ℕ
  pub full : ℕ
  pub size : ℤ
  pub buf : Bytes
  pub rest : List Chunk
  pub writer : Writer
  pub reader : Reader
  pub output : Bytes

-- `InitPersSem` behind `shmget`, which gives zeroed memory.
abbrev pub start : List Chunk → State
start file = record {
  removed = false;
  empty = 1;
  full = 0;
  size = pos 0;
  buf = [];
  rest = file;
  writer = Writer.waits;
  reader = Reader.waits;
  output = [];
}

-- One step of the writer or of the reader. A `Ptime` that cannot go on may time out at any moment;
-- an operation on removed semaphores fails.
pub data Step (s : State) : State → Type 0 where
  writer_takes :
      (n : ℕ)
      → s.writer ≡ Writer.waits
      → s.removed ≡ false
      → s.empty ≡ suc n
      → Step s (record s { empty = n; writer = Writer.reads })
  writer_times_out :
      s.writer ≡ Writer.waits → s.empty ≡ 0 → Step s (record s { writer = Writer.failed })
  writer_reads :
      (c : Chunk) (cs : List Chunk)
      → s.writer ≡ Writer.reads
      → s.rest ≡ c ∷ cs
      → Step s (record s {
        size = pos (length (content c));
        buf = content c;
        rest = cs;
        writer = Writer.posts;
      })
  writer_at_end :
      s.writer ≡ Writer.reads
      → s.rest ≡ []
      → Step s (record s { size = pos 0; buf = []; writer = Writer.posts })
  read_fails :
      s.writer ≡ Writer.reads → Step s (record s { size = minus_one; writer = Writer.failed })
  writer_posts :
      s.writer ≡ Writer.posts
      → s.removed ≡ false
      → Step s (record s { full = s.full + 1; writer = Writer.tests })
  writer_loses :
      s.writer ≡ Writer.posts → s.removed ≡ true → Step s (record s { writer = Writer.dropped })
  writer_waits_in_vain :
      s.writer ≡ Writer.waits → s.removed ≡ true → Step s (record s { writer = Writer.failed })
  writer_goes_on :
      s.writer ≡ Writer.tests
      → ltbℤ (pos 0) s.size ≡ true
      → Step s (record s { writer = Writer.waits })
  writer_ends :
      s.writer ≡ Writer.tests
      → ltbℤ (pos 0) s.size ≡ false
      → Step s (record s { writer = Writer.succeeded })
  reader_takes :
      (n : ℕ)
      → s.reader ≡ Reader.waits
      → s.full ≡ suc n
      → Step s (record s { full = n; reader = Reader.writes })
  reader_times_out :
      s.reader ≡ Reader.waits → s.full ≡ 0 → Step s (record s { reader = Reader.failed })
  reader_writes :
      s.reader ≡ Reader.writes
      → Step s (record s { output = s.output ++ s.buf; reader = Reader.posts })
  write_fails : s.reader ≡ Reader.writes → Step s (record s { reader = Reader.dropped })
  reader_posts :
      s.reader ≡ Reader.posts → Step s (record s { empty = s.empty + 1; reader = Reader.tests })
  reader_goes_on :
      s.reader ≡ Reader.tests
      → ltbℤ (pos 0) s.size ≡ true
      → Step s (record s { reader = Reader.waits })
  reader_leaves :
      s.reader ≡ Reader.tests
      → ltbℤ (pos 0) s.size ≡ false
      → Step s (record s { reader = Reader.leaves s.size })
  reader_removes :
      (seen : ℤ)
      → s.reader ≡ Reader.leaves seen
      → Step s (record s { removed = true; reader = Reader.succeeded seen })

pub data Reachable (file : List Chunk) : State → Type 0 where
  at_start : Reachable file (start file)
  then_step : {s t : State} → Reachable file s → Step s t → Reachable file t
