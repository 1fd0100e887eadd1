-- ===== src/FifoTransfer.antt =====
-- SuperFIFO/wrrd.cpp: readers that announce themselves on one named pipe and have a pipe of their
-- own each, and writers that take a reader each and send it a file.
pub mod Order
pub mod Moves
pub mod Pairs
mod Tests
use task_lunev.Base.{
  ℕ, zero, suc, ◌+◌, ◌≤◌, ◌<◌, ◌≡◌, ◌==◌, Bool, true, false, if◌then◌else◌, Option, none, some,
  List, [], ◌∷◌, ◌++◌, length, take, drop,
}
use task_lunev.Memory.{Bytes}

-- Where `reader` is: before it has written its number, in `poll`, in its loop, behind it, behind an
-- error or a timeout, or at an `fwrite` of the -1 that a failing `read` gave, which is undefined.
pub data Reader : Type 0 where
  created waits reads done failed astray : Reader

-- Where `writer` is, with the number that it has read: before that read, behind it, behind the
-- `open` of the reader's pipe, in its loop with this much of its file left, and behind it; behind an
-- error with the pipe of the reader open or not; or at a `write` of the -1 that a failing `read` of
-- the file gave, which takes what lies behind the buffer.
pub data Writer : Type 0 where
  starts failed : Writer
  connected opened finished lost : ℕ → Writer
  sends cut astray : ℕ → Bytes → Writer

-- `conn` holds the numbers in the pipe of the connections. Each reader has a pipe, in front of whose
-- bytes stands the `int` of the greeting, and its output, the bytes that `fwrite` has taken. A reader
-- is intact while `fwrite` has taken all that it has read and it has not left its loop by an error.
pub record State : Type 0 where
  pub conn : List ℕ
  pub writer : ℕ → Writer
  pub reader : ℕ → Reader
  pub greeted : ℕ → Bool
  pub pipe : ℕ → Bytes
  pub output : ℕ → Bytes
  pub intact : ℕ → Bool

abbrev pub upd : {A : Type 0} → (ℕ → A) → ℕ → A → ℕ → A
upd f i v j = if i == j then v else f j

-- `PIPE_BUF`
abbrev pub pipe_buf : ℕ
pipe_buf = 4096

-- Whether a writer has closed the pipe of this reader.
abbrev pub has_closed : ℕ → Writer → Bool
has_closed i (finished k) = k == i
has_closed i (cut k rest) = k == i
has_closed i _ = false

-- Whether a reader holds its pipe open, or has not begun to.
abbrev pub is_open : Reader → Bool
is_open created = true
is_open waits = true
is_open reads = true
is_open _ = false

-- One call of a reader `i` or of a writer `j` with the file `file j`. The bytes in a pipe are lost
-- when its reader goes, and nothing can be sent there any more; where `fwrite` takes less than it is
-- given, the loop does not notice and goes on.
pub data Step (file : ℕ → Bytes) (s : State) : State → Type 0 where
  reader_announces :
      (i : ℕ)
      → s.reader i ≡ created
      → Step file s (record s { conn = s.conn ++ (i ∷ []); reader = upd s.reader i waits })
  reader_wakes :
      (i : ℕ)
      → s.reader i ≡ waits
      → s.greeted i ≡ true
      → Step file s (record s { reader = upd s.reader i reads; greeted = upd s.greeted i false })
  reader_finds_closed :
      (i j : ℕ)
      → s.reader i ≡ waits
      → s.greeted i ≡ false
      → has_closed i (s.writer j) ≡ true
      → Step file s (record s { reader = upd s.reader i reads })
  reader_reads :
      (i k : ℕ)
      → s.reader i ≡ reads
      → k ≤ pipe_buf
      → k ≤ length (s.pipe i)
      → Step file s (record s {
        output = upd s.output i (s.output i ++ take k (s.pipe i));
        pipe = upd s.pipe i (drop k (s.pipe i));
      })
  reader_ends :
      (i j : ℕ)
      → s.reader i ≡ reads
      → s.pipe i ≡ []
      → has_closed i (s.writer j) ≡ true
      → Step file s (record s { reader = upd s.reader i done })
  reader_drops :
      (i k m : ℕ)
      → s.reader i ≡ reads
      → k ≤ pipe_buf
      → k ≤ length (s.pipe i)
      → m < k
      → Step file s (record s {
        reader = upd s.reader i reads;
        output = upd s.output i (s.output i ++ take m (s.pipe i));
        pipe = upd s.pipe i (drop k (s.pipe i));
        intact = upd s.intact i false;
      })
  reader_breaks :
      (i : ℕ)
      → s.reader i ≡ reads
      → Step file s
          (record s { reader = upd s.reader i Reader.astray; intact = upd s.intact i false })
  reader_fails :
      (i : ℕ)
      → is_open (s.reader i) ≡ true
      → Step file s (record s {
        reader = upd s.reader i failed;
        greeted = upd s.greeted i false;
        pipe = upd s.pipe i [];
        intact = upd s.intact i false;
      })
  writer_connects :
      (i j : ℕ) (rest : List ℕ)
      → s.writer j ≡ starts
      → s.conn ≡ i ∷ rest
      → Step file s (record s { conn = rest; writer = upd s.writer j (connected i) })
  writer_fails :
      (j : ℕ) → s.writer j ≡ starts → Step file s (record s { writer = upd s.writer j failed })
  writer_opens :
      (i j : ℕ)
      → s.writer j ≡ connected i
      → is_open (s.reader i) ≡ true
      → Step file s (record s { writer = upd s.writer j (opened i) })
  writer_loses :
      (i j : ℕ)
      → s.writer j ≡ connected i
      → Step file s (record s { writer = upd s.writer j (lost i) })
  writer_greets :
      (i j : ℕ)
      → s.writer j ≡ opened i
      → is_open (s.reader i) ≡ true
      → Step file s
          (record s { writer = upd s.writer j (sends i (file j)); greeted = upd s.greeted i true })
  writer_sends :
      (i j k : ℕ) (rest : Bytes)
      → s.writer j ≡ sends i rest
      → is_open (s.reader i) ≡ true
      → k ≤ pipe_buf
      → k ≤ length rest
      → Step file s (record s {
        writer = upd s.writer j (sends i (drop k rest));
        pipe = upd s.pipe i (s.pipe i ++ take k rest);
      })
  writer_ends :
      (i j : ℕ)
      → s.writer j ≡ sends i []
      → Step file s (record s { writer = upd s.writer j (finished i) })
  writer_cut :
      (i j : ℕ) (rest : Bytes)
      → s.writer j ≡ sends i rest
      → Step file s (record s { writer = upd s.writer j (cut i rest) })
  writer_breaks :
      (i j : ℕ) (rest : Bytes)
      → s.writer j ≡ sends i rest
      → Step file s (record s { writer = upd s.writer j (Writer.astray i rest) })
  greeting_cut :
      (i j : ℕ)
      → s.writer j ≡ opened i
      → Step file s (record s { writer = upd s.writer j (cut i (file j)) })

abbrev pub start : State
start = record {
  conn = [];
  writer = λ j. starts;
  reader = λ i. created;
  greeted = λ i. false;
  pipe = λ i. [];
  output = λ i. [];
  intact = λ i. true;
}

pub data Reachable (file : ℕ → Bytes) : State → Type 0 where
  at_start : Reachable file start
  then_step : {s t : State} → Reachable file s → Step file s t → Reachable file t
