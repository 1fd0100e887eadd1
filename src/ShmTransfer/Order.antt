-- ===== src/ShmTransfer/Order.antt =====
-- The invariant of a transfer: one process at a time has the shared block, and no byte is lost or
-- repeated.
use task_lunev.Base.{
  ℕ, ◌+◌, ◌≤◌, ◌≡◌, arith, refl, sym, ◌∙◌, Bool, true, false, ◌||◌, if◌then◌else◌, ◌⊎◌, ltb,
}
use task_lunev.Base.{List, [], ◌∷◌, ◌++◌, append_assoc, append-nil, length, ℤ, pos}
use task_lunev.Memory.{Bytes}
use task_lunev.ShmTransfer.{
  Chunk, contents, Writer, Reader, State, Step, start, Reachable, at_start, then_step,
}

-- Who has the shared block to himself.
abbrev pub writer_has : Writer → ℕ
writer_has Writer.reads = 1
writer_has Writer.posts = 1
writer_has Writer.dropped = 1
writer_has _ = 0

abbrev pub reader_has : Reader → ℕ
reader_has Reader.writes = 1
reader_has Reader.posts = 1
reader_has Reader.dropped = 1
reader_has _ = 0

-- The block holds bytes that are not written yet.
abbrev pub posts : Writer → Bool
posts Writer.posts = true
posts Writer.dropped = true
posts _ = false

abbrev pub writes : Reader → Bool
writes Reader.writes = true
writes Reader.dropped = true
writes _ = false

abbrev pub in_block : State → Bool
in_block s = posts s.writer || ltb 0 s.full || writes s.reader

abbrev pub pending : State → Bytes
pending s = if in_block s then s.buf else []

-- The size in the block is that of a read.
abbrev pub behind_read : Writer → Reader → ℕ → Bool
behind_read Writer.posts r f = true
behind_read Writer.dropped r f = true
behind_read w Reader.writes f = true
behind_read w Reader.dropped f = true
behind_read w Reader.posts f = true
behind_read w Reader.tests f = true
behind_read w r f = ltb 0 f

pub record Inv (file : List Chunk) (s : State) : Type 0 where
  pub one : s.empty + s.full + writer_has s.writer + reader_has s.reader ≤ 1
  pub total : s.output ++ (pending s ++ contents s.rest) ≡ contents file
  pub sized : in_block s ≡ true → s.size ≡ pos (length s.buf)
  pub last : behind_read s.writer s.reader s.full ≡ true → s.size ≡ pos 0 → s.rest ≡ []
  pub left :
      (seen : ℤ)
      → (s.reader ≡ Reader.leaves seen) ⊎ (s.reader ≡ Reader.succeeded seen)
      → seen ≡ pos 0
      → s.output ≡ contents file

pub start-Inv : (file : List Chunk) → Inv file (start file)
start-Inv file = record {
  one = omega arith;
  total = refl;
  sized = λ h. cc;
  last = λ h. cc;
  left = λ seen h e. ground arith;
}

length_zero : (xs : Bytes) → pos (length xs) ≡ pos 0 → xs ≡ []
length_zero [] e = refl
length_zero (x ∷ xs) e = ground arith

pending_nothing :
    (s : State)
    → (in_block s ≡ true → s.size ≡ pos (length s.buf))
    → s.size ≡ pos 0
    → pending s ≡ []
pending_nothing s sized e =
    elim (in_block s) as (λ b. (in_block s ≡ b → (if b then s.buf else []) ≡ [])) [
      | true ↦ λ h. length_zero s.buf (sym (sized h) ∙ e)
      | false ↦ λ h. refl
    ]
      refl

Step-Inv : {file : List Chunk} {s t : State} → Inv file s → Step s t → Inv file t
Step-Inv v (Step.writer_takes n w live e) = record {
  one = ground (arith, v.one);
  total = ground (arith, v.total);
  sized = λ h. ground (arith, v.sized);
  last = λ h g. ground (arith, v.last);
  left = λ seen h e'. v.left seen h e';
}
Step-Inv v (Step.writer_times_out a b) = record {
  one = ground (arith, v.one);
  total = ground (arith, v.total);
  sized = λ h. ground (arith, v.sized);
  last = λ h g. ground (arith, v.last, v.sized);
  left = λ seen h e. ground (arith, v.left seen);
}
Step-Inv v (Step.writer_reads c cs a b) = record {
  one = ground (arith, v.one);
  total = ground (arith, v.total);
  sized = λ h. ground (arith, v.sized);
  last = λ h g. ground (arith, v.last, v.sized);
  left = λ seen h e. ground (arith, v.left seen);
}
Step-Inv v (Step.writer_at_end a b) = record {
  one = ground (arith, v.one);
  total = ground (arith, v.total);
  sized = λ h. ground (arith, v.sized);
  last = λ h g. ground (arith, v.last, v.sized);
  left = λ seen h e. ground (arith, v.left seen);
}
Step-Inv v (Step.read_fails a) = record {
  one = ground (arith, v.one);
  total = ground (arith, v.total);
  sized = λ h. ground (arith, v.sized);
  last = λ h g. ground (arith, v.last, v.sized);
  left = λ seen h e. ground (arith, v.left seen);
}
Step-Inv v (Step.writer_posts a b) = record {
  one = ground (arith, v.one);
  total = ground (arith, v.total);
  sized = λ h. ground (arith, v.sized);
  last = λ h g. ground (arith, v.last, v.sized);
  left = λ seen h e. ground (arith, v.left seen);
}
Step-Inv v (Step.writer_loses a b) = record {
  one = ground (arith, v.one);
  total = ground (arith, v.total);
  sized = λ h. ground (arith, v.sized);
  last = λ h g. ground (arith, v.last, v.sized);
  left = λ seen h e. ground (arith, v.left seen);
}
Step-Inv v (Step.writer_waits_in_vain a b) = record {
  one = ground (arith, v.one);
  total = ground (arith, v.total);
  sized = λ h. ground (arith, v.sized);
  last = λ h g. ground (arith, v.last, v.sized);
  left = λ seen h e. ground (arith, v.left seen);
}
Step-Inv v (Step.writer_goes_on a b) = record {
  one = ground (arith, v.one);
  total = ground (arith, v.total);
  sized = λ h. ground (arith, v.sized);
  last = λ h g. ground (arith, v.last, v.sized);
  left = λ seen h e. ground (arith, v.left seen);
}
Step-Inv v (Step.writer_ends a b) = record {
  one = ground (arith, v.one);
  total = ground (arith, v.total);
  sized = λ h. ground (arith, v.sized);
  last = λ h g. ground (arith, v.last, v.sized);
  left = λ seen h e. ground (arith, v.left seen);
}
Step-Inv v (Step.reader_takes n a b) = record {
  one = ground (arith, v.one);
  total = ground (arith, v.total);
  sized = λ h. ground (arith, v.sized);
  last = λ h g. ground (arith, v.last, v.sized);
  left = λ seen h e. ground (arith, v.left seen);
}
Step-Inv v (Step.reader_times_out a b) = record {
  one = ground (arith, v.one);
  total = ground (arith, v.total);
  sized = λ h. ground (arith, v.sized);
  last = λ h g. ground (arith, v.last, v.sized);
  left = λ seen h e. ground (arith, v.left seen);
}
Step-Inv {s = s} v (Step.reader_writes a) = record {
  one = ground (arith, v.one);
  total = ground (arith, v.total, append_assoc s.output s.buf (contents s.rest));
  sized = λ h. ground (arith, v.sized);
  last = λ h g. ground (arith, v.last, v.sized);
  left = λ seen h e. ground (arith, v.left seen);
}
Step-Inv v (Step.write_fails a) = record {
  one = ground (arith, v.one);
  total = ground (arith, v.total);
  sized = λ h. ground (arith, v.sized);
  last = λ h g. ground (arith, v.last, v.sized);
  left = λ seen h e. ground (arith, v.left seen);
}
Step-Inv v (Step.reader_posts a) = record {
  one = ground (arith, v.one);
  total = ground (arith, v.total);
  sized = λ h. ground (arith, v.sized);
  last = λ h g. ground (arith, v.last, v.sized);
  left = λ seen h e. ground (arith, v.left seen);
}
Step-Inv v (Step.reader_goes_on a b) = record {
  one = ground (arith, v.one);
  total = ground (arith, v.total);
  sized = λ h. ground (arith, v.sized);
  last = λ h g. ground (arith, v.last, v.sized);
  left = λ seen h e. ground (arith, v.left seen);
}
Step-Inv {s = s} v (Step.reader_leaves a b) = record {
  one = ground (arith, v.one);
  total = ground (arith, v.total);
  sized = λ h. ground (arith, v.sized);
  last = λ h g. ground (arith, v.last, v.sized);
  left =
      λ seen h e. ground (arith, v.total, v.last, pending_nothing s v.sized, append-nil s.output);
}
Step-Inv v (Step.reader_removes seen a) = record {
  one = ground (arith, v.one);
  total = ground (arith, v.total);
  sized = λ h. ground (arith, v.sized);
  last = λ h g. ground (arith, v.last, v.sized);
  left = λ seen h e. ground (arith, v.left seen);
}

pub Reachable-Inv : {file : List Chunk} {s : State} → Reachable file s → Inv file s
Reachable-Inv at_start = start-Inv _
Reachable-Inv (then_step r step) = Step-Inv (Reachable-Inv r) step
