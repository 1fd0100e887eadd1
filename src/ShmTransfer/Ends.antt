-- ===== src/ShmTransfer/Ends.antt =====
-- FWRonSemShm/wrrd.cpp: how many steps a transfer can take, and that it is never stuck.
use task_lunev.Base.{
  ℕ, zero, suc, ◌+◌, ◌*◌, ◌≤◌, ◌<◌, ◌≡◌, arith, refl, Bool, true, false, if◌then◌else◌, ◌&&◌,
}
use task_lunev.Base.{List, [], ◌∷◌, length, pos, ltbℤ}
use task_lunev.ShmTransfer.{Chunk, Writer, Reader, State, Step, start}

-- The steps that the writer still takes.
abbrev writer_work : Writer → Bool → ℕ → ℕ
writer_work Writer.waits more r = 4 * r + 4
writer_work Writer.reads more r = 4 * r + 3
writer_work Writer.posts more r = if more then 4 * r + 6 else 2
writer_work Writer.tests more r = if more then 4 * r + 5 else 1
writer_work _ more r = 0

-- The blocks that the writer still gives.
abbrev to_give : Writer → Bool → ℕ → ℕ
to_give Writer.waits more r = r + 1
to_give Writer.reads more r = r + 1
to_give Writer.posts more r = if more then r + 2 else 1
to_give Writer.tests more r = if more then r + 1 else 0
to_give _ more r = 0

-- The steps of the reader to the end of its round.
abbrev reader_work : Reader → ℕ
reader_work Reader.waits = 2
reader_work Reader.writes = 5
reader_work Reader.posts = 4
reader_work Reader.tests = 3
reader_work (Reader.leaves seen) = 1
reader_work _ = 0

abbrev work : State → ℕ
work s =
    writer_work s.writer (ltbℤ (pos 0) s.size) (length s.rest)
    + 4 * (s.full + to_give s.writer (ltbℤ (pos 0) s.size) (length s.rest))
    + reader_work s.reader

Step-work : {s t : State} → Step s t → work t < work s
Step-work (Step.writer_takes n w live e) = ground arith
Step-work (Step.writer_times_out a b) = ground arith
Step-work (Step.writer_reads c cs a b) = ground arith
Step-work (Step.writer_at_end a b) = ground arith
Step-work (Step.read_fails a) = ground arith
Step-work (Step.writer_posts a b) = ground arith
Step-work (Step.writer_loses a b) = ground arith
Step-work (Step.writer_waits_in_vain a b) = ground arith
Step-work (Step.writer_goes_on a b) = ground arith
Step-work (Step.writer_ends a b) = ground arith
Step-work (Step.reader_takes n a b) = ground arith
Step-work (Step.reader_times_out a b) = ground arith
Step-work (Step.reader_writes a) = ground arith
Step-work (Step.write_fails a) = ground arith
Step-work (Step.reader_posts a) = ground arith
Step-work (Step.reader_goes_on a b) = ground arith
Step-work (Step.reader_leaves a b) = ground arith
Step-work (Step.reader_removes seen a) = ground arith

-- A run of so many steps.
pub data Run (s : State) : ℕ → State → Type 0 where
  stays : Run s 0 s
  goes_on : {n : ℕ} {t u : State} → Run s n t → Step t u → Run s (suc n) u

Run-work : {s t : State} {n : ℕ} → Run s n t → n + work t ≤ work s
Run-work stays = omega arith
Run-work (goes_on run step) = omega (arith, Run-work run, Step-work step)

-- A run of a transfer of a file that is read in some number of chunks, whatever fails or times out
-- in it, has at most 8 steps for each chunk and 10 more.
pub steps_bounded :
    (file : List Chunk) (n : ℕ) (t : State) → Run (start file) n t → n ≤ 8 * length file + 10
steps_bounded file n t run = omega (arith, Run-work run)

-- Behind the return of the writer, and of the reader.
abbrev pub writer_returned : Writer → Bool
writer_returned Writer.succeeded = true
writer_returned Writer.failed = true
writer_returned Writer.dropped = true
writer_returned _ = false

abbrev pub reader_returned : Reader → Bool
reader_returned (Reader.succeeded seen) = true
reader_returned Reader.failed = true
reader_returned Reader.dropped = true
reader_returned _ = false

writer_takes_or_fails :
    (s : State)
    → s.writer ≡ Writer.waits
    → (b : Bool) → s.removed ≡ b
    → (n : ℕ) → s.empty ≡ n
    → (t : State) × Step s t
writer_takes_or_fails s h true e n e' = (_, Step.writer_waits_in_vain h e)
writer_takes_or_fails s h false e zero e' = (_, Step.writer_times_out h e')
writer_takes_or_fails s h false e (suc n) e' = (_, Step.writer_takes n h e e')

writer_reads_or_ends :
    (s : State) → s.writer ≡ Writer.reads → (cs : List Chunk) → s.rest ≡ cs → (t : State) × Step s t
writer_reads_or_ends s h [] e = (_, Step.writer_at_end h e)
writer_reads_or_ends s h (c ∷ cs) e = (_, Step.writer_reads c cs h e)

writer_posts_or_loses :
    (s : State) → s.writer ≡ Writer.posts → (b : Bool) → s.removed ≡ b → (t : State) × Step s t
writer_posts_or_loses s h true e = (_, Step.writer_loses h e)
writer_posts_or_loses s h false e = (_, Step.writer_posts h e)

writer_decides :
    (s : State)
    → s.writer ≡ Writer.tests
    → (b : Bool) → ltbℤ (pos 0) s.size ≡ b
    → (t : State) × Step s t
writer_decides s h true e = (_, Step.writer_goes_on h e)
writer_decides s h false e = (_, Step.writer_ends h e)

writer_goes :
    (s : State) (w : Writer) → s.writer ≡ w → writer_returned w ≡ false → (t : State) × Step s t
writer_goes s Writer.waits e h = writer_takes_or_fails s e s.removed refl s.empty refl
writer_goes s Writer.reads e h = writer_reads_or_ends s e s.rest refl
writer_goes s Writer.posts e h = writer_posts_or_loses s e s.removed refl
writer_goes s Writer.tests e h = writer_decides s e (ltbℤ (pos 0) s.size) refl
writer_goes s Writer.succeeded e h = ground arith
writer_goes s Writer.failed e h = ground arith
writer_goes s Writer.dropped e h = ground arith

reader_takes_or_fails :
    (s : State) → s.reader ≡ Reader.waits → (n : ℕ) → s.full ≡ n → (t : State) × Step s t
reader_takes_or_fails s h zero e = (_, Step.reader_times_out h e)
reader_takes_or_fails s h (suc n) e = (_, Step.reader_takes n h e)

reader_decides :
    (s : State)
    → s.reader ≡ Reader.tests
    → (b : Bool) → ltbℤ (pos 0) s.size ≡ b
    → (t : State) × Step s t
reader_decides s h true e = (_, Step.reader_goes_on h e)
reader_decides s h false e = (_, Step.reader_leaves h e)

reader_goes :
    (s : State) (r : Reader) → s.reader ≡ r → reader_returned r ≡ false → (t : State) × Step s t
reader_goes s Reader.waits e h = reader_takes_or_fails s e s.full refl
reader_goes s Reader.writes e h = (_, Step.reader_writes e)
reader_goes s Reader.posts e h = (_, Step.reader_posts e)
reader_goes s Reader.tests e h = reader_decides s e (ltbℤ (pos 0) s.size) refl
reader_goes s (Reader.leaves seen) e h = (_, Step.reader_removes seen e)
reader_goes s (Reader.succeeded seen) e h = ground arith
reader_goes s Reader.failed e h = ground arith
reader_goes s Reader.dropped e h = ground arith

-- In every state of a transfer in which the writer and the reader have not both returned, some
-- step is possible.
pub never_stuck :
    (s : State)
    → (writer_returned s.writer && reader_returned s.reader) ≡ false
    → (t : State) × Step s t
never_stuck s h =
    elim (writer_returned s.writer)
        as (λ b. (writer_returned s.writer ≡ b → (t : State) × Step s t)) [
          | true ↦ λ e. reader_goes s s.reader refl (ground (arith, h, e))
          | false ↦ λ e. writer_goes s s.writer refl e
        ]
      refl
