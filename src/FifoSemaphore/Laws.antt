-- ===== src/FifoSemaphore/Laws.antt =====
-- SuperFIFO/semaphore.cpp: a semaphore made of a pipe counts like a semaphore.
use task_lunev.Base.{
  ℕ, zero, suc, ◌+◌, ◌≤◌, ◌<◌, ◌≡◌, arith, refl, ap, ◌∙◌, dec_lt, Bool, true, false, if◌then◌else◌,
  ltb,
}
use task_lunev.Base.{Option, none, some, List, [], ◌∷◌}
use task_lunev.FifoSemaphore.{
  Pipe, Mysem, System, Flags, make_pipe, open_error, write_value, mysem_open, Opened, Call,
  mysem_post, mysem_wait,
}

pub data Op : Type 0 where
  post wait : Op

-- The calls on one semaphore, by whatever process: what each says, and the pipe at the end.
unfoldable pub run : System → Mysem → List Op → Pipe → List Call × Pipe
run sys sem [] p = ([], p)
run sys sem (Op.post ∷ ops) p =
    let (c, p') = mysem_post sys sem p in let (cs, q) = run sys sem ops p' in (c ∷ cs, q)
run sys sem (Op.wait ∷ ops) p =
    let (c, p') = mysem_wait sem p in let (cs, q) = run sys sem ops p' in (c ∷ cs, q)

-- The specification: a number up to a limit, which `post` raises and `wait` lowers. A `wait` at 0
-- has to wait, and a `post` at the limit fails.
abbrev counted : ℕ → Bool → Call × ℕ
counted n true = (Call.done, n + 1)
counted n false = (Call.failed, n)

abbrev pub count_post : ℕ → ℕ → Call × ℕ
count_post limit n = counted n (ltb n limit)

abbrev pub count_wait : ℕ → Call × ℕ
count_wait zero = (Call.waits, 0)
count_wait (suc n) = (Call.done, n)

abbrev pub count : ℕ → List Op → ℕ → List Call × ℕ
count limit [] n = ([], n)
count limit (Op.post ∷ ops) n =
    let (c, n') = count_post limit n in let (cs, k) = count limit ops n' in (c ∷ cs, k)
count limit (Op.wait ∷ ops) n =
    let (c, n') = count_wait n in let (cs, k) = count limit ops n' in (c ∷ cs, k)

-- A system that grants everything, with so much room in the pipe.
abbrev pub roomy : ℕ → System
roomy limit = record {
  mkfifo = true;
  calloc = true;
  opens_reader = true;
  opens_writer = true;
  fcntl = true;
  has_room = λ n. ltb n limit;
}

abbrev live : Mysem
live = record { magic = true }

-- An open semaphore and its number.
abbrev opened : Pipe → ℕ → Pipe
opened p n = record { exists = true; bytes = n; readers = p.readers + 1; writers = p.writers + 1 }

post_lem :
    (limit n : ℕ) (p : Pipe)
    → mysem_post (roomy limit) live (opened p n)
      ≡ ((count_post limit n).0, opened p (count_post limit n).1)
unfolding mysem_post
post_lem limit n p = posted (ltb n limit)
  where
    posted :
        (b : Bool)
        → ◌≡◌ {A = Call × Pipe}
            (if b then (Call.done, opened p (n + 1)) else (Call.failed, opened p n))
            ((counted n b).0, opened p (counted n b).1)
    posted true = refl
    posted false = refl

wait_lem :
    (n : ℕ) (p : Pipe)
    → mysem_wait live (opened p n) ≡ ((count_wait n).0, opened p (count_wait n).1)
unfolding mysem_wait
wait_lem zero p = ground arith
wait_lem (suc n) p = refl

run-count :
    (limit : ℕ) (p : Pipe) (ops : List Op) (n : ℕ)
    → run (roomy limit) live ops (opened p n)
      ≡ ((count limit ops n).0, opened p (count limit ops n).1)
unfolding run
run-count limit p [] n = refl
run-count limit p (Op.post ∷ ops) n =
    rw (post_lem limit n p, run-count limit p ops (count_post limit n).1) refl
run-count limit p (Op.wait ∷ ops) n = rw (wait_lem n p, run-count limit p ops (count_wait n).1) refl

write_value-enough :
    (limit bytes value : ℕ)
    → bytes + value ≤ limit
    → write_value (λ n. ltb n limit) bytes value ≡ some (bytes + value)
unfolding write_value
write_value-enough limit bytes zero h = ap some (omega arith)
write_value-enough limit bytes (suc value) h =
    let room : ltb bytes limit ≡ true = ground arith in
    rw room (write_value-enough limit (bytes + 1) value (omega arith) ∙ ap some (omega arith))

write_value-full :
    (limit bytes value : ℕ)
    → bytes ≤ limit
    → limit < bytes + value
    → write_value (λ n. ltb n limit) bytes value ≡ none
unfolding write_value
write_value-full limit bytes zero h k = absurd (omega arith)
write_value-full limit bytes (suc value) h k = elim (dec_lt bytes limit) [
  | yes more ↦
      let room : ltb bytes limit ≡ true = ground arith in
      rw room (write_value-full limit (bytes + 1) value (omega arith) (omega arith))
  | no full ↦ let room : ltb bytes limit ≡ false = ground arith in rw room refl
]

-- Open a semaphore, and make these calls on it.
abbrev used : System → List Op → Opened → Option (List Call × ℕ)
used sys ops (none, q) = none
used sys ops (some sem, q) = let (cs, q') = run sys sem ops q in some (cs, q'.bytes)

unfoldable pub session : System → Flags → ℕ → List Op → Pipe → Option (List Call × ℕ)
session sys flags value ops p = used sys ops (mysem_open sys flags value p)

mysem_open-new :
    (limit value : ℕ) (excl : Bool) (p : Pipe)
    → p.exists ≡ false
    → value ≤ limit
    → mysem_open (roomy limit) (record { creat = true; excl = excl }) value p
      ≡ (some live, opened p value)
unfolding mysem_open make_pipe
mysem_open-new limit value excl p new h =
    let filled : write_value (λ n. ltb n limit) 0 value ≡ some value =
      write_value-enough limit 0 value (omega arith) ∙ ap some (omega arith) in
    rw (new, filled) refl

-- Where the system grants everything and the pipe has room for so many bytes, a semaphore that
-- mysem_open makes under a new name, with a first value up to that number, answers every sequence
-- of mysem_post and mysem_wait as a counter does: it starts at the value, fails a post at the
-- limit, and lets a wait at 0 wait.
pub session-count :
    (limit value : ℕ) (excl : Bool) (ops : List Op) (p : Pipe)
    → p.exists ≡ false
    → value ≤ limit
    → session (roomy limit) (record { creat = true; excl = excl }) value ops p
      ≡ some (count limit ops value)
unfolding session
session-count limit value excl ops p new h =
    ap (used (roomy limit) ops) (mysem_open-new limit value excl p new h)
    ∙ rw (run-count limit p ops value) refl

-- Under a name that exists the count goes on from the bytes in the pipe.
pub session_existing :
    (limit value : ℕ) (creat : Bool) (ops : List Op) (p : Pipe)
    → p.exists ≡ true
    → session (roomy limit) (record { creat = creat; excl = false }) value ops p
      ≡ some (count limit ops p.bytes)
unfolding session mysem_open make_pipe
session_existing limit value true ops p old = rw old (rw (run-count limit p ops p.bytes) refl)
session_existing limit value false ops p old = rw old (rw (run-count limit p ops p.bytes) refl)

-- A first value for which the pipe has no room makes mysem_open fail, and the new name is gone.
pub mysem_open-full :
    (limit value : ℕ) (excl : Bool) (p : Pipe)
    → p.exists ≡ false
    → limit < value
    → mysem_open (roomy limit) (record { creat = true; excl = excl }) value p
      ≡ (none, record p { exists = false; bytes = 0 })
unfolding mysem_open make_pipe open_error
mysem_open-full limit value excl p new h =
    rw (new, write_value-full limit 0 value (omega arith) (omega arith)) refl
