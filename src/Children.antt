-- ===== src/Children.antt =====
-- GenChildPrnt1_n/main.cpp: children that print their numbers in order, with a message queue.
mod Tests
pub mod Order
use task_lunev.Base.{
  ℕ, zero, suc, ◌+◌, ◌≤◌, ◌<◌, ◌≡◌, Bool, true, false, if◌then◌else◌, ◌==◌, List, [], ◌∷◌, ◌++◌,
}

-- Where a child is: not forked yet, before `msgrcv`, before `printf`, before `msgsnd`, behind its
-- return.
pub data Phase : Type 0 where
  unborn waits prints posts ended : Phase

-- Where the parent is: in the loop of forks, before `msgrcv`, before the end of the line, behind
-- `msgctl`, or behind a failed `fork`.
pub data Parent : Type 0 where
  forks receives prints ended failed : Parent

-- The children that were forked, by their numbers from 1 on; how many messages of each type are in
-- the queue; and the numbers on the standard output, which all processes share.
pub record State : Type 0 where
  pub forked : ℕ
  pub phase : ℕ → Phase
  pub queue : ℕ → ℕ
  pub output : List ℕ
  pub parent : Parent

abbrev pub start : State
start = record {
  forked = 0;
  phase = λ i. Phase.unborn;
  queue = λ i. 0;
  output = [];
  parent = Parent.forks;
}

abbrev pub put : {A : Type 0} → (ℕ → A) → ℕ → A → ℕ → A
put f i x = λ j. if j == i then x else f j

-- The first place of a child: number 1 does not wait.
abbrev pub born : ℕ → Phase
born i = if i == 1 then Phase.prints else Phase.waits

-- One step of some process, with `n` children to fork.
pub data Step (n : ℕ) (s : State) : State → Type 0 where
  fork :
      s.parent ≡ Parent.forks
      → s.forked < n
      → Step n s (record s {
        forked = s.forked + 1;
        phase = put s.phase (s.forked + 1) (born (s.forked + 1));
      })
  fork_fails :
      s.parent ≡ Parent.forks → s.forked < n → Step n s (record s { parent = Parent.failed })
  forks_done :
      s.parent ≡ Parent.forks
      → s.forked ≡ n
      → Step n s (record s { parent = if n == 0 then Parent.prints else Parent.receives })
  child_receives :
      (i k : ℕ)
      → s.phase (i + 1) ≡ Phase.waits
      → s.queue i ≡ suc k
      → Step n s (record s { queue = put s.queue i k; phase = put s.phase (i + 1) Phase.prints })
  child_prints :
      (i : ℕ)
      → s.phase i ≡ Phase.prints
      → Step n s (record s { output = s.output ++ i ∷ []; phase = put s.phase i Phase.posts })
  child_posts :
      (i : ℕ)
      → s.phase i ≡ Phase.posts
      → Step n s
          (record s { queue = put s.queue i (s.queue i + 1); phase = put s.phase i Phase.ended })
  parent_receives :
      (k : ℕ)
      → s.parent ≡ Parent.receives
      → s.queue n ≡ suc k
      → Step n s (record s { queue = put s.queue n k; parent = Parent.prints })
  parent_prints : s.parent ≡ Parent.prints → Step n s (record s { parent = Parent.ended })

pub data Reachable (n : ℕ) : State → Type 0 where
  at_start : Reachable n start
  then_step : {s t : State} → Reachable n s → Step n s t → Reachable n t
