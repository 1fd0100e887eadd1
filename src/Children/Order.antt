-- ===== src/Children/Order.antt =====
-- GenChildPrnt1_n/main.cpp: the order of the output.
use task_lunev.Base.{
  ℕ, zero, suc, ◌+◌, ◌≤◌, ◌≡◌, arith, refl, ap, ◌∙◌, Bool, true, false, if◌then◌else◌, ◌==◌, ltb,
}
use task_lunev.Base.{List, [], ◌∷◌, ◌++◌}
use task_lunev.Children.{Phase, Parent, State, start, Step, Reachable, at_start, then_step}

-- Who may go on: nobody yet, the next child, the child that has printed, whoever takes its message,
-- or the parent.
data Token : Type 0 where
  idle printing posting queued taken : Token

-- The numbers from 1 to `m`.
abbrev pub up_to : ℕ → List ℕ
up_to zero = []
up_to (suc m) = up_to m ++ suc m ∷ []

abbrev of_last : Token → Phase
of_last Token.posting = Phase.posts
of_last _ = Phase.ended

abbrev of_next : Token → Phase
of_next Token.printing = Phase.prints
of_next _ = Phase.waits

abbrev is_queued : Token → ℕ
is_queued Token.queued = 1
is_queued _ = 0

-- The place of child `i`, where `m` have printed.
abbrev expected : ℕ → Token → ℕ → ℕ → Phase
expected m tok forked i =
    if ltb forked i
    then Phase.unborn
    else if ltb i m
    then Phase.ended
    else if i == m
    then of_last tok
    else if i == m + 1
    then of_next tok
    else Phase.waits

abbrev fits : ℕ → ℕ → Token → ℕ → Parent → Bool
fits n m Token.idle forked p = (m == 0)
fits n m Token.printing forked p = ltb m forked
fits n m Token.posting forked p = ltb 0 m
fits n m Token.queued forked p = ltb 0 m
fits n m Token.taken forked p = (m == n)

abbrev waiting : Parent → Bool
waiting Parent.prints = false
waiting Parent.ended = false
waiting _ = true

record Inv (n : ℕ) (s : State) : Type 0 where
  m : ℕ
  tok : Token
  printed : s.output ≡ up_to m
  phases : (i : ℕ) → s.phase (suc i) ≡ expected m tok s.forked (suc i)
  none : s.phase 0 ≡ Phase.unborn
  queues : (i : ℕ) → s.queue i ≡ (if i == m then is_queued tok else 0)
  token : fits n m tok s.forked s.parent ≡ true
  few : m ≤ s.forked
  all : s.forked ≤ n
  begun : tok ≡ Token.idle → s.forked ≡ 0
  whole : waiting s.parent ≡ false → m ≡ n

start-Inv : (n : ℕ) → Inv n start
start-Inv n = record {
  m = 0;
  tok = Token.idle;
  printed = refl;
  phases = λ i. ground arith;
  none = refl;
  queues = λ i. ground arith;
  token = ground arith;
  few = omega arith;
  all = omega arith;
  begun = λ h. refl;
  whole = λ h. ground arith;
}

Step-Inv : {n : ℕ} {s t : State} → Inv n s → Step n s t → Inv n t
Step-Inv {n} {s} v (Step.fork e l) = record {
  m = v.m;
  tok = if s.forked == 0 then Token.printing else v.tok;
  printed = v.printed;
  phases = λ i. ground (arith, v.phases i, v.begun, v.few, v.token);
  none = ground (arith, v.none);
  queues = λ i. ground (arith, v.queues i, v.few, v.token);
  token = ground (arith, v.token, v.few, v.begun);
  few = omega (arith, v.few);
  all = omega arith;
  begun = λ h. ground (arith, v.begun);
  whole = λ h. ground (arith, v.whole);
}
Step-Inv {n} {s} v (Step.fork_fails e l) = record {
  m = v.m;
  tok = v.tok;
  printed = v.printed;
  phases = v.phases;
  none = v.none;
  queues = v.queues;
  token = ground (arith, v.token);
  few = v.few;
  all = v.all;
  begun = v.begun;
  whole = λ h. ground arith;
}
Step-Inv {n} {s} v (Step.forks_done e l) = record {
  m = v.m;
  tok = v.tok;
  printed = v.printed;
  phases = v.phases;
  none = v.none;
  queues = v.queues;
  token = ground (arith, v.token);
  few = v.few;
  all = v.all;
  begun = v.begun;
  whole = λ h. ground (arith, v.few, l);
}
Step-Inv {n} {s} v (Step.child_receives i k w q) = record {
  m = v.m;
  tok = Token.printing;
  printed = v.printed;
  phases = λ j. ground (arith, v.phases j, v.phases i, v.queues i, v.few, w, q);
  none = ground (arith, v.none);
  queues = λ j. ground (arith, v.queues j, v.queues i, q);
  token = ground (arith, v.phases i, v.queues i, v.few, w, q);
  few = v.few;
  all = v.all;
  begun = λ h. ground arith;
  whole = λ h. ground (arith, v.whole);
}
Step-Inv {n} {s} v (Step.child_prints zero w) = absurd (ground (arith, v.none, w))
Step-Inv {n} {s} v (Step.child_prints (suc i) w) = record {
  m = suc v.m;
  tok = Token.posting;
  printed = ground (arith, v.printed, v.phases i, w);
  phases = λ j. ground (arith, v.phases j, v.phases i, v.few, v.token, w);
  none = ground (arith, v.none);
  queues = λ j. ground (arith, v.queues j, v.phases i, w);
  token = ground arith;
  few = ground (arith, v.phases i, v.token, w);
  all = v.all;
  begun = λ h. ground arith;
  whole = λ h. ground (arith, v.whole, v.phases i, v.token, v.all, w);
}
Step-Inv {n} {s} v (Step.child_posts zero w) = absurd (ground (arith, v.none, w))
Step-Inv {n} {s} v (Step.child_posts (suc i) w) = record {
  m = v.m;
  tok = Token.queued;
  printed = v.printed;
  phases = λ j. ground (arith, v.phases j, v.phases i, v.few, w);
  none = ground (arith, v.none);
  queues = λ j. ground (arith, v.queues j, v.queues (suc i), v.phases i, w);
  token = ground (arith, v.phases i, v.token, w);
  few = v.few;
  all = v.all;
  begun = λ h. ground arith;
  whole = λ h. ground (arith, v.whole);
}
Step-Inv {n} {s} v (Step.parent_receives k e q) = record {
  m = v.m;
  tok = Token.taken;
  printed = v.printed;
  phases = λ j. ground (arith, v.phases j, v.queues n, v.few, q);
  none = v.none;
  queues = λ j. ground (arith, v.queues j, v.queues n, q);
  token = ground (arith, v.queues n, q);
  few = v.few;
  all = v.all;
  begun = λ h. ground arith;
  whole = λ h. ground (arith, v.queues n, q);
}
Step-Inv {n} {s} v (Step.parent_prints e) = record {
  m = v.m;
  tok = v.tok;
  printed = v.printed;
  phases = v.phases;
  none = v.none;
  queues = v.queues;
  token = ground (arith, v.token);
  few = v.few;
  all = v.all;
  begun = v.begun;
  whole = λ h. ground (arith, v.whole, e);
}

Reachable-Inv : {n : ℕ} {s : State} → Reachable n s → Inv n s
Reachable-Inv at_start = start-Inv _
Reachable-Inv (then_step r step) = Step-Inv (Reachable-Inv r) step

-- In every reachable state of the program with n children, also where a fork has failed, the
-- numbers from 1 to some m of at most n stand on the output, in order.
pub numbers_in_order :
    {n : ℕ} {s : State} → Reachable n s → (m : ℕ) × (m ≤ n) × (s.output ≡ up_to m)
numbers_in_order r = let v = Reachable-Inv r in (v.m, omega (arith, v.few, v.all), v.printed)

-- Where, in a reachable state of the program with n children, the parent has ended the line and
-- removed the queue, the numbers from 1 to n stand on the output, in order.
pub line_whole : {n : ℕ} {s : State} → Reachable n s → s.parent ≡ Parent.ended → s.output ≡ up_to n
line_whole r e = let v = Reachable-Inv r in v.printed ∙ ap up_to (v.whole (ap waiting e))
