-- ===== src/Children/Tests.antt =====
-- A run of GenChildPrnt1_n/main.cpp with one child.
use task_lunev.Base.{◌≡◌, arith, refl, [], ◌∷◌}
use task_lunev.Children.{Phase, Parent, State, put, Step, Reachable, at_start, then_step}
use task_lunev.Children.Order.{line_whole}

-- The parent has ended the line.
abbrev over : State
over = record {
  forked = 1;
  phase = put (put (put (λ i. Phase.unborn) 1 Phase.prints) 1 Phase.posts) 1 Phase.ended;
  queue = put (put (λ i. 0) 1 1) 1 0;
  output = 1 ∷ [];
  parent = Parent.ended;
}

over-Reachable : Reachable 1 over
over-Reachable =
    let r1 = then_step at_start (Step.fork refl (omega arith)) in
    let r2 = then_step r1 (Step.forks_done refl refl) in
    let r3 = then_step r2 (Step.child_prints 1 refl) in
    let r4 = then_step r3 (Step.child_posts 1 refl) in
    let r5 = then_step r4 (Step.parent_receives 0 refl refl) in
    then_step r5 (Step.parent_prints refl)

line_whole_example : over.output ≡ 1 ∷ []
line_whole_example = line_whole over-Reachable refl
