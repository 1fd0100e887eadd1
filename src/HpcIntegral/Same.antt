-- ===== src/HpcIntegral/Same.antt =====
-- HPC_Integral/lib/hpc.c: `_integral_linear` and `_integral` compared, where every call succeeds,
-- and both with the loop without threads.
use task_lunev.Base.{
  ℕ, zero, suc, ◌+◌, ◌≤◌, ◌≡◌, arith, refl, sym, ap, ◌∙◌, Bool, true, if◌then◌else◌, lt→ltb,
  le→ltb_false, Option, none, some, Option-cases, inl, inr,
}
use task_lunev.Base.{append-nil, List, [], ◌∷◌, ◌++◌, length}
use mathlib.Core.Option
use task_lunev.Memory.{Reply, ok}
use task_lunev.CpuTopology.{LogicCpu}
use task_lunev.CpuTopology.Laws.{holding}
use task_lunev.HpcIntegral.{
  Reals, PthArg, Event, create, Threads, Run, stops, pthread_calc_integral,
}
use task_lunev.HpcIntegral.Parallel.{
  and_then, create_threads, thread_args, dummies, last_end, signed, join_threads, integral,
  integral_linear, num_dummy_of,
}
use task_lunev.HpcIntegral.Entry.{hpc_simple_integral}
use task_lunev.HpcIntegral.Placement.{GrantsAttrs, HasCpus, distribute_attr_threads-ids}

-- A system whose calls all succeed.
pub record Grants (sys : Threads) : Type 0 where
  pub attrs : GrantsAttrs sys
  pub creates : (i : ℕ) → sys.creates i ≡ true
  pub joins : (i : ℕ) → sys.joins i ≡ true
  pub grants : (i : ℕ) → sys.grants i ≡ true

abbrev pub creates_from : (left i : ℕ) → List Event
creates_from zero i = []
creates_from (suc left) i = create i ∷ creates_from left (i + 1)

pub create_threads-all :
    {sys : Threads} (g : Grants sys) (total left i : ℕ)
    → create_threads sys total left i ≡ stops (creates_from left i) (ok tt)
unfolding create_threads
create_threads-all g total zero i = refl
create_threads-all g total (suc left) i =
    rw (create_threads, g.creates i, create_threads-all g total left (i + 1)) refl

map-same : {D : Type 0} {f : D → D} → ((x : D) → f x ≡ x) → (o : Option D) → Option.map f o ≡ o
map-same h none = refl
map-same h (some x) = ap some (h x)

module _ {D : Type 0} (r : Reals D) where
  -- Every one of these threads ends within `fuel` rounds.
  abbrev pub AllEnd : ℕ → List (PthArg D) → Type 0
  AllEnd fuel [] = Unit {0}
  AllEnd fuel (arg ∷ args) =
      ((x : D) × (pthread_calc_integral r fuel arg ≡ some x)) × AllEnd fuel args

  -- The results of the threads, added in order.
  abbrev pub add_results : ℕ → List (PthArg D) → D → Option D
  add_results fuel [] res = some res
  add_results fuel (arg ∷ args) res = elim (pthread_calc_integral r fuel arg) [
    | none ↦ none
    | some x ↦ add_results fuel args (r.num.add res x)
  ]

  abbrev pub reply_of : Option D → Option (Reply D)
  reply_of none = none
  reply_of (some x) = some (ok x)

  pub length-thread_args :
      (func : D → D) (dx len : D) (left : ℕ) (a : D)
      → length (thread_args r func dx len left a) ≡ left
  length-thread_args func dx len zero a = refl
  length-thread_args func dx len (suc left) a =
      ap suc (length-thread_args func dx len left (r.num.add a len))

  -- The arguments of the threads over these bounds.
  abbrev pub args_of : D → D → (D → D) → D → ℕ → List (PthArg D)
  args_of lo hi func eps num_threads =
      let dx = r.num.times (r.num.minus hi lo) eps in
      let len = r.num.over (r.num.minus hi lo) (r.num.of_nat num_threads) in
      thread_args r func dx len num_threads lo

  -- Those of the dummy threads.
  abbrev pub linear_dummies : D → D → (D → D) → D → (num_threads num_dummy : ℕ) → List (PthArg D)
  linear_dummies a b func eps num_threads num_dummy =
      let lo = if r.leq a b then a else b in
      let hi = if r.leq a b then b else a in
      let dx = r.num.times (r.num.minus hi lo) eps in
      let len = r.num.over (r.num.minus hi lo) (r.num.of_nat num_threads) in
      dummies r func dx len num_threads num_dummy (last_end r len num_threads lo)

  -- What both functions return where all calls succeed.
  abbrev pub sum_of : ℕ → D → D → (D → D) → D → ℕ → Option D
  sum_of fuel a b func eps num_threads =
      let lo = if r.leq a b then a else b in
      let hi = if r.leq a b then b else a in
      let dx = r.num.times (r.num.minus hi lo) eps in
      Option.map (signed r (r.leq a b) dx)
        (add_results fuel (args_of lo hi func eps num_threads) r.num.nought)

  module _ {sys : Threads} (g : Grants sys) (fuel : ℕ) where
    -- Threads whose number is not below `counted` add nothing.
    join_threads-uncounted :
        (counted i : ℕ) (args : List (PthArg D)) (res : D)
        → counted ≤ i
        → AllEnd fuel args
        → (join_threads r sys fuel counted i args res).reply ≡ some (ok res)
    unfolding join_threads
    join_threads-uncounted counted i [] res h ends = refl
    join_threads-uncounted counted i (arg ∷ args) res h ((x, e), ends) =
        rw
          (
            join_threads,
            e,
            g.joins i,
            le→ltb_false i counted h,
            join_threads-uncounted counted (i + 1) args res (omega arith) ends,
          )
          refl

    join_threads-sum :
        (counted i : ℕ) (args more : List (PthArg D)) (res : D)
        → i + length args ≡ counted
        → AllEnd fuel more
        → (join_threads r sys fuel counted i (args ++ more) res).reply
          ≡ reply_of (add_results fuel args res)
    unfolding join_threads
    join_threads-sum counted i [] more res h ends =
        join_threads-uncounted counted i more res (omega arith) ends
    join_threads-sum counted i (arg ∷ args) more res h ends =
        elim (Option-cases (pthread_calc_integral r fuel arg)) [
          | inl e ↦ rw (join_threads, add_results, e) refl
          | inr (x, e) ↦
              rw
                (
                  join_threads,
                  add_results,
                  e,
                  g.joins i,
                  lt→ltb i counted (omega arith),
                  join_threads-sum counted (i + 1) args more (r.num.add res x) (omega arith) ends,
                )
                refl
        ]

    reply-signed :
        (sign : Bool) (dx : D) (run : Run D) (o : Option D)
        → run.reply ≡ reply_of o
        → (and_then run (λ res. stops [] (ok (signed r sign dx res)))).reply
          ≡ reply_of (Option.map (signed r sign dx) o)
    reply-signed sign dx run none e = rw (and_then, e) refl
    reply-signed sign dx run (some x) e = rw (and_then, e) refl

    module _ {cpus : List LogicCpu} {n : ℕ} {cpu_at : ℕ → LogicCpu}
        (c : HasCpus cpus n cpu_at) where
      pub integral-sum_of :
          (a b : D) (func : D → D) (eps : D) (num_threads : ℕ)
          → (integral r sys fuel a b func eps num_threads (some (holding cpus n))).reply
            ≡ reply_of (sum_of fuel a b func eps num_threads)
      unfolding integral
      integral-sum_of a b func eps num_threads =
          rw
            (
              integral,
              distribute_attr_threads-ids c g.attrs num_threads,
              create_threads-all g num_threads num_threads 0,
            )
            (reply-signed (r.leq a b) _ _ _ (
              ap (λ args. (join_threads r sys fuel num_threads 0 args r.num.nought).reply)
                (sym (append-nil _))
              ∙ join_threads-sum num_threads 0 _ [] r.num.nought
                  (omega (arith, length-thread_args _ _ _ num_threads _)) tt))

      pub integral_linear-sum_of :
          (a b : D) (func : D → D) (eps : D) (num_threads : ℕ)
          → AllEnd fuel (
              linear_dummies a b func eps num_threads
                (num_dummy_of num_threads (some (holding cpus n))))
          → (integral_linear r sys fuel a b func eps num_threads (some (holding cpus n))).reply
            ≡ reply_of (sum_of fuel a b func eps num_threads)
      unfolding integral_linear
      integral_linear-sum_of a b func eps num_threads ends =
          rw
            (
              integral_linear,
              g.grants 0,
              g.grants 1,
              g.grants 2,
              distribute_attr_threads-ids c g.attrs
                  (num_threads + num_dummy_of num_threads (some (holding cpus n))),
              create_threads-all g (num_threads + num_dummy_of num_threads (some (holding cpus n)))
                  num_threads 0,
              create_threads-all g (num_threads + num_dummy_of num_threads (some (holding cpus n)))
                  (num_dummy_of num_threads (some (holding cpus n))) num_threads,
            )
            (reply-signed (r.leq a b) _ _ _ (
              join_threads-sum num_threads 0 _ _ r.num.nought
                (omega (arith, length-thread_args _ _ _ num_threads _)) ends))

      -- Where every call of the system succeeds, on a structure whose processors have numbers
      -- other than -1, if every dummy thread ends within the rounds then _integral_linear returns
      -- exactly what _integral returns, and like it does not return where one of the counted
      -- threads does not end.
      pub integral_linear-integral :
          (a b : D) (func : D → D) (eps : D) (num_threads : ℕ)
          → AllEnd fuel (
              linear_dummies a b func eps num_threads
                (num_dummy_of num_threads (some (holding cpus n))))
          → (integral_linear r sys fuel a b func eps num_threads (some (holding cpus n))).reply
            ≡ (integral r sys fuel a b func eps num_threads (some (holding cpus n))).reply
      integral_linear-integral a b func eps num_threads ends =
          integral_linear-sum_of a b func eps num_threads ends
          ∙ sym (integral-sum_of a b func eps num_threads)

      -- Where every call of the system succeeds, on a structure whose processors have numbers
      -- other than -1, if the dummy threads end within the rounds, the lower bound plus the length
      -- divided by 1 is the upper bound, and 0 added on the left changes no number, then
      -- _integral_linear with one thread returns what hpcSimpleIntegral returns.
      pub integral_linear-hpc_simple_integral :
          (a b : D) (func : D → D) (eps : D)
          → r.num.add (if r.leq a b then a else b) (
              r.num.over
                (r.num.minus (if r.leq a b then b else a) (if r.leq a b then a else b))
                (r.num.of_nat 1))
            ≡ (if r.leq a b then b else a)
          → ((x : D) → r.num.add r.num.nought x ≡ x)
          → AllEnd fuel (linear_dummies a b func eps 1 (num_dummy_of 1 (some (holding cpus n))))
          → (integral_linear r sys fuel a b func eps 1 (some (holding cpus n))).reply
            ≡ reply_of (hpc_simple_integral r fuel a b func eps)
      unfolding hpc_simple_integral pthread_calc_integral
      integral_linear-hpc_simple_integral a b func eps exact nought-add ends =
          integral_linear-sum_of a b func eps 1 ends ∙ ap reply_of one
        where
          one : sum_of fuel a b func eps 1 ≡ hpc_simple_integral r fuel a b func eps
          one = rw exact (ap (Option.map (signed r (r.leq a b) _)) (map-same nought-add _))
