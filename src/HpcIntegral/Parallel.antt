-- ===== src/HpcIntegral/Parallel.antt =====
-- HPC_Integral/lib/hpc.c: `_integral`, `_integral_linear` and the functions that call them. The
-- value NAN of an error is a failure; the -1 of some errors is a number like any other.
use task_lunev.Base.{
  ℕ, zero, suc, ◌+◌, ◌-◌, Bool, ◌&&◌, if◌then◌else◌, ltb, Option, none, some, List, [], ◌∷◌, ◌++◌,
  length, pos, minus_one,
}
use task_lunev.Memory.{ok, fail, fault, Errno, unset}
use task_lunev.CpuTopology.{CpuTopology, get_num_logic_cpu}
use task_lunev.HpcIntegral.{
  Reals, PthArg, Event, stops, create, join, join_failed, detach, destroy_attr, Threads, Run,
  pthread_calc_integral, distribute_attr_threads,
}

-- `_detachThreads` and `_destroyAttrThread` from entry `i` on.
abbrev pub detach_threads : (left i : ℕ) → List Event
detach_threads zero i = []
detach_threads (suc left) i = detach i ∷ detach_threads left (i + 1)

abbrev pub destroy_attr_thread : (left i : ℕ) → List Event
destroy_attr_thread zero i = []
destroy_attr_thread (suc left) i = destroy_attr i ∷ destroy_attr_thread left (i + 1)

abbrev pub behind : {A : Type 0} → List Event → Run A → Run A
behind events run = record { events = events ++ run.events; reply = run.reply }

-- What follows a run that returned a result.
abbrev pub and_then : {A B : Type 0} → Run A → (A → Run B) → Run B
and_then run k = elim run.reply [
  | none ↦ record { events = run.events; reply = none }
  | some (ok x) ↦ behind run.events (k x)
  | some (fail e) ↦ stops run.events (fail e)
  | some fault ↦ stops run.events fault
]

module _ (sys : Threads) where
  -- The loop of `pthread_create` from thread `i` on; where one fails the `i` threads in front of it
  -- are detached and the attributes of all `total` are destroyed.
  unfoldable pub create_threads : (total left i : ℕ) → Run Unit
  create_threads total zero i = stops [] (ok tt)
  create_threads total (suc left) i =
      let rest = create_threads total left (i + 1) in
      if sys.creates i
      then behind (create i ∷ []) rest
      else stops (detach_threads i 0 ++ destroy_attr_thread total 0) (fail unset)

-- How many processors `num_threads` threads leave over; an unknown number is -1.
unfoldable pub num_dummy_of : ℕ → Option CpuTopology → ℕ
num_dummy_of num_threads cputop = elim (get_num_logic_cpu cputop) [
  | ok (pos n) ↦ n - num_threads
  | _ ↦ 0
]

module _ {D : Type 0} (r : Reals D) where
  -- The arguments of `left` threads, and where the last ends.
  abbrev pub thread_args : (func : D → D) (dx len : D) → ℕ → D → List (PthArg D)
  thread_args func dx len zero a = []
  thread_args func dx len (suc left) a =
      let b = r.num.add a len in
      record { a = a; b = b; dx = dx; func = func } ∷ thread_args func dx len left b

  abbrev pub last_end : D → ℕ → D → D
  last_end len zero a = a
  last_end len (suc left) a = last_end len left (r.num.add a len)

  -- `res * (2 * sign_int - 1) * dx`
  abbrev pub signed : Bool → D → D → D
  signed sign_int dx res =
      r.num.times (r.num.times res (r.of_int (if sign_int then pos 1 else minus_one))) dx

  -- The arguments of the dummy threads, from where the threads end.
  abbrev pub dummies : (D → D) → D → D → (num_threads num_dummy : ℕ) → D → List (PthArg D)
  dummies func dx len num_threads num_dummy end =
      let scale : D → D =
        λ x. r.num.over (r.num.times x (r.num.of_nat num_threads)) (r.num.of_nat num_dummy) in
      thread_args func (scale dx) (scale len) num_dummy
        (r.num.minus end (r.num.times len (r.num.of_nat num_threads)))

  module _ (sys : Threads) (fuel : ℕ) where
    -- The loop of `pthread_join`: the results of the threads below number `counted` are added. A
    -- thread that never ends blocks the call.
    unfoldable pub join_threads : (counted i : ℕ) → List (PthArg D) → D → Run D
    join_threads counted i [] res = stops [] (ok res)
    join_threads counted i (arg ∷ args) res = elim (pthread_calc_integral r fuel arg) [
      | none ↦ record { events = join i ∷ []; reply = none }
      | some result ↦
          let sum = if ltb i counted then r.num.add res result else res in
          let rest = join_threads counted (i + 1) args sum in
          if sys.joins i
          then behind (join i ∷ []) rest
          else stops (join_failed i ∷ detach_threads (length args) (i + 1)) (fail Errno.einval)
    ]

    -- `_integral`; there the loop of `pthread_join` adds every result.
    unfoldable pub integral : D → D → (D → D) → D → ℕ → Option CpuTopology → Run D
    integral a b func eps num_threads cputop =
        and_then (distribute_attr_threads sys num_threads cputop) (λ ids.
          let sign_int = r.leq a b in
          let lo = if sign_int then a else b in
          let hi = if sign_int then b else a in
          let dx = r.num.times (r.num.minus hi lo) eps in
          let len = r.num.over (r.num.minus hi lo) (r.num.of_nat num_threads) in
          let args = thread_args func dx len num_threads lo in
          and_then (create_threads sys num_threads num_threads 0) (λ created.
            behind (destroy_attr_thread num_threads 0) (
              and_then (join_threads num_threads 0 args r.num.nought)
                (λ res. stops [] (ok (signed sign_int dx res))))))

    -- `_integral_linear` for a number of threads that an `int` holds. The dummy threads walk over
    -- the same bounds; a null pointer that `calloc` returned is not noticed there.
    unfoldable pub integral_linear : D → D → (D → D) → D → ℕ → Option CpuTopology → Run D
    integral_linear a b func eps num_threads cputop =
        let num_dummy = num_dummy_of num_threads cputop in
        let total = num_threads + num_dummy in
        if sys.grants 0
        then and_then (distribute_attr_threads sys total cputop) (λ ids.
          let sign_int = r.leq a b in
          let lo = if sign_int then a else b in
          let hi = if sign_int then b else a in
          let dx = r.num.times (r.num.minus hi lo) eps in
          let len = r.num.over (r.num.minus hi lo) (r.num.of_nat num_threads) in
          let args = thread_args func dx len num_threads lo in
          let dummy_args =
            dummies func dx len num_threads num_dummy (last_end len num_threads lo) in
          if sys.grants 1 && sys.grants 2
          then and_then (create_threads sys total num_threads 0) (λ created.
            and_then (create_threads sys total num_dummy num_threads) (λ dummies_created.
              behind (destroy_attr_thread total 0) (
                and_then (join_threads num_threads 0 (args ++ dummy_args) r.num.nought)
                  (λ res. stops [] (ok (signed sign_int dx res))))))
          else stops [] fault)
        else stops [] (ok (r.of_int minus_one))
