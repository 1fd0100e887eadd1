-- ===== src/HpcIntegral/Linear.antt =====
-- HPC_Integral/lib/hpc.c: the threads and attributes of `_integral_linear` as a whole.
use task_lunev.Base.{
  ℕ, zero, suc, ◌+◌, ◌≤◌, ◌≡◌, arith, refl, sym, Bool, ap, ap₂, append-nil, ◌∙◌, true, false,
  if◌then◌else◌, Option, none, some, Bool-cases, inl, inr,
}
use task_lunev.Base.{List, [], ◌∷◌, ◌++◌, length, length-append, ℤ}
use task_lunev.Memory.{Reply, ok, fail, fault, unset}
use task_lunev.CpuTopology.{CpuTopology, get_num_logic_cpu}
use task_lunev.HpcIntegral.{
  Reals, Event, init_attr, Threads, Run, stops, then_cpu, checked, cpu_of_thread, distribute_from,
  distribute_attr_threads,
}
use task_lunev.HpcIntegral.Parallel.{
  behind, and_then, last_end, signed, integral_linear, num_dummy_of, thread_args, dummies,
}
use task_lunev.HpcIntegral.Same.{length-thread_args}
use task_lunev.HpcIntegral.Failed.{num_failed, num_failed-append, failed-total_run}
use task_lunev.HpcIntegral.Released.{
  Counts, counts, range, total_run, ◌⊕◌, counts-append, total_run-Balanced,
}

abbrev only_attrs : List ℕ → Counts
only_attrs ns = record { made = []; handled = []; attrs = ns; destroyed = [] }

-- A step that goes on behind a processor was followed by a loop that returned.
then_cpu-rest :
    (e : Event) (id : ℤ) (es : List Event) (o : Option (Reply (List ℤ))) (ids : List ℤ)
    → (then_cpu e id (record { events = es; reply = o })).reply ≡ some (ok ids)
    → (rest : List ℤ) × (o ≡ some (ok rest))
then_cpu-rest e id es none ids h = ground arith
then_cpu-rest e id es (some (ok rest)) ids h = (rest, refl)
then_cpu-rest e id es (some (fail err)) ids h = ground arith
then_cpu-rest e id es (some fault) ids h = ground arith

-- One round: whether the attributes are there, the processor, and whether it is granted.
abbrev round : ℕ → Bool → Reply ℤ → (ℤ → Bool) → Run (List ℤ) → Run (List ℤ)
round i inits cpu granted rest =
    if inits
    then elim cpu [
      | ok id ↦
          if granted id
          then then_cpu (init_attr i) id rest
          else stops (init_attr i ∷ []) (fail unset)
      | fail e ↦ stops (init_attr i ∷ []) (fail e)
      | fault ↦ stops (init_attr i ∷ []) fault
    ]
    else stops [] (fail unset)

round-rest :
    (i : ℕ) (inits : Bool) (cpu : Reply ℤ) (granted : ℤ → Bool) (rest : Run (List ℤ)) (ids : List ℤ)
    → (round i inits cpu granted rest).reply ≡ some (ok ids)
    → ((more : List ℤ) × (rest.reply ≡ some (ok more)))
      × ((round i inits cpu granted rest).events ≡ init_attr i ∷ rest.events)
round-rest i false cpu granted rest ids h = ground arith
round-rest i true (fail e) granted rest ids h = ground arith
round-rest i true fault granted rest ids h = ground arith
round-rest i true (ok id) granted rest ids h = elim (Bool-cases (granted id)) [
  | inl g ↦ (then_cpu-rest (init_attr i) id rest.events rest.reply ids (rw g at h), rw g refl)
  | inr g ↦
      let q : Path (Option (Reply (List ℤ))) (some (fail unset)) (some (ok ids)) = rw g at h in
      ground arith
]

abbrev inits_from : (left i : ℕ) → List Event
inits_from zero i = []
inits_from (suc left) i = init_attr i ∷ inits_from left (i + 1)

counts-inits : (left i : ℕ) → counts (inits_from left i) ≡ only_attrs (range left i)
counts-inits zero i = refl
counts-inits (suc left) i =
    ap (λ (c : Counts). record c { attrs = i ∷ c.attrs }) (counts-inits left (i + 1))

failed-inits : (left i : ℕ) → num_failed (inits_from left i) ≡ 0
failed-inits zero i = refl
failed-inits (suc left) i = failed-inits left (i + 1)

distribute_from-events :
    (sys : Threads) (cputop : Option CpuTopology) (n : ℤ) (left i : ℕ) (ids : List ℤ)
    → (distribute_from sys cputop n left i).reply ≡ some (ok ids)
    → (distribute_from sys cputop n left i).events ≡ inits_from left i
unfolding distribute_from
distribute_from-events sys cputop n zero i ids h = refl
distribute_from-events sys cputop n (suc left) i ids h =
    let rest = distribute_from sys cputop n left (i + 1) in
    let ((more, e), same) =
      round-rest i (sys.inits i) (cpu_of_thread cputop n i) (sys.has_affinity i) rest ids h in
    same ∙ ap (λ t. init_attr i ∷ t) (distribute_from-events sys cputop n left (i + 1) more e)

distribute-events :
    (sys : Threads) (cputop : Option CpuTopology) (num_threads : ℕ) (ids : List ℤ)
    → (distribute_attr_threads sys num_threads cputop).reply ≡ some (ok ids)
    → (distribute_attr_threads sys num_threads cputop).events ≡ inits_from num_threads 0
unfolding distribute_attr_threads
distribute-events sys cputop num_threads ids h = known (checked (get_num_logic_cpu cputop)) h
  where
    known :
        (m : Reply ℤ)
        → (elim m as (λ x. Run (List ℤ)) [
          | ok n ↦ distribute_from sys cputop n num_threads 0
          | fail e ↦ stops [] (fail e)
          | fault ↦ stops [] fault
        ]).reply
          ≡ some (ok ids)
        → (elim m as (λ x. Run (List ℤ)) [
          | ok n ↦ distribute_from sys cputop n num_threads 0
          | fail e ↦ stops [] (fail e)
          | fault ↦ stops [] fault
        ]).events
          ≡ inits_from num_threads 0
    known (ok n) h = distribute_from-events sys cputop n num_threads 0 ids h
    known (fail e) h = ground arith
    known fault h = ground arith

and_then-ok :
    {A B : Type 0} (run : Run A) (k : A → Run B) {x : A}
    → run.reply ≡ some (ok x)
    → and_then run k ≡ behind run.events (k x)
and_then-ok run k h = rw (and_then, h) refl

-- Every thread that was created is joined or detached once, but for one whose join may have failed,
-- and every attribute that was initialised is destroyed.
pub record Clean (es : List Event) : Type 0 where
  pub threads : (counts es).made ≡ (counts es).handled
  pub failed : num_failed es ≤ 1
  pub attrs : (counts es).attrs ≡ (counts es).destroyed

module _ {D : Type 0} (r : Reals D) (sys : Threads) (fuel : ℕ) where
  -- Where the memory of _integral_linear is granted and the attributes are distributed, in every
  -- run that returns, whichever creation or join fails, each thread that was created is joined or
  -- detached exactly once, in order, but for at most one, whose join failed, and each attribute
  -- that was initialised is destroyed exactly once.
  pub integral_linear-Clean :
      (a b : D) (func : D → D) (eps : D) (num_threads : ℕ) (cputop : Option CpuTopology)
      (ids : List ℤ) (x : Reply D)
      → ((i : ℕ) → sys.grants i ≡ true)
      → (distribute_attr_threads sys (num_threads + num_dummy_of num_threads cputop) cputop).reply
        ≡ some (ok ids)
      → (integral_linear r sys fuel a b func eps num_threads cputop).reply ≡ some x
      → Clean (integral_linear r sys fuel a b func eps num_threads cputop).events
  unfolding integral_linear
  integral_linear-Clean a b func eps num_threads cputop ids x granted placed h =
      let sign_int = r.leq a b in
      let lo = if sign_int then a else b in
      let hi = if sign_int then b else a in
      let dx = r.num.times (r.num.minus hi lo) eps in
      let len = r.num.over (r.num.minus hi lo) (r.num.of_nat num_threads) in
      let num_dummy = num_dummy_of num_threads cputop in
      let args =
        thread_args r func dx len num_threads lo
        ++ dummies r func dx len num_threads num_dummy (last_end r len num_threads lo) in
      let size : length args ≡ num_threads + num_dummy =
        length-append (thread_args r func dx len num_threads lo) _
        ∙ ap₂ ◌+◌ (length-thread_args r func dx len num_threads lo)
            (length-thread_args r func _ _ num_dummy _) in
      let dist = distribute_attr_threads sys (num_threads + num_dummy) cputop in
      let run = total_run r sys fuel (signed r sign_int dx) num_threads num_dummy args in
      let same : integral_linear r sys fuel a b func eps num_threads cputop
          ≡ behind dist.events run =
        rw (integral_linear, granted 0)
          (and_then-ok dist _ placed ∙ rw (granted 1, granted 2) refl) in
      let whole =
        total_run-Balanced r sys fuel (signed r sign_int dx) num_threads num_dummy args x size
          (sym (ap (λ (t : Run D). t.reply) same) ∙ h) in
      let inits = distribute-events sys cputop (num_threads + num_dummy) ids placed in
      let total =
        ap (λ (t : Run D). counts t.events) same
        ∙ counts-append dist.events run.events
        ∙ ap₂ ◌⊕◌ (ap counts inits ∙ counts-inits (num_threads + num_dummy) 0) whole.same in
      record {
        threads = ap (λ (c : Counts). c.made) total ∙ sym (ap (λ (c : Counts). c.handled) total);
        failed =
            rw (same, num_failed-append dist.events run.events, inits)
              (omega (
                arith,
                failed-inits (num_threads + num_dummy) 0,
                failed-total_run r sys fuel (signed r sign_int dx) num_threads num_dummy args,
              ));
        attrs =
            ap (λ (c : Counts). c.attrs) total
            ∙ append-nil _
            ∙ sym (ap (λ (c : Counts). c.destroyed) total);
      }
