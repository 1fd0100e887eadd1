-- ===== src/HpcIntegral.antt =====
-- HPC_Integral/lib/hpc.c: an integral computed by threads, each with its own range and processor.
pub mod Parallel
pub mod Entry
pub mod Loop
pub mod Placement
pub mod Same
pub mod Released
pub mod Failed
pub mod Linear
pub mod Machine
mod Tests
use task_lunev.Base.{
  ℕ, zero, suc, ◌+◌, ◌-◌, ◌%◌, ◌^◌, Bool, true, false, if◌then◌else◌, Option, none, some, List, [],
  ◌∷◌, ℤ, pos, negsuc,
}
use task_lunev.Memory.{Reply, ok, fail, fault, unset}
use task_lunev.CpuTopology.{CpuTopology, get_num_logic_cpu, get_logic_cpu_id}
use task_lunev.HpcNet.{Doubles}

-- What the comparisons and the conversion from `int` do to the numbers of the machine.
pub record Reals (D : Type 0) : Type 0 where
  pub num : Doubles D
  pub less : D → D → Bool
  pub leq : D → D → Bool
  pub is_zero : D → Bool
  pub of_int : ℤ → D

-- `int_pth_arg_t`; the result is what the thread hands back.
pub record PthArg (D : Type 0) : Type 0 where
  pub a : D
  pub b : D
  pub dx : D
  pub func : D → D

-- The calls that concern a thread or its attributes, by the number of the entry. A join that fails
-- leaves its thread neither joined nor detached.
pub data Event : Type 0 where
  init_attr create join join_failed detach destroy_attr : ℕ → Event

-- What the system answers: whether each call for the thread with this number succeeds, and each
-- of the three allocations of `_integral_linear`: 0 for the attributes, 1 for the identifiers and 2
-- for the arguments.
pub record Threads : Type 0 where
  pub inits : ℕ → Bool
  pub has_affinity : ℕ → ℤ → Bool
  pub creates : ℕ → Bool
  pub joins : ℕ → Bool
  pub grants : ℕ → Bool

-- The calls of a run, and what it returns: `none` where it never does.
pub record Run (A : Type 0) : Type 0 where
  pub events : List Event
  pub reply : Option (Reply A)

module _ {D : Type 0} (r : Reals D) where
  -- The loop over the points of a range, on a number of rounds.
  unfoldable pub walk : ℕ → D → D → (D → D) → D → D → Option D
  walk zero b dx func a result = none
  walk (suc fuel) b dx func a result = elim (r.less a b) [
    | true ↦ walk fuel b dx func (r.num.add a dx) (r.num.add result (func a))
    | false ↦ some result
  ]

  unfoldable pub pthread_calc_integral : ℕ → PthArg D → Option D
  pthread_calc_integral fuel arg = walk fuel arg.b arg.dx arg.func arg.a r.num.nought

-- `num_thread % num_logic_cpu`, where the `int` becomes unsigned.
unfoldable pub turn : ℕ → ℤ → Reply ℕ
turn num_thread (pos zero) = fault
turn num_thread (pos (suc n)) = ok (num_thread % suc n)
turn num_thread (negsuc k) = ok (num_thread % (2 ^ 32 - (k + 1)))

-- The number -1 is an error, whatever a function meant by it.
abbrev pub checked : Reply ℤ → Reply ℤ
checked (ok (negsuc zero)) = fail unset
checked (ok (pos n)) = ok (pos n)
checked (ok (negsuc (suc k))) = ok (negsuc (suc k))
checked (fail e) = fail unset
checked fault = fault

-- The processor of a thread.
unfoldable pub cpu_of_thread : Option CpuTopology → ℤ → ℕ → Reply ℤ
cpu_of_thread cputop num_logic_cpu num_thread = elim (turn num_thread num_logic_cpu) [
  | ok i ↦ checked (get_logic_cpu_id cputop (pos i))
  | fail e ↦ fail e
  | fault ↦ fault
]

abbrev pub stops : {A : Type 0} → List Event → Reply A → Run A
stops events reply = record { events = events; reply = some reply }

abbrev pub then_cpu : Event → ℤ → Run (List ℤ) → Run (List ℤ)
then_cpu event id rest = record {
  events = event ∷ rest.events;
  reply = elim rest.reply [ some (ok ids) ↦ some (ok (id ∷ ids)) | other ↦ other ];
}

module _ (sys : Threads) where
  -- The loop of `_distributeAttrThreads` from thread `i` on, with `left` to go: the processors.
  unfoldable pub distribute_from : Option CpuTopology → ℤ → (left i : ℕ) → Run (List ℤ)
  distribute_from cputop num_logic_cpu zero i = stops [] (ok [])
  distribute_from cputop num_logic_cpu (suc left) i =
      let rest = distribute_from cputop num_logic_cpu left (i + 1) in
      if sys.inits i
      then elim (cpu_of_thread cputop num_logic_cpu i) [
        | ok id ↦
            if sys.has_affinity i id
            then then_cpu (init_attr i) id rest
            else stops (init_attr i ∷ []) (fail unset)
        | fail e ↦ stops (init_attr i ∷ []) (fail e)
        | fault ↦ stops (init_attr i ∷ []) fault
      ]
      else stops [] (fail unset)

  unfoldable pub distribute_attr_threads : ℕ → Option CpuTopology → Run (List ℤ)
  distribute_attr_threads num_threads cputop = elim (checked (get_num_logic_cpu cputop)) [
    | ok num_logic_cpu ↦ distribute_from cputop num_logic_cpu num_threads 0
    | fail e ↦ stops [] (fail e)
    | fault ↦ stops [] fault
  ]
