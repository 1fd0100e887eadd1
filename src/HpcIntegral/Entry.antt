-- ===== src/HpcIntegral/Entry.antt =====
-- HPC_Integral/lib/hpc.c: `hpcIntegral`, from the checks of its argument to the result, its
-- counterpart without threads `hpcSimpleIntegral`, and `hpcSetPolicy`.
use task_lunev.Base.{
  ℕ, ◌-◌, ◌^◌, Bool, true, false, not, ◌&&◌, if◌then◌else◌, ltb, Option, none, some, [], ℤ, pos,
  negsuc, minus_one,
}
use task_lunev.Memory.{Reply, ok, fail, fault, Errno, unset}
use task_lunev.CpuTopology.{CpuTopology, Sorter, get_num_logic_cpu, sort_uniq_sets}
use task_lunev.CpuTopology.Online.{Sysfs, init}
use task_lunev.BinArray.Create.{Allocator}
use task_lunev.HpcIntegral.{Reals, Threads, Run, stops, walk, distribute_attr_threads}
use task_lunev.HpcIntegral.Parallel.{and_then, signed, integral_linear}

-- `hpc_int_arg_t`; `none` is a null pointer.
pub record HpcIntArg (D : Type 0) : Type 0 where
  pub a : D
  pub b : D
  pub func : Option (D → D)
  pub eps : D
  pub num_threads : ℕ

-- The `unsigned` number of threads in an `int`.
abbrev pub as_int : ℕ → ℤ
as_int n = if ltb n (2 ^ 31) then pos n else negsuc (2 ^ 32 - n - 1)

-- `cputopCreate`
abbrev pub cputop_create : Bool → Option CpuTopology
cputop_create granted =
    if granted then some (record { num_logic_cpu = pos 0; logic_cpus = none }) else none

-- `hpcSetPolicy`: the priority of the caller is not used.
unfoldable pub hpc_set_policy : (ℤ → ℕ → Bool) → ℤ → ℕ → Reply (Unit {0})
hpc_set_policy sched_setscheduler policy priority =
    if sched_setscheduler policy 99 then ok tt else fail unset

module _ {D : Type 0} (r : Reals D) where
  unfoldable pub verifier_int_arg : HpcIntArg D → Bool
  verifier_int_arg arg =
      r.num.is_finite arg.a
      && r.num.is_finite arg.b
      && not (r.is_zero arg.eps)
      && elim arg.func [ none ↦ false | some func ↦ true ]
      && ltb 0 arg.num_threads

  unfoldable pub hpc_simple_integral : ℕ → D → D → (D → D) → D → Option D
  hpc_simple_integral fuel a b func eps =
      let sign_int = r.leq a b in
      let lo = if sign_int then a else b in
      let hi = if sign_int then b else a in
      let dx = r.num.times (r.num.minus hi lo) eps in
      elim (walk r fuel hi dx func lo r.num.nought) [
        | none ↦ none
        | some res ↦ some (signed r sign_int dx res)
      ]

  module _ (sys : Threads) (fuel : ℕ) where
    -- The call with an `int`: a negative number of threads takes the processors for dummy threads,
    -- and the loop over these begins in front of the arrays.
    unfoldable pub integral_linear_int : D → D → (D → D) → D → ℤ → Option CpuTopology → Run D
    integral_linear_int a b func eps (pos n) cputop =
        integral_linear r sys fuel a b func eps n cputop
    integral_linear_int a b func eps (negsuc k) cputop =
        if sys.grants 0
        then elim (get_num_logic_cpu cputop) [
          | ok (pos n) ↦ and_then (distribute_attr_threads sys n cputop) (λ ids. stops [] fault)
          | _ ↦ stops [] fault
        ]
        else stops [] (ok (r.of_int minus_one))

    -- The topology has the processors that are online, in the order of the sets. That it is
    -- destroyed in the end cannot fail.
    unfoldable pub hpc_integral :
        (granted : Bool) → Allocator → Sysfs → Sorter → (rounds : ℕ) → HpcIntArg D → Run D
    hpc_integral granted m f q rounds arg =
        if verifier_int_arg arg
        then elim (init m f (cputop_create granted)) [
          | fail e ↦ stops [] (fail e)
          | fault ↦ stops [] fault
          | ok cputop ↦ elim (sort_uniq_sets q rounds (some cputop)) [
            | none ↦ record { events = []; reply = none }
            | some (fail e) ↦ stops [] (fail e)
            | some fault ↦ stops [] fault
            | some (ok cputop') ↦ elim arg.func [
              | none ↦ stops [] fault
              | some func ↦
                  integral_linear_int arg.a arg.b func arg.eps (as_int arg.num_threads)
                    (some cputop')
            ]
          ]
        ]
        else stops [] (fail Errno.einval)
