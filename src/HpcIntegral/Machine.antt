-- ===== src/HpcIntegral/Machine.antt =====
-- HPC_Integral/lib/hpc.c: `hpcIntegral` from the files of the system to the number.
use task_lunev.Base.{
  ℕ, zero, suc, ◌^◌, ◌≤◌, ◌<◌, ◌≡◌, arith, refl, ap, ◌∙◌, true, false, lt→ltb, some,
}
use task_lunev.Base.{
  List, [], ◌∷◌, ◌++◌, length, length-take, take, drop, get_or, get_elem?, pos, minus_one, eqbℤ,
}
use task_lunev.Memory.{ok}
use task_lunev.CpuTopology.{LogicCpu, Sorter, get_num_logic_cpu}
use task_lunev.CpuTopology.Laws.{holding, AllCores, Kept, sort_uniq_sets-Kept, length-eq}
use task_lunev.CpuTopology.Online.{Sysfs, init}
use task_lunev.BinArray.Create.{Allocator}
use task_lunev.HpcIntegral.{Reals, Threads}
use task_lunev.HpcIntegral.Entry.{
  HpcIntArg, cputop_create, verifier_int_arg, hpc_integral, integral_linear_int,
}
use task_lunev.HpcIntegral.Placement.{HasCpus}
use task_lunev.HpcIntegral.Parallel.{num_dummy_of}
use task_lunev.HpcIntegral.Same.{
  Grants, AllEnd, linear_dummies, reply_of, sum_of, integral_linear-sum_of,
}
use mathlib.Core.List.{Mem, mem-cons_self, mem-cons_of_mem, mem-cons, not-mem-nil}
use mathlib.Core.Logic.Or
use mathlib.Core.Bool.{Bool-set}
use mathlib.Core.List.Perm

abbrev nobody : LogicCpu
nobody = record { id = pos 0; core_id = pos 0 }

mem-get_or : (cpus : List LogicCpu) (i : ℕ) → i < length cpus → Mem (get_or cpus i nobody) cpus
mem-get_or [] i h = absurd (omega arith)
mem-get_or (c ∷ cs) zero h = mem-cons_self
mem-get_or (c ∷ cs) (suc i) h = mem-cons_of_mem c (mem-get_or cs i (omega arith))

get_elem?-front :
    (cpus more : List LogicCpu) (i : ℕ)
    → i < length cpus
    → get_elem? (cpus ++ more) i ≡ some (get_or cpus i nobody)
get_elem?-front [] more i h = absurd (omega arith)
get_elem?-front (c ∷ cs) more zero h = refl
get_elem?-front (c ∷ cs) more (suc i) h = get_elem?-front cs more i (omega arith)

-- No processor has the number that says an error.
abbrev pub AllNamed : List LogicCpu → Type 0
AllNamed [] = Unit {0}
AllNamed (c ∷ cs) = (eqbℤ c.id minus_one ≡ false) × AllNamed cs

all_named :
    (cpus : List LogicCpu)
    → AllNamed cpus
    → (c : LogicCpu) → Mem c cpus
    → eqbℤ c.id minus_one ≡ false
all_named [] h c m = absurd (not-mem-nil m)
all_named (d ∷ cs) h c m =
    Or.elim (Bool-set _ _) (mem-cons.0 m) (λ e. ap (λ (t : LogicCpu). eqbℤ t.id minus_one) e ∙ h.0)
      (λ later. all_named cs h.1 c later)

-- A machine with `n` processors that cputopInit reads and whose cores and numbers are known.
pub record Machine (m : Allocator) (f : Sysfs) (cpus : List LogicCpu) (n : ℕ) : Type 0 where
  pub reads : init m f (cputop_create true) ≡ ok (holding cpus n)
  pub some_cpu : 0 < n
  pub room : n ≤ length cpus
  pub cores : AllCores (take n cpus)
  pub named : AllNamed (take n cpus)

Kept-HasCpus :
    {m : Allocator} {f : Sysfs} {cpus : List LogicCpu} {n : ℕ} {q : Sorter} (k : Machine m f cpus n)
    (s : Kept q cpus n)
    → HasCpus (s.sets ++ drop n cpus) n (λ i. get_or s.sets i nobody)
Kept-HasCpus {cpus} {n} k s =
    let size : length s.sets ≡ n = length-eq s.same ∙ length-take n cpus k.room in
    record {
      some_cpu = k.some_cpu;
      entry = λ i h. get_elem?-front s.sets (drop n cpus) i (omega (arith, size));
      named = λ i h.
          all_named (take n cpus) k.named (get_or s.sets i nobody)
            (Perm.subset s.same _ (mem-get_or s.sets i (omega (arith, size))));
    }

module _ {D : Type 0} (r : Reals D) {sys : Threads} (g : Grants sys) (fuel : ℕ) where
  -- Of a machine whose processors cputopInit reads, with cores that are not negative and numbers
  -- other than -1, where every call of the system succeeds and every dummy thread ends within the
  -- rounds, hpcIntegral of an accepted argument with fewer than 2^31 threads ends exactly when all
  -- of its threads do; it returns their results, added in order, with the sign of the direction
  -- and times the step, whatever the machine is.
  pub hpc_integral-sum :
      (m : Allocator) (f : Sysfs) (q : Sorter) (cpus : List LogicCpu) (n : ℕ) (arg : HpcIntArg D)
      (func : D → D)
      → Machine m f cpus n
      → verifier_int_arg r arg ≡ true
      → arg.func ≡ some func
      → arg.num_threads < 2 ^ 31
      → AllEnd r fuel (
          linear_dummies r arg.a arg.b func arg.eps arg.num_threads
            (num_dummy_of arg.num_threads (some (holding cpus n))))
      → (hpc_integral r sys fuel true m f q (suc n) arg).reply
        ≡ reply_of r (sum_of r fuel arg.a arg.b func arg.eps arg.num_threads)
  unfolding hpc_integral integral_linear_int num_dummy_of get_num_logic_cpu
  hpc_integral-sum m f q cpus n arg func k valid known small ends =
      let s = sort_uniq_sets-Kept q cpus n k.some_cpu k.room k.cores in
      rw (hpc_integral, valid, k.reads, s.returns, known, lt→ltb arg.num_threads (2 ^ 31) small)
        (integral_linear-sum_of r g fuel (Kept-HasCpus k s) arg.a arg.b func arg.eps arg.num_threads
          ends)
