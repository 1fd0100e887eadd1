-- ===== src/HpcIntegral/Tests.antt =====
-- Runs of the functions of HPC_Integral/lib/hpc.c, with natural numbers in the place of the
-- floating-point numbers.
use task_lunev.Base.{
  ℕ, zero, suc, ◌+◌, ◌-◌, ◌*◌, ◌/◌, ◌<◌, ◌≡◌, arith, refl, true, ltb, leb, ◌==◌, some, none, List,
  [], ◌∷◌, ℤ, pos, negsuc, get_elem?,
}
use task_lunev.Memory.{ok, fail, Errno}
use task_lunev.BinArray.Create.{Allocator}
use task_lunev.CpuTopology.{LogicCpu, Sorter, get_num_logic_cpu, get_logic_cpu_id, entry_id}
use task_lunev.CpuTopology.Laws.{holding}
use task_lunev.CpuTopology.Online.{
  Sysfs, init, init_core_cpu, init_cores, fill_core_cpu, fill_logic_cpu, fill_tokens, fill_token,
  fill_range, tokens, atoi, behind_dash,
}
use task_lunev.HpcNet.{Doubles}
use task_lunev.HpcIntegral.{
  Reals, Threads, walk, pthread_calc_integral, distribute_attr_threads, distribute_from,
  cpu_of_thread, turn,
}
use task_lunev.HpcIntegral.Parallel.{
  integral, integral_linear, num_dummy_of, create_threads, join_threads,
}
use task_lunev.HpcIntegral.Entry.{HpcIntArg, hpc_integral, hpc_simple_integral, verifier_int_arg}
use task_lunev.HpcIntegral.Loop.{hpc_simple_integral_endless}
use task_lunev.HpcIntegral.Placement.{HasCpus, Placed, distribute-Placed}
use task_lunev.HpcIntegral.Same.{
  Grants, reply_of, integral_linear-integral, integral_linear-hpc_simple_integral,
}
use task_lunev.HpcIntegral.Linear.{Clean, integral_linear-Clean}
use task_lunev.HpcIntegral.Machine.{Machine, hpc_integral-sum}
use mathlib.Core.List.Perm

abbrev whole : Doubles ℕ
whole = record {
  nought = 0;
  of_nat = λ n. n;
  add = λ x y. x + y;
  minus = λ x y. x - y;
  times = λ x y. x * y;
  over = λ x y. x / y;
  fabs = λ x. x;
  is_finite = λ x. true;
}

abbrev int_to_nat : ℤ → ℕ
int_to_nat (pos n) = n
int_to_nat (negsuc n) = 0

abbrev naturals : Reals ℕ
naturals = record { num = whole; less = ltb; leq = leb; is_zero = λ x. x == 0; of_int = int_to_nat }

abbrev willing : Threads
willing = record {
  inits = λ i. true;
  has_affinity = λ i id. true;
  creates = λ i. true;
  joins = λ i. true;
  grants = λ i. true;
}

willing-Grants : Grants willing
willing-Grants = record {
  attrs = record { inits = λ i. refl; has_affinity = λ i id. refl };
  creates = λ i. refl;
  joins = λ i. refl;
  grants = λ i. refl;
}

-- A machine with three processors.
abbrev cpu_at : ℕ → LogicCpu
cpu_at i = record { id = pos (10 + i); core_id = pos i }

abbrev three_cpus : List LogicCpu
three_cpus = cpu_at 0 ∷ cpu_at 1 ∷ cpu_at 2 ∷ []

three-HasCpus : HasCpus three_cpus 3 cpu_at
three-HasCpus = record { some_cpu = omega arith; entry = at; named = λ i h. refl }
  where
    at : (i : ℕ) → i < 3 → get_elem? three_cpus i ≡ some (cpu_at i)
    at zero h = refl
    at (suc zero) h = refl
    at (suc (suc zero)) h = refl
    at (suc (suc (suc i))) h = absurd (omega arith)

abbrev double : ℕ → ℕ
double x = 2 * x

zero_step_endless : hpc_simple_integral naturals 50 2 7 double 0 ≡ none
zero_step_endless = hpc_simple_integral_endless naturals double 2 7 0 50 refl refl refl

-- With one thread and two dummy threads thread 2 is on the third processor.
distribute-Placed_example : Placed willing three_cpus 3 1 2 cpu_at
unfolding num_dummy_of get_num_logic_cpu
distribute-Placed_example = distribute-Placed three-HasCpus (willing-Grants.attrs) 1 2 (omega arith)

-- From 0 to 8 with two threads and steps of 8: one dummy thread walks over the whole range.
integral_linear-integral_example :
    (integral_linear naturals willing 9 0 8 double 1 2 (some (holding three_cpus 3))).reply
    ≡ (integral naturals willing 9 0 8 double 1 2 (some (holding three_cpus 3))).reply
unfolding num_dummy_of get_num_logic_cpu pthread_calc_integral walk
integral_linear-integral_example =
    integral_linear-integral naturals willing-Grants 9 three-HasCpus 0 8 double 1 2 ((0, refl), tt)

integral_linear-hpc_simple_integral_example :
    (integral_linear naturals willing 9 0 8 double 1 1 (some (holding three_cpus 3))).reply
    ≡ reply_of naturals (hpc_simple_integral naturals 9 0 8 double 1)
unfolding num_dummy_of get_num_logic_cpu pthread_calc_integral walk
integral_linear-hpc_simple_integral_example =
    integral_linear-hpc_simple_integral naturals willing-Grants 9 three-HasCpus 0 8 double 1 refl
      (λ x. omega arith) ((0, refl), ((8, refl), tt))

-- The second of the three joins fails.
abbrev join_refused : Threads
join_refused = record willing { joins = λ i. ltb i 1 }

integral_linear-Clean_example :
    Clean
      (integral_linear naturals join_refused 9 0 8 double 1 2 (some (holding three_cpus 3))).events
unfolding integral_linear num_dummy_of get_num_logic_cpu distribute_attr_threads distribute_from
    cpu_of_thread turn create_threads get_logic_cpu_id entry_id join_threads pthread_calc_integral
    walk
integral_linear-Clean_example =
    integral_linear-Clean naturals join_refused 9 0 8 double 1 2 (some (holding three_cpus 3))
      (pos 10 ∷ pos 11 ∷ pos 12 ∷ []) (fail Errno.einval) (λ i. refl) refl refl

abbrev all_granted : Allocator
all_granted = record { grants = λ n. true; stale = λ i. 0; stale-lt = λ i. omega arith }

-- "0-1,3" and the end of the line.
abbrev online : List ℕ
online = b'0' ∷ b'-' ∷ b'1' ∷ b',' ∷ b'3' ∷ 10 ∷ []

abbrev one_core : Sysfs
one_core = record { online = some online; core_id = λ id. some (b'7' ∷ 10 ∷ []) }

abbrev three_threads : List LogicCpu
three_threads =
    record { id = pos 0; core_id = pos 7 }
    ∷ record { id = pos 1; core_id = pos 7 }
    ∷ record { id = pos 3; core_id = pos 7 }
    ∷ []

machine : Machine all_granted one_core three_threads 3
unfolding init fill_logic_cpu init_core_cpu init_cores fill_core_cpu fill_tokens fill_token
    fill_range tokens atoi behind_dash
machine = record {
  reads = refl;
  some_cpu = omega arith;
  room = omega arith;
  cores = (refl, (refl, (refl, tt)));
  named = (refl, (refl, (refl, tt)));
}

abbrev no_sort : Sorter
no_sort = record { qsort = λ cpus. cpus; qsort-Perm = λ cpus. Perm.refl cpus }

abbrev task : HpcIntArg ℕ
task = record { a = 0; b = 8; func = some double; eps = 1; num_threads = 2 }

hpc_integral-sum_example :
    (hpc_integral naturals willing 9 true all_granted one_core no_sort 4 task).reply
    ≡ some (ok ((0 + 8) * 8))
unfolding num_dummy_of get_num_logic_cpu pthread_calc_integral walk verifier_int_arg
hpc_integral-sum_example =
    hpc_integral-sum naturals willing-Grants 9 all_granted one_core no_sort three_threads 3 task
      double machine refl refl (omega arith) ((0, refl), tt)
