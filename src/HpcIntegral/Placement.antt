-- ===== src/HpcIntegral/Placement.antt =====
-- HPC_Integral/lib/hpc.c, `_distributeAttrThreads`: which processor each thread gets.
use task_lunev.Base.{
  ℕ, zero, suc, ◌+◌, ◌%◌, ◌≤◌, ◌<◌, ◌≡◌, arith, refl, ap, ◌∙◌, true, false, lt→ltb, some,
}
use task_lunev.Base.{List, [], ◌∷◌, get_elem?, ℤ, pos, negsuc, minus_one, eqbℤ}
use native.Mathlib.Nat.{mod-lt}
use task_lunev.Memory.{ok}
use task_lunev.CpuTopology.{LogicCpu, get_num_logic_cpu, get_logic_cpu_id, entry_id}
use task_lunev.CpuTopology.Laws.{holding}
use task_lunev.HpcIntegral.Parallel.{num_dummy_of}
use task_lunev.HpcIntegral.{
  Event, init_attr, Threads, Run, stops, turn, checked, cpu_of_thread, distribute_from,
  distribute_attr_threads,
}

-- A system whose calls for the attributes succeed.
pub record GrantsAttrs (sys : Threads) : Type 0 where
  pub inits : (i : ℕ) → sys.inits i ≡ true
  pub has_affinity : (i : ℕ) (id : ℤ) → sys.has_affinity i id ≡ true

-- The entries that are looked up, none of which has the number that says an error.
pub record HasCpus (cpus : List LogicCpu) (n : ℕ) (cpu_at : ℕ → LogicCpu) : Type 0 where
  pub some_cpu : 0 < n
  pub entry : (i : ℕ) → i < n → get_elem? cpus i ≡ some (cpu_at i)
  pub named : (i : ℕ) → i < n → eqbℤ (cpu_at i).id minus_one ≡ false

abbrev pub inits_from : (left i : ℕ) → List Event
inits_from zero i = []
inits_from (suc left) i = init_attr i ∷ inits_from left (i + 1)

-- The processors of the threads from `i` on.
abbrev pub ids_from : (ℕ → LogicCpu) → ℕ → (left i : ℕ) → List ℤ
ids_from cpu_at n zero i = []
ids_from cpu_at n (suc left) i = (cpu_at (i % n)).id ∷ ids_from cpu_at n left (i + 1)

checked_id : (id : ℤ) → eqbℤ id minus_one ≡ false → checked (ok id) ≡ ok id
checked_id (pos n) h = refl
checked_id (negsuc zero) h = ground arith
checked_id (negsuc (suc k)) h = refl

-- What `_distributeAttrThreads` hands back to `_integral_linear`: thread `i` runs on the processor
-- in place `i % n`, and there are no fewer threads than processors.
pub record Placed (sys : Threads) (cpus : List LogicCpu) (n num_threads i : ℕ)
    (cpu_at : ℕ → LogicCpu) : Type 0 where
  pub ids : List ℤ
  pub returns :
      (distribute_attr_threads sys
        (num_threads + num_dummy_of num_threads (some (holding cpus n)))
        (some (holding cpus n))).reply
      ≡ some (ok ids)
  pub turn_of : get_elem? ids i ≡ some (cpu_at (i % n)).id
  pub enough : n ≤ num_threads + num_dummy_of num_threads (some (holding cpus n))

cpu_of_thread-id :
    {cpus : List LogicCpu} (n : ℕ) {cpu_at : ℕ → LogicCpu} (c : HasCpus cpus n cpu_at) (i : ℕ)
    → cpu_of_thread (some (holding cpus n)) (pos n) i ≡ ok (cpu_at (i % n)).id
unfolding cpu_of_thread turn get_logic_cpu_id entry_id
cpu_of_thread-id zero c i = absurd (let h = c.some_cpu in omega arith)
cpu_of_thread-id (suc m) {cpu_at} c i =
    let inside = mod-lt i c.some_cpu in
    rw
      (
        cpu_of_thread,
        turn,
        lt→ltb (i % suc m) (suc m) inside,
        entry_id,
        c.entry (i % suc m) inside,
        checked_id (cpu_at (i % suc m)).id (c.named (i % suc m) inside),
      )
      refl

module _ {cpus : List LogicCpu} {n : ℕ} {cpu_at : ℕ → LogicCpu} (c : HasCpus cpus n cpu_at) where
  module _ {sys : Threads} (g : GrantsAttrs sys) where
    pub distribute_from-ids :
        (left i : ℕ)
        → distribute_from sys (some (holding cpus n)) (pos n) left i
          ≡ stops (inits_from left i) (ok (ids_from cpu_at n left i))
    unfolding distribute_from
    distribute_from-ids zero i = refl
    distribute_from-ids (suc left) i =
        rw
          (
            g.inits i,
            cpu_of_thread-id n c i,
            g.has_affinity i (cpu_at (i % n)).id,
            distribute_from-ids left (i + 1),
          )
          refl

    pub distribute_attr_threads-ids :
        (num_threads : ℕ)
        → distribute_attr_threads sys num_threads (some (holding cpus n))
          ≡ stops (inits_from num_threads 0) (ok (ids_from cpu_at n num_threads 0))
    unfolding distribute_attr_threads get_num_logic_cpu
    distribute_attr_threads-ids num_threads = distribute_from-ids num_threads 0

    -- The processor of thread `i`.
    pub get_elem?-ids_from :
        (left i k : ℕ)
        → k < left
        → get_elem? (ids_from cpu_at n left i) k ≡ some (cpu_at ((i + k) % n)).id
    get_elem?-ids_from zero i k h = absurd (omega arith)
    get_elem?-ids_from (suc left) i zero h =
        ap (λ t. some (cpu_at (t % n)).id) (let e : i ≡ i + 0 = omega arith in e)
    get_elem?-ids_from (suc left) i (suc k) h =
        get_elem?-ids_from left (i + 1) k (omega arith)
        ∙ ap (λ t. some (cpu_at (t % n)).id) (let e : i + 1 + k ≡ i + suc k = omega arith in e)

    -- Where the calls for the attributes succeed, on a structure whose processors have numbers
    -- other than -1, the threads and the dummy threads of _integral_linear are together no fewer
    -- than the processors, and the thread with number i gets the processor in place i modulo the
    -- number of processors.
    pub distribute-Placed :
        (num_threads i : ℕ)
        → i < num_threads + num_dummy_of num_threads (some (holding cpus n))
        → Placed sys cpus n num_threads i cpu_at
    unfolding num_dummy_of get_num_logic_cpu
    distribute-Placed num_threads i h =
        let total : ℕ = num_threads + num_dummy_of num_threads (some (holding cpus n)) in
        record {
          ids = ids_from cpu_at n total 0;
          returns = ap (λ (t : Run (List ℤ)). t.reply) (distribute_attr_threads-ids total);
          turn_of =
              get_elem?-ids_from total 0 i h
              ∙ ap (λ t. some (cpu_at (t % n)).id) (let e : 0 + i ≡ i = omega arith in e);
          enough = omega arith;
        }
