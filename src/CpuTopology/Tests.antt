-- ===== src/CpuTopology/Tests.antt =====
-- Small machines, and the theorems at them.
use task_lunev.Base.{
  ℕ, ◌≡◌, arith, refl, true, Bool-cases, inl, inr, none, some, List, [], ◌∷◌, pos, negsuc, lebℤ,
  if◌then◌else◌,
}
use task_lunev.Memory.{ok, fault}
use task_lunev.BinArray.Create.{Allocator}
use task_lunev.CpuTopology.{
  LogicCpu, Sorter, sort_uniq_sets, place_sets, members, verified, take_sets, take_set,
  get_num_core_cpu, mark_cores, get_logic_cpu_id,
}
use task_lunev.CpuTopology.Cores.{get_num_core_cpu_lem}
use task_lunev.CpuTopology.Laws.{holding}
use task_lunev.CpuTopology.Nested.{Nested, sort_uniq_sets-Nested}
use task_lunev.CpuTopology.Online.{
  fill_logic_cpu, entries, init, init_core_cpu, init_cores, fill_core_cpu, fill_tokens, fill_token,
  fill_range, tokens, atoi, behind_dash,
}
use task_lunev.CpuTopology.Online.Ranges.{print, fill_logic_cpu-print}
use mathlib.Core.List.{Perm}
use mathlib.Core.List.Perm

-- `qsort` by the core id.
insert_cpu : LogicCpu → List LogicCpu → List LogicCpu
insert_cpu c [] = c ∷ []
insert_cpu c (d ∷ ds) =
    let rest = insert_cpu c ds in if lebℤ c.core_id d.core_id then c ∷ d ∷ ds else d ∷ rest

insert_cpu-Perm : (c : LogicCpu) (cs : List LogicCpu) → Perm (insert_cpu c cs) (c ∷ cs)
unfolding insert_cpu
insert_cpu-Perm c [] = Perm.refl (c ∷ [])
insert_cpu-Perm c (d ∷ ds) = elim (Bool-cases (lebℤ c.core_id d.core_id)) [
  | inl e ↦ rw e (Perm.refl (c ∷ d ∷ ds))
  | inr e ↦ rw e (Perm.trans (Perm.cons d (insert_cpu-Perm c ds)) (Perm.swap c d ds))
]

sort_cpus : List LogicCpu → List LogicCpu
sort_cpus [] = []
sort_cpus (c ∷ cs) = insert_cpu c (sort_cpus cs)

sort_cpus-Perm : (cs : List LogicCpu) → Perm (sort_cpus cs) cs
unfolding sort_cpus
sort_cpus-Perm [] = Perm.refl []
sort_cpus-Perm (c ∷ cs) =
    Perm.trans (insert_cpu-Perm c (sort_cpus cs)) (Perm.cons c (sort_cpus-Perm cs))

abbrev sorter : Sorter
sorter = record { qsort = sort_cpus; qsort-Perm = sort_cpus-Perm }

abbrev cpu : ℕ → ℕ → LogicCpu
cpu id core = record { id = pos id; core_id = pos core }

-- Two cores with two threads each.
abbrev four_cpus : List LogicCpu
four_cpus = cpu 0 0 ∷ cpu 1 0 ∷ cpu 2 1 ∷ cpu 3 1 ∷ []

sort-four :
    sort_uniq_sets sorter 3 (some (holding four_cpus 4))
    ≡ some (ok (holding (cpu 0 0 ∷ cpu 2 1 ∷ cpu 1 0 ∷ cpu 3 1 ∷ []) 4))
unfolding sort_uniq_sets place_sets members verified take_sets take_set sort_cpus insert_cpu
sort-four = refl

count-four : get_num_core_cpu (some (holding four_cpus 4)) ≡ ok (pos 2)
unfolding get_num_core_cpu members verified mark_cores
count-four = refl

get_num_core_cpu_lem_example : get_num_core_cpu (some (holding four_cpus 4)) ≡ ok (pos 2)
get_num_core_cpu_lem_example = get_num_core_cpu_lem four_cpus 4 (omega arith) (omega arith) (
  (0, refl, omega arith),
  ((0, refl, omega arith), ((1, refl, omega arith), ((1, refl, omega arith), tt))),
)

-- A negative index reads in front of the array.
get_logic_cpu_id_negative : get_logic_cpu_id (some (holding four_cpus 4)) (negsuc 0) ≡ fault
unfolding get_logic_cpu_id
get_logic_cpu_id_negative = refl

get_logic_cpu_id_inside : get_logic_cpu_id (some (holding four_cpus 4)) (pos 2) ≡ ok (pos 2)
unfolding get_logic_cpu_id
get_logic_cpu_id_inside = refl

-- The four processors with the two of the second core in front.
abbrev mixed_cpus : List LogicCpu
mixed_cpus = cpu 2 1 ∷ cpu 0 0 ∷ cpu 3 1 ∷ cpu 1 0 ∷ []

sort_uniq_sets-Nested_example : Nested sorter mixed_cpus 4
unfolding sort_cpus insert_cpu
sort_uniq_sets-Nested_example =
    sort_uniq_sets-Nested sorter mixed_cpus 4 (omega arith) (omega arith)
      ((refl, (refl, (refl, (refl, tt))))) ((refl, (refl, (refl, (refl, tt)))))

-- A processor whose core is not known to the kernel.
abbrev unknown : List LogicCpu
unknown = cpu 0 0 ∷ record { id = pos 1; core_id = negsuc 0 } ∷ []

abbrev all_granted : Allocator
all_granted = record { grants = λ n. true; stale = λ i. 0; stale-lt = λ i. omega arith }

-- "0-1,3" and the end of the line.
abbrev online : List ℕ
online = b'0' ∷ b'-' ∷ b'1' ∷ b',' ∷ b'3' ∷ 10 ∷ []

init-three :
    init all_granted
      (record { online = some online; core_id = λ id. some (b'7' ∷ 10 ∷ []) })
      (some (record { num_logic_cpu = pos 0; logic_cpus = none }))
    ≡ ok (holding (cpu 0 7 ∷ cpu 1 7 ∷ cpu 3 7 ∷ []) 3)
unfolding init fill_logic_cpu init_core_cpu init_cores fill_core_cpu fill_tokens fill_token
    fill_range tokens atoi behind_dash
init-three = refl

fill_logic_cpu-print_example :
    fill_logic_cpu all_granted
      (print (record { first = 0; more = 1 }) (record { first = 3; more = 0 } ∷ []))
    ≡ ok (holding (entries (pos 0 ∷ pos 1 ∷ pos 3 ∷ [])) 3)
fill_logic_cpu-print_example =
    fill_logic_cpu-print all_granted (record { first = 0; more = 1 })
      (record { first = 3; more = 0 } ∷ []) refl refl (omega arith) (omega arith)
