-- ===== src/CpuTopology.antt =====
-- HPC_Integral/lib/cpu_topology.c: the processors that are online, their cores, and the order in
-- which the threads are placed on them.
mod Tests
pub mod Sets
pub mod Nested
pub mod Laws
pub mod Cores
pub mod Online
use task_lunev.Base.{
  ℕ, zero, suc, ◌+◌, ◌*◌, Bool, true, false, ◌&&◌, if◌then◌else◌, leb, ltb, Option, none, some,
}
use task_lunev.Base.{List, [], ◌∷◌, ◌++◌, length, take, drop, replicate, set, get_elem?}
use task_lunev.Base.{ℤ, pos, negsuc, minus_one, ltbℤ}
use task_lunev.Memory.{Reply, ok, fail, fault, Errno, unset, ◌>>=◌}
use mathlib.Core.List.{Perm}
use mathlib.Core.Option

pub record LogicCpu : Type 0 where
  pub id : ℤ
  pub core_id : ℤ

-- The number is an `int`; `logic_cpus` is the allocation, `none` a null pointer.
pub record CpuTopology : Type 0 where
  pub num_logic_cpu : ℤ
  pub logic_cpus : Option (List LogicCpu)

-- `_cputopVerifier`, with the two members that it guards; an array that is shorter than the number
-- says cannot be read.
unfoldable pub verified : ℤ → Option (List LogicCpu) → Errno → Reply (List LogicCpu × ℕ)
verified (pos (suc n)) (some cpus) e = if leb (suc n) (length cpus) then ok (cpus, suc n) else fault
verified (pos zero) cpus e = fail e
verified (negsuc n) cpus e = fail e
verified (pos (suc n)) none e = fail e

-- `CHECK_PTR` and the verifier.
unfoldable pub members : Option CpuTopology → Errno → Reply (List LogicCpu × ℕ)
unfolding verified
members none e = fail Errno.einval
members (some cputop) e = verified cputop.num_logic_cpu cputop.logic_cpus e

-- What `qsort` does to an array with the comparison of the source: it moves the elements.
pub record Sorter : Type 0 where
  pub qsort : List LogicCpu → List LogicCpu
  pub qsort-Perm : (cpus : List LogicCpu) → Perm (qsort cpus) cpus

-- The entry of the copy that is taken is marked.
abbrev pub marked : LogicCpu → LogicCpu
marked c = record { id = c.id; core_id = negsuc 1 }

-- The loop over `j`: the entries that are taken, in order, and the copy behind it.
unfoldable pub take_set : List LogicCpu → ℤ → List LogicCpu × List LogicCpu
take_set [] min = ([], [])
take_set (c ∷ cs) min =
    let (taken, left) = take_set cs (if ltbℤ min c.core_id then c.core_id else min) in
    if ltbℤ min c.core_id then (c ∷ taken, marked c ∷ left) else (taken, c ∷ left)

-- The loop over `i`, where `out` are the entries that were written; `none` says that the rounds ran
-- out. Behind the end of the array a write is undefined.
unfoldable pub take_sets : ℕ → ℕ → List LogicCpu → List LogicCpu → Option (Reply (List LogicCpu))
take_sets zero n copy out = none
take_sets (suc rounds) n copy out =
    let (taken, left) = take_set copy minus_one in
    let rest = take_sets rounds n left (out ++ taken) in
    if ltb (length out) n
    then (if leb (length out + length taken) n then rest else some fault)
    else some (ok out)

-- `cputopSortUniqSetsCoreId` behind the checks: the first `n` entries are sorted, copied, and
-- written again.
unfoldable pub place_sets : Sorter → ℕ → List LogicCpu × ℕ → Option (Reply CpuTopology)
place_sets q rounds (cpus, n) =
    Option.map
      (λ r.
        r >>= λ out. ok (record { num_logic_cpu = pos n; logic_cpus = some (out ++ drop n cpus) }))
      (take_sets rounds n (q.qsort (take n cpus)) [])

unfoldable pub sort_uniq_sets : Sorter → ℕ → Option CpuTopology → Option (Reply CpuTopology)
sort_uniq_sets q rounds cputop = elim (members cputop unset) [
  | fail e ↦ some (fail e)
  | fault ↦ some fault
  | ok p ↦ place_sets q rounds p
]

-- `mask_core_id[...] = 1` for each entry; an index outside the mask is undefined.
unfoldable pub mark_cores : List LogicCpu → List ℕ → Reply (List ℕ)
mark_cores [] mask = ok mask
mark_cores (c ∷ cs) mask = do
  mask' ← elim c.core_id [
    | negsuc _ ↦ fault
    | pos k ↦ if ltb k (length mask) then ok (set mask k 1) else fault
  ]
  mark_cores cs mask'

abbrev pub sum : List ℕ → ℕ
sum [] = 0
sum (x ∷ xs) = x + sum xs

-- `cputopGetNumCoreCPU`
unfoldable pub get_num_core_cpu : Option CpuTopology → Reply ℤ
get_num_core_cpu cputop = do
  (cpus, n) ← members cputop Errno.einval
  mask ← mark_cores (take n cpus) (replicate n 0)
  ok (pos (sum mask))

-- `cputopGetNumLogicCPU`
unfoldable pub get_num_logic_cpu : Option CpuTopology → Reply ℤ
get_num_logic_cpu none = fail Errno.einval
get_num_logic_cpu (some cputop) = ok cputop.num_logic_cpu

unfoldable pub entry_id : Option (List LogicCpu) → ℤ → Reply ℤ
entry_id none num = fault
entry_id (some cpus) (negsuc _) = fault
entry_id (some cpus) (pos k) = elim (get_elem? cpus k) [ none ↦ fault | some c ↦ ok c.id ]

-- `cputopGetLogicCpuId`: a negative index passes the test and reads in front of the array.
unfoldable pub get_logic_cpu_id : Option CpuTopology → ℤ → Reply ℤ
unfolding entry_id
get_logic_cpu_id none num = fail Errno.einval
get_logic_cpu_id (some cputop) num =
    if ltbℤ num cputop.num_logic_cpu then entry_id cputop.logic_cpus num else fail Errno.einval
