-- ===== src/CpuTopology/Laws.antt =====
-- `cputopSortUniqSetsCoreId` as a whole, and where it never returns.
use task_lunev.Base.{
  ℕ, zero, suc, ◌+◌, ◌≤◌, ◌<◌, ◌≡◌, arith, refl, sym, ap, ◌∙◌, true, false, Bool-cases, inl, inr,
  le→leb, lt→ltb, none, some,
}
use task_lunev.Base.{
  List, [], ◌∷◌, ◌++◌, length, length-append, length-take, take, drop, pos, minus_one,
}
use task_lunev.Memory.{ok, Errno, unset}
use task_lunev.CpuTopology.{
  LogicCpu, CpuTopology, Sorter, members, sort_uniq_sets, place_sets, take_set, take_sets,
}
use task_lunev.CpuTopology.Sets.{live, is_core, take_sets-Placed, length-take_set}
use mathlib.Core.List.{Mem, Perm, mem-cons_self, mem-cons_of_mem, mem-cons, not-mem-nil}
use mathlib.Core.Logic.Or
use mathlib.Core.Bool.{Bool-set}
use native.Mathlib.Bridge.{le_prop}
use mathlib.Core.List.Perm
use mathlib.Core.List as Library
use native.Mathlib.Bridge.{from_ℕ}

length-bridge : (cpus : List LogicCpu) → from_ℕ (Library.length cpus) ≡ length cpus
length-bridge [] = refl
length-bridge (c ∷ cs) = ap suc (length-bridge cs)

pub length-eq : {xs ys : List LogicCpu} → Perm xs ys → length xs ≡ length ys
length-eq {xs} {ys} p = sym (length-bridge xs) ∙ ap from_ℕ (Perm.length-eq p) ∙ length-bridge ys

-- Every entry has a core id that is not negative.
abbrev pub AllCores : List LogicCpu → Type 0
AllCores [] = Unit {0}
AllCores (c ∷ cs) = (is_core c.core_id ≡ true) × AllCores cs

pub all_cores :
    (cpus : List LogicCpu) → AllCores cpus → (c : LogicCpu) → Mem c cpus → is_core c.core_id ≡ true
all_cores [] h c m = absurd (not-mem-nil m)
all_cores (d ∷ cs) h c m =
    Or.elim (Bool-set _ _) (mem-cons.0 m) (λ e. ap (λ (t : LogicCpu). is_core t.core_id) e ∙ h.0)
      (λ later. all_cores cs h.1 c later)

pub live_all :
    (cpus : List LogicCpu)
    → ((c : LogicCpu) → Mem c cpus → is_core c.core_id ≡ true)
    → live cpus ≡ cpus
live_all [] h = refl
live_all (c ∷ cs) h =
    let first = h c mem-cons_self in
    rw first (ap (λ t. c ∷ t) (live_all cs (λ d m. h d (mem-cons_of_mem c m))))

-- A structure with `n` entries and more behind them.
abbrev pub holding : List LogicCpu → ℕ → CpuTopology
holding cpus n = record { num_logic_cpu = pos n; logic_cpus = some cpus }

pub members-holding :
    (cpus : List LogicCpu) (n : ℕ)
    → n < length cpus
    → (e : Errno) → members (some (holding cpus (suc n))) e ≡ ok (cpus, suc n)
unfolding members
members-holding cpus n h e = rw (le→leb (suc n) (length cpus) h)

-- What a call that returns hands back: every entry once, and the entries behind `n` as they
-- were.
pub record Kept (q : Sorter) (cpus : List LogicCpu) (n : ℕ) : Type 0 where
  pub sets : List LogicCpu
  pub returns :
      sort_uniq_sets q (suc n) (some (holding cpus n)) ≡ some (ok (holding (sets ++ drop n cpus) n))
  pub same : Perm sets (take n cpus)

-- For a sort of the library that gives a permutation, of a structure with at least one processor
-- and room for all of them, none of which has a negative core, cputopSortUniqSetsCoreId ends
-- within one round more than there are processors, with every processor once, and with the entries
-- behind them as they were.
pub sort_uniq_sets-Kept :
    (q : Sorter) (cpus : List LogicCpu) (n : ℕ)
    → 0 < n
    → n ≤ length cpus
    → AllCores (take n cpus)
    → Kept q cpus n
unfolding sort_uniq_sets place_sets
sort_uniq_sets-Kept q cpus zero some_cpu room cores = absurd (omega arith)
sort_uniq_sets-Kept q cpus (suc n) some_cpu room cores =
    let copy = q.qsort (take (suc n) cpus) in
    let moved = q.qsort-Perm (take (suc n) cpus) in
    let all_live =
      live_all copy (λ c m. all_cores (take (suc n) cpus) cores c (Perm.subset moved c m)) in
    let size : length (live copy) ≡ suc n =
      ap length all_live ∙ length-eq moved ∙ length-take (suc n) cpus room in
    let placed =
      take_sets-Placed (suc (suc n)) (suc n) copy [] (omega (arith, size)) (omega (arith, size)) in
    record {
      sets = placed.sets;
      returns = rw (sort_uniq_sets, members-holding cpus n room unset, placed.returns);
      same = Perm.trans placed.same (rw all_live moved);
    }

live-le : (cpus : List LogicCpu) → length (live cpus) ≤ length cpus
live-le [] = omega arith
live-le (c ∷ cs) = elim (Bool-cases (is_core c.core_id)) [
  | inl e ↦ rw e (omega (arith, live-le cs))
  | inr e ↦ rw e (omega (arith, live-le cs))
]

live_less :
    (cpus : List LogicCpu) (c : LogicCpu)
    → Mem c cpus
    → is_core c.core_id ≡ false
    → length (live cpus) < length cpus
live_less [] c m e = absurd (not-mem-nil m)
live_less (d ∷ cs) c m e =
    Or.elim le_prop (mem-cons.0 m)
      (λ same.
        let f = ap (λ (t : LogicCpu). is_core t.core_id) (sym same) ∙ e in
        rw f (omega (arith, live-le cs)))
      (λ later. elim (Bool-cases (is_core d.core_id)) [
        | inl f ↦ rw f (omega (arith, live_less cs c later e))
        | inr f ↦ rw f (omega (arith, live_less cs c later e))
      ])

take_sets_endless :
    (rounds n : ℕ) (copy out : List LogicCpu)
    → length out + length (live copy) < n
    → take_sets rounds n copy out ≡ none
unfolding take_sets
take_sets_endless zero n copy out h = refl
take_sets_endless (suc rounds) n copy out h =
    let taken = (take_set copy minus_one).0 in
    let left = (take_set copy minus_one).1 in
    let count = length-take_set copy minus_one refl in
    let rest =
      take_sets_endless rounds n left (out ++ taken) (omega (arith, length-append out taken)) in
    rw (
      lt→ltb (length out) n (omega arith),
      le→leb (length out + length taken) n (omega arith),
      rest,
    )

-- Where some processor of the structure has a negative core, no number of rounds ends the outer
-- loop of cputopSortUniqSetsCoreId.
pub sort_uniq_sets_endless :
    (q : Sorter) (cpus : List LogicCpu) (n rounds : ℕ) (c : LogicCpu)
    → n ≤ length cpus
    → Mem c (take n cpus)
    → is_core c.core_id ≡ false
    → sort_uniq_sets q rounds (some (holding cpus n)) ≡ none
unfolding sort_uniq_sets place_sets
sort_uniq_sets_endless q cpus zero rounds c room m e = absurd (not-mem-nil m)
sort_uniq_sets_endless q cpus (suc n) rounds c room m e =
    let copy = q.qsort (take (suc n) cpus) in
    let moved = q.qsort-Perm (take (suc n) cpus) in
    let less = live_less copy c (Perm.subset (Perm.symm moved) c m) e in
    let size : length copy ≡ suc n = length-eq moved ∙ length-take (suc n) cpus room in
    rw (
      sort_uniq_sets,
      members-holding cpus n room unset,
      take_sets_endless rounds (suc n) copy [] (omega (arith, size)),
    )
