-- ===== src/CpuTopology/Nested.antt =====
-- `cputopSortUniqSetsCoreId` behind a sort: every set holds each core that some later entry has.
use task_lunev.Base.{
  ℕ, zero, suc, ◌+◌, ◌≤◌, ◌<◌, ◌≡◌, arith, refl, sym, ap, ◌∙◌, Bool, true, false, ◌||◌, ◌&&◌,
  Bool-cases, inl, inr, lt→ltb, le→leb, le→ltb_false, dec_lt, some,
}
use task_lunev.Base.{
  List, [], ◌∷◌, ◌++◌, append_assoc, append-nil, length, length-append, length-take, take, drop, ℤ,
  subst, pos, negsuc, minus_one, ltbℤ, lebℤ,
}
use task_lunev.Memory.{ok, unset}
use task_lunev.CpuTopology.{LogicCpu, Sorter, take_set, take_sets, sort_uniq_sets, place_sets}
use task_lunev.CpuTopology.Sets.{
  live, is_core, IsAscending, take_set-Perm, length-take_set, take_set_progress,
  take_set-IsAscending, above_is_core, still_above, length_zero,
}
use task_lunev.CpuTopology.Laws.{AllCores, all_cores, live_all, holding, members-holding, length-eq}
use mathlib.Core.List.{Mem, Perm, mem-cons_self, mem-cons_of_mem, mem-cons, not-mem-nil}
use mathlib.Core.Logic.Or
use mathlib.Core.Bool.{Bool-set}
use mathlib.Core.List.Perm

abbrev pub AllOf : (LogicCpu → Bool) → List LogicCpu → Type 0
AllOf p [] = Unit {0}
AllOf p (c ∷ cs) = (p c ≡ true) × AllOf p cs

all_mem :
    (p : LogicCpu → Bool) (cs : List LogicCpu) → AllOf p cs → (c : LogicCpu) → Mem c cs → p c ≡ true
all_mem p [] h c m = absurd (not-mem-nil m)
all_mem p (d ∷ cs) h c m =
    Or.elim (Bool-set _ _) (mem-cons.0 m) (λ e. ap p e ∙ h.0) (λ later. all_mem p cs h.1 c later)

mem_all :
    (p : LogicCpu → Bool) (cs : List LogicCpu)
    → ((c : LogicCpu) → Mem c cs → p c ≡ true)
    → AllOf p cs
mem_all p [] h = tt
mem_all p (c ∷ cs) h = (h c mem-cons_self, mem_all p cs (λ d m. h d (mem-cons_of_mem c m)))

AllOf-Perm : (p : LogicCpu → Bool) {xs ys : List LogicCpu} → Perm xs ys → AllOf p ys → AllOf p xs
AllOf-Perm p {xs} {ys} moved h = mem_all p xs (λ c m. all_mem p ys h c (Perm.subset moved c m))

AllOf-mono :
    (p q : LogicCpu → Bool) (cs : List LogicCpu)
    → ((c : LogicCpu) → p c ≡ true → q c ≡ true)
    → AllOf p cs
    → AllOf q cs
AllOf-mono p q [] f h = tt
AllOf-mono p q (c ∷ cs) f h = (f c h.0, AllOf-mono p q cs f h.1)

abbrev pub same_core : ℤ → ℤ → Bool
same_core a b = lebℤ a b && lebℤ b a

-- Whether some entry has this core.
abbrev pub has : ℤ → List LogicCpu → Bool
has k [] = false
has k (c ∷ cs) = same_core k c.core_id || has k cs

-- The core ids do not fall, from `min` on.
abbrev pub IsUpward : ℤ → List LogicCpu → Type 0
IsUpward min [] = Unit {0}
IsUpward min (c ∷ cs) = (lebℤ min c.core_id ≡ true) × IsUpward c.core_id cs

-- Entries in sets: none is empty or has a core twice, and each has every core that comes behind it.
pub data IsNested : List LogicCpu → Type 0 where
  done : IsNested []
  group :
      {cpus : List LogicCpu} (first rest : List LogicCpu)
      → cpus ≡ first ++ rest
      → 0 < length first
      → IsAscending minus_one first
      → AllOf (λ c. has c.core_id first) rest
      → IsNested rest
      → IsNested cpus

lebℤ_trans : (a b c : ℤ) → lebℤ a b ≡ true → lebℤ b c ≡ true → lebℤ a c ≡ true
lebℤ_trans (pos a) (pos b) (pos c) h k = ground arith
lebℤ_trans (pos a) (pos b) (negsuc c) h k = k
lebℤ_trans (pos a) (negsuc b) c h k = ground arith
lebℤ_trans (negsuc a) b (pos c) h k = refl
lebℤ_trans (negsuc a) (pos b) (negsuc c) h k = ground arith
lebℤ_trans (negsuc a) (negsuc b) (negsuc c) h k = ground arith

ltbℤ-lebℤ : (a b : ℤ) → ltbℤ a b ≡ true → lebℤ a b ≡ true
ltbℤ-lebℤ (pos a) (pos b) h = ground arith
ltbℤ-lebℤ (pos a) (negsuc b) h = h
ltbℤ-lebℤ (negsuc a) (pos b) h = refl
ltbℤ-lebℤ (negsuc a) (negsuc b) h = ground arith

not_above : (a b : ℤ) → ltbℤ a b ≡ false → lebℤ b a ≡ true
not_above (pos a) (pos b) h = ground arith
not_above (pos a) (negsuc b) h = refl
not_above (negsuc a) (pos b) h = sym h
not_above (negsuc a) (negsuc b) h = ground arith

IsUpward-from :
    (min k : ℤ) (cs : List LogicCpu) → lebℤ min k ≡ true → IsUpward k cs → IsUpward min cs
IsUpward-from min k [] h u = tt
IsUpward-from min k (c ∷ cs) h u = (lebℤ_trans min k c.core_id h u.0, u.1)

-- What a round leaves: the cores are `min` or were taken, and do not fall.
record Left (min : ℤ) (taken left : List LogicCpu) : Type 0 where
  covered : AllOf (λ c. same_core c.core_id min || has c.core_id taken) (live left)
  upward : IsUpward min (live left)

take_set-Left :
    (cs : List LogicCpu) (min : ℤ)
    → lebℤ minus_one min ≡ true
    → IsUpward min (live cs)
    → Left min (take_set cs min).0 (take_set cs min).1
unfolding take_set
take_set-Left [] min h u = record { covered = tt; upward = tt }
take_set-Left (c ∷ cs) min h u = elim (Bool-cases (ltbℤ min c.core_id)) [
  | inl e ↦
      let f = above_is_core min c.core_id h e in
      let v : (lebℤ min c.core_id ≡ true) × IsUpward c.core_id (live cs) = rw f at u in
      let rest = take_set-Left cs c.core_id (still_above min c.core_id h e) v.1 in
      rw e (record {
        covered =
            AllOf-mono _ _ (live (take_set cs c.core_id).1) (λ d g. ground arith) rest.covered;
        upward = IsUpward-from min c.core_id _ v.0 rest.upward;
      })
  | inr e ↦ elim (Bool-cases (is_core c.core_id)) [
    | inl f ↦
        let v : (lebℤ min c.core_id ≡ true) × IsUpward c.core_id (live cs) = rw f at u in
        let below = not_above min c.core_id e in
        let rest = take_set-Left cs min h (IsUpward-from min c.core_id _ v.0 v.1) in
        let same : same_core c.core_id min ≡ true = rw (below, v.0) refl in
        rw e (record {
          covered = rw f ((rw same refl, rest.covered));
          upward = rw f ((v.0, IsUpward-from c.core_id min _ below rest.upward));
        })
    | inr f ↦
        let rest = take_set-Left cs min h (rw f at u) in
        rw e (record { covered = rw f rest.covered; upward = rw f rest.upward })
  ]
]

not_minus_one : (k : ℤ) (b : Bool) → is_core k ≡ true → (same_core k minus_one || b) ≡ b
not_minus_one (pos k) b f = refl
not_minus_one (negsuc k) b f = ground arith

live_above :
    (taken cs : List LogicCpu)
    → AllOf (λ c. same_core c.core_id minus_one || has c.core_id taken) (live cs)
    → AllOf (λ c. has c.core_id taken) (live cs)
live_above taken [] h = tt
live_above taken (c ∷ cs) h = elim (Bool-cases (is_core c.core_id)) [
  | inl f ↦
      let (g, rest) : ((same_core c.core_id minus_one || has c.core_id taken) ≡ true)
          × AllOf (λ c. same_core c.core_id minus_one || has c.core_id taken) (live cs) =
        rw f at h in
      rw f ((sym (not_minus_one c.core_id _ f) ∙ g, live_above taken cs rest))
  | inr f ↦ rw f (live_above taken cs (rw f at h))
]

-- What the loop leaves: every entry once, in sets.
record Arranged (rounds n : ℕ) (copy out : List LogicCpu) : Type 0 where
  sets : List LogicCpu
  returns : take_sets rounds n copy out ≡ some (ok (out ++ sets))
  same : Perm sets (live copy)
  grouped : IsNested sets

take_sets-Arranged :
    (rounds n : ℕ) (copy out : List LogicCpu)
    → length out + length (live copy) ≡ n
    → length (live copy) < rounds
    → IsUpward minus_one (live copy)
    → Arranged rounds n copy out
unfolding take_sets
take_sets-Arranged zero n copy out e h u = absurd (omega arith)
take_sets-Arranged (suc rounds) n copy out e h u = elim (dec_lt 0 (length (live copy))) [
  | yes more ↦
      let taken = (take_set copy minus_one).0 in
      let left = (take_set copy minus_one).1 in
      let count = length-take_set copy minus_one refl in
      let some_taken = take_set_progress copy more in
      let round = take_set-Left copy minus_one refl u in
      let rest =
        take_sets-Arranged rounds n left (out ++ taken) (omega (arith, length-append out taken))
          (omega arith) round.upward in
      record {
        sets = taken ++ rest.sets;
        returns = rw (
          lt→ltb (length out) n (omega arith),
          le→leb (length out + length taken) n (omega arith),
          rest.returns,
          append_assoc out taken rest.sets,
        );
        same = Perm.trans (Perm.append_left taken rest.same) (take_set-Perm copy minus_one refl);
        grouped =
            IsNested.group taken rest.sets refl some_taken (take_set-IsAscending copy minus_one)
              (AllOf-Perm (λ c. has c.core_id taken) rest.same
                (live_above taken left round.covered))
              rest.grouped;
      }
  | no none_left ↦
      let empty = length_zero (live copy) (omega arith) in
      record {
        sets = [];
        returns = rw (le→ltb_false (length out) n (omega arith), append-nil out);
        same = rw empty (Perm.refl []);
        grouped = IsNested.done;
      }
]

-- What a call that returns hands back: every entry once, in sets, and the entries behind `n` as
-- they were.
pub record Nested (q : Sorter) (cpus : List LogicCpu) (n : ℕ) : Type 0 where
  pub sets : List LogicCpu
  pub returns :
      sort_uniq_sets q (suc n) (some (holding cpus n)) ≡ some (ok (holding (sets ++ drop n cpus) n))
  pub same : Perm sets (take n cpus)
  pub grouped : IsNested sets

-- For a sort of the library that gives a permutation, of a structure with at least one processor
-- and room for all of them, none of which has a negative core, and whose cores the sort brings
-- into an order in which they do not fall, cputopSortUniqSetsCoreId ends within one round more
-- than there are processors; it leaves every processor in its place count, once, in sets none of
-- which is empty or names a core twice, each with its cores ascending and with every core that a
-- processor behind the set has, and the entries behind them as they were.
pub sort_uniq_sets-Nested :
    (q : Sorter) (cpus : List LogicCpu) (n : ℕ)
    → 0 < n
    → n ≤ length cpus
    → AllCores (take n cpus)
    → IsUpward minus_one (q.qsort (take n cpus))
    → Nested q cpus n
unfolding sort_uniq_sets place_sets
sort_uniq_sets-Nested q cpus zero some_cpu room cores sorted = absurd (omega arith)
sort_uniq_sets-Nested q cpus (suc n) some_cpu room cores sorted =
    let copy = q.qsort (take (suc n) cpus) in
    let moved = q.qsort-Perm (take (suc n) cpus) in
    let all_live =
      live_all copy (λ c m. all_cores (take (suc n) cpus) cores c (Perm.subset moved c m)) in
    let size : length (live copy) ≡ suc n =
      ap length all_live ∙ length-eq moved ∙ length-take (suc n) cpus room in
    let placed =
      take_sets-Arranged (suc (suc n)) (suc n) copy [] (omega (arith, size)) (omega (arith, size))
        (subst (IsUpward minus_one) (sym all_live) sorted) in
    record {
      sets = placed.sets;
      returns = rw (sort_uniq_sets, members-holding cpus n room unset, placed.returns);
      same = Perm.trans placed.same (rw all_live moved);
      grouped = placed.grouped;
    }
