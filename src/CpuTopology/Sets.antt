-- ===== src/CpuTopology/Sets.antt =====
-- The loops of `cputopSortUniqSetsCoreId`: they end, and the entries are those of before in
-- another order.
use task_lunev.Base.{
  ℕ, zero, suc, ◌+◌, ◌<◌, ◌≡◌, arith, refl, ◌∙◌, Bool, true, false, Bool-cases, inl, inr,
  if◌then◌else◌, lt→ltb, le→leb, le→ltb_false, dec_lt, some,
}
use task_lunev.Base.{
  List, [], ◌∷◌, ◌++◌, append_assoc, append-nil, length, length-append, ℤ, pos, negsuc,
}
use task_lunev.Base.{minus_one, ltbℤ, lebℤ}
use task_lunev.Memory.{ok}
use task_lunev.CpuTopology.{LogicCpu, take_set, take_sets}
use mathlib.Core.List.{Perm, perm_middle}
use mathlib.Core.List.Perm

abbrev pub is_core : ℤ → Bool
is_core (pos _) = true
is_core (negsuc _) = false

-- The entries that are not yet taken.
abbrev pub live : List LogicCpu → List LogicCpu
live [] = []
live (c ∷ cs) = let rest = live cs in if is_core c.core_id then c ∷ rest else rest

-- The core ids grow, from above `min` on.
abbrev pub IsAscending : ℤ → List LogicCpu → Type 0
IsAscending min [] = Unit {0}
IsAscending min (c ∷ cs) = (ltbℤ min c.core_id ≡ true) × IsAscending c.core_id cs

pub above_is_core : (min k : ℤ) → lebℤ minus_one min ≡ true → ltbℤ min k ≡ true → is_core k ≡ true
above_is_core min (pos k) h e = refl
above_is_core (pos m) (negsuc k) h e = cc
above_is_core (negsuc m) (negsuc k) h e = ground arith

pub still_above :
    (min k : ℤ) → lebℤ minus_one min ≡ true → ltbℤ min k ≡ true → lebℤ minus_one k ≡ true
still_above min (pos k) h e = refl
still_above (pos m) (negsuc k) h e = cc
still_above (negsuc m) (negsuc k) h e = ground arith

pub take_set-Perm :
    (cs : List LogicCpu) (min : ℤ)
    → lebℤ minus_one min ≡ true
    → Perm ((take_set cs min).0 ++ live (take_set cs min).1) (live cs)
unfolding take_set
take_set-Perm [] min h = Perm.refl []
take_set-Perm (c ∷ cs) min h = elim (Bool-cases (ltbℤ min c.core_id)) [
  | inl e ↦
      rw (e, above_is_core min c.core_id h e)
        (Perm.cons c (take_set-Perm cs c.core_id (still_above min c.core_id h e)))
  | inr e ↦ elim (Bool-cases (is_core c.core_id)) [
    | inl f ↦
        rw (e, f)
          (Perm.trans (perm_middle (take_set cs min).0 (live (take_set cs min).1))
            (Perm.cons c (take_set-Perm cs min h)))
    | inr f ↦ rw (e, f) (take_set-Perm cs min h)
  ]
]

pub length-take_set :
    (cs : List LogicCpu) (min : ℤ)
    → lebℤ minus_one min ≡ true
    → length (take_set cs min).0 + length (live (take_set cs min).1) ≡ length (live cs)
unfolding take_set
length-take_set [] min h = refl
length-take_set (c ∷ cs) min h = elim (Bool-cases (ltbℤ min c.core_id)) [
  | inl e ↦
      rw (e, above_is_core min c.core_id h e)
        (omega (arith, length-take_set cs c.core_id (still_above min c.core_id h e)))
  | inr e ↦ elim (Bool-cases (is_core c.core_id)) [
    | inl f ↦ rw (e, f) (omega (arith, length-take_set cs min h))
    | inr f ↦ rw (e, f) (length-take_set cs min h)
  ]
]

above_minus_one : (k : ℤ) → is_core k ≡ ltbℤ minus_one k
above_minus_one (pos k) = refl
above_minus_one (negsuc k) = ground arith

pub take_set_progress :
    (cs : List LogicCpu) → 0 < length (live cs) → 0 < length (take_set cs minus_one).0
unfolding take_set
take_set_progress [] h = h
take_set_progress (c ∷ cs) h = elim (Bool-cases (ltbℤ minus_one c.core_id)) [
  | inl e ↦ rw e (omega arith)
  | inr e ↦ let f = above_minus_one c.core_id ∙ e in rw e (take_set_progress cs (rw f at h))
]

pub take_set-IsAscending : (cs : List LogicCpu) (min : ℤ) → IsAscending min (take_set cs min).0
unfolding take_set
take_set-IsAscending [] min = tt
take_set-IsAscending (c ∷ cs) min = elim (Bool-cases (ltbℤ min c.core_id)) [
  | inl e ↦ rw e ((e, take_set-IsAscending cs c.core_id))
  | inr e ↦ rw e (take_set-IsAscending cs min)
]

pub length_zero : (cs : List LogicCpu) → length cs ≡ 0 → cs ≡ []
length_zero [] e = refl
length_zero (c ∷ cs) e = absurd (omega arith)

-- What the loop leaves: every entry once.
pub record Placed (rounds n : ℕ) (copy out : List LogicCpu) : Type 0 where
  pub sets : List LogicCpu
  pub returns : take_sets rounds n copy out ≡ some (ok (out ++ sets))
  pub same : Perm sets (live copy)

pub take_sets-Placed :
    (rounds n : ℕ) (copy out : List LogicCpu)
    → length out + length (live copy) ≡ n
    → length (live copy) < rounds
    → Placed rounds n copy out
unfolding take_sets
take_sets-Placed zero n copy out e h = absurd (omega arith)
take_sets-Placed (suc rounds) n copy out e h = elim (dec_lt 0 (length (live copy))) [
  | yes more ↦
      let taken = (take_set copy minus_one).0 in
      let left = (take_set copy minus_one).1 in
      let count = length-take_set copy minus_one refl in
      let some_taken = take_set_progress copy more in
      let rest =
        take_sets-Placed rounds n left (out ++ taken) (omega (arith, length-append out taken))
          (omega arith) in
      record {
        sets = taken ++ rest.sets;
        returns = rw (
          lt→ltb (length out) n (omega arith),
          le→leb (length out + length taken) n (omega arith),
          rest.returns,
          append_assoc out taken rest.sets,
        );
        same = Perm.trans (Perm.append_left taken rest.same) (take_set-Perm copy minus_one refl);
      }
  | no none_left ↦
      let empty = length_zero (live copy) (omega arith) in
      record {
        sets = [];
        returns = rw (le→ltb_false (length out) n (omega arith), append-nil out);
        same = rw empty (Perm.refl []);
      }
]
