-- ===== src/CpuTopology/Cores.antt =====
-- `cputopGetNumCoreCPU`: the number of cores, and the write outside its mask.
use task_lunev.Base.{
  ℕ, zero, suc, ◌+◌, ◌≤◌, ◌<◌, ◌≡◌, arith, refl, sym, ap, ◌∙◌, Bool, true, false, ◌||◌, ◌==◌,
  Bool-cases, inl, inr, if◌then◌else◌, ltb, lt→ltb, le→ltb_false, some,
}
use task_lunev.Base.{
  ◌++◌, ℤ, length-append, take_all, List, [], ◌∷◌, length, take, replicate, set, length-set,
  length-replicate, get_or, get_or-replicate, get_or-set_self, get_or-set_ne, pos, negsuc, subst,
  ap₂, ℕ_discrete, eq→==, ne→==,
}
use task_lunev.Memory.{ok, fault, Errno, ◌>>=◌}
use task_lunev.CpuTopology.{LogicCpu, mark_cores, sum, get_num_core_cpu}
use task_lunev.CpuTopology.Laws.{holding, members-holding}

-- Some entry has the core `k`.
abbrev pub has_core : ℕ → List LogicCpu → Bool
has_core k [] = false
has_core k (c ∷ cs) = elim c.core_id [ pos j ↦ j == k | negsuc _ ↦ false ] || has_core k cs

-- How many of the `n` cores from `k` on some entry has.
abbrev pub count_cores : List LogicCpu → ℕ → ℕ → ℕ
count_cores cpus k zero = 0
count_cores cpus k (suc n) = (if has_core k cpus then 1 else 0) + count_cores cpus (k + 1) n

-- The entries whose cores index a mask of `n` bytes.
abbrev pub InMask : ℕ → List LogicCpu → Type 0
InMask n [] = Unit {0}
InMask n (c ∷ cs) = ((k : ℕ) × (c.core_id ≡ pos k) × (k < n)) × InMask n cs

both_one : (b : Bool) → ◌≡◌ {A = ℕ} (if b then 1 else 1) 1
both_one true = refl
both_one false = refl

-- The mask behind the loop.
record Marked (cpus : List LogicCpu) (mask : List ℕ) : Type 0 where
  out : List ℕ
  returns : mark_cores cpus mask ≡ ok out
  size : length out ≡ length mask
  marks :
      (k : ℕ) → k < length mask → get_or out k 0 ≡ (if has_core k cpus then 1 else get_or mask k 0)

mark_cores-Marked :
    (cpus : List LogicCpu) (mask : List ℕ) → InMask (length mask) cpus → Marked cpus mask
unfolding mark_cores
mark_cores-Marked [] mask h = record {
  out = mask;
  returns = refl;
  size = refl;
  marks = λ k l. refl;
}
mark_cores-Marked (c ∷ cs) mask ((j, e, l), h) =
    let mask' = set mask j 1 in
    let size = length-set mask j 1 in
    let rest = mark_cores-Marked cs mask' (subst (λ n. InMask n cs) (sym size) h) in
    record {
      out = rest.out;
      returns = rw (e, lt→ltb j (length mask) l, rest.returns);
      size = rest.size ∙ size;
      marks = λ k lt. rest.marks k (rw size lt) ∙ first k j e lt;
    }
  where
    first :
        (k j : ℕ)
        → c.core_id ≡ pos j
        → k < length mask
        → (if has_core k cs then 1 else get_or (set mask j 1) k 0)
          ≡ (if has_core k (c ∷ cs) then 1 else get_or mask k 0)
    first k j e lt = elim (ℕ_discrete j k) [
      | yes same ↦
          rw
            (
              e,
              eq→== j k same,
              ap (λ t. get_or (set mask t 1) k 0) same,
              get_or-set_self mask k 1 0 lt,
            )
            (both_one (has_core k cs))
      | no other ↦ rw (e, ne→== j k other, get_or-set_ne mask j k 1 0 other)
    ]

sum_marks :
    (cpus : List LogicCpu) (xs : List ℕ) (k : ℕ)
    → ((i : ℕ) → i < length xs → get_or xs i 0 ≡ (if has_core (k + i) cpus then 1 else 0))
    → sum xs ≡ count_cores cpus k (length xs)
sum_marks cpus [] k h = refl
sum_marks cpus (x ∷ xs) k h =
    ap₂ ◌+◌
      (h 0 (omega arith)
        ∙ ap (λ t. if has_core t cpus then 1 else 0) (let e : k + 0 ≡ k = omega arith in e))
      (sum_marks cpus xs (k + 1) (λ i l.
        h (suc i) (omega arith)
        ∙ ap (λ t. if has_core t cpus then 1 else 0)
            (let e : k + suc i ≡ k + 1 + i = omega arith in e)))

-- Of a structure with at least one processor and room for all of them, where every core is a
-- number below the number of processors, cputopGetNumCoreCPU returns the number of different
-- cores.
pub get_num_core_cpu_lem :
    (cpus : List LogicCpu) (n : ℕ)
    → 0 < n
    → n ≤ length cpus
    → InMask n (take n cpus)
    → get_num_core_cpu (some (holding cpus n)) ≡ ok (pos (count_cores (take n cpus) 0 n))
unfolding get_num_core_cpu
get_num_core_cpu_lem cpus zero some_cpu room h = absurd (omega arith)
get_num_core_cpu_lem cpus (suc n) some_cpu room h =
    let mask : List ℕ = replicate (suc n) 0 in
    let size : length mask ≡ suc n = length-replicate (suc n) 0 in
    let m =
      mark_cores-Marked (take (suc n) cpus) mask
        (subst (λ t. InMask t (take (suc n) cpus)) (sym size) h) in
    let whole : length m.out ≡ suc n = m.size ∙ size in
    let marks : (i : ℕ)
        → i < length m.out
        → get_or m.out i 0 ≡ (if has_core (0 + i) (take (suc n) cpus) then 1 else 0) =
      λ i l.
        m.marks i (rw (← m.size) l)
        ∙ ap (λ t. if has_core i (take (suc n) cpus) then 1 else t) (get_or-replicate (suc n) i 0)
        ∙ ap (λ t. if has_core t (take (suc n) cpus) then 1 else 0)
            (let e : i ≡ 0 + i = omega arith in e) in
    let total : sum m.out ≡ count_cores (take (suc n) cpus) 0 (suc n) =
      sum_marks (take (suc n) cpus) m.out 0 marks ∙ ap (count_cores (take (suc n) cpus) 0) whole in
    rw (members-holding cpus n room Errno.einval, m.returns, total)

mark_cores-fault :
    (before after : List LogicCpu) (mask : List ℕ) (id k : ℕ)
    → length mask ≤ k
    → mark_cores (before ++ (record { id = pos id; core_id = pos k } ∷ after)) mask ≡ fault
unfolding mark_cores
mark_cores-fault [] after mask id k h = rw (le→ltb_false k (length mask) h)
mark_cores-fault (d ∷ before) after mask id k h =
    later d.core_id
      (λ j. mark_cores-fault before after (set mask j 1) id k (rw (length-set mask j 1) h))
  where
    later :
        (core : ℤ)
        → ((j : ℕ)
            → mark_cores
                (before ++ (record { id = pos id; core_id = pos k } ∷ after))
                (set mask j 1)
              ≡ fault)
        → (elim core [
          | negsuc _ ↦ fault
          | pos j ↦ if ltb j (length mask) then ok (set mask j 1) else fault
        ]
            >>= λ mask'.
                mark_cores (before ++ (record { id = pos id; core_id = pos k } ∷ after)) mask')
          ≡ fault
    later (negsuc _) rest = refl
    later (pos j) rest = elim (Bool-cases (ltb j (length mask))) [
      | inl b ↦ rw b (rest j)
      | inr b ↦ rw b
    ]

-- A core that is not below the number of processors is a store outside the mask.
pub get_num_core_cpu-fault :
    (before after : List LogicCpu) (id k : ℕ)
    → suc (length before + length after) ≤ k
    → get_num_core_cpu (
        some (
          holding
            (before ++ (record { id = pos id; core_id = pos k } ∷ after))
            (suc (length before + length after))))
      ≡ fault
unfolding get_num_core_cpu
get_num_core_cpu-fault before after id k h =
    let n = length before + length after in
    let cpus = before ++ (record { id = pos id; core_id = pos k } ∷ after) in
    let size : length cpus ≡ suc n =
      omega (arith, length-append before (record { id = pos id; core_id = pos k } ∷ after)) in
    let mask : List ℕ = replicate (suc n) 0 in
    let bytes : length mask ≡ suc n = length-replicate (suc n) 0 in
    rw (
      members-holding cpus n (omega (arith, size)) Errno.einval,
      take_all (suc n) cpus size,
      mark_cores-fault before after mask id k (rw bytes h),
    )
