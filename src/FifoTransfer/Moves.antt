-- ===== src/FifoTransfer/Moves.antt =====
-- The steps of SuperFIFO/wrrd.cpp that move a number or bytes.
use task_lunev.Base.{
  ℕ, ◌+◌, ◌≤◌, ◌≡◌, ◌≢◌, ◌⊎◌, ◌==◌, arith, refl, sym, ap, ap₂, subst, ◌∙◌, if◌then◌else◌, Option,
  none, some, List, [], ◌∷◌, ◌++◌, take, drop, ℕ_discrete, eq→==, ne→==, append_assoc,
  append-take-drop, inl, inr,
}
use task_lunev.Memory.{Bytes}
use task_lunev.FifoTransfer.{created, waits, Writer, starts, connected, sends, State, upd}
use task_lunev.FifoTransfer.Order.{
  target, unsent, is_created, count, received, tickets, Inv, upd_same, upd_other, upd_image, keeps,
}

count-append :
    (k i : ℕ) (xs : List ℕ) → count k (xs ++ (i ∷ [])) ≡ count k xs + (if k == i then 1 else 0)
count-append k i [] = omega arith
count-append k i (x ∷ xs) = omega (arith, count-append k i xs)

pub announces-Inv :
    {file : ℕ → Bytes} {s : State} (v : Inv file s) (i : ℕ)
    → s.reader i ≡ created
    → Inv file (record s { conn = s.conn ++ (i ∷ []); reader = upd s.reader i waits })
announces-Inv {file} {s} v i e =
    keeps v fewer (λ j. refl) (λ k h. h) (λ j k h g. refl) (λ k h g. refl)
  where
    fewer :
        (k : ℕ)
        → count k (s.conn ++ (i ∷ [])) + (if is_created (upd s.reader i waits k) then 1 else 0)
          ≤ tickets s k
    fewer k = elim (ℕ_discrete i k) [
      | yes same ↦
          rw
            (
              count-append k i s.conn,
              ap (λ t. upd s.reader t waits k) same ∙ upd_same s.reader k waits,
              eq→== k i (sym same),
              ap s.reader (sym same) ∙ e,
            )
            (omega arith)
      | no other ↦
          rw
            (
              count-append k i s.conn,
              upd_other s.reader i waits k other,
              ne→== k i (λ h. other (sym h)),
            )
            (omega arith)
    ]

pub reads-Inv :
    {file : ℕ → Bytes} {s : State} (v : Inv file s) (i n : ℕ)
    → Inv file (record s {
      output = upd s.output i (s.output i ++ take n (s.pipe i));
      pipe = upd s.pipe i (drop n (s.pipe i));
    })
reads-Inv {file} {s} v i n =
    keeps v (λ k. omega arith) (λ j. refl) (λ k h. h)
      (λ j k h g. ap (λ t. t ++ unsent (file j) (s.writer j)) (same_received k))
      (λ k h g. same_received k)
  where
    same_received :
        (k : ℕ)
        → upd s.output i (s.output i ++ take n (s.pipe i)) k ++ upd s.pipe i (drop n (s.pipe i)) k
          ≡ received s k
    same_received k = elim (ℕ_discrete i k) [
      | yes same ↦
          subst
            (λ t.
              upd s.output i (s.output i ++ take n (s.pipe i)) t
                ++ upd s.pipe i (drop n (s.pipe i)) t
              ≡ received s t)
            same
            (rw
              (
                upd_same s.output i (s.output i ++ take n (s.pipe i)),
                upd_same s.pipe i (drop n (s.pipe i)),
              )
              (append_assoc (s.output i) (take n (s.pipe i)) (drop n (s.pipe i))
                ∙ ap (λ t. s.output i ++ t) (append-take-drop n (s.pipe i))))
      | no other ↦ ap₂ ◌++◌ (upd_other s.output i _ k other) (upd_other s.pipe i _ k other)
    ]

regroup : (o p t d : Bytes) → (o ++ (p ++ t)) ++ d ≡ (o ++ p) ++ (t ++ d)
regroup o p t d = simp append_assoc refl

abbrev taken_one : Option ℕ → ℕ
taken_one none = 0
taken_one (some i) = i

pub sends-Inv :
    {file : ℕ → Bytes} {s : State} (v : Inv file s) (i j n : ℕ) (rest : Bytes)
    → s.writer j ≡ sends i rest
    → Inv file (record s {
      writer = upd s.writer j (sends i (drop n rest));
      pipe = upd s.pipe i (s.pipe i ++ take n rest);
    })
sends-Inv {file} {s} v i j n rest e =
    keeps v (λ k. omega arith) (upd_image target s.writer j w (sym mine)) (λ k h. h)
      (λ k l h g. moved k l h)
      (λ k h g.
        ap (λ t. s.output k ++ t)
          (upd_other s.pipe i _ k (λ f.
            let z = v.taken j i mine in
            let h' : tickets s i ≡ 1 = ap (tickets s) f ∙ h in omega arith)))
  where
    w : Writer
    w = sends i (drop n rest)

    mine : target (s.writer j) ≡ some i
    mine = ap target e

    after : ℕ → Bytes
    after k = s.output k ++ upd s.pipe i (s.pipe i ++ take n rest) k

    own :
        after i ++ unsent (file j) (upd s.writer j w j)
        ≡ received s i ++ unsent (file j) (s.writer j)
    own =
        rw (upd_same s.pipe i (s.pipe i ++ take n rest), upd_same s.writer j w, e)
          (regroup (s.output i) (s.pipe i) (take n rest) (drop n rest)
            ∙ ap (λ t. received s i ++ t) (append-take-drop n rest))

    moved :
        (j' i' : ℕ)
        → target (s.writer j') ≡ some i'
        → after i' ++ unsent (file j') (upd s.writer j w j')
          ≡ received s i' ++ unsent (file j') (s.writer j')
    moved j' i' h = elim (ℕ_discrete j j') [
      | yes same ↦
          let p : i ≡ i' = ap taken_one (sym mine ∙ ap (λ t. target (s.writer t)) same ∙ h) in
          subst
            (λ t.
              after i' ++ unsent (file t) (upd s.writer j w t)
              ≡ received s i' ++ unsent (file t) (s.writer t))
            same
            (subst
              (λ u.
                after u ++ unsent (file j) (upd s.writer j w j)
                ≡ received s u ++ unsent (file j) (s.writer j))
              p own)
      | no other ↦
          ap₂ ◌++◌
            (ap (λ t. s.output i' ++ t)
              (upd_other s.pipe i _ i' (λ f. other (v.alone j j' i mine (h ∙ ap some (sym f))))))
            (ap (unsent (file j')) (upd_other s.writer j w j' other))
    ]

pub connects-Inv :
    {file : ℕ → Bytes} {s : State} (v : Inv file s) (i j : ℕ) (rest : List ℕ)
    → s.writer j ≡ starts
    → s.conn ≡ i ∷ rest
    → Inv file (record s { conn = rest; writer = upd s.writer j (connected i) })
connects-Inv {file} {s} v i j rest e c = record {
  once = λ k. let o = v.once k in let f = fewer k in omega arith;
  taken = λ k i' h. elim (who k i' h) [
    | inl (same, p) ↦
        let f = fewer i' in
        let o = one i' p in
        let z : ◌≡◌ {A = ℕ} (if i' == i then 1 else 0) 1 = rw (eq→== i' i (sym p)) refl in
        omega arith
    | inr (other, g) ↦ let z = v.taken k i' g in let f = fewer i' in omega arith
  ];
  alone = λ k l i' h g. elim (who k i' h) [
    | inl (same, p) ↦ elim (who l i' g) [
      | inl (same', q) ↦ sym same ∙ same'
      | inr (other, t) ↦ absurd (let z = v.taken l i' t in let o = one i' p in omega arith)
    ]
    | inr (other, t) ↦ elim (who l i' g) [
      | inl (same', q) ↦ absurd (let z = v.taken k i' t in let o = one i' q in omega arith)
      | inr (other', t') ↦ v.alone k l i' t t'
    ]
  ];
  whole = λ k i' h g. elim (who k i' h) [
    | inl (same, p) ↦ rw (v.untouched i' (one i' p) g) (
        ap (unsent (file k))
          (ap (λ t. upd s.writer t (connected i) k) same ∙ upd_same s.writer k (connected i)))
    | inr (other, f) ↦
        ap (λ t. received s i' ++ unsent (file k) t) (upd_other s.writer j (connected i) k other)
        ∙ v.whole k i' f g
  ];
  untouched = λ k h g. let o = v.once k in let f = fewer k in v.untouched k (omega arith) g;
}
  where
    fewer :
        (k : ℕ)
        → tickets s k
          ≡ (if k == i then 1 else 0) + (count k rest + (if is_created (s.reader k) then 1 else 0))
    fewer k = rw c (omega arith)

    one : (k : ℕ) → i ≡ k → tickets s k ≡ 1
    one k p =
        let o = v.once k in
        let f = fewer k in
        let z : ◌≡◌ {A = ℕ} (if k == i then 1 else 0) 1 = rw (eq→== k i (sym p)) refl in omega arith

    who :
        (k i' : ℕ)
        → target (upd s.writer j (connected i) k) ≡ some i'
        → ((j ≡ k) × (i ≡ i')) ⊎ ((j ≢ k) × (target (s.writer k) ≡ some i'))
    who k i' h = elim (ℕ_discrete j k) [
      | yes same ↦
          let w : upd s.writer j (connected i) k ≡ connected i =
            ap (λ t. upd s.writer t (connected i) k) same ∙ upd_same s.writer k (connected i) in
          inl (same, ap taken_one (sym (ap target w) ∙ h))
      | no other ↦ inr (other, sym (ap target (upd_other s.writer j (connected i) k other)) ∙ h)
    ]
