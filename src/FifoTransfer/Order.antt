-- ===== src/FifoTransfer/Order.antt =====
-- SuperFIFO/wrrd.cpp: the pairs of readers and writers, and the bytes between them.
use task_lunev.Base.{
  ℕ, ◌+◌, ◌≤◌, ◌≡◌, ◌≢◌, ◌==◌, arith, refl, sym, ap, subst, ◌∙◌, Bool, true, false, if◌then◌else◌,
  Option, none, some, List, [], ◌∷◌, ◌++◌, ℕ_discrete, eq→==, ne→==,
}
use task_lunev.Memory.{Bytes}
use task_lunev.FifoTransfer.{
  Reader, created, Writer, starts, connected, opened, finished, lost, sends, cut, State, upd,
}

-- The reader that a writer has taken, and what of its file the writer has not sent.
abbrev pub target : Writer → Option ℕ
target starts = none
target Writer.failed = none
target (connected i) = some i
target (opened i) = some i
target (finished i) = some i
target (lost i) = some i
target (sends i rest) = some i
target (cut i rest) = some i
target (Writer.astray i rest) = some i

abbrev pub unsent : Bytes → Writer → Bytes
unsent file (finished i) = []
unsent file (sends i rest) = rest
unsent file (cut i rest) = rest
unsent file (Writer.astray i rest) = rest
unsent file _ = file

abbrev pub is_created : Reader → Bool
is_created created = true
is_created _ = false

abbrev pub count : ℕ → List ℕ → ℕ
count i [] = 0
count i (x ∷ xs) = (if i == x then 1 else 0) + count i xs

-- What a reader has of its file, on its output or in its pipe.
abbrev pub received : State → ℕ → Bytes
received s i = s.output i ++ s.pipe i

-- How often the number of a reader is still to be taken: in the pipe, or not announced.
abbrev pub tickets : State → ℕ → ℕ
tickets s i = count i s.conn + (if is_created (s.reader i) then 1 else 0)

-- A reader is announced at most once, and taken at most once.
pub record Inv (file : ℕ → Bytes) (s : State) : Type 0 where
  pub once : (i : ℕ) → tickets s i ≤ 1
  pub taken : (j i : ℕ) → target (s.writer j) ≡ some i → tickets s i ≡ 0
  pub alone : (j k i : ℕ) → target (s.writer j) ≡ some i → target (s.writer k) ≡ some i → j ≡ k
  pub whole :
      (j i : ℕ)
      → target (s.writer j) ≡ some i
      → s.intact i ≡ true
      → received s i ++ unsent (file j) (s.writer j) ≡ file j
  pub untouched : (i : ℕ) → tickets s i ≡ 1 → s.intact i ≡ true → received s i ≡ []

pub upd_same : {A : Type 0} (f : ℕ → A) (i : ℕ) (v : A) → upd f i v i ≡ v
upd_same f i v = rw (eq→== i i refl) refl

pub upd_other : {A : Type 0} (f : ℕ → A) (i : ℕ) (v : A) (j : ℕ) → i ≢ j → upd f i v j ≡ f j
upd_other f i v j h = rw (ne→== i j h) refl

-- Changing an entry to a value with the same image changes no image.
pub upd_image :
    {A B : Type 0} (g : A → B) (f : ℕ → A) (i : ℕ) (v : A)
    → g v ≡ g (f i)
    → (j : ℕ) → g (upd f i v j) ≡ g (f j)
upd_image g f i v e j = elim (ℕ_discrete i j) [
  | yes same ↦ ap (λ t. g (upd f t v j)) same ∙ ap g (upd_same f j v) ∙ e ∙ ap (λ t. g (f t)) same
  | no other ↦ ap g (upd_other f i v j other)
]

-- A step that takes no reader keeps the invariant.
module _ {file : ℕ → Bytes} {s t : State} (v : Inv file s)
    (fewer : (i : ℕ) → tickets t i ≤ tickets s i)
    (same : (j : ℕ) → target (t.writer j) ≡ target (s.writer j))
    (still : (i : ℕ) → t.intact i ≡ true → s.intact i ≡ true)
    (moved : (j i : ℕ)
      → target (s.writer j) ≡ some i
      → t.intact i ≡ true
      → received t i ++ unsent (file j) (t.writer j) ≡ received s i ++ unsent (file j) (s.writer j))
    (quiet : (i : ℕ) → tickets s i ≡ 1 → t.intact i ≡ true → received t i ≡ received s i) where
  pub keeps : Inv file t
  keeps = record {
    once = λ i. let f = fewer i in let o = v.once i in omega arith;
    taken = λ j i h. let f = fewer i in let z = v.taken j i (sym (same j) ∙ h) in omega arith;
    alone = λ j k i h g. v.alone j k i (sym (same j) ∙ h) (sym (same k) ∙ g);
    whole = λ j i h g. let h' = sym (same j) ∙ h in moved j i h' g ∙ v.whole j i h' (still i g);
    untouched = λ i h g.
        let f = fewer i in
        let o = v.once i in
        let one : tickets s i ≡ 1 = omega arith in quiet i one g ∙ v.untouched i one (still i g);
  }

-- Writer `j` goes on without sending; of the rest only the greetings may change.
pub writer_moves :
    {file : ℕ → Bytes} {s : State} (v : Inv file s) (j : ℕ) (w : Writer) (greeted : ℕ → Bool)
    → target w ≡ target (s.writer j)
    → unsent (file j) w ≡ unsent (file j) (s.writer j)
    → Inv file (record s { writer = upd s.writer j w; greeted = greeted })
writer_moves {file} {s} v j w greeted e f =
    keeps v (λ i. omega arith) (upd_image target s.writer j w e) (λ i h. h)
      (λ k i h g. ap (λ t. received s i ++ t) (image k)) (λ i h g. refl)
  where
    image : (k : ℕ) → unsent (file k) (upd s.writer j w k) ≡ unsent (file k) (s.writer k)
    image k = elim (ℕ_discrete j k) [
      | yes same ↦
          ap (unsent (file k)) (ap (λ t. upd s.writer t w k) same ∙ upd_same s.writer k w)
          ∙ subst (λ t. unsent (file t) w ≡ unsent (file t) (s.writer t)) same f
      | no other ↦ ap (unsent (file k)) (upd_other s.writer j w k other)
    ]

-- A reader that goes on in a place that is not its first has no more tickets.
fewer_tickets :
    (s : State) (i : ℕ) (r : Reader)
    → is_created r ≡ false
    → (k : ℕ) → count k s.conn + (if is_created (upd s.reader i r k) then 1 else 0) ≤ tickets s k
fewer_tickets s i r e k = elim (ℕ_discrete i k) [
  | yes same ↦ rw (ap (λ t. upd s.reader t r k) same ∙ upd_same s.reader k r, e) (omega arith)
  | no other ↦ rw (upd_other s.reader i r k other) (omega arith)
]

-- Reader `i` goes on in a place that is not its first.
pub reader_moves :
    {file : ℕ → Bytes} {s : State} (v : Inv file s) (i : ℕ) (r : Reader) (greeted : ℕ → Bool)
    → is_created r ≡ false
    → Inv file (record s { reader = upd s.reader i r; greeted = greeted })
reader_moves {file} {s} v i r greeted e =
    keeps v (fewer_tickets s i r e) (λ j. refl) (λ k h. h) (λ j k h g. refl) (λ k h g. refl)

-- Reader `i` goes on in a place that is not its first, with some bytes lost.
pub reader_loses :
    {file : ℕ → Bytes} {s : State} (v : Inv file s) (i : ℕ) (r : Reader) (greeted : ℕ → Bool)
    (output pipe : ℕ → Bytes)
    → is_created r ≡ false
    → ((k : ℕ) → i ≢ k → output k ++ pipe k ≡ received s k)
    → Inv file (record s {
      reader = upd s.reader i r;
      greeted = greeted;
      output = output;
      pipe = pipe;
      intact = upd s.intact i false;
    })
reader_loses {file} {s} v i r greeted output pipe e others =
    keeps v (fewer_tickets s i r e) (λ j. refl)
      (λ k h. sym (upd_other s.intact i false k (away k h)) ∙ h)
      (λ j k h g. ap (λ t. t ++ unsent (file j) (s.writer j)) (others k (away k g)))
      (λ k h g. others k (away k g))
  where
    away : (k : ℕ) → upd s.intact i false k ≡ true → i ≢ k
    away k h same =
        let f : upd s.intact i false k ≡ false =
          ap (λ t. upd s.intact t false k) same ∙ upd_same s.intact k false in
        let impossible : false ≡ true = sym f ∙ h in ground arith
