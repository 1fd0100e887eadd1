-- ===== src/HpcIntegral/Released.antt =====
-- HPC_Integral/lib/hpc.c: the calls of a run of `_integral_linear` for threads and attributes,
-- counted.
use task_lunev.Base.{
  ℕ, zero, suc, ◌+◌, ◌≡◌, arith, refl, sym, ap, ap₂, ◌∙◌, true, if◌then◌else◌, ltb, Option, none,
  some, Option-cases, Bool-cases, inl, inr, append_assoc,
}
use task_lunev.Base.{List, [], ◌∷◌, ◌++◌, length, append-nil}
use task_lunev.Memory.{Reply, ok, fail, fault, unset}
use task_lunev.HpcIntegral.{
  Reals, PthArg, Event, init_attr, create, join, join_failed, detach, destroy_attr, Threads, Run,
  stops, pthread_calc_integral,
}
use task_lunev.HpcIntegral.Same.{creates_from}
use task_lunev.HpcIntegral.Parallel.{
  behind, and_then, create_threads, detach_threads, destroy_attr_thread, join_threads,
}

-- The threads, or attributes, of the events of one kind, in order.
abbrev pub select : (Event → Option ℕ) → List Event → List ℕ
select pick [] = []
select pick (e ∷ es) = elim (pick e) [ none ↦ select pick es | some i ↦ i ∷ select pick es ]

abbrev pub is_create : Event → Option ℕ
is_create (create i) = some i
is_create _ = none

-- A thread is handled when it is joined or detached, or when its join fails.
abbrev pub is_handling : Event → Option ℕ
is_handling (join i) = some i
is_handling (join_failed i) = some i
is_handling (detach i) = some i
is_handling _ = none

abbrev pub is_init : Event → Option ℕ
is_init (init_attr i) = some i
is_init _ = none

abbrev pub is_destroy : Event → Option ℕ
is_destroy (destroy_attr i) = some i
is_destroy _ = none

abbrev pub range : (left i : ℕ) → List ℕ
range zero i = []
range (suc left) i = i ∷ range left (i + 1)

pub select-append :
    (pick : Event → Option ℕ) (xs ys : List Event)
    → select pick (xs ++ ys) ≡ select pick xs ++ select pick ys
select-append pick [] ys = refl
select-append pick (e ∷ xs) ys = elim (Option-cases (pick e)) [
  | inl h ↦ rw (select, h, select-append pick xs ys) refl
  | inr (i, h) ↦ rw (select, h, select-append pick xs ys) refl
]

-- The threads created and handled, and the attributes initialised and destroyed.
pub record Counts : Type 0 where
  pub made : List ℕ
  pub handled : List ℕ
  pub attrs : List ℕ
  pub destroyed : List ℕ

abbrev pub counts : List Event → Counts
counts es = record {
  made = select is_create es;
  handled = select is_handling es;
  attrs = select is_init es;
  destroyed = select is_destroy es;
}

infixr 60 ◌⊕◌
abbrev pub ◌⊕◌ : Counts → Counts → Counts
c ⊕ d = record {
  made = c.made ++ d.made;
  handled = c.handled ++ d.handled;
  attrs = c.attrs ++ d.attrs;
  destroyed = c.destroyed ++ d.destroyed;
}

pub counts-append : (xs ys : List Event) → counts (xs ++ ys) ≡ counts xs ⊕ counts ys
counts-append xs ys =
    rw
      (
        select-append is_create xs ys,
        select-append is_handling xs ys,
        select-append is_init xs ys,
        select-append is_destroy xs ys,
      )
      refl

abbrev only_made : List ℕ → Counts
only_made ns = record { made = ns; handled = []; attrs = []; destroyed = [] }

abbrev only_back : List ℕ → Counts
only_back ns = record { made = []; handled = ns; attrs = []; destroyed = [] }

abbrev only_destroyed : List ℕ → Counts
only_destroyed ns = record { made = []; handled = []; attrs = []; destroyed = ns }

counts-creates : (left i : ℕ) → counts (creates_from left i) ≡ only_made (range left i)
counts-creates zero i = refl
counts-creates (suc left) i = ap (λ c. only_made (i ∷ []) ⊕ c) (counts-creates left (i + 1))

counts-detach : (left i : ℕ) → counts (detach_threads left i) ≡ only_back (range left i)
counts-detach zero i = refl
counts-detach (suc left) i = ap (λ c. only_back (i ∷ []) ⊕ c) (counts-detach left (i + 1))

counts-destroy : (left i : ℕ) → counts (destroy_attr_thread left i) ≡ only_destroyed (range left i)
counts-destroy zero i = refl
counts-destroy (suc left) i = ap (λ c. only_destroyed (i ∷ []) ⊕ c) (counts-destroy left (i + 1))

creates-append : (m n i : ℕ) → creates_from m i ++ creates_from n (i + m) ≡ creates_from (m + n) i
creates-append zero n i =
    rw (let e : i + 0 ≡ i = omega arith in e) (ap (λ t. creates_from t i) (omega arith))
creates-append (suc m) n i = rw (let e : suc m + n ≡ suc (m + n) = omega arith in e) (
    ap (λ t. create i ∷ t)
      (ap (λ t. creates_from m (i + 1) ++ creates_from n t) (omega arith)
        ∙ creates-append m n (i + 1)))

-- One batch of threads behind the other.
counts-two :
    (m n : ℕ) (es : List Event)
    → counts (creates_from m 0 ++ (creates_from n m ++ es))
      ≡ only_made (range (m + n) 0) ⊕ counts es
counts-two m n es =
    ap counts (sym (append_assoc (creates_from m 0) (creates_from n m) es))
    ∙ counts-append (creates_from m 0 ++ creates_from n m) es
    ∙ ap (λ c. c ⊕ counts es)
        (ap counts
            (ap (λ t. creates_from m 0 ++ creates_from n t) (omega arith) ∙ creates-append m n 0)
          ∙ counts-creates (m + n) 0)

abbrev pub balanced : List ℕ → List ℕ → Counts
balanced threads destroyed = record {
  made = threads;
  handled = threads;
  attrs = [];
  destroyed = destroyed;
}

shape : (ns ms : List ℕ) → only_made ns ⊕ only_back ns ⊕ only_destroyed ms ≡ balanced ns ms
shape ns ms = rw (append-nil ns) refl

shape_joined : (ns ms : List ℕ) → only_made ns ⊕ only_destroyed ms ⊕ only_back ns ≡ balanced ns ms
shape_joined ns ms = rw (append-nil ns, append-nil ms) refl

counts-undo :
    (k total : ℕ)
    → counts (detach_threads k 0 ++ destroy_attr_thread total 0)
      ≡ only_back (range k 0) ⊕ only_destroyed (range total 0)
counts-undo k total =
    counts-append (detach_threads k 0) (destroy_attr_thread total 0)
    ∙ ap₂ ◌⊕◌ (counts-detach k 0) (counts-destroy total 0)

-- Each thread that was created is handled once, and all the attributes are destroyed.
pub record Balanced (total : ℕ) (es : List Event) : Type 0 where
  pub threads : List ℕ
  pub same : counts es ≡ balanced threads (range total 0)

-- The outcome of the loop over `pthread_create`.
pub data Created (sys : Threads) (total left i : ℕ) : Type 0 where
  all :
      create_threads sys total left i ≡ stops (creates_from left i) (ok tt)
      → Created sys total left i
  failed :
      (k : ℕ)
      → create_threads sys total left i
        ≡ stops
            (creates_from k i ++ (detach_threads (i + k) 0 ++ destroy_attr_thread total 0))
            (fail unset)
      → Created sys total left i

pub create_threads-Created : (sys : Threads) (total left i : ℕ) → Created sys total left i
unfolding create_threads
create_threads-Created sys total zero i = Created.all refl
create_threads-Created sys total (suc left) i = elim (Bool-cases (sys.creates i)) [
  | inl h ↦ elim (create_threads-Created sys total left (i + 1)) [
    | Created.all e ↦ Created.all (rw (create_threads, h, e) refl)
    | Created.failed k e ↦
        Created.failed (suc k)
          (rw (create_threads, h, e, let e : i + 1 + k ≡ i + suc k = omega arith in e) refl)
  ]
  | inr h ↦ Created.failed 0 (rw (create_threads, h, let e : i + 0 ≡ i = omega arith in e) refl)
]

module _ {D : Type 0} (r : Reals D) (sys : Threads) (fuel : ℕ) where
  -- A run of joins that ends handles every thread.
  join_threads-counts :
      (counted i : ℕ) (args : List (PthArg D)) (res : D) (x : Reply D)
      → (join_threads r sys fuel counted i args res).reply ≡ some x
      → counts (join_threads r sys fuel counted i args res).events
        ≡ only_back (range (length args) i)
  unfolding join_threads
  join_threads-counts counted i [] res x h = refl
  join_threads-counts counted i (arg ∷ args) res x h =
      elim (Option-cases (pthread_calc_integral r fuel arg)) [
        | inl e ↦ let q : none ≡ some x = sym (blocked e) ∙ h in ground arith
        | inr (y, e) ↦ elim (Bool-cases (sys.joins i)) [
          | inl j ↦
              let sum = if ltb i counted then r.num.add res y else res in
              rw (join_threads, e, j)
                (ap (λ c. only_back (i ∷ []) ⊕ c)
                  (join_threads-counts counted (i + 1) args sum x (sym (moves y e j) ∙ h)))
          | inr j ↦
              rw (join_threads, e, j)
                (ap (λ c. only_back (i ∷ []) ⊕ c) (counts-detach (length args) (i + 1)))
        ]
      ]
    where
      blocked :
          pthread_calc_integral r fuel arg ≡ none
          → (join_threads r sys fuel counted i (arg ∷ args) res).reply ≡ none
      blocked e = rw (join_threads, e) refl

      moves :
          (y : D)
          → pthread_calc_integral r fuel arg ≡ some y
          → sys.joins i ≡ true
          → (join_threads r sys fuel counted i (arg ∷ args) res).reply
            ≡ (join_threads r sys fuel counted
                (i + 1)
                args
                (if ltb i counted then r.num.add res y else res)).reply
      moves y e j = rw (join_threads, e, j) refl

  abbrev pub total_run : (f : D → D) (num_threads num_dummy : ℕ) → List (PthArg D) → Run D
  total_run f num_threads num_dummy args =
      and_then (create_threads sys (num_threads + num_dummy) num_threads 0) (λ _.
        and_then (create_threads sys (num_threads + num_dummy) num_dummy num_threads) (λ _.
          behind (destroy_attr_thread (num_threads + num_dummy) 0) (
            and_then (join_threads r sys fuel num_threads 0 args r.num.nought)
              (λ res. stops [] (ok (f res))))))

  -- What the last step does not change.
  settled :
      (f : D → D) (es : List Event) (o : Option (Reply D)) (x : Reply D)
      → (and_then (record { events = es; reply = o }) (λ res. stops [] (ok (f res)))).reply ≡ some x
      → ((y : Reply D) × (o ≡ some y))
        × ((and_then (record { events = es; reply = o }) (λ res. stops [] (ok (f res)))).events
            ≡ es)
  settled f es none x h = ground arith
  settled f es (some (ok res)) x h = ((ok res, refl), append-nil es)
  settled f es (some (fail e)) x h = ((fail e, refl), refl)
  settled f es (some fault) x h = ((fault, refl), refl)

  pub total_run-Balanced :
      (f : D → D) (num_threads num_dummy : ℕ) (args : List (PthArg D)) (x : Reply D)
      → length args ≡ num_threads + num_dummy
      → (total_run f num_threads num_dummy args).reply ≡ some x
      → Balanced (num_threads + num_dummy) (total_run f num_threads num_dummy args).events
  total_run-Balanced f num_threads num_dummy args x size h =
      let total : ℕ = num_threads + num_dummy in
      let joins = join_threads r sys fuel num_threads 0 args r.num.nought in
      elim (create_threads-Created sys total num_threads 0) [
        | Created.failed k e ↦ record {
          threads = range k 0;
          same = rw e (
              counts-append (creates_from k 0) _
              ∙ ap₂ ◌⊕◌ (counts-creates k 0)
                  (rw (let z : 0 + k ≡ k = omega arith in z) (counts-undo k total))
              ∙ shape (range k 0) (range total 0));
        }
        | Created.all e ↦ elim (create_threads-Created sys total num_dummy num_threads) [
          | Created.failed k e2 ↦ record {
            threads = range (num_threads + k) 0;
            same =
                rw (e, e2)
                  (counts-two num_threads k _
                    ∙ ap (λ c. only_made (range (num_threads + k) 0) ⊕ c)
                        (counts-undo (num_threads + k) total)
                    ∙ shape (range (num_threads + k) 0) (range total 0));
          }
          | Created.all e2 ↦
              let ((y, ends), quiet) = settled f joins.events joins.reply x (rw (e, e2) at h) in
              record {
                threads = range total 0;
                same =
                    rw (e, e2)
                      (counts-two num_threads num_dummy _
                        ∙ ap (λ c. only_made (range total 0) ⊕ c)
                            (counts-append (destroy_attr_thread total 0) _
                              ∙ ap₂ ◌⊕◌ (counts-destroy total 0) (
                                  ap counts quiet
                                  ∙ join_threads-counts num_threads 0 args r.num.nought y ends
                                  ∙ ap (λ t. only_back (range t 0)) size))
                        ∙ shape_joined (range total 0) (range total 0));
              }
        ]
      ]
