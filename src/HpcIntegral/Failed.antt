-- ===== src/HpcIntegral/Failed.antt =====
-- HPC_Integral/lib/hpc.c: the joins that fail in a run of `_integral_linear`.
use task_lunev.Base.{
  ℕ, zero, suc, ◌+◌, ◌≤◌, ◌≡◌, arith, refl, ap, ◌∙◌, if◌then◌else◌, ltb, Option, none, some,
  Option-cases, Bool-cases, inl, inr, List, [], ◌∷◌, ◌++◌, length, length-append, append-nil,
}
use task_lunev.Memory.{Reply, ok, fail, fault}
use task_lunev.HpcIntegral.{
  Reals, PthArg, Event, join_failed, Threads, stops, pthread_calc_integral,
}
use task_lunev.HpcIntegral.Parallel.{and_then, detach_threads, destroy_attr_thread, join_threads}
use task_lunev.HpcIntegral.Same.{creates_from}
use task_lunev.HpcIntegral.Released.{
  select, select-append, total_run, Created, create_threads-Created,
}

-- The threads whose join failed.
abbrev pub is_failed : Event → Option ℕ
is_failed (join_failed i) = some i
is_failed _ = none

abbrev pub num_failed : List Event → ℕ
num_failed es = length (select is_failed es)

pub num_failed-append : (xs ys : List Event) → num_failed (xs ++ ys) ≡ num_failed xs + num_failed ys
num_failed-append xs ys =
    ap length (select-append is_failed xs ys) ∙ length-append (select is_failed xs) _

failed-creates : (left i : ℕ) → num_failed (creates_from left i) ≡ 0
failed-creates zero i = refl
failed-creates (suc left) i = failed-creates left (i + 1)

failed-detach : (left i : ℕ) → num_failed (detach_threads left i) ≡ 0
failed-detach zero i = refl
failed-detach (suc left) i = failed-detach left (i + 1)

failed-destroy : (left i : ℕ) → num_failed (destroy_attr_thread left i) ≡ 0
failed-destroy zero i = refl
failed-destroy (suc left) i = failed-destroy left (i + 1)

module _ {D : Type 0} (r : Reals D) (sys : Threads) (fuel : ℕ) where
  -- Behind a join that fails no other is tried.
  failed-join_threads :
      (counted i : ℕ) (args : List (PthArg D)) (res : D)
      → num_failed (join_threads r sys fuel counted i args res).events ≤ 1
  unfolding join_threads
  failed-join_threads counted i [] res = omega arith
  failed-join_threads counted i (arg ∷ args) res =
      elim (Option-cases (pthread_calc_integral r fuel arg)) [
        | inl e ↦ rw (join_threads, e) (omega arith)
        | inr (y, e) ↦ elim (Bool-cases (sys.joins i)) [
          | inl j ↦
              rw (join_threads, e, j)
                (failed-join_threads counted (i + 1) args
                  (if ltb i counted then r.num.add res y else res))
          | inr j ↦ rw (join_threads, e, j) (omega (arith, failed-detach (length args) (i + 1)))
        ]
      ]

  failed-undo : (k total : ℕ) → num_failed (detach_threads k 0 ++ destroy_attr_thread total 0) ≡ 0
  failed-undo k total = omega (
    arith,
    num_failed-append (detach_threads k 0) (destroy_attr_thread total 0),
    failed-detach k 0,
    failed-destroy total 0,
  )

  -- What the last step does not change.
  failed-settled :
      (f : D → D) (es : List Event) (o : Option (Reply D))
      → (and_then (record { events = es; reply = o }) (λ res. stops [] (ok (f res)))).events ≡ es
  failed-settled f es none = refl
  failed-settled f es (some (ok res)) = append-nil es
  failed-settled f es (some (fail e)) = refl
  failed-settled f es (some fault) = refl

  pub failed-total_run :
      (f : D → D) (num_threads num_dummy : ℕ) (args : List (PthArg D))
      → num_failed (total_run r sys fuel f num_threads num_dummy args).events ≤ 1
  failed-total_run f num_threads num_dummy args =
      let total : ℕ = num_threads + num_dummy in
      let joins = join_threads r sys fuel num_threads 0 args r.num.nought in
      let first = creates_from num_threads 0 in
      elim (create_threads-Created sys total num_threads 0) [
        | Created.failed k e ↦
            let undo = detach_threads (0 + k) 0 ++ destroy_attr_thread total 0 in
            rw e (
              omega (
                arith,
                num_failed-append (creates_from k 0) undo,
                failed-creates k 0,
                failed-undo (0 + k) total,
              ))
        | Created.all e ↦ elim (create_threads-Created sys total num_dummy num_threads) [
          | Created.failed k e2 ↦
              let undo = detach_threads (num_threads + k) 0 ++ destroy_attr_thread total 0 in
              let second = creates_from k num_threads in
              rw (e, e2)
                (omega (
                  arith,
                  num_failed-append first (second ++ undo),
                  num_failed-append second undo,
                  failed-creates num_threads 0,
                  failed-creates k num_threads,
                  failed-undo (num_threads + k) total,
                ))
          | Created.all e2 ↦
              let quiet = failed-settled f joins.events joins.reply in
              let second = creates_from num_dummy num_threads in
              let destroyed = destroy_attr_thread total 0 in
              rw (e, e2, quiet)
                (omega (
                  arith,
                  num_failed-append first (second ++ (destroyed ++ joins.events)),
                  num_failed-append second (destroyed ++ joins.events),
                  num_failed-append destroyed joins.events,
                  failed-creates num_threads 0,
                  failed-creates num_dummy num_threads,
                  failed-destroy total 0,
                  failed-join_threads num_threads 0 args r.num.nought,
                ))
        ]
      ]
