-- ===== src/HpcNet/Server.antt =====
-- HPC.Net/lib/hpc_net.c: what the tasks of `hpcnetCalcIntegral` add up to, and when it answers.
use task_lunev.Base.{Bool, true, false, if◌then◌else◌}
use task_lunev.Base.{
  ℕ, zero, suc, ◌+◌, ◌*◌, ◌/◌, ◌%◌, ◌≤◌, ◌<◌, ◌≡◌, arith, refl, true, false, min, ◌⊎◌, inl, inr,
  dec_lt,
}
use task_lunev.Base.{◌==◌, some, List, [], ◌∷◌, ◌++◌}
use task_lunev.Memory.{Reply, ok, fail, unset}
use native.Mathlib.Nat.{mod-lt, mod-eq_of_lt, div-eq_of_lt, div-add-mod, le-div_iff_mul-le}
use task_lunev.HpcNet.Setup.{ServParam, serv_param_is_full}
use task_lunev.HpcNet.{
  Doubles, Task, IntArg, int_arg_of, next_task, local_threads, client_tasks, last_task, first_task,
  answer, add_answers, own_part, calc_sent, sends, calc_integral, answers_of,
}

abbrev pub threads_of : {D : Type 0} → List (Task D) → ℕ
threads_of [] = 0
threads_of (t ∷ ts) = t.num_threads + threads_of ts

-- Each task begins where the one before ends, the first one at a point.
abbrev pub IsChain : {D : Type 0} → D → List (Task D) → Type 0
IsChain a [] = a ≡ a
IsChain a (t ∷ ts) = (t.a ≡ a) × IsChain t.b ts

module _ {D : Type 0} (num : Doubles D) where
  client_tasks_threads :
      (left numcli : ℕ) (len : D) (full extra : ℕ) (t : Task D)
      → threads_of (client_tasks num left numcli len full extra t) + min extra numcli
        ≡ left * full + min extra (numcli + left)
  unfolding client_tasks next_task
  client_tasks_threads zero numcli len full extra t = ground arith
  client_tasks_threads (suc left) numcli len full extra t =
      let t' = next_task num len t (local_threads full extra numcli) in
      ground (arith, client_tasks_threads left (numcli + 1) len full extra t')

  -- The numbers of threads of the tasks of the clients and of the own part of the server add up to
  -- the number of threads asked for.
  pub threads_shared :
      (num_clients num_threads : ℕ) (len : D) (t : Task D)
      → let full = num_threads / (num_clients + 1) in
        threads_of (client_tasks num num_clients 0 len full (num_threads % (num_clients + 1)) t)
          + full
        ≡ num_threads
  threads_shared num_clients num_threads len t = grind (
    arith,
    client_tasks_threads num_clients 0 len (num_threads / (num_clients + 1))
        (num_threads % (num_clients + 1)) t,
    mod-lt num_threads {m = num_clients + 1} (omega arith),
    div-add-mod num_threads (num_clients + 1),
  )

  -- The tasks that a call gives to the clients, and the part that the server keeps.
  abbrev pub tasks_of : ℕ → ℕ → D → D → D → List (Task D)
  tasks_of num_clients num_threads a b eps =
      client_tasks num num_clients 0 (num.over (num.minus b a) (num.of_nat num_threads))
        (num_threads / (num_clients + 1)) (num_threads % (num_clients + 1)) (first_task num a b eps)

  abbrev pub own_task : ℕ → ℕ → D → D → D → Task D
  own_task num_clients num_threads a b eps =
      next_task num (num.over (num.minus b a) (num.of_nat num_threads))
        (last_task (first_task num a b eps) (tasks_of num_clients num_threads a b eps))
        (num_threads / (num_clients + 1))

  client_tasks-IsChain :
      (left numcli : ℕ) (len : D) (full extra own : ℕ) (t : Task D)
      → let ts = client_tasks num left numcli len full extra t in
        IsChain t.b (ts ++ next_task num len (last_task t ts) own ∷ [])
  unfolding client_tasks next_task
  client_tasks-IsChain zero numcli len full extra own t = (refl, refl)
  client_tasks-IsChain (suc left) numcli len full extra own t =
      (refl, client_tasks-IsChain left (numcli + 1) len full extra own _)

  -- Each task begins where the one before ends, from the lower limit on, the own part last.
  pub tasks-IsChain :
      (num_clients num_threads : ℕ) (a b eps : D)
      → IsChain a (
          tasks_of num_clients num_threads a b eps ++ own_task num_clients num_threads a b eps ∷ [])
  unfolding first_task
  tasks-IsChain num_clients num_threads a b eps =
      client_tasks-IsChain num_clients 0 _ (num_threads / (num_clients + 1))
        (num_threads % (num_clients + 1)) (num_threads / (num_clients + 1)) (first_task num a b eps)

  module _ (hpc_integral : IntArg D → D) where
    -- The integrals of these tasks, added to a number in order.
    abbrev pub sum_of : D → List (Task D) → D
    sum_of r [] = r
    sum_of r (t ∷ ts) = sum_of (num.add r (hpc_integral (int_arg_of num t))) ts

    add_answers_sum :
        (left numcli : ℕ) (len : D) (full extra : ℕ) (t : Task D) (r : D)
        → (0 < full) ⊎ (numcli + left ≤ extra)
        → let ts = client_tasks num left numcli len full extra t in
          add_answers num hpc_integral r (answers_of num hpc_integral ts) ≡ ok (sum_of r ts)
    unfolding add_answers client_tasks next_task answer
    add_answers_sum zero numcli len full extra t r h = refl
    add_answers_sum (suc left) numcli len full extra t r h =
        let e : (local_threads full extra numcli == 0) ≡ false = ground arith in
        rw e (add_answers_sum left (numcli + 1) len full extra _ _ (ground arith))

    add_answers_fail :
        (left numcli : ℕ) (len : D) (extra : ℕ) (t : Task D) (r : D)
        → extra < numcli + left
        → numcli ≤ extra
        → let ts = client_tasks num left numcli len 0 extra t in
          add_answers num hpc_integral r (answers_of num hpc_integral ts) ≡ fail unset
    unfolding add_answers client_tasks next_task answer
    add_answers_fail zero numcli len extra t r h k = absurd (omega arith)
    add_answers_fail (suc left) numcli len extra t r h k = elim (dec_lt numcli extra) [
      | yes more ↦
          let e : (local_threads 0 extra numcli == 0) ≡ false = ground arith in
          rw e (add_answers_fail left (numcli + 1) len extra _ _ (omega arith) (omega arith))
      | no all ↦ let e : (local_threads 0 extra numcli == 0) ≡ true = ground arith in rw e refl
    ]

    calc_sent-sum :
        (num_clients num_threads : ℕ) (a b eps old : D)
        → num_clients < num_threads
        → num.is_finite (hpc_integral (int_arg_of num (own_task num_clients num_threads a b eps)))
          ≡ true
        → calc_sent num hpc_integral num_clients num_threads a b eps old
          ≡ ok (
              sum_of
                (hpc_integral (int_arg_of num (own_task num_clients num_threads a b eps)))
                (tasks_of num_clients num_threads a b eps))
    unfolding calc_sent own_part
    calc_sent-sum num_clients num_threads a b eps old h finite =
        let full = num_threads / (num_clients + 1) in
        let some_left : 0 < full =
          (le-div_iff_mul-le {k = num_clients + 1} {x = 1} {y = num_threads} (omega arith)).1
            (omega arith) in
        let e : (full == 0) ≡ false = ground arith in
        rw (e, finite)
          (add_answers_sum num_clients 0 _ full (num_threads % (num_clients + 1)) _ _
            (inl some_left))

    -- The division, where there are no more threads than clients.
    no_full :
        (num_clients num_threads : ℕ)
        → num_threads ≤ num_clients
        → (num_threads / (num_clients + 1) ≡ 0) × (num_threads % (num_clients + 1) ≡ num_threads)
    no_full num_clients num_threads h = (
      div-eq_of_lt {n = num_threads} {m = num_clients + 1} (omega arith),
      mod-eq_of_lt {n = num_threads} {m = num_clients + 1} (omega arith),
    )

    calc_sent-fail :
        (num_clients num_threads : ℕ) (a b eps old : D)
        → num_threads < num_clients
        → calc_sent num hpc_integral num_clients num_threads a b eps old ≡ fail unset
    unfolding calc_sent own_part
    calc_sent-fail num_clients num_threads a b eps old h =
        let (d, r) = no_full num_clients num_threads (omega arith) in
        rw (d, r) (add_answers_fail num_clients 0 _ num_threads _ old (omega arith) (omega arith))

    calc_sent-keeps :
        (num_clients num_threads : ℕ) (a b eps old : D)
        → num_threads ≡ num_clients
        → calc_sent num hpc_integral num_clients num_threads a b eps old
          ≡ ok (sum_of old (tasks_of num_clients num_threads a b eps))
    unfolding calc_sent own_part
    calc_sent-keeps num_clients num_threads a b eps old h =
        let (d, r) = no_full num_clients num_threads (omega arith) in
        rw (d, r) (add_answers_sum num_clients 0 _ 0 num_threads _ old (inr (omega arith)))

    module _ (p : ServParam) (full : serv_param_is_full (some p) ≡ true) (num_threads : ℕ)
        (a b eps old : D) (up : ℕ → Bool) where
      -- With a server that is set up, more threads than clients, connections that take all the
      -- tasks and a finite result of the own part, hpcnetCalcIntegral returns the own part with
      -- the answers of all clients added, each the integral over the task that it was sent, in the
      -- order of the clients.
      pub calc_integral-sum :
          sends up p.num_clients 0 ≡ true
          → p.num_clients < num_threads
          → num.is_finite
              (hpc_integral (int_arg_of num (own_task p.num_clients num_threads a b eps)))
            ≡ true
          → calc_integral num hpc_integral up (some p) num_threads a b eps old
            ≡ ok (
                sum_of
                  (hpc_integral (int_arg_of num (own_task p.num_clients num_threads a b eps)))
                  (tasks_of p.num_clients num_threads a b eps))
      unfolding calc_integral
      calc_integral-sum all_up h finite =
          rw (full, all_up) (calc_sent-sum p.num_clients num_threads a b eps old h finite)

      -- With a server that is set up and fewer threads than clients hpcnetCalcIntegral fails,
      -- since a client without a thread sends no answer.
      pub calc_integral-fail :
          num_threads < p.num_clients
          → calc_integral num hpc_integral up (some p) num_threads a b eps old ≡ fail unset
      unfolding calc_integral
      calc_integral-fail h =
          let f = calc_sent-fail p.num_clients num_threads a b eps old h in
          rw (full, f)
            (elim (sends up p.num_clients 0)
              as (λ t. ◌≡◌ {A = Reply D} (if t then fail unset else fail unset) (fail unset)) [
                | true ↦ refl
                | false ↦ refl
              ])

      -- With as many threads as clients the answers are added to what the caller left in the result.
      pub calc_integral-keeps :
          sends up p.num_clients 0 ≡ true
          → num_threads ≡ p.num_clients
          → calc_integral num hpc_integral up (some p) num_threads a b eps old
            ≡ ok (sum_of old (tasks_of p.num_clients num_threads a b eps))
      unfolding calc_integral
      calc_integral-keeps all_up h =
          rw (full, all_up) (calc_sent-keeps p.num_clients num_threads a b eps old h)
