-- ===== src/HpcNet.antt =====
-- HPC.Net/lib/hpc_net.c: an integral computed by a server and its clients.
mod Tests
pub mod Stream
pub mod Port
pub mod Server
pub mod Pieces
pub mod Setup
pub mod Sockets
use task_lunev.Base.{
  ℕ, zero, suc, ◌+◌, ◌-◌, ◌*◌, ◌/◌, ◌%◌, Bool, true, false, if◌then◌else◌, ltb, ◌==◌, ◌&&◌,
}
use task_lunev.Base.{Option, none, some, List, [], ◌∷◌, ◌++◌}
use task_lunev.HpcNet.Setup.{ServParam, serv_param_is_full}
use task_lunev.Memory.{Reply, ok, fail, fault, unset, ◌>>=◌}

-- The integrands that a task can name.
pub data TypeFunc : Type 0 where
  of_x of_x_mult_x : TypeFunc

-- The operations of the floating-point numbers of the machine.
pub record Doubles (D : Type 0) : Type 0 where
  pub nought : D
  pub of_nat : ℕ → D
  pub add : D → D → D
  pub minus : D → D → D
  pub times : D → D → D
  pub over : D → D → D
  pub fabs : D → D
  pub is_finite : D → Bool

-- `comp_unit_task_t` and `hpc_int_arg_t`
pub record Task (D : Type 0) : Type 0 where
  pub a : D
  pub b : D
  pub dx : D
  pub type_func : TypeFunc
  pub num_threads : ℕ

pub record IntArg (D : Type 0) : Type 0 where
  pub a : D
  pub b : D
  pub func : D → D
  pub eps : D
  pub num_threads : ℕ

-- Whether `writen` succeeds for the clients from number `numcli` on, with `left` to go.
abbrev pub sends : (ℕ → Bool) → ℕ → ℕ → Bool
sends up zero numcli = true
sends up (suc left) numcli = up numcli && sends up left (numcli + 1)

-- `num_local_threads`
abbrev pub local_threads : ℕ → ℕ → ℕ → ℕ
local_threads full extra numcli = full + (if ltb numcli extra then 1 else 0)

-- The task in the variable behind a loop over these.
abbrev pub last_task : {D : Type 0} → Task D → List (Task D) → Task D
last_task t [] = t
last_task t (t' ∷ ts) = last_task t' ts

module _ {D : Type 0} (num : Doubles D) where
  -- `funcX`, `funcX_mult_X`
  abbrev pub func_x : D → D
  func_x x = x

  abbrev pub func_x_mult_x : D → D
  func_x_mult_x x = num.times x x

  abbrev pub integrand : TypeFunc → D → D
  integrand TypeFunc.of_x = func_x
  integrand TypeFunc.of_x_mult_x = func_x_mult_x

  -- `CompUnitTask2IntArg`
  unfoldable pub int_arg_of : Task D → IntArg D
  int_arg_of t = record {
    a = t.a;
    b = t.b;
    func = integrand t.type_func;
    eps = num.over t.dx (num.fabs (num.minus t.b t.a));
    num_threads = t.num_threads;
  }

  -- The next task: it begins where the one before ends.
  unfoldable pub next_task : D → Task D → ℕ → Task D
  next_task len t threads = record t {
    a = t.b;
    b = num.add t.b (num.times len (num.of_nat threads));
    num_threads = threads;
  }

  -- The tasks of the clients from number `numcli` on, with `left` to go.
  unfoldable pub client_tasks : ℕ → ℕ → D → ℕ → ℕ → Task D → List (Task D)
  client_tasks zero numcli len full extra t = []
  client_tasks (suc left) numcli len full extra t =
      let t' = next_task len t (local_threads full extra numcli) in
      t' ∷ client_tasks left (numcli + 1) len full extra t'

  -- The variable before the loop: the function of the caller is not used.
  unfoldable pub first_task : D → D → D → Task D
  first_task a b eps = record {
    a = a;
    b = a;
    dx = num.times (num.fabs (num.minus b a)) eps;
    type_func = TypeFunc.of_x;
    num_threads = 0;
  }

  module _ (hpc_integral : IntArg D → D) where
    -- `hpcnetStartComputeUnit` behind the task: the answer, if it sends one.
    unfoldable pub answer : Task D → Option D
    answer t = if t.num_threads == 0 then none else some (hpc_integral (int_arg_of t))

    -- The loop that adds the answers; a client that returns without one closes its socket.
    unfoldable pub add_answers : D → List (Option D) → Reply D
    add_answers result [] = ok result
    add_answers result (none ∷ answers) = fail unset
    add_answers result (some r ∷ answers) = add_answers (num.add result r) answers

    -- The part of the server itself; without one `*result` is what the caller left there.
    unfoldable pub own_part : D → ℕ → D → Task D → Reply D
    own_part len full old t =
        let r = hpc_integral (int_arg_of (next_task len t full)) in
        if full == 0 then ok old else if num.is_finite r then ok r else fail unset

    abbrev pub answers_of : List (Task D) → List (Option D)
    answers_of [] = []
    answers_of (t ∷ ts) = answer t ∷ answers_of ts

    -- `hpcnetCalcIntegral` behind the loop that sends the tasks: each client does `answer`.
    unfoldable pub calc_sent : ℕ → ℕ → D → D → D → D → Reply D
    calc_sent num_clients num_threads a b eps old =
        let len = num.over (num.minus b a) (num.of_nat num_threads) in
        let extra = num_threads % (num_clients + 1) in
        let full = num_threads / (num_clients + 1) in
        let t = first_task a b eps in
        let tasks = client_tasks num_clients 0 len full extra t in
        (do
          result ← own_part len full old (last_task t tasks)
          add_answers result (answers_of tasks))

    -- `up` says whether the connection to a client takes its task. A server that is not set up makes
    -- the function convert a NaN to `int`, which is undefined.
    unfoldable pub calc_integral : (ℕ → Bool) → Option ServParam → ℕ → D → D → D → D → Reply D
    calc_integral up none num_threads a b eps old = fault
    calc_integral up (some p) num_threads a b eps old =
        if serv_param_is_full (some p)
        then (if sends up p.num_clients 0
            then calc_sent p.num_clients num_threads a b eps old
            else fail unset)
        else fault
