-- ===== src/HpcNet/Tests.antt =====
-- Runs of the functions of HPC.Net/lib/hpc_net.c, with integers in the place of the floating-point
-- numbers.
use task_lunev.Base.{ℕ, ◌+◌, ◌-◌, ◌*◌, ◌/◌, ◌≡◌, arith, refl, true, some, [], ◌∷◌}
use task_lunev.Base.{pos, ℤ, ltb}
use task_lunev.Memory.{Bytes}
use task_lunev.HpcNet.{Doubles, IntArg}
use task_lunev.HpcNet.Stream.{Moved, writen, readn, writes, split, writen-readn}
use task_lunev.HpcNet.Port.{bind_free_port, bind_free_port-first}
use task_lunev.HpcNet.Setup.{ServParam, units_from}

-- Three bytes.
abbrev three : Bytes
three = 1 ∷ 2 ∷ 3 ∷ []

writen-readn_example :
    (writen (pos 4) (some three) 3 (writes (1 ∷ 2 ∷ [])) ≡ Moved.done three)
    × (readn (pos 5) true 3 (split (2 ∷ 1 ∷ []) three) ≡ Moved.done three)
writen-readn_example =
    writen-readn 4 5 three (1 ∷ 2 ∷ []) (2 ∷ 1 ∷ []) (omega arith) (omega arith) refl refl

bind_free_port-first_example :
    bind_free_port (λ port. ltb 1026 port) 1025 64000 65536 ≡ some (pos 1027)
bind_free_port-first_example =
    bind_free_port-first (λ port. ltb 1026 port) 1025 64000 (omega arith) (omega arith)

abbrev whole : Doubles ℕ
whole = record {
  nought = 0;
  of_nat = λ n. n;
  add = λ x y. x + y;
  minus = λ x y. x - y;
  times = λ x y. x * y;
  over = λ x y. x / y;
  fabs = λ x. x;
  is_finite = λ x. true;
}

-- The integral of a step function with one step.
abbrev one_step : IntArg ℕ → ℕ
one_step arg = (arg.b - arg.a) * arg.func arg.a

-- A server with two clients.
abbrev two_clients : ServParam
two_clients = record {
  serv_fd = pos 3;
  num_clients = 2;
  comp_units = some (units_from 2 0 (λ i. pos (4 + i)) (λ i. pos 8));
}

-- The descriptors from 4 on.
abbrev fourth : ℕ → ℤ
fourth i = pos (4 + i)
