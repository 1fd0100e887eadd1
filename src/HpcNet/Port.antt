-- ===== src/HpcNet/Port.antt =====
-- HPC.Net/lib/hpc_net.c: `_bindFreePort`, the search for a port that `bind` grants.
use task_lunev.Base.{ℕ, zero, suc, ◌+◌, ◌-◌, ◌%◌, ◌^◌, ◌≤◌, ◌<◌, ◌≡◌, arith, Bool, true, false}
use task_lunev.Base.{if◌then◌else◌, ltb, leb, ℤ, pos, minus_one, Option, none, some}

-- The loop from a port on, by fuel: the port at its end. `bind` says which ports are granted; the
-- port is a `uint16_t`, and is raised behind every refused port.
unfoldable pub bind_loop : (ℕ → Bool) → ℕ → ℕ → ℕ → Option ℕ
bind_loop bind max_port port zero = none
bind_loop bind max_port port (suc fuel) =
    let rest = bind_loop bind max_port ((port + 1) % 2 ^ 16) fuel in
    if bind port then some port else if leb port max_port then rest else some ((port + 1) % 2 ^ 16)

-- A port behind the last one is no port.
abbrev reported : ℕ → Option ℕ → Option ℤ
reported max_port none = none
reported max_port (some port) = some (if ltb max_port port then minus_one else pos port)

unfoldable pub bind_free_port : (ℕ → Bool) → ℕ → ℕ → ℕ → Option ℤ
bind_free_port bind min_port max_port fuel =
    reported max_port (bind_loop bind max_port min_port fuel)

-- The first granted port of so many.
abbrev pub first_free : (ℕ → Bool) → ℕ → ℕ → ℤ
first_free bind port zero = minus_one
first_free bind port (suc left) = if bind port then pos port else first_free bind (port + 1) left

bind_loop-first :
    (bind : ℕ → Bool) (max_port left port fuel : ℕ)
    → max_port + 2 < 2 ^ 16
    → port + left ≡ max_port + 1
    → left + 1 < fuel
    → reported max_port (bind_loop bind max_port port fuel) ≡ some (first_free bind port left)
unfolding bind_loop
bind_loop-first bind max_port left port zero small e enough = absurd (omega arith)
bind_loop-first bind max_port zero port (suc fuel) small e enough =
    let last : leb port max_port ≡ false = ground arith in
    let next : (port + 1) % 2 ^ 16 ≡ port + 1 = omega arith in
    rw (last, next)
      (elim (bind port)
        as (λ b. reported max_port (if b then some port else some (port + 1)) ≡ some minus_one) [
          | true ↦ ground arith
          | false ↦ ground arith
        ])
bind_loop-first bind max_port (suc left) port (suc fuel) small e enough =
    let inside : leb port max_port ≡ true = ground arith in
    let next : (port + 1) % 2 ^ 16 ≡ port + 1 = omega arith in
    let rest = bind_loop bind max_port (port + 1) fuel in
    rw (inside, next)
      (elim (bind port)
        as (λ b.
          reported max_port (if b then some port else rest)
          ≡ some (if b then pos port else first_free bind (port + 1) left)) [
            | true ↦ ground arith
            | false ↦
                bind_loop-first bind max_port left (port + 1) fuel small (omega arith) (omega arith)
          ])

-- Where the last port is below 65534 and not below the first, _bindFreePort ends within 65536
-- rounds, and gives the first port of the range that bind grants, or -1 where it grants none.
pub bind_free_port-first :
    (bind : ℕ → Bool) (min_port max_port : ℕ)
    → max_port + 2 < 2 ^ 16
    → min_port ≤ max_port
    → bind_free_port bind min_port max_port (2 ^ 16)
      ≡ some (first_free bind min_port (max_port + 1 - min_port))
unfolding bind_free_port
bind_free_port-first bind min_port max_port small h =
    bind_loop-first bind max_port (max_port + 1 - min_port) min_port (2 ^ 16) small (omega arith)
      (omega arith)
