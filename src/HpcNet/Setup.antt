-- ===== src/HpcNet/Setup.antt =====
-- HPC.Net/lib/hpc_net.c: the server's checks, how it accepts its clients, and how it closes them.
use task_lunev.Base.{ℕ, zero, suc, ◌+◌, ◌*◌, ◌≤◌, ◌<◌, ◌≡◌, arith, refl, Bool, true, false, not}
use task_lunev.Base.{if◌then◌else◌, ◌==◌, ◌&&◌, ℤ, pos, ltbℤ, Option, none, some}
use task_lunev.Base.{List, [], ◌∷◌, ◌++◌}
use task_lunev.Memory.{Reply, ok, fail, fault, unset, ◌>>=◌}

-- `comp_unit_t` and `serv_param_t`
pub record CompUnit : Type 0 where
  pub sock_fd : ℤ
  pub num_logic_cpu : ℤ

pub record ServParam : Type 0 where
  pub serv_fd : ℤ
  pub num_clients : ℕ
  pub comp_units : Option (List CompUnit)

-- `serv_attr_t`, with the name of the interface and the family of the socket as numbers.
pub record ServAttr : Type 0 where
  pub clients_limit : ℤ
  pub if_name : Option ℕ
  pub sa_family : ℕ

-- `AF_INET`
abbrev pub af_inet : ℕ
af_inet = 2

unfoldable pub check_serv_attr : ServAttr → Reply ServAttr
check_serv_attr attr = elim attr.if_name [
  | none ↦ fail unset
  | some name ↦
      if ltbℤ attr.clients_limit (pos 0)
      then fail unset
      else if attr.sa_family == af_inet
      then ok attr
      else fail unset
]

unfoldable pub serv_attr_is_full : Option ServAttr → Bool
serv_attr_is_full none = false
serv_attr_is_full (some attr) = elim attr.if_name [
  | none ↦ false
  | some name ↦ not (ltbℤ attr.clients_limit (pos 0))
]

-- The number of clients is unsigned, and is never below 0.
unfoldable pub serv_param_is_full : Option ServParam → Bool
serv_param_is_full none = false
serv_param_is_full (some p) =
    not (ltbℤ p.serv_fd (pos 0)) && elim p.comp_units [ none ↦ false | some units ↦ true ]

-- `CloseServer`: the descriptors that it closes, in order.
abbrev pub sockets : List CompUnit → List ℤ
sockets [] = []
sockets (u ∷ us) = u.sock_fd ∷ sockets us

unfoldable pub close_server : Option ServParam → Reply (List ℤ)
close_server none = fail unset
close_server (some p) =
    if serv_param_is_full (some p)
    then elim p.comp_units [ none ↦ fault | some units ↦ ok (sockets units ++ p.serv_fd ∷ []) ]
    else fail unset

-- The sockets and the allocator of the system: the descriptor of the client with this number,
-- whether the options of a socket can be set, and the `int` that a client sends first.
module _ (accept : ℕ → Option ℤ) (set_options : ℤ → Bool) (read_int : ℤ → Option ℤ)
    (grants : ℕ → Bool) where
  -- The loop of `AcceptAndInitClients`, with `left` clients to go.
  unfoldable pub accept_clients : ℕ → ℕ → Reply (List ℤ)
  accept_clients zero numcli = ok []
  accept_clients (suc left) numcli = elim (accept numcli) [
    | none ↦ fail unset
    | some fd ↦
        if set_options fd
        then (do fds ← accept_clients left (numcli + 1); ok (fd ∷ fds))
        else fail unset
  ]

  -- `InitCompUnits`
  unfoldable pub init_comp_units : List ℤ → Reply (List CompUnit)
  init_comp_units [] = ok []
  init_comp_units (fd ∷ fds) = elim (read_int fd) [
    | none ↦ fail unset
    | some n ↦ (do
      units ← init_comp_units fds
      ok (record { sock_fd = fd; num_logic_cpu = n } ∷ units))
  ]

  unfoldable pub accept_and_init_clients : ServParam → ℕ → Reply ServParam
  accept_and_init_clients p num_cli_limit =
      if grants (4 * num_cli_limit) && set_options p.serv_fd
      then (do
        clifds ← accept_clients num_cli_limit 0
        if set_options p.serv_fd && grants (8 * num_cli_limit)
            then (do
              units ← init_comp_units clifds
              ok (record {
                serv_fd = p.serv_fd;
                num_clients = num_cli_limit;
                comp_units = some units;
              }))
            else fail unset)
      else fail unset

  -- The clients that stand ready: they connect, take the options and send their number.
  pub record IsReady (limit : ℕ) (fd_of cpus_of : ℕ → ℤ) : Type 0 where
    pub connects : (i : ℕ) → i < limit → accept i ≡ some (fd_of i)
    pub configured : (i : ℕ) → i < limit → set_options (fd_of i) ≡ true
    pub sends : (i : ℕ) → i < limit → read_int (fd_of i) ≡ some (cpus_of i)

-- The units with these numbers.
abbrev pub units_from : ℕ → ℕ → (ℕ → ℤ) → (ℕ → ℤ) → List CompUnit
units_from zero i fd_of cpus_of = []
units_from (suc left) i fd_of cpus_of =
    record { sock_fd = fd_of i; num_logic_cpu = cpus_of i } ∷ units_from left (i + 1) fd_of cpus_of

module _ {accept : ℕ → Option ℤ} {set_options : ℤ → Bool} {read_int : ℤ → Option ℤ}
    {grants : ℕ → Bool} {limit : ℕ} {fd_of cpus_of : ℕ → ℤ}
    (r : IsReady accept set_options read_int grants limit fd_of cpus_of) where
  accept_clients-units :
      (left i : ℕ)
      → i + left ≤ limit
      → accept_clients accept set_options read_int grants left i
        ≡ ok (sockets (units_from left i fd_of cpus_of))
  unfolding accept_clients
  accept_clients-units zero i h = refl
  accept_clients-units (suc left) i h =
      rw
        (
          accept_clients,
          r.connects i (omega arith),
          r.configured i (omega arith),
          accept_clients-units left (i + 1) (omega arith),
        )
        refl

  init_comp_units-units :
      (left i : ℕ)
      → i + left ≤ limit
      → init_comp_units accept set_options read_int grants
          (sockets (units_from left i fd_of cpus_of))
        ≡ ok (units_from left i fd_of cpus_of)
  unfolding init_comp_units
  init_comp_units-units zero i h = refl
  init_comp_units-units (suc left) i h =
      rw
        (init_comp_units, r.sends i (omega arith), init_comp_units-units left (i + 1) (omega arith))
        refl

  -- Where the memory and the options of the sockets are granted and so many clients connect and
  -- send their number, AcceptAndInitClients on a server with a descriptor that is not negative
  -- leaves a structure on which CloseServer closes the sockets of all the clients, in order, and
  -- then that of the server.
  pub accept-close :
      (p : ServParam)
      → grants (4 * limit) ≡ true
      → grants (8 * limit) ≡ true
      → set_options p.serv_fd ≡ true
      → ltbℤ p.serv_fd (pos 0) ≡ false
      → (accept_and_init_clients accept set_options read_int grants p limit >>= λ q.
          close_server (some q))
        ≡ ok (sockets (units_from limit 0 fd_of cpus_of) ++ p.serv_fd ∷ [])
  unfolding accept_and_init_clients close_server serv_param_is_full
  accept-close p a b c d =
      rw
        (
          a,
          c,
          accept_clients-units limit 0 (omega arith),
          b,
          init_comp_units-units limit 0 (omega arith),
          d,
        )
        refl
