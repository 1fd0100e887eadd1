-- ===== src/HpcNet/Sockets.antt =====
-- HPC.Net/lib/hpc_net.c: how the sockets are set up, with the descriptors that are open as the
-- state of the system. The clock counts the calls of the system, and `works` says of each whether
-- it succeeds.

pub mod Leaks
pub mod Count
mod Tests
use task_lunev.Base.{
  ℕ, zero, suc, ◌+◌, ◌==◌, Bool, true, false, not, ◌&&◌, if◌then◌else◌, Option, none, some, List,
  [], ◌∷◌, ◌++◌, ℤ, pos, negsuc,
}
use task_lunev.Memory.{Reply, ok, fail, fault, Errno, unset}
use task_lunev.HpcNet.Port.{bind_free_port}
use task_lunev.HpcNet.Setup.{ServAttr, check_serv_attr, af_inet}

-- The open descriptors, the next one, and the number of calls so far.
pub record World : Type 0 where
  pub fds : List ℕ
  pub next : ℕ
  pub clock : ℕ

abbrev pub Net : Type 0 → Type 0
Net A = World → Reply A × World

infixl 5 ◌>>=◌
unfoldable pub ◌>>=◌ : {A B : Type 0} → Net A → (A → Net B) → Net B
◌>>=◌ m k w =
    let (r, w') = m w in elim r [ ok a ↦ k a w' | fail e ↦ (fail e, w') | fault ↦ (fault, w') ]

unfoldable pub gives : {A : Type 0} → A → Net A
gives a w = (ok a, w)

unfoldable pub fails : {A : Type 0} → Net A
fails w = (fail unset, w)

abbrev pub remove : ℕ → List ℕ → List ℕ
remove fd [] = []
remove fd (x ∷ xs) = if fd == x then xs else x ∷ remove fd xs

-- `close`
unfoldable pub close : ℕ → Net (Unit {0})
close fd w = (ok tt, record w { fds = remove fd w.fds })

-- `CHECK_ERR (m, close (fd))`
unfoldable pub or_close : {A : Type 0} → Net A → ℕ → Net A
or_close m fd w =
    let (r, w') = m w in
    elim r [
      | ok a ↦ (ok a, w')
      | fail e ↦ (fail e, (close fd w').1)
      | fault ↦ (fault, (close fd w').1)
    ]

module _ (works : ℕ → Bool) where
  -- A call that opens nothing, and one that opens a descriptor.
  unfoldable pub call : Net (Unit {0})
  call w = (if works w.clock then ok tt else fail unset, record w { clock = w.clock + 1 })

  unfoldable pub opens : Net ℕ
  opens w =
      if works w.clock
      then (ok w.next, record { fds = w.next ∷ w.fds; next = w.next + 1; clock = w.clock + 1 })
      else (fail unset, record w { clock = w.clock + 1 })

  unfoldable pub broadcast_unit_init : Net ℕ
  broadcast_unit_init = opens >>= λ servfd. or_close call servfd >>= λ _. gives servfd

  unfoldable pub send_data_broadcast : Net (Unit {0})
  send_data_broadcast = opens >>= λ sockfd. or_close call sockfd >>= λ _. or_close call sockfd

  unfoldable pub recv_data_broadcast : Net (Unit {0})
  recv_data_broadcast =
      opens >>= λ sockfd. or_close call sockfd >>= λ _. or_close call sockfd >>= λ _. close sockfd

  -- `hpcnetBroadcastClientInit` does the same as the server's.
  unfoldable pub broadcast_client_init : Net ℕ
  broadcast_client_init = opens >>= λ servfd. or_close call servfd >>= λ _. gives servfd

  -- `_bindFreePort`, where `bind` says which ports are granted.
  unfoldable pub bind_port : (ℕ → Bool) → Net (Unit {0})
  bind_port bind = elim (bind_free_port bind 1025 64000 65536) [
    | some (pos port) ↦ gives tt
    | some (negsuc _) ↦ fails
    | none ↦ fails
  ]

  -- Where `inet_pton` fails the socket stays open.
  unfoldable pub tcp_server_init : (ℕ → Bool) → Net ℕ
  tcp_server_init bind = opens >>= λ servfd. call >>= λ _.
      or_close (bind_port bind) servfd >>= λ _. or_close call servfd >>= λ _. gives servfd

  unfoldable pub tcp_client_init : Net ℕ
  tcp_client_init = opens >>= λ clifd. or_close call clifd >>= λ _. gives clifd

  unfoldable pub set_socket_keep_alive : Net (Unit {0})
  set_socket_keep_alive = call >>= λ _. call >>= λ _. call >>= λ _. call

  unfoldable pub set_in_socket_timeout : Net (Unit {0})
  set_in_socket_timeout = call >>= λ _. call

  unfoldable pub start_client : Net ℕ
  start_client = recv_data_broadcast >>= λ _. tcp_client_init >>= λ tcpcli_fd.
      or_close set_socket_keep_alive tcpcli_fd >>= λ _. gives tcpcli_fd

  -- The loop of `GetStaticAddr` over the interfaces, each with its name, its family and whether it
  -- has an address; the one that is found is looked up.
  unfoldable pub get_static_addr : List (ℕ × ℕ × Bool) → ℕ → ℕ → Net (Unit {0})
  get_static_addr [] if_name family = fails
  get_static_addr ((name, fam, has_addr) ∷ rest) if_name family =
      let later = get_static_addr rest if_name family in
      if has_addr && (name == if_name) && (fam == family) then call else later

  -- The loop of `AcceptAndInitClients`, with `left` clients to go.
  unfoldable pub accept_all : ℕ → Net (List ℕ)
  accept_all zero = gives []
  accept_all (suc left) =
      let rest = accept_all left in
      opens >>= λ fd.
      set_in_socket_timeout >>= λ _. set_socket_keep_alive >>= λ _. rest >>= λ fds. gives (fd ∷ fds)

  -- `InitCompUnits`: one `readn` for each client.
  unfoldable pub read_counts : List ℕ → Net (Unit {0})
  read_counts [] = gives tt
  read_counts (fd ∷ fds) = call >>= λ _. read_counts fds

  -- `AcceptAndInitClients` with its two allocations as calls.
  unfoldable pub accept_clients_net : ℕ → Net (Unit {0})
  accept_clients_net limit = call >>= λ _. set_in_socket_timeout >>= λ _.
      accept_all limit >>= λ fds. set_in_socket_timeout >>= λ _. call >>= λ _. read_counts fds

  -- `StartServer` behind the check of its attributes.
  unfoldable pub serve : (ℕ → Bool) → List (ℕ × ℕ × Bool) → (if_name family limit : ℕ) → Net ℕ
  serve bind interfaces if_name family limit = call >>= λ _.
      get_static_addr interfaces if_name family >>= λ _. tcp_server_init bind >>= λ tcpserv_fd.
      or_close send_data_broadcast tcpserv_fd >>= λ _.
      or_close (accept_clients_net limit) tcpserv_fd >>= λ _. gives tcpserv_fd

  unfoldable pub start_server : (ℕ → Bool) → List (ℕ × ℕ × Bool) → ServAttr → Net ℕ
  start_server bind interfaces attr = elim (check_serv_attr attr) [
    | fail e ↦ fails
    | fault ↦ fails
    | ok attr' ↦ elim attr'.if_name [
      | none ↦ fails
      | some if_name ↦ elim attr'.clients_limit [
        | negsuc _ ↦ fails
        | pos limit ↦ serve bind interfaces if_name attr'.sa_family limit
      ]
    ]
  ]
