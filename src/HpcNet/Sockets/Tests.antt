-- ===== src/HpcNet/Sockets/Tests.antt =====
-- A client and a server with two clients, where every call succeeds or the last one fails.
use task_lunev.Base.{◌+◌, ◌≡◌, refl, true, ltb, [], ◌∷◌, length}
use task_lunev.Memory.{fail, unset}
use task_lunev.HpcNet.Port.{bind_free_port, bind_loop}
use task_lunev.HpcNet.Setup.{check_serv_attr, af_inet}
use task_lunev.HpcNet.Sockets.{
  World, ◌>>=◌, gives, close, or_close, call, opens, send_data_broadcast, recv_data_broadcast,
  tcp_client_init, bind_port, tcp_server_init, set_socket_keep_alive, set_in_socket_timeout,
  get_static_addr, accept_all, read_counts, accept_clients_net, serve, start_server, start_client,
}
use task_lunev.HpcNet.Sockets.Leaks.{Leaves, start_client-Leaves}
use task_lunev.HpcNet.Sockets.Count.{start_server-length}

abbrev calm : World
calm = record { fds = []; next = 3; clock = 0 }

-- The last option of the client's socket is refused.
refused : start_client (λ i. ltb i 8) calm ≡ (fail unset, record { fds = []; next = 5; clock = 9 })
unfolding start_client recv_data_broadcast tcp_client_init set_socket_keep_alive ◌>>=◌ gives close
    or_close call opens
refused = refl

start_client-Leaves_example : Leaves (λ fd. fd ∷ []) [] (start_client (λ i. ltb i 8) calm)
start_client-Leaves_example = start_client-Leaves (λ i. ltb i 8) calm

-- One interface, with the name 7; the descriptors of the server, the broadcast and two clients.
abbrev served : World
served = record { fds = 6 ∷ 5 ∷ 4 ∷ 3 ∷ []; next = 7; clock = 30 }

start_server-length_example : length served.fds ≡ 2 + 2 + 0
unfolding start_server check_serv_attr serve get_static_addr tcp_server_init bind_port
    bind_free_port bind_loop send_data_broadcast accept_clients_net accept_all read_counts
    set_in_socket_timeout set_socket_keep_alive ◌>>=◌ gives close or_close call opens
start_server-length_example =
    start_server-length (λ i. true) (λ port. true) ((7, af_inet, true) ∷ []) 7 2 3 calm served refl
