-- ===== src/HpcNet/Sockets/Count.antt =====
-- HPC.Net/lib/hpc_net.c: how many descriptors are open behind `StartServer`.
use task_lunev.Base.{
  ℕ, zero, suc, ◌+◌, ◌==◌, ◌&&◌, ◌≡◌, arith, refl, sym, ap, ◌∙◌, Bool, Option, none, some, List, [],
  ◌∷◌, length, Bool-cases, inl, inr, le→ltb_false, pos, negsuc, ℤ,
}
use task_lunev.Memory.{Reply, ok, fail, fault}
use task_lunev.HpcNet.Port.{bind_free_port}
use task_lunev.HpcNet.Setup.{check_serv_attr, af_inet}
use task_lunev.HpcNet.Sockets.{
  World, Net, ◌>>=◌, gives, fails, close, or_close, call, opens, send_data_broadcast, bind_port,
  tcp_server_init, set_socket_keep_alive, set_in_socket_timeout, get_static_addr, accept_all,
  read_counts, accept_clients_net, serve, start_server,
}

abbrev pub if_ok : {A : Type 0} → Reply A → ℕ → ℕ → ℕ
if_ok (ok a) x y = x
if_ok _ x y = y

-- Where the call returns a value, so many descriptors are open.
pub record Opened {A : Type 0} (n : ℕ) (p : Reply A × World) : Type 0 where
  pub count : if_ok p.0 (length p.1.fds) n ≡ n

bind-Opened :
    {A B : Type 0} {n n' : ℕ} (m : Net A) (k : A → Net B) (w : World)
    → Opened n (m w)
    → ((a : A) (w' : World) → length w'.fds ≡ n → Opened n' (k a w'))
    → Opened n' ((m >>= k) w)
unfolding ◌>>=◌
bind-Opened {A} {B} {n} {n'} m k w h next = from (m w) h.count
  where
    from :
        (p : Reply A × World)
        → if_ok p.0 (length p.1.fds) n ≡ n
        → Opened {A = B} n'
            (elim p.0 [ ok a ↦ k a p.1 | fail e ↦ (fail e, p.1) | fault ↦ (fault, p.1) ])
    from (ok a, w') h = next a w' h
    from (fail e, w') h = record { count = refl }
    from (fault, w') h = record { count = refl }

or_close-Opened :
    {A : Type 0} {n : ℕ} (m : Net A) (fd : ℕ) (w : World)
    → Opened n (m w)
    → Opened n (or_close m fd w)
unfolding or_close close
or_close-Opened {A} {n} m fd w h = from (m w) h.count
  where
    from :
        (p : Reply A × World)
        → if_ok p.0 (length p.1.fds) n ≡ n
        → Opened {A = A} n (elim p.0 [
          | ok a ↦ (ok a, p.1)
          | fail e ↦ (fail e, (close fd p.1).1)
          | fault ↦ (fault, (close fd p.1).1)
        ])
    from (ok a, w') h = record { count = h }
    from (fail e, w') h = record { count = refl }
    from (fault, w') h = record { count = refl }

gives-Opened : {A : Type 0} {n : ℕ} (a : A) (w : World) → length w.fds ≡ n → Opened n (gives a w)
unfolding gives
gives-Opened a w h = record { count = h }

fails-Opened : {A : Type 0} {n : ℕ} (w : World) → Opened n (fails {A = A} w)
unfolding fails
fails-Opened w = record { count = refl }

module _ (works : ℕ → Bool) where
  call-Opened : (n : ℕ) (w : World) → length w.fds ≡ n → Opened n (call works w)
  unfolding call
  call-Opened n w h = elim (Bool-cases (works w.clock)) [
    | inl e ↦ record { count = rw e h }
    | inr e ↦ record { count = rw e refl }
  ]

  opens-Opened : (n : ℕ) (w : World) → length w.fds ≡ n → Opened (suc n) (opens works w)
  unfolding opens
  opens-Opened n w h = elim (Bool-cases (works w.clock)) [
    | inl e ↦ record { count = rw (opens, e) (ap suc h) }
    | inr e ↦ record { count = rw (opens, e) refl }
  ]

  get_static_addr-Opened :
      (interfaces : List (ℕ × ℕ × Bool)) (if_name family n : ℕ) (w : World)
      → length w.fds ≡ n
      → Opened n (get_static_addr works interfaces if_name family w)
  unfolding get_static_addr
  get_static_addr-Opened [] if_name family n w h = fails-Opened w
  get_static_addr-Opened ((name, fam, has_addr) ∷ rest) if_name family n w h =
      elim (Bool-cases (has_addr && (name == if_name) && (fam == family))) [
        | inl e ↦ rw e (call-Opened n w h)
        | inr e ↦ rw e (get_static_addr-Opened rest if_name family n w h)
      ]

  bind_port-Opened :
      (bind : ℕ → Bool) (n : ℕ) (w : World) → length w.fds ≡ n → Opened n (bind_port works bind w)
  unfolding bind_port
  bind_port-Opened bind n w h = from (bind_free_port bind 1025 64000 65536)
    where
      from :
          (o : Option ℤ)
          → Opened n (
              (elim o as (λ x. Net (Unit {0})) [
                | some (pos port) ↦ gives tt
                | some (negsuc _) ↦ fails
                | none ↦ fails
              ])
                w)
      from none = fails-Opened w
      from (some (pos port)) = gives-Opened tt w h
      from (some (negsuc _)) = fails-Opened w

  send_data_broadcast-Opened :
      (n : ℕ) (w : World) → length w.fds ≡ n → Opened (suc n) (send_data_broadcast works w)
  unfolding send_data_broadcast
  send_data_broadcast-Opened n w h = bind-Opened (opens works) _ w (opens-Opened n w h) (λ fd w₁ e₁.
      bind-Opened (or_close (call works) fd) _ w₁
        (or_close-Opened (call works) fd w₁ (call-Opened (suc n) w₁ e₁))
        (λ _ w₂ e₂. or_close-Opened (call works) fd w₂ (call-Opened (suc n) w₂ e₂)))

  tcp_server_init-Opened :
      (bind : ℕ → Bool) (n : ℕ) (w : World)
      → length w.fds ≡ n
      → Opened (suc n) (tcp_server_init works bind w)
  unfolding tcp_server_init
  tcp_server_init-Opened bind n w h =
      bind-Opened (opens works) _ w (opens-Opened n w h) (λ fd w₁ e₁.
        bind-Opened (call works) _ w₁ (call-Opened (suc n) w₁ e₁) (λ _ w₂ e₂.
          bind-Opened (or_close (bind_port works bind) fd) _ w₂
            (or_close-Opened (bind_port works bind) fd w₂ (bind_port-Opened bind (suc n) w₂ e₂))
            (λ _ w₃ e₃.
              bind-Opened (or_close (call works) fd) _ w₃
                (or_close-Opened (call works) fd w₃ (call-Opened (suc n) w₃ e₃))
                (λ _ w₄ e₄. gives-Opened fd w₄ e₄))))

  set_in_socket_timeout-Opened :
      (n : ℕ) (w : World) → length w.fds ≡ n → Opened n (set_in_socket_timeout works w)
  unfolding set_in_socket_timeout
  set_in_socket_timeout-Opened n w h =
      bind-Opened (call works) _ w (call-Opened n w h) (λ _ w₁ e₁. call-Opened n w₁ e₁)

  set_socket_keep_alive-Opened :
      (n : ℕ) (w : World) → length w.fds ≡ n → Opened n (set_socket_keep_alive works w)
  unfolding set_socket_keep_alive
  set_socket_keep_alive-Opened n w h = bind-Opened (call works) _ w (call-Opened n w h) (λ _ w₁ e₁.
      bind-Opened (call works) _ w₁ (call-Opened n w₁ e₁) (λ _ w₂ e₂.
        bind-Opened (call works) _ w₂ (call-Opened n w₂ e₂) (λ _ w₃ e₃. call-Opened n w₃ e₃)))

  accept_all-Opened :
      (left n m : ℕ) (w : World)
      → left + n ≡ m
      → length w.fds ≡ n
      → Opened m (accept_all works left w)
  unfolding accept_all
  accept_all-Opened zero n m w sum h = gives-Opened [] w (omega arith)
  accept_all-Opened (suc left) n m w sum h =
      bind-Opened (opens works) _ w (opens-Opened n w h) (λ fd w₁ e₁.
        bind-Opened (set_in_socket_timeout works) _ w₁ (set_in_socket_timeout-Opened (suc n) w₁ e₁)
          (λ _ w₂ e₂.
            bind-Opened (set_socket_keep_alive works) _ w₂
              (set_socket_keep_alive-Opened (suc n) w₂ e₂)
              (λ _ w₃ e₃.
                bind-Opened (accept_all works left) _ w₃
                  (accept_all-Opened left (suc n) m w₃ (omega arith) e₃)
                  (λ fds w₄ e₄. gives-Opened (fd ∷ fds) w₄ e₄))))

  read_counts-Opened :
      (fds : List ℕ) (n : ℕ) (w : World) → length w.fds ≡ n → Opened n (read_counts works fds w)
  unfolding read_counts
  read_counts-Opened [] n w h = gives-Opened tt w h
  read_counts-Opened (fd ∷ fds) n w h =
      bind-Opened (call works) _ w (call-Opened n w h) (λ _ w₁ e₁. read_counts-Opened fds n w₁ e₁)

  accept_clients_net-Opened :
      (limit n m : ℕ) (w : World)
      → limit + n ≡ m
      → length w.fds ≡ n
      → Opened m (accept_clients_net works limit w)
  unfolding accept_clients_net
  accept_clients_net-Opened limit n m w sum h =
      bind-Opened (call works) _ w (call-Opened n w h) (λ _ w₁ e₁.
        bind-Opened (set_in_socket_timeout works) _ w₁ (set_in_socket_timeout-Opened n w₁ e₁)
          (λ _ w₂ e₂.
            bind-Opened (accept_all works limit) _ w₂ (accept_all-Opened limit n m w₂ sum e₂)
              (λ fds w₃ e₃.
                bind-Opened (set_in_socket_timeout works) _ w₃
                  (set_in_socket_timeout-Opened m w₃ e₃)
                  (λ _ w₄ e₄.
                    bind-Opened (call works) _ w₄ (call-Opened m w₄ e₄)
                      (λ _ w₅ e₅. read_counts-Opened fds m w₅ e₅)))))

  serve-Opened :
      (bind : ℕ → Bool) (interfaces : List (ℕ × ℕ × Bool)) (if_name family limit : ℕ) (w : World)
      → Opened (limit + 2 + length w.fds) (serve works bind interfaces if_name family limit w)
  unfolding serve
  serve-Opened bind interfaces if_name family limit w =
      let n = length w.fds in
      bind-Opened (call works) _ w (call-Opened n w refl) (λ _ w₁ e₁.
        bind-Opened (get_static_addr works interfaces if_name family) _ w₁
          (get_static_addr-Opened interfaces if_name family n w₁ e₁)
          (λ _ w₂ e₂.
            bind-Opened (tcp_server_init works bind) _ w₂ (tcp_server_init-Opened bind n w₂ e₂)
              (λ fd w₃ e₃.
                bind-Opened (or_close (send_data_broadcast works) fd) _ w₃
                  (or_close-Opened (send_data_broadcast works) fd w₃
                    (send_data_broadcast-Opened (suc n) w₃ e₃))
                  (λ _ w₄ e₄.
                    bind-Opened (or_close (accept_clients_net works limit) fd) _ w₄
                      (or_close-Opened (accept_clients_net works limit) fd w₄ (
                        accept_clients_net-Opened limit (suc (suc n)) (limit + 2 + n) w₄
                          (omega arith) e₄))
                      (λ _ w₅ e₅. gives-Opened fd w₅ e₅)))))

  -- Where StartServer succeeds for a limit of clients, so many descriptors more are open and two
  -- besides: that of the server, and the socket of the broadcast, which nothing closes.
  pub start_server-length :
      (bind : ℕ → Bool) (interfaces : List (ℕ × ℕ × Bool)) (if_name limit fd : ℕ) (w w' : World)
      → start_server works bind interfaces
          (record { clients_limit = pos limit; if_name = some if_name; sa_family = af_inet })
          w
        ≡ (ok fd, w')
      → length w'.fds ≡ limit + 2 + length w.fds
  unfolding start_server check_serv_attr
  start_server-length bind interfaces if_name limit fd w w' h =
      let served : serve works bind interfaces if_name af_inet limit w ≡ (ok fd, w') =
        rw (start_server, check_serv_attr, le→ltb_false limit 0 (omega arith)) at h in
      let counted = (serve-Opened bind interfaces if_name af_inet limit w).count in
      sym
        (ap (λ (p : Reply ℕ × World). if_ok p.0 (length p.1.fds) (limit + 2 + length w.fds)) served)
      ∙ counted
