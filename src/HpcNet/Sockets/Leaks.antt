-- ===== src/HpcNet/Sockets/Leaks.antt =====
-- HPC.Net/lib/hpc_net.c: which descriptors are open behind the calls of the client.
use task_lunev.Base.{ℕ, ◌≡◌, refl, ap, ◌∙◌, Bool, eq→==, List, ◌∷◌, Bool-cases, inl, inr}
use task_lunev.Memory.{Reply, ok, fail, fault}
use task_lunev.HpcNet.Sockets.{
  World, Net, ◌>>=◌, gives, remove, close, or_close, call, opens, recv_data_broadcast,
  tcp_client_init, set_socket_keep_alive, start_client,
}

-- The descriptors that are open behind a call that returns a value, and behind one that fails.
abbrev pub left_open : {A : Type 0} → (A → List ℕ) → List ℕ → Reply A → List ℕ
left_open good bad (ok a) = good a
left_open good bad (fail e) = bad
left_open good bad fault = bad

pub record Leaves {A : Type 0} (good : A → List ℕ) (bad : List ℕ) (p : Reply A × World)
    : Type 0 where
  pub open_fds : p.1.fds ≡ left_open good bad p.0

remove_first : (fd : ℕ) (fds : List ℕ) → remove fd (fd ∷ fds) ≡ fds
remove_first fd fds = rw (eq→== fd fd refl) refl

bind-Leaves :
    {A B : Type 0} {good : A → List ℕ} {good' : B → List ℕ} {bad : List ℕ} (m : Net A)
    (k : A → Net B) (w : World)
    → Leaves good bad (m w)
    → ((a : A) (w' : World) → w'.fds ≡ good a → Leaves good' bad (k a w'))
    → Leaves good' bad ((m >>= k) w)
unfolding ◌>>=◌
bind-Leaves {A} {B} {good} {good'} {bad} m k w h next = from (m w) h.open_fds
  where
    from :
        (p : Reply A × World)
        → p.1.fds ≡ left_open good bad p.0
        → Leaves good' bad
            (elim p.0 [ ok a ↦ k a p.1 | fail e ↦ (fail e, p.1) | fault ↦ (fault, p.1) ])
    from (ok a, w') h = next a w' h
    from (fail e, w') h = record { open_fds = h }
    from (fault, w') h = record { open_fds = h }

or_close-Leaves :
    {A : Type 0} {good : A → List ℕ} {fds : List ℕ} (m : Net A) (fd : ℕ) (w : World)
    → Leaves good (fd ∷ fds) (m w)
    → Leaves good fds (or_close m fd w)
unfolding or_close close
or_close-Leaves {A} {good} {fds} m fd w h = from (m w) h.open_fds
  where
    from :
        (p : Reply A × World)
        → p.1.fds ≡ left_open good (fd ∷ fds) p.0
        → Leaves good fds (elim p.0 [
          | ok a ↦ (ok a, p.1)
          | fail e ↦ (fail e, (close fd p.1).1)
          | fault ↦ (fault, (close fd p.1).1)
        ])
    from (ok a, w') h = record { open_fds = h }
    from (fail e, w') h = record { open_fds = ap (remove fd) h ∙ remove_first fd fds }
    from (fault, w') h = record { open_fds = ap (remove fd) h ∙ remove_first fd fds }

call-Leaves :
    (works : ℕ → Bool) (fds : List ℕ) (w : World)
    → w.fds ≡ fds
    → Leaves (λ _. fds) fds (call works w)
unfolding call
call-Leaves works fds w h = elim (Bool-cases (works w.clock)) [
  | inl e ↦ record { open_fds = rw e h }
  | inr e ↦ record { open_fds = rw e h }
]

opens-Leaves :
    (works : ℕ → Bool) (fds : List ℕ) (w : World)
    → w.fds ≡ fds
    → Leaves (λ fd. fd ∷ fds) fds (opens works w)
unfolding opens
opens-Leaves works fds w h = elim (Bool-cases (works w.clock)) [
  | inl e ↦ record { open_fds = rw (opens, e) (ap (λ t. w.next ∷ t) h) }
  | inr e ↦ record { open_fds = rw (opens, e) h }
]

module _ (works : ℕ → Bool) where
  -- A call behind which the socket `fd` is closed where it fails.
  guarded :
      (fd : ℕ) (fds : List ℕ) (w : World)
      → w.fds ≡ fd ∷ fds
      → Leaves (λ _. fd ∷ fds) fds (or_close (call works) fd w)
  guarded fd fds w h = or_close-Leaves (call works) fd w (call-Leaves works (fd ∷ fds) w h)

  recv_data_broadcast-Leaves : (w : World) → Leaves (λ _. w.fds) w.fds (recv_data_broadcast works w)
  unfolding recv_data_broadcast close
  recv_data_broadcast-Leaves w =
      bind-Leaves (opens works) _ w (opens-Leaves works w.fds w refl) (λ fd w₁ e₁.
        bind-Leaves (or_close (call works) fd) _ w₁ (guarded fd w.fds w₁ e₁) (λ _ w₂ e₂.
          bind-Leaves (or_close (call works) fd) _ w₂ (guarded fd w.fds w₂ e₂)
            (λ _ w₃ e₃. record { open_fds = ap (remove fd) e₃ ∙ remove_first fd w.fds })))

  tcp_client_init-Leaves :
      (fds : List ℕ) (w : World)
      → w.fds ≡ fds
      → Leaves (λ fd. fd ∷ fds) fds (tcp_client_init works w)
  unfolding tcp_client_init gives
  tcp_client_init-Leaves fds w h =
      bind-Leaves (opens works) _ w (opens-Leaves works fds w h) (λ fd w₁ e₁.
        bind-Leaves (or_close (call works) fd) _ w₁ (guarded fd fds w₁ e₁)
          (λ _ w₂ e₂. record { open_fds = e₂ }))

  set_socket_keep_alive-Leaves :
      (fds : List ℕ) (w : World)
      → w.fds ≡ fds
      → Leaves (λ _. fds) fds (set_socket_keep_alive works w)
  unfolding set_socket_keep_alive
  set_socket_keep_alive-Leaves fds w h =
      bind-Leaves (call works) _ w (call-Leaves works fds w h) (λ _ w₁ e₁.
        bind-Leaves (call works) _ w₁ (call-Leaves works fds w₁ e₁) (λ _ w₂ e₂.
          bind-Leaves (call works) _ w₂ (call-Leaves works fds w₂ e₂)
            (λ _ w₃ e₃. call-Leaves works fds w₃ e₃)))

  -- Whichever calls of the system succeed, behind StartClient the descriptors that were open are
  -- open as before, with the one that it returns in front where it succeeds, and no other where it
  -- fails.
  pub start_client-Leaves : (w : World) → Leaves (λ fd. fd ∷ w.fds) w.fds (start_client works w)
  unfolding start_client gives
  start_client-Leaves w =
      bind-Leaves (recv_data_broadcast works) _ w (recv_data_broadcast-Leaves w) (λ _ w₁ e₁.
        bind-Leaves (tcp_client_init works) _ w₁ (tcp_client_init-Leaves w.fds w₁ e₁) (λ fd w₂ e₂.
          bind-Leaves (or_close (set_socket_keep_alive works) fd) _ w₂
            (or_close-Leaves (set_socket_keep_alive works) fd w₂
              (set_socket_keep_alive-Leaves (fd ∷ w.fds) w₂ e₂))
            (λ _ w₃ e₃. record { open_fds = e₃ })))
