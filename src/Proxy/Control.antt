-- ===== src/Proxy/Control.antt =====
-- Proxy/LocalProxy.cpp: the parts of the server beside the relay: what it waits for, the name that
-- it sends, the flags of its descriptors and how it is closed.
use task_lunev.Base.{
  ℕ, ◌+◌, ◌==◌, Bool, true, false, not, if◌then◌else◌, Option, none, some, List, [], ◌∷◌, ◌++◌,
  bit_and,
}
use task_lunev.Base.{ℤ}
use task_lunev.Memory.{Reply, ok, fail, unset}

-- The events of each channel: `POLLOUT` for its client while the channel before it holds bytes,
-- and `POLLIN` while it holds none itself. `before` is `m_size` of the channel before, which for
-- the first one stands in front of the array.
unfoldable pub poll_events : (before : ℕ) → (sizes : List ℕ) → List (Bool × Bool)
poll_events before [] = []
poll_events before (size ∷ sizes) = (not (before == 0), size == 0) ∷ poll_events size sizes

-- The descriptors of a channel, and `ProxyServer` without the bytes; `none` is a null pointer.
pub record Ends : Type 0 where
  pub m_fd_write : ℤ
  pub m_fd_read : ℤ

pub record ProxyServer : Type 0 where
  pub m_channels : Option (List Ends)
  pub m_fd_add_client_server : ℤ
  pub m_total_size_buf : ℕ
  pub m_total_buffer : Option ℕ

unfoldable pub verifier_proxy : ProxyServer → Bool
verifier_proxy p = elim p.m_channels [ none ↦ false | some _ ↦ true ]

abbrev pub channel_ends : List Ends → List ℤ
channel_ends [] = []
channel_ends (e ∷ es) = e.m_fd_read ∷ e.m_fd_write ∷ channel_ends es

-- `CloseProxy`: the descriptors that it closes, in order, and the structure behind it.
unfoldable pub close_proxy : ProxyServer → List ℤ × ProxyServer
close_proxy p = (
  (elim p.m_total_buffer [
    | none ↦ []
    | some _ ↦ elim p.m_channels [ none ↦ [] | some es ↦ channel_ends es ]
  ])
      ++ (p.m_fd_add_client_server ∷ []),
  record p { m_channels = none; m_total_size_buf = 0; m_total_buffer = none },
)

-- The answer to the write of a name of this length: `CHECK_TRUE` wants it to differ from one more.
unfoldable pub send_path : ProxyServer → Option ℕ → ℕ → Reply (Unit {0})
send_path p answer strlen =
    if verifier_proxy p
    then elim answer [
      | none ↦ fail unset
      | some ret ↦ if ret == strlen + 1 then fail unset else ok tt
    ]
    else fail unset

-- `SetFlag` and `RemoveFlag`: the flags of the descriptor behind the call, which sets them to 0.
unfoldable pub set_flag : (granted : Bool) → Option ℕ → ℕ → Reply ℕ
set_flag granted none flag = fail unset
set_flag granted (some flags) flag =
    if bit_and flags flag == 0 then (if granted then ok 0 else fail unset) else ok flags

unfoldable pub remove_flag : (granted : Bool) → Option ℕ → ℕ → Reply ℕ
remove_flag granted none flag = fail unset
remove_flag granted (some flags) flag =
    if bit_and flags flag == 0 then ok flags else (if granted then ok 0 else fail unset)
