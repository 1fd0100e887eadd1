-- ===== src/Proxy/Relay.antt =====
-- Proxy/LocalProxy.cpp: a file on its way from the first client through every client and every
-- buffer of the server to the output. `SendFile` and the clients run side by side; each step is one
-- `splice` of a client or the work of the server for one ready descriptor.
pub mod Order
pub mod Transfer
pub mod Stall
mod Tests
use task_lunev.Base.{
  ℕ, zero, suc, ◌+◌, ◌*◌, ◌≤◌, ◌<◌, ◌≡◌, ◌≢◌, Bool, true, false, if◌then◌else◌, ltb, leb, Option,
  none, some, List, [], ◌∷◌, ◌++◌, length, take, drop,
}
use task_lunev.Memory.{Bytes, Reply, ok, fail, fault, unset}

-- `ProxyChannel` with the pipes to and from its client. `pending` are the `m_size` bytes from
-- `m_curPos` on.
pub record Channel : Type 0 where
  pub to_client : Bytes
  pub from_client : Bytes
  pub pending : Bytes
  pub m_capacity : ℕ

-- Where `SendFile` is: in its loop, behind the `return 0` below it, behind the `return 0` for a
-- `POLLHUP`, or behind an error.
pub data Server : Type 0 where
  running returned hung_up failed : Server

-- `size_file` is the variable of the first client, and `announced` what it has written to
-- `m_fdAddClientServer`; `limit` is the `sizeFile` of the server, `none` for `LONG_MAX`. A pipe
-- holds at most `pipe_size` bytes.
pub record State : Type 0 where
  pub pipe_size : ℕ
  pub file_left : Bytes
  pub size_file : ℕ
  pub announced : Option ℕ
  pub channels : List Channel
  pub output : Bytes
  pub counter : ℕ
  pub limit : Option ℕ
  pub server : Server

-- What `write` answers: a number of bytes, `EAGAIN`, or another error.
pub data Answer : Type 0 where
  wrote : ℕ → Answer
  again error : Answer

-- The loop that writes by at most `len` bytes: the bytes that were taken and those that are left;
-- `none` where it has not ended with the last of these answers. `write` takes no more than it is
-- given.
unfoldable pub write_pieces : List Answer → ℕ → Bytes → Option (Reply (Bytes × Bytes))
write_pieces answers len [] = some (ok ([], []))
write_pieces [] len (b ∷ bs) = none
write_pieces (again ∷ answers) len (b ∷ bs) = some (ok ([], b ∷ bs))
write_pieces (error ∷ answers) len (b ∷ bs) = some (fail unset)
write_pieces (wrote k ∷ answers) len (b ∷ bs) =
    let buf = b ∷ bs in
    let len' = if ltb (length buf) len then length buf else len in
    let k' = if ltb len' k then len' else k in
    elim (write_pieces answers len' (drop k' buf)) [
      | none ↦ none
      | some (ok (sent, left)) ↦ some (ok (take k' buf ++ sent, left))
      | some (fail e) ↦ some (fail e)
      | some fault ↦ some fault
    ]

-- `read` of a channel whose buffer is empty.
abbrev pub read_in : ℕ → Channel → Channel
read_in k c = record c { from_client = drop k c.from_client; pending = take k c.from_client }

-- `splice` in a client.
abbrev pub client_splice : ℕ → Channel → Channel
client_splice k c = record c {
  to_client = drop k c.to_client;
  from_client = c.from_client ++ take k c.to_client;
}

abbrev pub first_splice : ℕ → Bytes → Channel → Channel
first_splice k file c = record c { from_client = c.from_client ++ take k file }

-- The last channel writes `m` of the bytes that it has read to the output.
abbrev pub write_last : ℕ → Channel → Channel
write_last m c = record c { pending = drop m c.pending }

abbrev pub sent_from : Bytes → Channel → Channel
sent_from left c = record c { pending = left }

abbrev pub sent_to : Bytes → Channel → Channel
sent_to sent d = record d { to_client = d.to_client ++ sent }

-- Which channel works: the one behind `front`. What goes into a pipe finds room there: without room
-- a client waits, or gets `EAGAIN`, ends, and takes no further step; and `POLLOUT` is not set.
pub data Step (s : State) : State → Type 0 where
  first_splices :
      (c : Channel) (cs : List Channel) (k : ℕ)
      → s.channels ≡ c ∷ cs
      → k ≤ 1280
      → k ≤ length s.file_left
      → length c.from_client + k ≤ s.pipe_size
      → Step s (record s {
        channels = first_splice k s.file_left c ∷ cs;
        file_left = drop k s.file_left;
        size_file = s.size_file + k;
      })
  announces : s.file_left ≡ [] → Step s (record s { announced = some s.size_file })
  client_splices :
      (c₀ c : Channel) (front back : List Channel) (k : ℕ)
      → s.channels ≡ c₀ ∷ (front ++ (c ∷ back))
      → k ≤ 1024 * 16
      → k ≤ length c.to_client
      → length c.from_client + k ≤ s.pipe_size
      → Step s (record s { channels = c₀ ∷ (front ++ (client_splice k c ∷ back)) })
  learns :
      (n : ℕ) → s.server ≡ running → s.announced ≡ some n → Step s (record s { limit = some n })
  server_reads :
      (c d : Channel) (front back : List Channel) (k : ℕ)
      → s.server ≡ running
      → s.channels ≡ front ++ (c ∷ d ∷ back)
      → c.pending ≡ []
      → k ≤ c.m_capacity
      → k ≤ length c.from_client
      → Step s (record s { channels = front ++ (read_in k c ∷ d ∷ back) })
  server_reads_last :
      (c : Channel) (front : List Channel) (k m : ℕ)
      → s.server ≡ running
      → s.channels ≡ front ++ (c ∷ [])
      → c.pending ≡ []
      → k ≤ c.m_capacity
      → k ≤ length c.from_client
      → m ≤ k
      → Step s (record s {
        channels = front ++ (write_last m (read_in k c) ∷ []);
        output = s.output ++ take m (take k c.from_client);
        counter = s.counter + m;
      })
  server_writes :
      (c d : Channel) (front back : List Channel) (answers : List Answer) (sent left : Bytes)
      → s.server ≡ running
      → s.channels ≡ front ++ (c ∷ d ∷ back)
      → c.pending ≢ []
      → write_pieces answers 16 c.pending ≡ some (ok (sent, left))
      → length d.to_client + length sent ≤ s.pipe_size
      → Step s (record s { channels = front ++ (sent_from left c ∷ sent_to sent d ∷ back) })
  ends :
      (n : ℕ)
      → s.server ≡ running
      → s.limit ≡ some n
      → n ≤ s.counter
      → Step s (record s { server = returned })
  hangs_up : s.server ≡ running → Step s (record s { server = hung_up })
  gives_up : s.server ≡ running → Step s (record s { server = failed })

-- `StartProxy` and `SendFile` in front of its loop, with buffers of these capacities.
abbrev pub fresh : List ℕ → List Channel
fresh [] = []
fresh (n ∷ ns) =
    record { to_client = []; from_client = []; pending = []; m_capacity = n } ∷ fresh ns

abbrev pub start : ℕ → Bytes → List ℕ → State
start pipe_size file capacities = record {
  pipe_size = pipe_size;
  file_left = file;
  size_file = 0;
  announced = none;
  channels = fresh capacities;
  output = [];
  counter = 0;
  limit = none;
  server = running;
}

pub data Reachable (file : Bytes) (capacities : List ℕ) : State → Type 0 where
  at_start : (pipe_size : ℕ) → Reachable file capacities (start pipe_size file capacities)
  then_step : {s t : State} → Reachable file capacities s → Step s t → Reachable file capacities t
