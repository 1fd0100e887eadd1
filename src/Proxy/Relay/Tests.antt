-- ===== src/Proxy/Relay/Tests.antt =====
-- A file of five bytes through one client and through two.
use task_lunev.Base.{ℕ, ◌≡◌, arith, refl, List, [], ◌∷◌, ◌++◌, ap, length, Option, none, some}
use task_lunev.Memory.{Bytes, ok}
use task_lunev.Proxy.Relay.{
  State, Channel, Server, running, returned, wrote, again, write_pieces, Step, first_splices,
  announces, learns, server_reads_last, ends, start, Reachable, at_start, then_step,
}
use task_lunev.Proxy.Relay.Order.{in_flight}
use task_lunev.Proxy.Relay.Transfer.{relay_complete}
use task_lunev.Proxy.Relay.Stall.{here, later, Stalled, Later-Stalled}

abbrev five : Bytes
five = 1 ∷ 2 ∷ 3 ∷ 4 ∷ 5 ∷ []

-- The pipe takes three bytes and is then full.
pieces : write_pieces (wrote 3 ∷ again ∷ []) 16 five ≡ some (ok (1 ∷ 2 ∷ 3 ∷ [], 4 ∷ 5 ∷ []))
unfolding write_pieces
pieces = refl

abbrev channel : Bytes → Bytes → Bytes → ℕ → Channel
channel to from pending n = record {
  to_client = to;
  from_client = from;
  pending = pending;
  m_capacity = n;
}

-- A state in which the first client has spliced the whole file.
abbrev spliced : List Channel → Bytes → ℕ → Option ℕ → Option ℕ → Server → State
spliced channels output counter announced limit server = record {
  pipe_size = 65536;
  file_left = [];
  size_file = 5;
  announced = announced;
  channels = channels;
  output = output;
  counter = counter;
  limit = limit;
  server = server;
}

-- Two clients: three bytes reach the second one, and two stay in the buffer before it.
abbrev halfway : State
halfway =
    spliced (channel [] [] (4 ∷ 5 ∷ []) 3000 ∷ channel (1 ∷ 2 ∷ 3 ∷ []) [] [] 3000 ∷ []) [] 0 none
      none running

abbrev in_pipe : List Channel → State
in_pipe rest = spliced (channel [] five [] 3000 ∷ rest) [] 0 none none running

abbrev in_buffer : State
in_buffer = spliced (channel [] [] five 3000 ∷ channel [] [] [] 3000 ∷ []) [] 0 none none running

-- One client, and an output that takes everything.
abbrev finished : State
finished = spliced (channel [] [] [] 3000 ∷ []) five 5 (some 5) (some 5) returned

abbrev all_out : State
all_out = spliced (channel [] [] [] 3000 ∷ []) five 5 none none running

finished-Reachable : Reachable five (3000 ∷ []) finished
finished-Reachable =
    let first : Step (start 65536 five (3000 ∷ [])) (in_pipe []) =
      first_splices _ _ 5 refl (omega arith) (omega arith) (omega arith) in
    let second : Step (in_pipe []) all_out =
      server_reads_last (channel [] five [] 3000) [] 5 5 refl refl refl (omega arith) (omega arith)
        (omega arith) in
    then_step
      (then_step (then_step (then_step (then_step (at_start 65536) first) second) (announces refl))
        (learns 5 refl refl))
      (ends 5 refl refl (omega arith))

relay_complete_example : (five ≡ five) × (in_flight finished.channels ++ [] ≡ [])
relay_complete_example = relay_complete finished-Reachable refl

-- The output takes two bytes of the five.
abbrev held : State
held = spliced (channel [] [] (3 ∷ 4 ∷ 5 ∷ []) 3000 ∷ []) (1 ∷ 2 ∷ []) 2 none none running

Later-Stalled_example : Stalled held (record held { announced = some 5 })
Later-Stalled_example =
    Later-Stalled (λ e. omega (arith, ap length e)) (later here (announces refl))
