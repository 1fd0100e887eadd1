-- ===== src/Proxy/Relay/Transfer.antt =====
-- Proxy/LocalProxy.cpp: the output at any moment of a relay, and at its end.
use task_lunev.Base.{
  ℕ, ◌+◌, ◌≤◌, ◌≡◌, arith, refl, sym, ap, ◌∙◌, Bool, true, false, if◌then◌else◌, Option, none, some,
  List, [], ◌∷◌, ◌++◌, length, take, drop, append_assoc, append-nil, length-append, length-take,
  length-drop,
}
use task_lunev.Memory.{Bytes}
use task_lunev.Proxy.Relay.{
  Channel, Server, returned, hung_up, failed, State, read_in, client_splice, first_splice,
  write_last, sent_from, sent_to, Step, first_splices, announces, client_splices, learns,
  server_reads, server_reads_last, server_writes, ends, hangs_up, gives_up, fresh, start, Reachable,
  at_start, then_step,
}
use task_lunev.Proxy.Relay.Order.{
  content, in_flight, first_pipe, write_pieces-append, in_flight_one, in_flight_two, in_flight_last,
  content-read_in, content-client_splice, content-sent, content-write_last, content-first_splice,
  first_pipe_one, first_pipe_two,
}

abbrev pub or_else : Option ℕ → ℕ → ℕ
or_else none d = d
or_else (some n) d = n

abbrev pub has_returned : Server → Bool
has_returned returned = true
has_returned _ = false

-- The output, the bytes on their way and those that are not read are the file; what the first
-- client announces is its length.
pub record Inv (file : Bytes) (s : State) : Type 0 where
  pub whole : s.output ++ (in_flight s.channels ++ s.file_left) ≡ file
  pub own_pipe : first_pipe s.channels ≡ []
  pub counted : s.counter ≡ length s.output
  pub spliced : s.size_file + length s.file_left ≡ length file
  pub announced : or_else s.announced (length file) ≡ length file
  pub limited : or_else s.limit (length file) ≡ length file
  pub ended : (if has_returned s.server then length file else 0) ≤ s.counter

in_flight-fresh : (ns : List ℕ) → in_flight (fresh ns) ≡ []
in_flight-fresh [] = refl
in_flight-fresh (n ∷ ns) = ap (λ t. t ++ []) (in_flight-fresh ns)

first_pipe-fresh : (ns : List ℕ) → first_pipe (fresh ns) ≡ []
first_pipe-fresh [] = refl
first_pipe-fresh (n ∷ ns) = refl

start-Inv : (size : ℕ) (file : Bytes) (ns : List ℕ) → Inv file (start size file ns)
start-Inv size file ns = record {
  whole = rw (in_flight-fresh ns) refl;
  own_pipe = first_pipe-fresh ns;
  counted = refl;
  spliced = omega arith;
  announced = refl;
  limited = refl;
  ended = omega arith;
}

regroup : (o p c f l : Bytes) → (o ++ p) ++ ((c ++ f) ++ l) ≡ o ++ (((p ++ c) ++ f) ++ l)
regroup o p c f l = simp append_assoc refl

module _ {file : Bytes} {s : State} (i : Inv file s) where
  -- A step that moves bytes between the channels and touches nothing else.
  with_channels :
      (cs : List Channel)
      → in_flight cs ≡ in_flight s.channels
      → first_pipe cs ≡ first_pipe s.channels
      → Inv file (record s { channels = cs })
  with_channels cs e f = record {
    whole = ap (λ t. s.output ++ (t ++ s.file_left)) e ∙ i.whole;
    own_pipe = f ∙ i.own_pipe;
    counted = i.counted;
    spliced = i.spliced;
    announced = i.announced;
    limited = i.limited;
    ended = i.ended;
  }

  -- A step that changes what the server or the client knows.
  with_knowledge :
      (announced limit : Option ℕ) (server : Server)
      → or_else announced (length file) ≡ length file
      → or_else limit (length file) ≡ length file
      → (if has_returned server then length file else 0) ≤ s.counter
      → Inv file (record s { announced = announced; limit = limit; server = server })
  with_knowledge announced limit server a l e = record {
    whole = i.whole;
    own_pipe = i.own_pipe;
    counted = i.counted;
    spliced = i.spliced;
    announced = a;
    limited = l;
    ended = e;
  }

  first-Inv :
      (c : Channel) (cs : List Channel) (k : ℕ)
      → s.channels ≡ c ∷ cs
      → k ≤ length s.file_left
      → Inv file (record s {
        channels = first_splice k s.file_left c ∷ cs;
        file_left = drop k s.file_left;
        size_file = s.size_file + k;
      })
  first-Inv c cs k e lf =
      let own : c.to_client ≡ [] = ap first_pipe (sym e) ∙ i.own_pipe in
      record {
        whole =
            ap (λ t. s.output ++ t)
              (append_assoc (in_flight cs) (content (first_splice k s.file_left c))
                  (drop k s.file_left)
                ∙ ap (λ t. in_flight cs ++ t) (content-first_splice c s.file_left k own)
                ∙ sym (append_assoc (in_flight cs) (content c) s.file_left)
                ∙ ap (λ t. in_flight t ++ s.file_left) (sym e))
            ∙ i.whole;
        own_pipe = own;
        counted = i.counted;
        spliced = let h = i.spliced in let d = length-drop k s.file_left in omega arith;
        announced = i.announced;
        limited = i.limited;
        ended = i.ended;
      }

  last-Inv :
      (c : Channel) (front : List Channel) (k m : ℕ)
      → s.channels ≡ front ++ (c ∷ [])
      → c.pending ≡ []
      → k ≤ length c.from_client
      → m ≤ k
      → Inv file (record s {
        channels = front ++ (write_last m (read_in k c) ∷ []);
        output = s.output ++ take m (take k c.from_client);
        counter = s.counter + m;
      })
  last-Inv c front k m e p lf lm =
      let piece = take m (take k c.from_client) in
      let c' = write_last m (read_in k c) in
      let size : length piece ≡ m =
        length-take m (take k c.from_client)
          (let h = length-take k c.from_client lf in omega arith) in
      record {
        whole =
            ap (λ t. (s.output ++ piece) ++ (t ++ s.file_left)) (in_flight_last front c')
            ∙ regroup s.output piece (content c') (in_flight front) s.file_left
            ∙ ap (λ t. s.output ++ ((t ++ in_flight front) ++ s.file_left))
                (content-write_last (read_in k c) m ∙ content-read_in c k p)
            ∙ ap (λ t. s.output ++ (t ++ s.file_left))
                (sym (in_flight_last front c) ∙ ap in_flight (sym e))
            ∙ i.whole;
        own_pipe = first_pipe_one front [] c c' refl ∙ ap first_pipe (sym e) ∙ i.own_pipe;
        counted = let h = i.counted in let a = length-append s.output piece in omega arith;
        spliced = i.spliced;
        announced = i.announced;
        limited = i.limited;
        ended = let h = i.ended in omega arith;
      }

Step-Inv : {file : Bytes} {s t : State} → Inv file s → Step s t → Inv file t
Step-Inv {s} i (first_splices c cs k e le lf lr) = first-Inv i c cs k e lf
Step-Inv {s} i (announces e) =
    with_knowledge i (some s.size_file) s.limit s.server
      (let h = i.spliced in let z = ap length e in omega arith) i.limited i.ended
Step-Inv {s} i (client_splices c₀ c front back k e le lt lr) =
    with_channels i _
      (in_flight_one (c₀ ∷ front) back c (client_splice k c) (content-client_splice c k)
        ∙ sym (ap in_flight e))
      (sym (ap first_pipe e))
Step-Inv {file} {s} i (learns n r e) =
    with_knowledge i s.announced (some n) s.server i.announced
      (ap (λ o. or_else o (length file)) (sym e) ∙ i.announced) i.ended
Step-Inv {s} i (server_reads c d front back k r e p lc lf) =
    with_channels i _
      (in_flight_one front (d ∷ back) c (read_in k c) (content-read_in c k p)
        ∙ sym (ap in_flight e))
      (first_pipe_one front (d ∷ back) c (read_in k c) refl ∙ sym (ap first_pipe e))
Step-Inv {s} i (server_reads_last c front k m r e p lc lf lm) = last-Inv i c front k m e p lf lm
Step-Inv {s} i (server_writes c d front back answers sent left r e p w lr) =
    with_channels i _
      (in_flight_two front back c (sent_from left c) d (sent_to sent d)
          (content-sent c d sent left (write_pieces-append answers 16 c.pending sent left w))
        ∙ sym (ap in_flight e))
      (first_pipe_two front back c (sent_from left c) d (sent_to sent d) refl
        ∙ sym (ap first_pipe e))
Step-Inv {file} {s} i (ends n r e le) =
    with_knowledge i s.announced s.limit returned i.announced i.limited (
      let h : n ≡ length file = ap (λ o. or_else o (length file)) (sym e) ∙ i.limited in
      omega arith)
Step-Inv {s} i (hangs_up r) =
    with_knowledge i s.announced s.limit hung_up i.announced i.limited (omega arith)
Step-Inv {s} i (gives_up r) =
    with_knowledge i s.announced s.limit failed i.announced i.limited (omega arith)

pub bytes_in_order :
    {file : Bytes} {capacities : List ℕ} {s : State} → Reachable file capacities s → Inv file s
bytes_in_order (at_start size) = start-Inv size _ _
bytes_in_order (then_step r st) = Step-Inv (bytes_in_order r) st

-- Where the loop of SendFile has ended by its own test in a reachable state, the output is the
-- whole file, and nothing is left in a pipe, in a buffer or unread.
pub relay_complete :
    {file : Bytes} {capacities : List ℕ} {s : State}
    → Reachable file capacities s
    → s.server ≡ returned
    → (s.output ≡ file) × (in_flight s.channels ++ s.file_left ≡ [])
relay_complete {file} {s} r e =
    let i = bytes_in_order r in
    let rest = in_flight s.channels ++ s.file_left in
    let enough : length file ≤ s.counter = rw e at i.ended in
    let none_left : rest ≡ [] = empty rest (
      let c = i.counted in
      let w = ap length (sym i.whole) ∙ length-append s.output rest in omega arith) in
    (sym (append-nil s.output) ∙ ap (λ t. s.output ++ t) (sym none_left) ∙ i.whole, none_left)
  where
    empty : (xs : Bytes) → length xs ≡ 0 → xs ≡ []
    empty [] h = refl
    empty (x ∷ xs) h = absurd (omega arith)
