-- ===== src/Proxy/Relay/Stall.antt =====
-- Proxy/LocalProxy.cpp: an output that takes less than the last channel has read.
use task_lunev.Base.{◌≡◌, ◌≢◌, refl, sym, ap, ◌∙◌, List, [], ◌∷◌, ◌++◌}
use task_lunev.Memory.{Bytes}
use task_lunev.Proxy.Relay.{
  Channel, State, client_splice, first_splice, read_in, sent_from, sent_to, Step, first_splices,
  announces, client_splices, learns, server_reads, server_reads_last, server_writes, ends, hangs_up,
  gives_up,
}

-- What the last channel holds.
abbrev pub last_pending : List Channel → Bytes
last_pending [] = []
last_pending (c ∷ []) = c.pending
last_pending (c ∷ d ∷ cs) = last_pending (d ∷ cs)

last_pending-append :
    (front : List Channel) (c : Channel) (cs : List Channel)
    → last_pending (front ++ (c ∷ cs)) ≡ last_pending (c ∷ cs)
last_pending-append [] c cs = refl
last_pending-append (f ∷ []) c cs = refl
last_pending-append (f ∷ g ∷ front) c cs = last_pending-append (g ∷ front) c cs

last_pending_head :
    (c c' : Channel) (cs : List Channel)
    → c'.pending ≡ c.pending
    → last_pending (c' ∷ cs) ≡ last_pending (c ∷ cs)
last_pending_head c c' [] e = e
last_pending_head c c' (d ∷ cs) e = refl

-- A run of steps.
pub data Later (s : State) : State → Type 0 where
  here : Later s s
  later : {t u : State} → Later s t → Step t u → Later s u

-- Nothing more was written to the output, and the last channel holds the same bytes.
pub record Stalled (s t : State) : Type 0 where
  pub output : t.output ≡ s.output
  pub held : last_pending t.channels ≡ last_pending s.channels

Step-Stalled : {s t : State} → last_pending s.channels ≢ [] → Step s t → Stalled s t
Step-Stalled {s} h (first_splices c cs k e le lf lr) = record {
  output = refl;
  held = last_pending_head c (first_splice k s.file_left c) cs refl ∙ ap last_pending (sym e);
}
Step-Stalled h (announces e) = record { output = refl; held = refl }
Step-Stalled h (client_splices c₀ c front back k e le lt lr) = record {
  output = refl;
  held =
      last_pending-append (c₀ ∷ front) (client_splice k c) back
      ∙ last_pending_head c (client_splice k c) back refl
      ∙ sym (last_pending-append (c₀ ∷ front) c back)
      ∙ ap last_pending (sym e);
}
Step-Stalled h (learns n r e) = record { output = refl; held = refl }
Step-Stalled h (server_reads c d front back k r e p lc lf) = record {
  output = refl;
  held =
      last_pending-append front (read_in k c) (d ∷ back)
      ∙ sym (last_pending-append front c (d ∷ back))
      ∙ ap last_pending (sym e);
}
Step-Stalled h (server_reads_last c front k m r e p lc lf lm) =
    absurd (h (ap last_pending e ∙ last_pending-append front c [] ∙ p))
Step-Stalled h (server_writes c d front back answers sent left r e p w lr) = record {
  output = refl;
  held =
      last_pending-append front (sent_from left c) (sent_to sent d ∷ back)
      ∙ last_pending_head d (sent_to sent d) back refl
      ∙ sym (last_pending-append front c (d ∷ back))
      ∙ ap last_pending (sym e);
}
Step-Stalled h (ends n r e le) = record { output = refl; held = refl }
Step-Stalled h (hangs_up r) = record { output = refl; held = refl }
Step-Stalled h (gives_up r) = record { output = refl; held = refl }

-- Once the output has taken only a part of what the last channel has read, no run of steps writes
-- anything more to the output, and the last channel holds the same bytes.
pub Later-Stalled : {s t : State} → last_pending s.channels ≢ [] → Later s t → Stalled s t
Later-Stalled h here = record { output = refl; held = refl }
Later-Stalled h (later run st) =
    let before = Later-Stalled h run in
    let now = Step-Stalled (λ e. h (sym before.held ∙ e)) st in
    record { output = now.output ∙ before.output; held = now.held ∙ before.held }
