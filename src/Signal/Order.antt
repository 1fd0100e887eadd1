-- ===== src/Signal/Order.antt =====
-- The order of the bits: an invariant of every run.
use task_lunev.Base.{ℕ, ◌≤◌, ◌<◌, ◌≡◌, arith, refl, ap, ◌∙◌, sym, true, false, inl, inr}
use task_lunev.Base.{[], ◌∷◌, ◌++◌, append_assoc, pos, negsuc}
use task_lunev.Base.{ℤ, minus_one, ne→==, eq→==, ℕ_discrete}
use task_lunev.Memory.{Bytes}
use task_lunev.Signal.{
  Writer, sending, waiting, exited, Reader, Pending, State, confirmed, receive_bit, Step, start,
  Reachable, at_start, then_step,
}
use task_lunev.Signal.Bits.{stream}
use task_lunev.Signal.Moves.{
  to_send, in_flight, received, count, Agrees, IsSound, sent_one, send-moves, stream_from_zero,
  confirm-moves, receive-moves, receive-IsSound, write-moves, write-IsSound,
}

-- The bits that the reader has, those on the way and those to send are the file; one signal at most
-- is pending, where the writer waits for it.
pub record Inv (file : Bytes) (s : State) : Type 0 where
  pub total : received s.reader ++ (in_flight s.pending ++ to_send s.writer) ≡ stream file
  pub agrees : Agrees s.writer s.pending
  pub sound : IsSound s.reader

start-Inv : (file : Bytes) → Inv file (start file)
start-Inv file = record {
  total = stream_from_zero file;
  agrees = (refl, omega arith);
  sound = record {
    index = omega arith;
    small = omega arith;
    bytes = λ i. omega arith;
    waits = inl refl;
  };
}

one_most : (w : Writer) (p : Pending) → Agrees w p → count p ≤ 1
one_most (sending left i) p (e, h) = omega arith
one_most (waiting left i) p (e, h) = omega arith
one_most (exited (pos n) left i) p (e, h) = omega arith
one_most (exited (negsuc n) left i) p h = h

same_count : (w : Writer) (p q : Pending) → count p ≡ count q → Agrees w p → Agrees w q
same_count (sending left i) p q e (c, h) = (sym e ∙ c, h)
same_count (waiting left i) p q e (c, h) = (sym e ∙ c, h)
same_count (exited (pos n) left i) p q e (c, h) = (sym e ∙ c, h)
same_count (exited (negsuc n) left i) p q e h = omega arith

-- A signal to the reader that is alone in the pending ones is delivered and answered.
delivered :
    (file : Bytes) (w : Writer) (r : Reader) (p : Pending) (bit : ℕ)
    → bit < 2
    → in_flight p ≡ bit ∷ []
    → count p ≡ 1
    → r.running ≡ true
    → r.i < 8
    → Inv file (record { writer = w; reader = r; pending = p })
    → Inv file (record {
      writer = w;
      reader = receive_bit bit r;
      pending = record { usr1 = false; usr2 = false; confirm = true };
    })
delivered file w r p bit h f one on free v = record {
  total =
      ap (λ t. t ++ to_send w) (receive-moves bit r h v.sound)
      ∙ append_assoc (received r) (bit ∷ []) (to_send w)
      ∙ ap (λ t. received r ++ (t ++ to_send w)) (sym f)
      ∙ v.total;
  agrees = same_count w p (record { usr1 = false; usr2 = false; confirm = true }) one v.agrees;
  sound = receive-IsSound bit r h on free v.sound;
}

confirmed-Agrees :
    (left : Bytes) (i : ℕ) (p : Pending) → count p ≡ 0 → i < 8 → Agrees (confirmed left i) p
unfolding confirmed
confirmed-Agrees [] i p e h = (e, h)
confirmed-Agrees (c ∷ cs) i p e h = elim (ℕ_discrete i 7) [
  | yes s ↦ rw (eq→== i 7 s) ((e, omega arith))
  | no d ↦ rw (ne→== i 7 d) ((e, omega arith))
]

kept : (e : ℤ) (left : Bytes) (i : ℕ) → to_send (waiting left i) ≡ to_send (exited e left i)
kept e [] i = refl
kept e (c ∷ cs) i = refl

Step-Inv : (file : Bytes) {s t : State} → Inv file s → Step s t → Inv file t
Step-Inv file v (Step.send {c} {cs} {i} {r} {p}) = record {
  total = ap (λ t. received r ++ t) (send-moves c cs i p v.agrees.1 v.agrees.0) ∙ v.total;
  agrees = (sent_one c p v.agrees.0, v.agrees.1);
  sound = v.sound;
}
Step-Inv file v (Step.finish {i} {r} {p}) = record {
  total = v.total;
  agrees = (v.agrees.0, refl);
  sound = v.sound;
}
Step-Inv file v (Step.usr1 {w} {r} false false on free) =
    delivered file w r _ 0 (omega arith) refl refl on free v
Step-Inv file v (Step.usr1 {w} {r} true c on free) = absurd (ground (arith, one_most w _ v.agrees))
Step-Inv file v (Step.usr1 {w} {r} false true on free) =
    absurd (ground (arith, one_most w _ v.agrees))
Step-Inv file v (Step.usr2 {w} {r} false false on free) =
    delivered file w r _ 1 (omega arith) refl refl on free v
Step-Inv file v (Step.usr2 {w} {r} true c on free) = absurd (ground (arith, one_most w _ v.agrees))
Step-Inv file v (Step.usr2 {w} {r} false true on free) =
    absurd (ground (arith, one_most w _ v.agrees))
Step-Inv file v (Step.writes {w} {r} {p} e) = record {
  total = ap (λ t. t ++ (in_flight p ++ to_send w)) (write-moves r e) ∙ v.total;
  agrees = v.agrees;
  sound = write-IsSound r e v.sound;
}
Step-Inv file v (Step.child {e} {left} {i} {r} {p} free) = record {
  total = v.total;
  agrees = v.agrees;
  sound = record {
    index = v.sound.index;
    small = v.sound.small;
    bytes = v.sound.bytes;
    waits = inr free;
  };
}
Step-Inv file v (Step.confirm {left} {i} {r} false false) = record {
  total = ap (λ t. received r ++ t) (confirm-moves left i v.agrees.1) ∙ v.total;
  agrees = confirmed-Agrees left i _ refl v.agrees.1;
  sound = v.sound;
}
Step-Inv file v (Step.confirm {left} {i} {r} true b) = absurd (ground (arith, v.agrees.0))
Step-Inv file v (Step.confirm {left} {i} {r} false true) = absurd (ground (arith, v.agrees.0))
Step-Inv file v (Step.alarm {left} {i} {r} {p}) = record {
  total = ap (λ t. received r ++ (in_flight p ++ t)) (sym (kept minus_one left i)) ∙ v.total;
  agrees = omega (arith, v.agrees.0);
  sound = v.sound;
}

-- In every reachable state of a transfer, the bits that the reader has, those of the pending
-- signals and those that the writer has still to send are together the bits of the file, in order;
-- at most one signal is pending, so that no signal is lost; and the reader holds bits of one byte
-- only.
pub Reachable-Inv : (file : Bytes) {s : State} → Reachable file s → Inv file s
Reachable-Inv file at_start = start-Inv file
Reachable-Inv file (then_step before step) = Step-Inv file (Reachable-Inv file before) step
