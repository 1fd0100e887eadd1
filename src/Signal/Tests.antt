-- ===== src/Signal/Tests.antt =====
-- The transfer of one byte, and the theorems at it.
use task_lunev.Base.{ℕ, ◌%◌, ◌≡◌, arith, refl, subst, true, false, [], ◌∷◌, ◌++◌, ◌<◌, ◌⊎◌, pos}
use task_lunev.Memory.{Bytes}
use task_lunev.Memory.Bits.{IsBytes}
use task_lunev.Signal.{
  Writer, sending, waiting, exited, Reader, Pending, State, shift_char, send_bit, confirmed,
  receive_bit, stopped, unwritten, Step, Reachable, at_start, then_step,
}
use task_lunev.Signal.Order.{Inv, Reachable-Inv}
use task_lunev.Signal.Transfer.{output_complete}

abbrev quiet : Pending
quiet = record { usr1 = false; usr2 = false; confirm = false }

abbrev calm : Writer → Reader → State
calm w r = record { writer = w; reader = r; pending = quiet }

abbrev file : Bytes
file = 197 ∷ []

-- The reader with the whole byte, and before its first bit.
abbrev full : Reader
full = record { buf = 0; i = 0; output = file; running = true }

abbrev ready : Reader
ready = record { buf = 0; i = 0; output = []; running = true }

module _ {c : ℕ} {cs : Bytes} {i : ℕ} {r : Reader} (on : r.running ≡ true) (free : r.i < 8) where
  one :
      c % 2 ≡ 1
      → Reachable file (calm (sending (c ∷ cs) i) r)
      → Reachable file (calm (confirmed (shift_char c ∷ cs) i) (receive_bit 1 r))
  one e run =
      let moved =
        subst
          (λ p.
            Reachable file
              (record { writer = waiting (shift_char c ∷ cs) i; reader = r; pending = p }))
          (sent e) (then_step run Step.send) in
      then_step (then_step moved (Step.usr2 false false on free)) (Step.confirm false false)
    where
      sent : c % 2 ≡ 1 → send_bit c quiet ≡ record { usr1 = false; usr2 = true; confirm = false }
      sent e = ground arith

  nil :
      c % 2 ≡ 0
      → Reachable file (calm (sending (c ∷ cs) i) r)
      → Reachable file (calm (confirmed (shift_char c ∷ cs) i) (receive_bit 0 r))
  nil e run =
      let moved =
        subst
          (λ p.
            Reachable file
              (record { writer = waiting (shift_char c ∷ cs) i; reader = r; pending = p }))
          (sent e) (then_step run Step.send) in
      then_step (then_step moved (Step.usr1 false false on free)) (Step.confirm false false)
    where
      sent : c % 2 ≡ 0 → send_bit c quiet ≡ record { usr1 = true; usr2 = false; confirm = false }
      sent e = ground arith

sent_first : Reachable file (record {
  writer = waiting (shift_char 197 ∷ []) 0;
  reader = ready;
  pending = record { usr1 = false; usr2 = true; confirm = false };
})
sent_first = then_step at_start Step.send

-- All the bits are confirmed, and the byte is not written yet.
abbrev whole_byte : Reader
whole_byte = record { buf = 197; i = 8; output = []; running = true }

confirmed_all : Reachable file (calm (exited (pos 0) [] 0) whole_byte)
unfolding shift_char confirmed receive_bit
confirmed_all =
    let low =
      one refl (omega arith) refl
        (nil refl (omega arith) refl (one refl (omega arith) refl at_start)) in
    let middle =
      nil refl (omega arith) refl (nil refl (omega arith) refl (nil refl (omega arith) refl low)) in
    then_step (one refl (omega arith) refl (one refl (omega arith) refl middle)) Step.finish

-- The reader writes the byte, and returns where the writer has exited.
sent_all : Reachable file (calm (exited (pos 0) [] 0) (stopped full))
sent_all =
    then_step (then_step confirmed_all (Step.writes {r = whole_byte} refl))
      (Step.child {r = full} (omega arith))

file-IsBytes : IsBytes file
file-IsBytes = ground arith

Reachable-Inv_example : Inv file (calm (exited (pos 0) [] 0) whole_byte)
Reachable-Inv_example = Reachable-Inv file confirmed_all

output_complete_example :
    ((stopped full).output ++ unwritten (stopped full) ≡ file)
    × (((stopped full).running ≡ true) ⊎ (full.output ≡ file))
output_complete_example = output_complete file {r = stopped full} file-IsBytes sent_all
