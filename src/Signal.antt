-- ===== src/Signal.antt =====
-- Signal/wrrd.cpp: the writer sends a file to the reader bit by bit, as SIGUSR1 and SIGUSR2, and
-- waits for a SIGUSR1 of the reader after each bit.
mod Tests
pub mod Bits
pub mod Moves
pub mod Order
pub mod Transfer
use task_lunev.Base.{
  ℕ, zero, suc, ◌+◌, ◌*◌, ◌/◌, ◌%◌, ◌^◌, bit_or, Bool, true, false, if◌then◌else◌, ltb, ◌==◌, ◌≡◌,
  ◌<◌,
}
use task_lunev.Base.{List, [], ◌∷◌, ◌++◌, ℤ, pos, minus_one}
use task_lunev.Memory.{Bytes}

-- The writer at the head of its inner loop with `buf[j]` first in `left`, at `sigsuspend`, or after
-- its return, with the bytes that it has not sent.
pub data Writer : Type 0 where
  sending : (left : Bytes) → (i : ℕ) → Writer
  waiting : (left : Bytes) → (i : ℕ) → Writer
  exited : ℤ → (left : Bytes) → (i : ℕ) → Writer

-- The reader at `sigsuspend`, or with 8 bits in front of `write`: its byte, the bits that it has, and
-- what it wrote to the output.
pub record Reader : Type 0 where
  pub buf : ℕ
  pub i : ℕ
  pub output : Bytes
  pub running : Bool

-- The pending signals, each at most once: `usr1` and `usr2` of the reader, `confirm`, the SIGUSR1
-- of the writer.
pub record Pending : Type 0 where
  pub usr1 : Bool
  pub usr2 : Bool
  pub confirm : Bool

pub record State : Type 0 where
  pub writer : Writer
  pub reader : Reader
  pub pending : Pending

-- `buf[j] >>= 1` of a signed `char`.
unfoldable pub shift_char : ℕ → ℕ
shift_char c = c / 2 + (if ltb c 128 then 0 else 128)

-- `kill (readerPID, ...)` for the lowest bit.
abbrev pub send_bit : ℕ → Pending → Pending
send_bit c p =
    if c % 2 == 1
    then record { usr1 = p.usr1; usr2 = true; confirm = p.confirm }
    else record { usr1 = true; usr2 = p.usr2; confirm = p.confirm }

-- The loop counter behind a confirmed bit, and the next byte behind the eighth.
unfoldable pub confirmed : Bytes → ℕ → Writer
confirmed [] i = sending [] i
confirmed (c ∷ cs) i = if i == 7 then sending cs 0 else sending (c ∷ cs) (i + 1)

-- `buf |= curBit << i`; the byte with its eighth bit is not written yet.
unfoldable pub receive_bit : ℕ → Reader → Reader
receive_bit bit r =
    let buf = bit_or r.buf (bit * 2 ^ r.i) in
    record { buf = buf; i = r.i + 1; output = r.output; running = r.running }

-- The `write` of a whole byte, and the next round of the outer loop.
abbrev pub write_byte : Reader → Reader
write_byte r = record { buf = 0; i = 0; output = r.output ++ (r.buf ∷ []); running = r.running }

-- The byte that is whole and not written yet.
abbrev pub unwritten : Reader → Bytes
unwritten r = if r.i == 8 then r.buf ∷ [] else []

-- `sigChild` is set.
abbrev pub stopped : Reader → Reader
stopped r = record { buf = r.buf; i = r.i; output = r.output; running = false }

-- One step of one of the processes. The kernel delivers any pending signal to a process in
-- `sigsuspend`; the reader confirms each bit there, and writes a whole byte in a step of its own,
-- behind the confirmation. SIGALRM may come whenever the writer waits.
pub data Step : State → State → Type 0 where
  send :
      {c : ℕ} {cs : Bytes} {i : ℕ} {r : Reader} {p : Pending}
      → Step
          (record { writer = sending (c ∷ cs) i; reader = r; pending = p })
          (record { writer = waiting (shift_char c ∷ cs) i; reader = r; pending = send_bit c p })
  finish :
      {i : ℕ} {r : Reader} {p : Pending}
      → Step
          (record { writer = sending [] i; reader = r; pending = p })
          (record { writer = exited (pos 0) [] i; reader = r; pending = p })
  usr1 :
      {w : Writer} {r : Reader} (b c : Bool)
      → r.running ≡ true
      → r.i < 8
      → Step
          (record {
            writer = w;
            reader = r;
            pending = record { usr1 = true; usr2 = b; confirm = c };
          })
          (record {
            writer = w;
            reader = receive_bit 0 r;
            pending = record { usr1 = false; usr2 = b; confirm = true };
          })
  usr2 :
      {w : Writer} {r : Reader} (b c : Bool)
      → r.running ≡ true
      → r.i < 8
      → Step
          (record {
            writer = w;
            reader = r;
            pending = record { usr1 = b; usr2 = true; confirm = c };
          })
          (record {
            writer = w;
            reader = receive_bit 1 r;
            pending = record { usr1 = b; usr2 = false; confirm = true };
          })
  writes :
      {w : Writer} {r : Reader} {p : Pending}
      → r.i ≡ 8
      → Step
          (record { writer = w; reader = r; pending = p })
          (record { writer = w; reader = write_byte r; pending = p })
  child :
      {e : ℤ} {left : Bytes} {i : ℕ} {r : Reader} {p : Pending}
      → r.i < 8
      → Step
          (record { writer = exited e left i; reader = r; pending = p })
          (record { writer = exited e left i; reader = stopped r; pending = p })
  confirm :
      {left : Bytes} {i : ℕ} {r : Reader} (a b : Bool)
      → Step
          (record {
            writer = waiting left i;
            reader = r;
            pending = record { usr1 = a; usr2 = b; confirm = true };
          })
          (record {
            writer = confirmed left i;
            reader = r;
            pending = record { usr1 = a; usr2 = b; confirm = false };
          })
  alarm :
      {left : Bytes} {i : ℕ} {r : Reader} {p : Pending}
      → Step
          (record { writer = waiting left i; reader = r; pending = p })
          (record { writer = exited minus_one left i; reader = r; pending = p })

abbrev pub start : Bytes → State
start file = record {
  writer = sending file 0;
  reader = record { buf = 0; i = 0; output = []; running = true };
  pending = record { usr1 = false; usr2 = false; confirm = false };
}

pub data Reachable (file : Bytes) : State → Type 0 where
  at_start : Reachable file (start file)
  then_step : {s t : State} → Reachable file s → Step s t → Reachable file t
