-- ===== src/FifoSemaphore.antt =====
-- SuperFIFO/semaphore.cpp: counting semaphores, each made of the bytes in a named pipe.
mod Tests
pub mod Laws
use task_lunev.Base.{
  ℕ, zero, suc, ◌+◌, ◌-◌, ◌≡◌, Bool, true, false, not, if◌then◌else◌, ltb, ◌==◌, ◌&&◌, ◌||◌,
}
use task_lunev.Base.{Option, none, some, List, [], ◌∷◌}

-- The pipe under the name: whether the name exists, the bytes in it, and the descriptors that are
-- open for reading and for writing.
pub record Pipe : Type 0 where
  pub exists : Bool
  pub bytes : ℕ
  pub readers : ℕ
  pub writers : ℕ

-- `mysem_t`: `SEM_MAGIC` stands in it, and its two descriptors are open.
pub record Mysem : Type 0 where
  pub magic : Bool

-- What the system can refuse: a new pipe, the memory, the two `open`s, the two `fcntl`s, and a `write` into a
-- pipe with so many bytes.
pub record System : Type 0 where
  pub mkfifo : Bool
  pub calloc : Bool
  pub opens_reader : Bool
  pub opens_writer : Bool
  pub fcntl : Bool
  pub has_room : ℕ → Bool

-- `O_CREAT` and `O_EXCL` of the flags.
pub record Flags : Type 0 where
  pub creat : Bool
  pub excl : Bool

-- A result with the pipe behind the call; `none` is `SEM_FAILED`.
abbrev pub Opened : Type 0
Opened = Option Mysem × Pipe

-- The part in front of `calloc`: the flags to go on with, or a failure.
unfoldable pub make_pipe : System → Flags → Pipe → Option (Flags × Pipe)
make_pipe sys flags p =
    if flags.creat
    then (if p.exists
        then (if flags.excl then none else some (record flags { creat = false }, p))
        else if sys.mkfifo
        then some (flags, record p { exists = true; bytes = 0 })
        else none)
    else some (flags, p)

-- The label `error`: a pipe that this call made is unlinked.
unfoldable pub open_error : Flags → Pipe → Pipe → Opened
open_error flags old p = (
  none,
  record p {
    exists = if flags.creat then false else p.exists;
    readers = old.readers;
    writers = old.writers;
  },
)

-- The loop that writes the first value, with `left` bytes to go.
unfoldable pub write_value : (ℕ → Bool) → ℕ → ℕ → Option ℕ
write_value has_room bytes zero = some bytes
write_value has_room bytes (suc left) =
    let rest = write_value has_room (bytes + 1) left in if has_room bytes then rest else none

unfoldable pub mysem_open : System → Flags → ℕ → Pipe → Opened
mysem_open sys flags value p = elim (make_pipe sys flags p) [
  | none ↦ (none, p)
  | some (flags', p') ↦
      if not sys.calloc
      then (none, p')
      else if not (p'.exists && sys.opens_reader)
      then open_error flags' p p'
      else if not (sys.opens_writer && sys.fcntl)
      then open_error flags' p p'
      else elim (if flags'.creat then write_value sys.has_room p'.bytes value else some p'.bytes) [
        | none ↦ open_error flags' p p'
        | some n ↦ (
          some (record { magic = true }),
          record p' { bytes = n; readers = p'.readers + 1; writers = p'.writers + 1 },
        )
      ]
]

-- Where a call stands: it has returned 0 or -1, or it waits for a byte.
pub data Call : Type 0 where
  done failed waits : Call

-- The descriptor for writing does not block: `write` into a full pipe fails.
unfoldable pub mysem_post : System → Mysem → Pipe → Call × Pipe
mysem_post sys sem p =
    if not sem.magic
    then (Call.failed, p)
    else if sys.has_room p.bytes
    then (Call.done, record p { bytes = p.bytes + 1 })
    else (Call.failed, p)

unfoldable pub mysem_wait : Mysem → Pipe → Call × Pipe
mysem_wait sem p = if not sem.magic then (Call.failed, p) else elim p.bytes [
  | zero ↦ (if p.writers == 0 then Call.failed else Call.waits, p)
  | suc n ↦ (Call.done, record p { bytes = n })
]

-- The standard input and output of the process, descriptors 0 and 1.
pub record Standard : Type 0 where
  pub input : Bool
  pub output : Bool

-- `mysem_close` compares its descriptors with -1 inside the calls of `close`: of a live semaphore
-- it closes the descriptors 0 and 1. The semaphore is freed.
unfoldable pub mysem_close : Mysem → Pipe → Standard → Call × Pipe × Standard
mysem_close sem p std =
    if not sem.magic
    then (Call.failed, p, std)
    else if not std.input
    then (Call.failed, p, std)
    else if std.output
    then (Call.done, p, record { input = false; output = false })
    else (Call.failed, p, record std { input = false })

-- `mysem_unlink`
unfoldable pub mysem_unlink : Pipe → Call × Pipe
mysem_unlink p = if p.exists then (Call.done, record p { exists = false }) else (Call.failed, p)
