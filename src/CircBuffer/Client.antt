-- ===== src/CircBuffer/Client.antt =====
-- A program that uses the circular buffer through its functions only: it writes to the place that
-- `CircBufferGetWriter` offers, reads from the one that `CircBufferGetReader` offers, and reports
-- both to `CircBufferChangeSize`. The specification is a bounded queue of bytes.
pub mod Queue
use task_lunev.Base.{
  ℕ, ◌+◌, Option, none, some, List, [], ◌∷◌, ◌++◌, take, drop, length, if◌then◌else◌, leb,
}
use task_lunev.Base.{ℤ, pos, negsuc, ◌-ℤ◌, lebℤ}
use task_lunev.Memory.{Bytes}
use task_lunev.BinArray.Create.{Allocator}
use task_lunev.CircBuffer.{
  CircBuffer, Outcome, returned, undefined, ◌>>=◌, get_writer, get_reader, change_size, initialize,
}

-- Offer all bytes of a packet, or take everything that the reader is offered.
pub data Event : Type 0 where
  feed : Bytes → Event
  drain : Event

abbrev pub with_buf : CircBuffer → Bytes → CircBuffer
with_buf cb buf = record {
  m_capacity = cb.m_capacity;
  m_size = cb.m_size;
  m_buf = some buf;
  m_reader = cb.m_reader;
}

-- `memcpy` into the buffer and out of it; outside the allocation it is undefined.
unfoldable pub write_at : CircBuffer → ℤ → Bytes → Outcome CircBuffer
write_at cb (negsuc _) packet = undefined
write_at cb (pos a) packet = elim cb.m_buf [
  | none ↦ undefined
  | some buf ↦
      if leb (a + length packet) (length buf)
      then returned (with_buf cb (take a buf ++ (packet ++ drop (a + length packet) buf)))
      else undefined
]

unfoldable pub read_at : CircBuffer → ℤ → ℤ → Outcome Bytes
read_at cb (pos a) (pos n) = elim cb.m_buf [
  | none ↦ undefined
  | some buf ↦ if leb (a + n) (length buf) then returned (take n (drop a buf)) else undefined
]
read_at cb _ _ = undefined

-- A packet that does not fit the place is refused.
unfoldable pub feed_in : CircBuffer → Bytes → Outcome (Option CircBuffer)
feed_in cb packet = do
  (at, count) ← get_writer cb
  if lebℤ (pos (length packet)) count
      then (do
        written ← write_at cb at packet
        larger ← change_size written (pos (length packet))
        returned (some larger))
      else returned none

-- The first `n` bytes of the reader's place.
unfoldable pub consume : CircBuffer → ℕ → Outcome (Bytes × CircBuffer)
consume cb n = do
  (at, count) ← get_reader cb
  bytes ← read_at cb at (pos n)
  smaller ← change_size cb (pos 0 -ℤ pos n)
  returned (bytes, smaller)

unfoldable pub contents : CircBuffer → Outcome Bytes
contents cb = do (at, count) ← get_reader cb; read_at cb at count

unfoldable pub drain_out : CircBuffer → Outcome (Bytes × CircBuffer)
drain_out cb = do
  (at, count) ← get_reader cb
  bytes ← read_at cb at count
  smaller ← change_size cb (pos 0 -ℤ count)
  returned (bytes, smaller)

-- The bytes that came out, and those that are left; `none` where a packet was refused.
unfoldable pub run : List Event → CircBuffer → Bytes → Outcome (Option (Bytes × Bytes))
run [] cb out = do left ← contents cb; returned (some (out, left))
run (feed packet ∷ events) cb out = do
  fed ← feed_in cb packet
  elim fed [ none ↦ returned none | some cb' ↦ run events cb' out ]
run (drain ∷ events) cb out = do (bytes, cb') ← drain_out cb; run events cb' (out ++ bytes)

-- From the initialization of a structure on.
unfoldable pub session : Allocator → CircBuffer → ℕ → List Event → Outcome (Option (Bytes × Bytes))
session m cb capacity events =
    let (code, started) = initialize m (some cb) (pos capacity) in
    elim started [ none ↦ undefined | some cb' ↦ run events cb' [] ]

-- The same on a queue of at most `capacity` bytes.
abbrev pub queue_run : ℕ → List Event → Bytes → Bytes → Option (Bytes × Bytes)
queue_run capacity [] queue out = some (out, queue)
queue_run capacity (feed packet ∷ events) queue out =
    let rest = queue_run capacity events (queue ++ packet) out in
    if leb (length queue + length packet) capacity then rest else none
queue_run capacity (drain ∷ events) queue out = queue_run capacity events [] (out ++ queue)
