-- ===== src/CircBuffer/Client/Queue.antt =====
-- The circular buffer against the queue.
use task_lunev.Base.{
  ℕ, zero, suc, true, ◌+◌, ◌-◌, ◌*◌, ◌^◌, ◌≤◌, ◌<◌, ◌≡◌, arith, refl, sym, ap, ap₂, take_all,
  drop_all, ◌∙◌,
}
use task_lunev.Base.{
  none, some, List, [], ◌∷◌, ◌++◌, take, drop, length, if◌then◌else◌, leb, le→leb, take_all_left,
  length-take, length-drop, length-append, append-nil, append_assoc, dec_lt, dec_le,
}
use task_lunev.Base.{pos, ◌-ℤ◌, ◌+ℤ◌, lt→leb_false, replicate, length-replicate}
use task_lunev.Memory.{Bytes}
use task_lunev.BinArray.Create.{Allocator, calloc}
use task_lunev.CircBuffer.{CircBuffer, returned, get_writer, get_reader, initialize, empty_of}
use task_lunev.CircBuffer.Laws.{holding, reader_of-holding, change_size-holding}
use task_lunev.CircBuffer.Client.{
  Event, feed, drain, write_at, read_at, feed_in, consume, contents, drain_out, run, session,
  queue_run,
}

-- A packet written behind the first `s` bytes.
abbrev pub behind : Bytes → ℕ → Bytes → Bytes
behind buf s packet = take s buf ++ (packet ++ drop (s + length packet) buf)

module _ (buf : Bytes) (s : ℕ) (packet : Bytes) (fits : s + length packet ≤ length buf) where
  pub length-behind : length (behind buf s packet) ≡ length buf
  length-behind = omega (
    arith,
    length-append (take s buf) (packet ++ drop (s + length packet) buf),
    length-append packet (drop (s + length packet) buf),
    length-take s buf (omega arith),
    length-drop (s + length packet) buf,
  )

  pub take-behind : take (s + length packet) (behind buf s packet) ≡ take s buf ++ packet
  take-behind =
      ap (take (s + length packet))
        (sym (append_assoc (take s buf) packet (drop (s + length packet) buf)))
      ∙ take_all_left (s + length packet) (take s buf ++ packet) (drop (s + length packet) buf)
          (omega (arith, length-append (take s buf) packet, length-take s buf (omega arith)))

behind_full : (buf : Bytes) (s : ℕ) → s ≡ length buf → behind buf s [] ≡ buf
behind_full buf s e =
    ap₂ ◌++◌ (take_all s buf (sym e)) (drop_all (s + 0) buf (omega arith)) ∙ append-nil buf

-- The offset that `CircBufferGetWriter` gives.
abbrev pub write_offset : Bytes → ℕ → ℕ
write_offset buf s = if leb (length buf) s then 0 else s

write_at-holding :
    (buf : Bytes) (s : ℕ) (packet : Bytes)
    → s + length packet ≤ length buf
    → write_at (holding buf 0 s) (pos (write_offset buf s)) packet
      ≡ returned (holding (behind buf s packet) 0 s)
unfolding write_at
write_at-holding buf s packet fits = elim (dec_lt s (length buf)) [
  | yes h ↦ rw (
    lt→leb_false (length buf) s h,
    le→leb (s + length packet) (length buf) fits,
    length-behind buf s packet fits,
  )
  | no h ↦ full packet fits (omega arith)
]
  where
    full :
        (packet : Bytes)
        → s + length packet ≤ length buf
        → s ≡ length buf
        → write_at (holding buf 0 s) (pos (write_offset buf s)) packet
          ≡ returned (holding (behind buf s packet) 0 s)
    full [] fits e = rw (
      le→leb (length buf) s (omega arith),
      le→leb (0 + 0) (length buf) (omega arith),
      behind_full buf s e,
    )
    full (x ∷ packet) fits e = absurd (omega arith)

-- `s` less `n` is `t`.
taken : (s n t : ℕ) → s ≡ t + n → pos s +ℤ (pos 0 -ℤ pos n) ≡ pos t
taken s n t e = ground arith

module _ (buf : Bytes) (s : ℕ) (some_bytes : 0 < length buf) (small : length buf < 2 ^ 31)
    (no_more : s ≤ length buf) where
  get_reader-holding : get_reader (holding buf 0 s) ≡ returned (pos 0, pos s)
  unfolding get_reader
  get_reader-holding = ground (arith, reader_of-holding buf 0 s some_bytes)

  get_writer-holding :
      get_writer (holding buf 0 s) ≡ returned (pos (write_offset buf s), pos (length buf - s))
  unfolding get_writer
  get_writer-holding = ground (arith, reader_of-holding buf 0 s some_bytes)

  read_at-holding :
      (n : ℕ) → n ≤ length buf → read_at (holding buf 0 s) (pos 0) (pos n) ≡ returned (take n buf)
  unfolding read_at
  read_at-holding n h = rw (le→leb (0 + n) (length buf) (omega arith))

  contents-holding : contents (holding buf 0 s) ≡ returned (take s buf)
  unfolding contents
  contents-holding = rw (get_reader-holding, read_at-holding s no_more)

  drain_out-holding : drain_out (holding buf 0 s) ≡ returned (take s buf, holding buf 0 0)
  unfolding drain_out
  drain_out-holding = rw (
    get_reader-holding,
    read_at-holding s no_more,
    change_size-holding buf s (pos 0 -ℤ pos s) 0 (taken s s 0 (omega arith)) (omega arith) small,
  )

  -- On a live buffer with its reader at the beginning, a consumer that takes at most as many bytes
  -- as there are gets the first ones, and leaves the reader where it was: the buffer then holds
  -- the first bytes again, and the last ones are gone.
  pub consume-holding :
      (n : ℕ) → n ≤ s → consume (holding buf 0 s) n ≡ returned (take n buf, holding buf 0 (s - n))
  unfolding consume
  consume-holding n h = rw (
    get_reader-holding,
    read_at-holding n (omega arith),
    change_size-holding buf s (pos 0 -ℤ pos n) (s - n) (taken s n (s - n) (omega arith))
        (omega arith) small,
  )

  feed_in-holding :
      (packet : Bytes)
      → s + length packet ≤ length buf
      → feed_in (holding buf 0 s) packet
        ≡ returned (some (holding (behind buf s packet) 0 (s + length packet)))
  unfolding feed_in
  feed_in-holding packet fits =
      let same = length-behind buf s packet fits in
      rw (
        get_writer-holding,
        le→leb (length packet) (length buf - s) (omega arith),
        write_at-holding buf s packet fits,
        change_size-holding (behind buf s packet) s (pos (length packet)) (s + length packet) refl
            (omega arith) (omega arith),
      )

  feed_in_refused :
      (packet : Bytes)
      → length buf < s + length packet
      → feed_in (holding buf 0 s) packet ≡ returned none
  unfolding feed_in
  feed_in_refused packet over =
      rw (get_writer-holding, lt→leb_false (length packet) (length buf - s) (omega arith))

-- On a buffer with its reader at the beginning, a program that feeds packets and drains behaves like
-- a queue of at most `m_capacity` bytes: it refuses the same packets, and the same bytes come out in
-- the same order.
pub run-queue :
    (events : List Event) (buf : Bytes) (s : ℕ) (out : Bytes)
    → 0 < length buf
    → length buf < 2 ^ 31
    → s ≤ length buf
    → run events (holding buf 0 s) out ≡ returned (queue_run (length buf) events (take s buf) out)
unfolding run
run-queue [] buf s out some_bytes small no_more =
    rw (contents-holding buf s some_bytes small no_more)
run-queue (feed packet ∷ events) buf s out some_bytes small no_more =
    elim (dec_le (s + length packet) (length buf)) [
      | yes h ↦
          let same = length-behind buf s packet h in
          let next =
            run-queue events (behind buf s packet) (s + length packet) out (omega arith)
              (omega arith) (omega arith) in
          rw (
            feed_in-holding buf s some_bytes small no_more packet h,
            length-take s buf no_more,
            le→leb (s + length packet) (length buf) h,
            next,
            same,
            take-behind buf s packet h,
          )
      | no h ↦ rw (
        feed_in_refused buf s some_bytes small no_more packet (omega arith),
        length-take s buf no_more,
        lt→leb_false (s + length packet) (length buf) (omega arith),
      )
    ]
run-queue (drain ∷ events) buf s out some_bytes small no_more = rw (
  drain_out-holding buf s some_bytes small no_more,
  run-queue events buf 0 (out ++ take s buf) some_bytes small (omega arith),
)

started : (buf : Bytes) (c : ℕ) → length buf ≡ c → empty_of buf c ≡ holding buf 0 0
started buf c e = rw e

-- Where the allocator grants a capacity that is positive and an int, a program that initializes
-- the circular buffer and then feeds packets and drains behaves like an empty queue of that
-- capacity: it refuses the same packets, and the same bytes come out in the same order.
pub session-queue :
    (m : Allocator) (cb : CircBuffer) (capacity : ℕ) (events : List Event)
    → 0 < capacity
    → capacity < 2 ^ 31
    → m.grants (capacity * 1) ≡ true
    → session m cb capacity events ≡ returned (queue_run capacity events [] [])
unfolding session initialize
session-queue m cb zero events some_bytes small granted = absurd (omega arith)
session-queue m cb (suc n) events some_bytes small granted =
    let block : Bytes = replicate (suc n * 1) 0 in
    let whole : length block ≡ suc n = omega (arith, length-replicate {A = ℕ} (suc n * 1) 0) in
    rw (
      session,
      initialize,
      calloc,
      granted,
      started block (suc n) whole,
      run-queue events block 0 [] (omega arith) (omega arith) (omega arith),
      whole,
    )
