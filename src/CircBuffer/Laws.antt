-- ===== src/CircBuffer/Laws.antt =====
-- The circular buffer in a state that holds bytes: what its getters answer, and what a change of
-- the size does.
use task_lunev.Base.{
  ℕ, ◌+◌, ◌-◌, ◌^◌, ◌≤◌, ◌<◌, ◌≡◌, ◌≢◌, arith, refl, lt→ltb, dec_lt, ℕ_discrete, Bool-cases, inl,
  inr, ltbℤ, eq→==, ne→==,
}
use task_lunev.Base.{if◌then◌else◌, ltb, ◌==◌, ℤ, pos, ◌+ℤ◌, length, some, Bool, false, ◌&&◌}
use task_lunev.Memory.{Bytes}
use task_lunev.CircBuffer.{
  CircBuffer, returned, reader_of, verifier, get_empty, get_size, get_writer, get_reader,
  have_empty, reset_reader, change_size, release, have_size, thrown, ◌>>=◌,
}

-- `size` bytes from the offset `reader` on, round the end.
abbrev pub holding : Bytes → ℕ → ℕ → CircBuffer
holding buf reader size = record {
  m_capacity = pos (length buf);
  m_size = pos size;
  m_buf = some buf;
  m_reader = some (pos reader);
}

-- An offset of less than two capacities, taken round the end.
abbrev pub wrapped : ℕ → ℕ → ℕ
wrapped capacity x = if ltb x capacity then x else x - capacity

-- An offset of the place is also that of a byte that the buffer holds.
abbrev pub overlaps : ℕ → ℕ → ℕ → ℕ → ℕ → ℕ → ℕ → Bool
overlaps capacity reader size at count i j =
    ltb i count && ltb j size && (at + i == wrapped capacity (reader + j))

-- The contiguous place that the buffer offers to a writer.
pub record Room (buf : Bytes) (reader size : ℕ) : Type 0 where
  pub at : ℕ
  pub count : ℕ
  pub returns : get_writer (holding buf reader size) ≡ returned (pos at, pos count)
  pub inside : at + count ≤ length buf
  pub free : (i j : ℕ) → overlaps (length buf) reader size at count i j ≡ false
  pub some_room : ltb 0 count ≡ have_empty (holding buf reader size)

module _ (buf : Bytes) (r s : ℕ) (some_bytes : 0 < length buf) where
  pub reader_of-holding : reader_of (holding buf r s) ≡ returned (pos r)
  unfolding reader_of verifier
  reader_of-holding = rw (lt→ltb 0 (length buf) some_bytes)

  module _ (in_place : r < length buf) (no_more : s ≤ length buf) where
    -- Wherever the reader stands in a live buffer, CircBufferGetWriter returns normally; the place
    -- that it offers lies inside the buffer, holds none of its bytes, and is empty exactly when
    -- CircBufferHaveEmpty says that there is no room.
    pub get_writer-Room : Room buf r s
    unfolding get_writer have_empty
    get_writer-Room = elim (dec_lt (r + s) (length buf)) [
      | yes h ↦ record {
        at = r + s;
        count = length buf - (r + s);
        returns = ground (arith, reader_of-holding);
        inside = omega arith;
        free = λ i j. ground arith;
        some_room = ground arith;
      }
      | no h ↦ elim (ℕ_discrete (r + s) (length buf)) [
        | yes e ↦ record {
          at = 0;
          count = r;
          returns = ground (arith, reader_of-holding);
          inside = omega arith;
          free = λ i j. ground arith;
          some_room = ground arith;
        }
        | no d ↦ record {
          at = r + s - length buf;
          count = length buf - s;
          returns = ground (arith, reader_of-holding);
          inside = omega arith;
          free = λ i j. ground arith;
          some_room = ground arith;
        }
      ]
    ]

module _ (buf : Bytes) where
  reset_reader-holding :
      (s : ℕ) → s ≤ length buf → reset_reader (holding buf 0 s) ≡ returned (holding buf 0 s)
  unfolding reset_reader
  reset_reader-holding s h = elim (ℕ_discrete s (length buf)) [
    | yes e ↦ rw (e, eq→== (0 + length buf) (length buf) (omega arith))
    | no d ↦ rw (ne→== (0 + s) (length buf) (λ q. d (omega arith)))
  ]

  -- While the reader stands at the beginning, CircBufferChangeSize by a value that leaves the size
  -- between 0 and the capacity, an int, gives a buffer of the new size with the reader where it
  -- was.
  pub change_size-holding :
      (s : ℕ) (value : ℤ) (t : ℕ)
      → pos s +ℤ value ≡ pos t
      → t ≤ length buf
      → length buf < 2 ^ 31
      → change_size (holding buf 0 s) value ≡ returned (holding buf 0 t)
  unfolding change_size
  change_size-holding s value t e h small = elim (Bool-cases (ltbℤ value (pos 0))) [
    | inl b ↦ rw (e, lt→ltb t (2 ^ 31) (omega arith), b, reset_reader-holding t h)
    | inr b ↦ rw (e, lt→ltb t (2 ^ 31) (omega arith), b)
  ]

module _ (buf : Bytes) (s : ℕ) (some_bytes : 0 < length buf) (no_more : s ≤ length buf) where
  -- While the reader stands at the beginning of a live buffer, the places of CircBufferGetWriter
  -- and CircBufferGetReader are as large as CircBufferGetEmpty and CircBufferGetSize say, and
  -- together as large as the capacity.
  pub getters_agree :
      ((get_writer (holding buf 0 s) >>= λ place. returned place.1) ≡ get_empty (holding buf 0 s))
      × ((get_reader (holding buf 0 s) >>= λ place. returned place.1) ≡ get_size (holding buf 0 s))
      × ((do
        empty ← get_empty (holding buf 0 s)
        size ← get_size (holding buf 0 s)
        returned (empty +ℤ size))
          ≡ returned (pos (length buf)))
  unfolding get_writer get_empty get_reader get_size
  getters_agree = (
    ground (arith, reader_of-holding buf 0 s some_bytes),
    ground (arith, reader_of-holding buf 0 s some_bytes),
    ground (arith, reader_of-holding buf 0 s some_bytes),
  )

-- Where the bytes of a live buffer go round its end and are not as many as the offset of the
-- reader, CircBufferGetReader and CircBufferGetSize disagree on how many can be read in one piece.
pub wrapped_reader :
    (buf : Bytes) (r s : ℕ)
    → length buf < r + s
    → r < length buf
    → s ≤ length buf
    → s ≢ r
    → (get_reader (holding buf r s) >>= λ place. returned place.1) ≢ get_size (holding buf r s)
unfolding get_reader get_size
wrapped_reader buf r s over in_place no_more other e =
    ground (arith, reader_of-holding buf r s (omega arith))

-- After CircBufferRelease the verifier fails, the four getters throw, and CircBufferHaveSize is
-- false.
pub released_throws :
    (cb : CircBuffer)
    → (verifier (release cb) ≡ false)
      × (get_writer (release cb) ≡ thrown)
      × (get_reader (release cb) ≡ thrown)
      × (get_empty (release cb) ≡ thrown)
      × (get_size (release cb) ≡ thrown)
      × (have_size (release cb) ≡ false)
unfolding release verifier reader_of get_writer get_reader get_empty get_size have_size
released_throws cb = (refl, refl, refl, refl, refl, refl)
