-- ===== src/BinArray/Invert/Effect.antt =====
-- The effect of `baInvert` on an array: when it inverts, what else it changes, when it fails.
use task_lunev.Base.{ℕ, ◌+◌, ◌-◌, ◌*◌, ◌/◌, ◌%◌, ◌^◌, ◌≤◌, ◌<◌, ◌≡◌, arith}
use task_lunev.Base.{if◌then◌else◌, length, lt→leb_false, ◌∙◌, sym, pos, some}
use task_lunev.Memory.{Bytes, ok, fault, ◌>>=◌}
use task_lunev.Memory.Bits.{bit_at, bit_at-lt, IsBytes, bytes_ext}
use task_lunev.Memory.Words.{within}
use task_lunev.BinArray.{
  array, IsValid, size_in_8byte, size_in_8byte_bounds, size_in_8byte_exact, size_in_8byte_mono,
}
use task_lunev.BinArray.Check.{Becomes, check_in_range, Rewrites-Becomes}
use task_lunev.BinArray.Mask.{mask_last}
use task_lunev.BinArray.Invert.{invert_rest, invert}
use task_lunev.BinArray.Invert.Laws.{
  flipped, invert_rest-eq, flip_words-Rewrites, len_after, tail_len_high,
}
use task_lunev.BinArray.Invert.Range.{
  looped, rest_size, first_part, invert_range-eq, invert_range-Rewrites,
}

-- A byte above 64 makes the shift of the last mask negative.
mask_last-fault : (len : ℕ) → 64 < len → mask_last len ≡ fault
unfolding mask_last
mask_last-fault len h = rw (lt→leb_false len 64 h)

invert_rest-fault :
    (mem : Bytes) (k len : ℕ)
    → IsBytes mem
    → 0 < len
    → 2 ≤ (size_in_8byte len - 1) % 4
    → 8 * (k + size_in_8byte len) ≤ length mem
    → invert_rest mem k len ≡ fault
invert_rest-fault mem k len h some_left high fits =
    let n = size_in_8byte len - 1 in
    let w = flip_words-Rewrites n mem k h (omega arith) in
    let big =
      tail_len_high n len high (omega (arith, size_in_8byte_bounds len))
        (omega (arith, size_in_8byte_bounds len)) in
    rw (invert_rest-eq mem k len, w.returns, mask_last-fault (len_after n n len % 2 ^ 8) big)

module _ {buf : Bytes} {n : ℕ} (v : IsValid buf n) (begin len : ℕ) (some_left : 0 < len)
    (fits : begin + len ≤ n) where
  room : 8 * size_in_8byte (begin + len) ≤ length buf
  room = omega (arith, v.whole, size_in_8byte_mono (begin + len) n fits)

  -- On a valid array and a nonempty range inside it whose loop covers 0 or 1 quadwords modulo 4,
  -- baInvert inverts the bits of the range, clears every other bit of the quadwords that the range
  -- touches, and keeps all other bits and the invariant.
  pub invert-Becomes :
      looped begin len % 4 < 2
      → Becomes n
          (flipped buf begin (begin + len) (64 * (begin / 64)) (64 * size_in_8byte (begin + len)))
          (invert (some (array buf n)) begin (pos len))
  unfolding invert
  invert-Becomes low =
      let w = invert_range-Rewrites buf begin len v.bytes some_left room low in
      Rewrites-Becomes v _ w (rw (check_in_range v begin len fits, w.returns))

  -- On a valid array and a nonempty range inside it whose loop covers 2 or 3 quadwords modulo 4,
  -- baInvert shifts by a negative number: undefined behaviour.
  pub invert-fault : 2 ≤ looped begin len % 4 → invert (some (array buf n)) begin (pos len) ≡ fault
  unfolding invert
  invert-fault high =
      let many : 64 < begin % 64 + len = omega (arith, size_in_8byte_bounds (begin + len)) in
      let r = begin % 64 in
      let size = rest_size begin len many in
      let count : size_in_8byte (len - (64 - r)) - 1 ≡ looped begin len = omega (arith, size) in
      let f = first_part buf begin len v.bytes some_left room many in
      rw (
        check_in_range v begin len fits,
        invert_range-eq buf begin len v.bytes some_left room many,
        f.returns,
        invert_rest-fault f.out (begin / 64 + 1) (len - (64 - r)) f.bytes (omega arith)
            (rw count high) (omega (arith, size, f.same_length, room)),
      )

  -- A range of whole quadwords is inverted exactly.
  invert_exact :
      begin % 64 ≡ 0
      → (begin + len) % 64 ≡ 0
      → looped begin len % 4 < 2
      → Becomes n
          (λ p. if within begin (begin + len) p then 1 - bit_at buf p else bit_at buf p)
          (invert (some (array buf n)) begin (pos len))
  invert_exact a b low =
      let w = invert-Becomes low in
      record {
        out = w.out;
        returns = w.returns;
        valid = w.valid;
        bits = λ p. w.bits p ∙ ground (arith, size_in_8byte_exact (begin + len) b);
      }

-- On a valid array, two calls of baInvert over a nonempty range of whole quadwords inside it whose
-- loop covers 0 or 1 quadwords modulo 4 give the array back, byte for byte.
pub invert_twice :
    {buf : Bytes} {n : ℕ}
    → IsValid buf n
    → (begin len : ℕ) → 0 < len
    → begin + len ≤ n
    → begin % 64 ≡ 0
    → (begin + len) % 64 ≡ 0
    → looped begin len % 4 < 2
    → (invert (some (array buf n)) begin (pos len) >>= λ arr. invert (some arr) begin (pos len))
      ≡ ok (array buf n)
invert_twice {buf} {n} v begin len some_left fits a b low =
    let w = invert_exact v begin len some_left fits a b low in
    let u = invert_exact w.valid begin len some_left fits a b low in
    let back : u.out ≡ buf =
      bytes_ext u.out buf u.valid.bytes v.bytes (u.valid.whole ∙ sym v.whole)
        (λ p. ground (arith, u.bits p, w.bits p, bit_at-lt buf p)) in
    rw (w.returns, u.returns, back)
