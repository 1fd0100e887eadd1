-- ===== src/BinArray/SubArray/Whole.antt =====
-- `baGetSubArray` from the caller's side.
use task_lunev.Base.{ℕ, ◌+◌, ◌-◌, ◌*◌, ◌/◌, ◌%◌, ◌<◌, ◌≤◌, ◌≡◌, arith, if◌then◌else◌, ltb, ◌==◌}
use task_lunev.Base.{
  true, false, length, some, pos, refl, ap, ap₂, ◌∙◌, sym, dec_lt, take, drop, ◌++◌, le→leb, ◌⊎◌,
  inl, inr,
}
use task_lunev.Base.{
  length-append, length-take, length-drop, get_or-append_left, get_or-append_right, get_or-take,
  get_or-drop,
}
use task_lunev.Bits.{test_bit}
use task_lunev.Memory.{Bytes, Reply, ok, byte}
use task_lunev.Memory.Bits.{bit_at, IsBytes, bit_at_eq}
use task_lunev.BinArray.{BinArray, array, bits2bytes, size_in_8byte, IsValid}
use task_lunev.BinArray.Check.{check_in_range, in_buffer}
use task_lunev.BinArray.Create.{Allocator, members}
use task_lunev.BinArray.Create.Laws.{Granted, create-Becomes}
use task_lunev.BinArray.SubArray.{copy_bytes, get_sub_array}
use task_lunev.BinArray.SubArray.Laws.{IsCopy, Copies, IsSafe, bytes_bounds, shift_range-Copies}

module _ (buf : Bytes) (h : IsBytes buf) (k len : ℕ) (fits : 8 * k + len ≤ 8 * length buf) where
  copy_bytes-Copies :
      (sub : Bytes)
      → IsCopy buf h k 0 (8 * size_in_8byte len) 0 sub
      → Copies buf h k 0 (8 * size_in_8byte len) len (copy_bytes buf sub k (bits2bytes len))
  unfolding copy_bytes
  copy_bytes-Copies sub c =
      let n = bits2bytes len in
      let size = bytes_bounds len in
      let front : length (take n (drop k buf)) ≡ n =
        length-take n (drop k buf) (omega (arith, length-drop k buf, size)) in
      let out = take n (drop k buf) ++ drop n sub in
      let copied : (i : ℕ) → byte out i ≡ (if ltb i n then byte buf (k + i) else byte sub i) = λ i.
        elim (dec_lt i n) [
          | yes low ↦
              get_or-append_left (take n (drop k buf)) (drop n sub) i 0 (omega (arith, front))
              ∙ get_or-take n (drop k buf) i 0 low
              ∙ get_or-drop k buf i 0
              ∙ ground arith
          | no high ↦
              get_or-append_right (take n (drop k buf)) (drop n sub) i 0 (omega (arith, front))
              ∙ get_or-drop n sub (i - length (take n (drop k buf))) 0
              ∙ ap (λ j. byte sub j) {y = i} (omega (arith, front))
              ∙ ground arith
        ] in
      record {
        out = out;
        returns =
            rw
              (
                le→leb (k + n) (length buf) (omega (arith, size)),
                le→leb n (length sub) (omega (arith, c.same_length, size)),
              )
              refl;
        copy = record {
          same_length = omega (
            arith,
            length-append (take n (drop k buf)) (drop n sub),
            front,
            length-drop n sub,
            c.same_length,
            size,
          );
          bytes = λ i. ground (arith, copied i, h (k + i), c.bytes i);
          bits = λ p l.
              let e : k + p / 8 ≡ (8 * k + 0 + p) / 8 = omega arith in
              let f : p % 8 ≡ (8 * k + 0 + p) % 8 = omega arith in
              let low : ltb (p / 8) n ≡ true = ground (arith, size) in
              bit_at_eq out p
              ∙ ap (λ t. test_bit t (p % 8)) (copied (p / 8) ∙ rw low refl)
              ∙ ap₂ (λ i j. test_bit (byte buf i) j) e f
              ∙ sym (bit_at_eq buf (8 * k + 0 + p));
        };
      }

-- An array of `len` bits, which are those of the range.
pub record Holds (buf : Bytes) (begin len : ℕ) (q : Reply BinArray) : Type 0 where
  pub out : Bytes
  pub returns : q ≡ ok (array out len)
  pub valid : IsValid out len
  pub bits :
      (p : ℕ)
      → (if ltb p len then bit_at out p else 0) ≡ (if ltb p len then bit_at buf (begin + p) else 0)

module _ {buf : Bytes} {n : ℕ} (m : Allocator) (v : IsValid buf n) (begin len : ℕ)
    (some_left : 0 < len) (fits : begin + len ≤ n) (g : Granted m len) where
  held :
      (r : ℕ) {q : Reply Bytes}
      → 8 * (begin / 8) + r ≡ begin
      → (c : Copies buf v.bytes (begin / 8) r (8 * size_in_8byte len) len q)
      → Holds buf begin len (ok (array c.out len))
  held r e c = record {
    out = c.out;
    returns = refl;
    valid = record {
      whole = c.copy.same_length;
      bytes = c.copy.bytes;
      positive = some_left;
      countable = omega (arith, v.countable);
    };
    bits = λ p. elim (dec_lt p len) [
      | yes low ↦ ground (arith, c.copy.bits p low, ap (λ t. bit_at buf (t + p)) e)
      | no high ↦ ground arith
    ];
  }

  -- On a valid array, for a nonempty range inside it and an allocator that grants its length,
  -- where the range begins at a byte, or covers no more bytes than its length needs, or its words
  -- of 7 bytes end before its last byte, baGetSubArray gives a valid array of that length with the
  -- bits of the range.
  pub get_sub_array-Holds :
      (begin % 8 ≡ 0) ⊎ ((0 < begin % 8) × IsSafe (begin % 8) len)
      → Holds buf begin len (get_sub_array m (some (array buf n)) begin (pos len))
  unfolding get_sub_array members
  get_sub_array-Holds safe =
      let a = check_in_range v begin len fits in
      let c = create-Becomes m len some_left g in
      let inside = in_buffer v (begin + len) fits in
      let empty : (r : ℕ) → IsCopy buf v.bytes (begin / 8) r (8 * size_in_8byte len) 0 c.out = λ r.
        record {
          same_length = c.valid.whole;
          bytes = c.valid.bytes;
          bits = λ p l. absurd (omega arith);
        } in
      elim safe [
        | inl aligned ↦
            let w =
              copy_bytes-Copies buf v.bytes (begin / 8) len (omega (arith, inside)) c.out
                (empty 0) in
            rw (a, c.returns, aligned, w.returns) (held 0 (omega arith) w)
        | inr (shifted, s) ↦
            let w =
              shift_range-Copies buf v.bytes (begin / 8) (begin % 8) len shifted (omega arith)
                some_left (omega (arith, inside)) s c.out (empty (begin % 8)) in
            let e : (begin % 8 == 0) ≡ false = ground arith in
            rw (a, c.returns, e, w.returns) (held (begin % 8) (omega arith) w)
      ]
