-- ===== src/BinArray/Invert/Range.antt =====
-- `baInvert` from the caller's side.
use task_lunev.Base.{ℕ, ◌+◌, ◌-◌, ◌*◌, ◌/◌, ◌%◌, ◌^◌, ◌≤◌, ◌<◌, ◌≡◌, arith}
use task_lunev.Base.{dec_le, length, le→leb, lt→leb_false, ap, ◌∙◌}
use task_lunev.Memory.{Bytes, ◌>>=◌, >>=_assoc}
use task_lunev.Memory.Bits.{IsBytes}
use task_lunev.Memory.Words.{Rewrites, Rewrites-ext, Rewrites->>=, change_qword}
use task_lunev.BinArray.{size_in_8byte, size_in_8byte_bounds, size_in_8byte_add}
use task_lunev.BinArray.Mask.{mask_first, mask_first-IsMask}
use task_lunev.BinArray.Invert.{invert_masked, invert_rest, invert_range}
use task_lunev.BinArray.Invert.Laws.{flipped, masked-Rewrites, invert_rest-Rewrites}

-- The number of quadwords that the loop of `baInvert` covers.
abbrev pub looped : ℕ → ℕ → ℕ
looped begin len = size_in_8byte (begin + len) - begin / 64 - 2

-- The size of what is left behind the first quadword.
pub rest_size :
    (begin len : ℕ)
    → 64 < begin % 64 + len
    → size_in_8byte (begin + len) ≡ begin / 64 + 1 + size_in_8byte (len - (64 - begin % 64))
rest_size begin len h =
    let e : begin + len ≡ 64 * (begin / 64 + 1) + (len - (64 - begin % 64)) = omega arith in
    ap size_in_8byte e ∙ size_in_8byte_add (begin / 64 + 1) (len - (64 - begin % 64))

module _ (mem : Bytes) (begin len : ℕ) (h : IsBytes mem) (some_left : 0 < len)
    (fits : 8 * size_in_8byte (begin + len) ≤ length mem) where
  -- The first quadword of a range that goes on behind it.
  pub first_part :
      64 < begin % 64 + len
      → Rewrites mem
          (flipped mem begin (64 * (begin / 64 + 1)) (64 * (begin / 64)) (64 * (begin / 64) + 64))
          (mask_first (begin % 64) (64 - begin % 64) >>= λ x.
            change_qword (invert_masked x) mem (begin / 64))
  first_part many =
      let r = begin % 64 in
      masked-Rewrites mem (begin / 64) r (r + (64 - r)) begin (64 * (begin / 64 + 1))
        (mask_first r (64 - r)) (omega arith) (omega arith) h
        (omega (arith, size_in_8byte_bounds (begin + len))) (omega arith)
        (mask_first-IsMask r (64 - r) (omega arith) (omega arith))

  pub invert_range-eq :
      64 < begin % 64 + len
      → invert_range mem begin len ≡ (
          (mask_first (begin % 64) (64 - begin % 64) >>= λ x.
          change_qword (invert_masked x) mem (begin / 64))
          >>= λ b. invert_rest b (begin / 64 + 1) (len - (64 - begin % 64)))
  unfolding invert_range
  invert_range-eq many =
      let r = begin % 64 in
      let small : (64 - r) % 2 ^ 8 ≡ 64 - r = omega arith in
      rw (
        lt→leb_false (r + len) 64 many,
        small,
        >>=_assoc (mask_first r (64 - r)) (λ x. change_qword (invert_masked x) mem (begin / 64))
            (λ b. invert_rest b (begin / 64 + 1) (len - (64 - r))),
      )

  one_quadword :
      begin % 64 + len ≤ 64
      → Rewrites mem
          (flipped mem begin (begin + len) (64 * (begin / 64)) (64 * size_in_8byte (begin + len)))
          (invert_range mem begin len)
  unfolding invert_range
  one_quadword one =
      let r = begin % 64 in
      let small : len % 2 ^ 8 ≡ len = omega arith in
      rw (le→leb (r + len) 64 one, small)
        (Rewrites-ext _ (λ p. ground (arith, size_in_8byte_bounds (begin + len)))
          (masked-Rewrites mem (begin / 64) r (r + len) begin (begin + len) (mask_first r len)
            (omega arith) (omega arith) h (omega (arith, size_in_8byte_bounds (begin + len))) one
            (mask_first-IsMask r len some_left one)))

  pub invert_range-Rewrites :
      looped begin len % 4 < 2
      → Rewrites mem
          (flipped mem begin (begin + len) (64 * (begin / 64)) (64 * size_in_8byte (begin + len)))
          (invert_range mem begin len)
  invert_range-Rewrites low = elim (dec_le (begin % 64 + len) 64) [
    | yes one ↦ one_quadword one
    | no many ↦
        let r = begin % 64 in
        let size = rest_size begin len (omega arith) in
        let count : size_in_8byte (len - (64 - r)) - 1 ≡ looped begin len = omega (arith, size) in
        let f = first_part (omega arith) in
        let g =
          invert_rest-Rewrites f.out (begin / 64 + 1) (len - (64 - r)) f.bytes (omega arith)
            (rw count low) (omega (arith, size, f.same_length)) in
        rw (invert_range-eq (omega arith)) (
          Rewrites-ext
            (flipped mem begin (begin + len) (64 * (begin / 64)) (64 * size_in_8byte (begin + len)))
            (λ p. ground (arith, f.bits p, size))
            (Rewrites->>= _ (λ b. invert_rest b (begin / 64 + 1) (len - (64 - r))) f g))
  ]
