-- ===== src/BinArray/Fill/Laws.antt =====
-- What the fill functions do to the bits of the array.
use task_lunev.Base.{ℕ, ◌+◌, ◌-◌, ◌*◌, ◌/◌, ◌%◌, ◌^◌, ◌≤◌, ◌<◌, ◌≡◌, arith, if◌then◌else◌, ltb}
use task_lunev.Base.{dec_lt, dec_le, length, le→leb, lt→leb_false}
use task_lunev.Base.{subst, lt→ltb, le→ltb_false}
use task_lunev.Bits.{
  test_bit, test_bit-or, test_bit-and, test_bit-not, test_bit-lt, test_bit_ones, test_bit-zero,
}
use task_lunev.Memory.{Bytes, Reply, ◌>>=◌, >>=_assoc, load_from, not64}
use task_lunev.Memory.Bits.{bit_at, IsBytes, test_bit-load_from}
use task_lunev.Memory.Words.{
  within, Rewrites, Rewrites-ext, Rewrites->>=, change_qword, change_qword-Rewrites, fill-Rewrites,
}
use task_lunev.BinArray.{size_in_8byte, size_in_8byte_bounds}
use task_lunev.BinArray.Mask.{mask_first, mask_last, IsMask, mask_first-IsMask, mask_last-IsMask}
use task_lunev.BinArray.Fill.{or_mask, and_not_mask, fill_rest, fill_range}

-- The two ways to apply a mask, with the bit `c` that they write.
pub record Writes (apply : ℕ → ℕ → ℕ) (v c : ℕ) : Type 0 where
  pub at_mask :
      (m q i : ℕ)
      → m < 2 ^ 64
      → i < 64
      → test_bit (apply m q) i ≡ (if ltb 0 (test_bit m i) then c else test_bit q i)
  pub at_byte : (i : ℕ) → i < 8 → test_bit v i ≡ c
  pub is_byte : v < 256

pub or-Writes : Writes or_mask 0xFF 1
or-Writes = record {
  at_mask = λ m q i hm h. ground (arith, test_bit-or q m i, test_bit-lt m i, test_bit-lt q i);
  at_byte = test_bit_ones 8;
  is_byte = omega arith;
}

pub and_not-Writes : Writes and_not_mask 0x00 0
and_not-Writes = record {
  at_mask = λ m q i hm h. ground (
    arith,
    test_bit-and q (not64 m) i,
    test_bit-not 64 m i hm h,
    test_bit-lt m i,
    test_bit-lt q i,
  );
  at_byte = λ i h. test_bit-zero i;
  is_byte = omega arith;
}

-- Whole quadwords.
abbrev pub Divides8 : Bytes → Type 0
Divides8 mem = (n : ℕ) × (length mem ≡ 8 * n)

-- The bits that a masked change of quadword `k` gives.
abbrev pub after : Bytes → ℕ → ℕ → ℕ → ℕ → ℕ
after mem c lo hi p = if within lo hi p then c else bit_at mem p

module _ {apply : ℕ → ℕ → ℕ} {v c : ℕ} (w : Writes apply v c) where
  masked-Rewrites :
      (mem : Bytes) (k lo hi a b : ℕ) (m : Reply ℕ)
      → a ≡ 64 * k + lo
      → b ≡ 64 * k + hi
      → IsBytes mem
      → 8 * k + 8 ≤ length mem
      → hi ≤ 64
      → IsMask lo hi m
      → Rewrites mem (after mem c a b) (m >>= λ x. change_qword (apply x) mem k)
  masked-Rewrites mem k lo hi a b m ea eb h fits le s = rw (s.returns) (
      Rewrites-ext _
        (λ p. ground (
          arith,
          w.at_mask s.mask (load_from 8 mem (8 * k)) (p - 64 * k) s.fits,
          s.bits (p - 64 * k),
          test_bit-load_from 8 mem (8 * k) (p - 64 * k) h,
        ))
        (change_qword-Rewrites (apply s.mask) mem k h fits))

  -- From a quadword boundary on.
  fill_rest-Rewrites :
      (mem : Bytes) (k len : ℕ)
      → IsBytes mem
      → 0 < len
      → 8 * (k + size_in_8byte len) ≤ length mem
      → Rewrites mem (after mem c (64 * k) (64 * k + len)) (fill_rest apply v mem k len)
  unfolding fill_rest
  fill_rest-Rewrites mem k len h some_left fits = elim (dec_lt 0 (size_in_8byte len - 1)) [
    | yes many ↦
        let n = size_in_8byte len - 1 in
        let e = lt→ltb 0 n many in
        let f = fill-Rewrites mem (8 * k) v (8 * n) h w.is_byte (omega arith) in
        let small : (len - 64 * n) % 2 ^ 8 ≡ len - 64 * n =
          omega (arith, size_in_8byte_bounds len) in
        let m =
          mask_last-IsMask (len - 64 * n) (omega (arith, size_in_8byte_bounds len))
            (omega (arith, size_in_8byte_bounds len)) in
        let g =
          masked-Rewrites f.out (k + n) 0 (len - 64 * n) (64 * (k + n)) (64 * k + len)
            (mask_last (len - 64 * n)) (omega arith) (omega (arith, size_in_8byte_bounds len))
            f.bytes (omega (arith, f.same_length, size_in_8byte_bounds len))
            (omega (arith, size_in_8byte_bounds len)) m in
        rw (e, small)
          (Rewrites-ext (after mem c (64 * k) (64 * k + len))
            (λ p. ground (arith, f.bits p, w.at_byte (p % 8)))
            (Rewrites->>= _
              (λ b. mask_last (len - 64 * n) >>= λ x. change_qword (apply x) b (k + n)) f g))
    | no one ↦
        let n = size_in_8byte len - 1 in
        let e = le→ltb_false 0 n (omega arith) in
        let small : len % 2 ^ 8 ≡ len = omega (arith, size_in_8byte_bounds len) in
        rw (e, small)
          (masked-Rewrites mem k 0 len (64 * k) (64 * k + len) (mask_last len) (omega arith)
            (omega arith) h (omega (arith, size_in_8byte_bounds len))
            (omega (arith, size_in_8byte_bounds len))
            (mask_last-IsMask len some_left (omega (arith, size_in_8byte_bounds len))))
  ]

  -- The bits from `begin` on, `len` of them, become `c`.
  pub fill_range-Rewrites :
      (mem : Bytes) (begin len : ℕ)
      → IsBytes mem
      → 0 < len
      → begin + len ≤ 8 * length mem
      → Divides8 mem
      → Rewrites mem (after mem c begin (begin + len)) (fill_range apply v mem begin len)
  unfolding fill_range
  fill_range-Rewrites mem begin len h some_left fits (n, whole) =
      elim (dec_le (begin % 64 + len) 64) [
        | yes one ↦
            let e = le→leb (begin % 64 + len) 64 one in
            let small : len % 2 ^ 8 ≡ len = omega arith in
            rw (e, small)
              (masked-Rewrites mem (begin / 64) (begin % 64) (begin % 64 + len) begin (begin + len)
                (mask_first (begin % 64) len) (omega arith) (omega arith) h (omega arith) one
                (mask_first-IsMask (begin % 64) len some_left one))
        | no many ↦
            let r = begin % 64 in
            let k = begin / 64 in
            let e = lt→leb_false (r + len) 64 (omega arith) in
            let small : (64 - r) % 2 ^ 8 ≡ 64 - r = omega arith in
            let f =
              masked-Rewrites mem k r (r + (64 - r)) begin (64 * (k + 1)) (mask_first r (64 - r))
                (omega arith) (omega arith) h (omega arith) (omega arith)
                (mask_first-IsMask r (64 - r) (omega arith) (omega arith)) in
            let g =
              fill_rest-Rewrites f.out (k + 1) (len - (64 - r)) f.bytes (omega arith)
                (omega (arith, f.same_length, size_in_8byte_bounds (len - (64 - r)))) in
            rw (e, small)
              (Rewrites-ext (after mem c begin (begin + len)) (λ p. ground (arith, f.bits p))
                (subst (Rewrites mem _)
                  (>>=_assoc (mask_first r (64 - r)) (λ x. change_qword (apply x) mem k)
                    (λ b. fill_rest apply v b (k + 1) (len - (64 - r))))
                  (Rewrites->>= _ (λ b. fill_rest apply v b (k + 1) (len - (64 - r))) f g)))
      ]
