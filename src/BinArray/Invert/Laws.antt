-- ===== src/BinArray/Invert/Laws.antt =====
-- What `baInvert` does to the bits of the array.
use task_lunev.Base.{ℕ, zero, suc, ◌+◌, ◌-◌, ◌*◌, ◌/◌, ◌%◌, ◌^◌, ◌≤◌, ◌<◌, ◌≡◌, arith, ltb, bit_and}
use task_lunev.Base.{if◌then◌else◌, length, refl, ap, ◌∙◌, fun_ext, sym, ℕ_discrete}
use task_lunev.Bits.{test_bit, test_bit-and, test_bit-not, test_bit-lt, bit_and-le}
use task_lunev.Memory.{Bytes, Reply, ok, ◌>>=◌, >>=_assoc, load_from, not64}
use task_lunev.Memory.Bits.{bit_at, IsBytes, test_bit-load_from, load_from-lt}
use task_lunev.Memory.Words.{
  within, Rewrites, Rewrites-ext, Rewrites->>=, change_qword, change_qword-Rewrites,
}
use task_lunev.BinArray.{size_in_8byte, size_in_8byte_bounds}
use task_lunev.BinArray.Mask.{mask_last, IsMask, mask_last-IsMask}
use task_lunev.BinArray.Invert.{invert_masked, sub_len, invert_words, invert_rest}

-- The bits after a masked inversion from `a` to `b` in the quadwords from `lo` to `hi`: inverted
-- under the mask, cleared beside it.
abbrev pub flipped : Bytes → ℕ → ℕ → ℕ → ℕ → ℕ → ℕ
flipped mem a b lo hi p =
    if within a b p then 1 - bit_at mem p else if within lo hi p then 0 else bit_at mem p

masked_bits :
    (m q i : ℕ)
    → m < 2 ^ 64
    → q < 2 ^ 64
    → i < 64
    → test_bit (invert_masked m q) i ≡ (if ltb 0 (test_bit m i) then 1 - test_bit q i else 0)
masked_bits m q i hm hq h = ground (
  arith,
  test_bit-and (not64 (bit_and q m)) m i,
  test_bit-not 64 (bit_and q m) i,
  bit_and-le q m,
  test_bit-and q m i,
  test_bit-lt m i,
  test_bit-lt q i,
)

pub masked-Rewrites :
    (mem : Bytes) (k lo hi a b : ℕ) (m : Reply ℕ)
    → a ≡ 64 * k + lo
    → b ≡ 64 * k + hi
    → IsBytes mem
    → 8 * k + 8 ≤ length mem
    → hi ≤ 64
    → IsMask lo hi m
    → Rewrites mem
        (flipped mem a b (64 * k) (64 * k + 64))
        (m >>= λ x. change_qword (invert_masked x) mem k)
masked-Rewrites mem k lo hi a b m ea eb h fits le s = rw (s.returns) (
    Rewrites-ext _
      (λ p. ground (
        arith,
        masked_bits s.mask (load_from 8 mem (8 * k)) (p - 64 * k) s.fits
            (load_from-lt 8 mem (8 * k) h),
        s.bits (p - 64 * k),
        test_bit-load_from 8 mem (8 * k) (p - 64 * k) h,
      ))
      (change_qword-Rewrites (invert_masked s.mask) mem k h fits))

-- The loop less its count of the length.
pub flip_words : ℕ → Bytes → ℕ → Reply Bytes
flip_words zero mem k = ok mem
flip_words (suc left) mem k = change_qword not64 mem k >>= λ b. flip_words left b (k + 1)

pub flip_words-Rewrites :
    (left : ℕ) (mem : Bytes) (k : ℕ)
    → IsBytes mem
    → 8 * (k + left) ≤ length mem
    → Rewrites mem
        (λ p. if within (64 * k) (64 * (k + left)) p then 1 - bit_at mem p else bit_at mem p)
        (flip_words left mem k)
unfolding flip_words
flip_words-Rewrites zero mem k h fits = record {
  out = mem;
  returns = refl;
  same_length = refl;
  bytes = h;
  bits = λ p. ground arith;
}
flip_words-Rewrites (suc left) mem k h fits =
    let w =
      Rewrites-ext (λ p. if within (64 * k) (64 * k + 64) p then 1 - bit_at mem p else bit_at mem p)
        (λ p. ground (
          arith,
          test_bit-not 64 (load_from 8 mem (8 * k)) (p - 64 * k) (load_from-lt 8 mem (8 * k) h),
          test_bit-load_from 8 mem (8 * k) (p - 64 * k) h,
        ))
        (change_qword-Rewrites not64 mem k h (omega arith)) in
    Rewrites-ext _ (λ p. ground (arith, w.bits p))
      (Rewrites->>= _ (λ b. flip_words left b (k + 1)) w
        (flip_words-Rewrites left w.out (k + 1) w.bytes (omega (arith, w.same_length))))

-- The length behind the loop.
pub len_after : ℕ → ℕ → ℕ → ℕ
len_after zero num_u64 len = len
len_after (suc left) num_u64 len = len_after left num_u64 (sub_len len num_u64)

invert_words-flip_words :
    (left : ℕ) (mem : Bytes) (k num_u64 len : ℕ)
    → invert_words left mem k num_u64 len
      ≡ (flip_words left mem k >>= λ b. ok (b, len_after left num_u64 len))
unfolding invert_words flip_words len_after
invert_words-flip_words zero mem k num_u64 len = refl
invert_words-flip_words (suc left) mem k num_u64 len =
    ap (λ f. change_qword not64 mem k >>= f)
      (fun_ext λ b. invert_words-flip_words left b (k + 1) num_u64 (sub_len len num_u64))
    ∙ sym (
        >>=_assoc (change_qword not64 mem k) (λ b. flip_words left b (k + 1))
          (λ b. ok (b, len_after left num_u64 (sub_len len num_u64))))

-- Of the length only the lowest byte is read.
len_after-mod :
    (left num_u64 len : ℕ)
    → len_after left num_u64 len % 2 ^ 8 ≡ (len + left * (192 * num_u64)) % 2 ^ 8
unfolding len_after
len_after-mod zero num_u64 len = omega arith
len_after-mod (suc left) num_u64 len =
    omega (arith, len_after-mod left num_u64 (sub_len len num_u64))

-- With 0 or 1 quadwords in the loop, modulo 4, the lowest byte of the length is what is left.
tail_len :
    (num_u64 len : ℕ)
    → num_u64 % 4 < 2
    → 64 * num_u64 < len
    → len ≤ 64 * num_u64 + 64
    → len_after num_u64 num_u64 len % 2 ^ 8 ≡ len - 64 * num_u64
tail_len num_u64 len low lo hi = elim (ℕ_discrete (num_u64 % 4) 0) [
  | yes z ↦
      let e : num_u64 ≡ 4 * (num_u64 / 4) = omega arith in
      omega (arith, len_after-mod num_u64 num_u64 len, ap (λ (t : ℕ). t * (192 * t)) e)
  | no z ↦
      let e : num_u64 ≡ 4 * (num_u64 / 4) + 1 = omega arith in
      omega (arith, len_after-mod num_u64 num_u64 len, ap (λ (t : ℕ). t * (192 * t)) e)
]

-- With 2 or 3 the byte is above 64.
pub tail_len_high :
    (num_u64 len : ℕ)
    → 2 ≤ num_u64 % 4
    → 64 * num_u64 < len
    → len ≤ 64 * num_u64 + 64
    → 64 < len_after num_u64 num_u64 len % 2 ^ 8
tail_len_high num_u64 len low lo hi = elim (ℕ_discrete (num_u64 % 4) 2) [
  | yes z ↦
      let e : num_u64 ≡ 4 * (num_u64 / 4) + 2 = omega arith in
      omega (arith, len_after-mod num_u64 num_u64 len, ap (λ (t : ℕ). t * (192 * t)) e)
  | no z ↦
      let e : num_u64 ≡ 4 * (num_u64 / 4) + 3 = omega arith in
      omega (arith, len_after-mod num_u64 num_u64 len, ap (λ (t : ℕ). t * (192 * t)) e)
]

-- The code behind the loop, over the loop less its count.
pub invert_rest-eq :
    (mem : Bytes) (k len : ℕ)
    → let n = size_in_8byte len - 1 in
      invert_rest mem k len ≡ (
        flip_words n mem k >>= λ b.
        mask_last (len_after n n len % 2 ^ 8) >>= λ x. change_qword (invert_masked x) b (k + n))
unfolding invert_rest
invert_rest-eq mem k len =
    let n = size_in_8byte len - 1 in
    rw (invert_words-flip_words n mem k n len)
      (>>=_assoc (flip_words n mem k) (λ b. ok (b, len_after n n len)) _)

pub invert_rest-Rewrites :
    (mem : Bytes) (k len : ℕ)
    → IsBytes mem
    → 0 < len
    → (size_in_8byte len - 1) % 4 < 2
    → 8 * (k + size_in_8byte len) ≤ length mem
    → Rewrites mem
        (flipped mem (64 * k) (64 * k + len) (64 * k) (64 * (k + size_in_8byte len)))
        (invert_rest mem k len)
invert_rest-Rewrites mem k len h some_left low fits =
    let n = size_in_8byte len - 1 in
    let w = flip_words-Rewrites n mem k h (omega arith) in
    let small =
      tail_len n len low (omega (arith, size_in_8byte_bounds len))
        (omega (arith, size_in_8byte_bounds len)) in
    let m =
      mask_last-IsMask (len - 64 * n) (omega (arith, size_in_8byte_bounds len))
        (omega (arith, size_in_8byte_bounds len)) in
    let g =
      masked-Rewrites w.out (k + n) 0 (len - 64 * n) (64 * (k + n)) (64 * k + len)
        (mask_last (len - 64 * n)) (omega arith) (omega (arith, size_in_8byte_bounds len)) w.bytes
        (omega (arith, w.same_length, size_in_8byte_bounds len))
        (omega (arith, size_in_8byte_bounds len)) m in
    rw (invert_rest-eq mem k len, small)
      (Rewrites-ext (flipped mem (64 * k) (64 * k + len) (64 * k) (64 * (k + size_in_8byte len)))
        (λ p. ground (arith, w.bits p, size_in_8byte_bounds len))
        (Rewrites->>= _
          (λ b. mask_last (len - 64 * n) >>= λ x. change_qword (invert_masked x) b (k + n)) w g))
