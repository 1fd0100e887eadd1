-- ===== src/BinArray/SubArray/Laws.antt =====
-- What the words of `baGetSubArray` copy, and where they leave the fresh buffer.
use task_lunev.Base.{ℕ, zero, suc, ◌+◌, ◌-◌, ◌*◌, ◌/◌, ◌^◌, ◌<◌, ◌≤◌, ◌≡◌, arith}
use task_lunev.Base.{length, refl, ap, ◌∙◌, dec_lt, min, ◌⊎◌, ℕ_discrete, eq→==, ne→==}
use task_lunev.Bits.{test_bit-shr}
use task_lunev.Memory.{Bytes, Reply, ok, ◌>>=◌, load_from}
use task_lunev.Memory.Bits.{bit_at, IsBytes, test_bit-load_from}
use task_lunev.Memory.Words.{load-ok, store-Rewrites}
use task_lunev.BinArray.{bits2bytes, size_in_8byte}
use task_lunev.BinArray.SubArray.{shift_word, shift_words, count_u56, shift_range}

module _ (buf : Bytes) (h : IsBytes buf) (k r : ℕ) where
  -- A buffer of `size` bytes whose first `m` bits are those of the range.
  pub record IsCopy (size m : ℕ) (sub : Bytes) : Type 0 where
    pub same_length : length sub ≡ size
    pub bytes : IsBytes sub
    pub bits : (p : ℕ) → p < m → bit_at sub p ≡ bit_at buf (8 * k + r + p)

  pub record Copies (size m : ℕ) (q : Reply Bytes) : Type 0 where
    pub out : Bytes
    pub returns : q ≡ ok out
    pub copy : IsCopy size m out

  Copies->>= :
      {size m m' : ℕ} {q : Reply Bytes} (f : Bytes → Reply Bytes) (c : Copies size m q)
      → Copies size m' (f c.out)
      → Copies size m' (q >>= f)
  Copies->>= f c d = record {
    out = d.out;
    returns = ap (λ t. t >>= f) c.returns ∙ d.returns;
    copy = d.copy;
  }

  pub shift_word-Copies :
      (v w a size m : ℕ) (sub : Bytes)
      → IsCopy size m sub
      → 8 * a ≤ m
      → a + w ≤ size
      → k + a + v ≤ length buf
      → Copies size (8 * a + min (8 * w) (8 * v - r)) (shift_word buf k r v w sub a)
  unfolding shift_word
  shift_word-Copies v w a size m sub c low room fits =
      let x = load_from v buf (k + a) in
      let s = store-Rewrites w sub a (x / 2 ^ r) c.bytes (omega (arith, c.same_length)) in
      record {
        out = s.out;
        returns = rw (load-ok v buf (k + a) fits) s.returns;
        copy = record {
          same_length = s.same_length ∙ c.same_length;
          bytes = s.bytes;
          bits = λ p l. elim (dec_lt p (8 * a)) [
            | yes before ↦ s.bits p ∙ ground (arith, c.bits p (omega arith))
            | no behind ↦
                let j : 8 * (k + a) + (r + (p - 8 * a)) ≡ 8 * k + r + p = omega arith in
                s.bits p
                ∙ ground (
                  arith,
                  test_bit-shr r x (p - 8 * a),
                  test_bit-load_from v buf (k + a) (r + (p - 8 * a)) h (omega arith),
                  ap (bit_at buf) j,
                )
          ];
        };
      }

  fewer : {size m : ℕ} (m' : ℕ) {q : Reply Bytes} → m' ≤ m → Copies size m q → Copies size m' q
  fewer m' l c = record {
    out = c.out;
    returns = c.returns;
    copy = record {
      same_length = c.copy.same_length;
      bytes = c.copy.bytes;
      bits = λ p below. c.copy.bits p (omega arith);
    };
  }

  shift_words-Copies :
      (w d left a size m : ℕ) (sub : Bytes)
      → IsCopy size m sub
      → 8 * a ≤ m
      → 8 * d + r ≤ 8 * w
      → ((i : ℕ) → i < left → a + d * i + w ≤ size)
      → ((i : ℕ) → i < left → k + (a + d * i) + w ≤ length buf)
      → Copies size (8 * (a + d * left)) (shift_words buf k r w d left sub a)
  unfolding shift_words
  shift_words-Copies w d zero a size m sub c low wide room fits =
      fewer (8 * (a + d * 0)) (grind arith) (record { out = sub; returns = refl; copy = c })
  shift_words-Copies w d (suc left) a size m sub c low wide room fits =
      let first =
        shift_word-Copies w w a size m sub c low (grind (arith, room 0 (omega arith)))
          (grind (arith, fits 0 (omega arith))) in
      let rest =
        shift_words-Copies w d left (a + d) size (8 * a + min (8 * w) (8 * w - r)) first.out
          first.copy (grind arith) wide (λ i l. grind (arith, room (suc i) (omega arith)))
          (λ i l. grind (arith, fits (suc i) (omega arith))) in
      fewer (8 * (a + d * suc left)) (grind arith)
        (Copies->>= (λ sub'. shift_words buf k r w d left sub' (a + d)) first rest)

pub bytes_bounds :
    (n : ℕ)
    → (n ≤ 8 * bits2bytes n) × (8 * bits2bytes n < n + 8) × (bits2bytes n ≤ 8 * size_in_8byte n)
unfolding bits2bytes size_in_8byte
bytes_bounds n = ground arith

count_u56-le : (over len : ℕ) → 7 * count_u56 over len ≤ over - 1
unfolding count_u56
count_u56-le over len = ground arith

-- The words stay inside the fresh buffer: the last one is not written by the loop of 7 bytes where
-- the range covers one byte more than its length needs.
abbrev pub IsSafe : ℕ → ℕ → Type 0
IsSafe r len =
    let over = bits2bytes (len + r) in (over ≡ bits2bytes len) ⊎ (7 * count_u56 over len + 1 < over)

module _ (buf : Bytes) (h : IsBytes buf) (k r len : ℕ) (some_shift : 0 < r) (small : r < 8)
    (some_left : 0 < len) (fits : 8 * k + r + len ≤ 8 * length buf) (safe : IsSafe r len) where
  -- Where the range covers `extra` bytes more than its length needs.
  words-Copies :
      (extra : ℕ) (sub : Bytes)
      → bits2bytes (len + r) ≡ bits2bytes len + extra
      → extra < 2
      → IsCopy buf h k r (8 * size_in_8byte len) 0 sub
      → let over = bits2bytes (len + r) in
        let n = count_u56 over len in
        let num_u8 = over - 7 * n - 1 - extra in
        Copies buf h k r (8 * size_in_8byte len) len (
          shift_words buf k r 8 7 n sub 0 >>= λ sub'.
          shift_words buf k r 2 1 num_u8 sub' (7 * n) >>= λ sub''.
          shift_word buf k r (1 + extra) 1 sub'' (7 * n + num_u8))
  words-Copies extra sub e one c =
      let over = bits2bytes (len + r) in
      let n = count_u56 over len in
      let num_u8 = over - 7 * n - 1 - extra in
      let size = 8 * size_in_8byte len in
      let a = bytes_bounds (len + r) in
      let b = bytes_bounds len in
      let few = count_u56-le over len in
      let u56 =
        shift_words-Copies buf h k r 8 7 n 0 size 0 sub c (omega arith) (omega arith)
          (λ i l. ground (arith, safe, few, a, b, e)) (λ i l. ground (arith, few, a)) in
      let u8 =
        shift_words-Copies buf h k r 2 1 num_u8 (7 * n) size (8 * (0 + 7 * n)) u56.out u56.copy
          (omega arith) (omega arith) (λ i l. ground (arith, safe, few, a, b, e))
          (λ i l. ground (arith, few, a)) in
      let end =
        shift_word-Copies buf h k r (1 + extra) 1 (7 * n + num_u8) size (8 * (7 * n + 1 * num_u8))
          u8.out u8.copy (omega arith) (ground (arith, safe, few, a, b, e))
          (ground (arith, safe, few, a, b, e)) in
      Copies->>= buf h k r _ u56
        (Copies->>= buf h k r _ u8 (fewer buf h k r len (ground (arith, safe, few, a, b, e)) end))

  pub shift_range-Copies :
      (sub : Bytes)
      → IsCopy buf h k r (8 * size_in_8byte len) 0 sub
      → Copies buf h k r (8 * size_in_8byte len) len (shift_range buf k r len sub)
  unfolding shift_range
  shift_range-Copies sub c =
      let over = bits2bytes (len + r) in
      let more = bytes_bounds (len + r) in
      let less = bytes_bounds len in
      elim (ℕ_discrete over (bits2bytes len)) [
        | yes same ↦
            rw (eq→== over (bits2bytes len) same)
              (words-Copies 0 sub (omega (arith, same)) (omega arith) c)
        | no other ↦
            rw (ne→== over (bits2bytes len) other)
              (words-Copies 1 sub (ground (arith, other, more, less)) (omega arith) c)
      ]
