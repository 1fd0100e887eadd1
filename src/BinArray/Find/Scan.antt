-- ===== src/BinArray/Find/Scan.antt =====
-- The loop over whole quadwords, and the search from a quadword boundary.
use task_lunev.Base.{ℕ, zero, suc, ◌+◌, ◌-◌, ◌*◌, ◌/◌, ◌%◌, ◌≤◌, ◌<◌, ◌≡◌, arith}
use task_lunev.Base.{Bool, Option, none, some, ◌⊎◌, inl, inr, ap, ◌∙◌}
use task_lunev.Base.{Bool-cases, length, dec_lt, sym, ap₂}
use task_lunev.Bits.{test_bit}
use task_lunev.Memory.{Bytes, Reply, ok, load_from}
use task_lunev.Memory.Bits.{bit_at, IsBytes, test_bit-load_from, load_from-lt}
use task_lunev.Memory.Words.{load-ok}
use task_lunev.BinArray.Find.{scan_words}
use task_lunev.BinArray.Find.Qword.{IsFirst, Nowhere, Searches, Finder}

-- Quadword `k` of the buffer.
abbrev pub qword_at : Bytes → ℕ → ℕ
qword_at buf k = load_from 8 buf (8 * k)

pub qword_bits :
    (buf : Bytes) (k i : ℕ)
    → IsBytes buf
    → i < 64
    → test_bit (qword_at buf k) i ≡ bit_at buf (64 * k + i)
qword_bits buf k i h lt =
    let e : 8 * (8 * k) + i ≡ 64 * k + i = omega arith in
    test_bit-load_from 8 buf (8 * k) i h lt ∙ ap (bit_at buf) e

-- What the loop leaves: the index of the quadword and the position in it of the first match, or
-- the number of rounds.
abbrev pub Scanned : Bytes → ℕ → ℕ → ℕ → ℕ → Reply (ℕ × Option ℕ) → Type 0
Scanned buf c k i left r =
    ((p : ℕ) × IsFirst (bit_at buf) c (64 * (k + i)) (64 * (k + i + left)) p
      × (r ≡ ok (p / 64 - k, some (p % 64))))
    ⊎ (Nowhere (bit_at buf) c (64 * (k + i)) (64 * (k + i + left)) × (r ≡ ok (i + left, none)))

Nowhere-qword :
    (buf : Bytes) (c k : ℕ)
    → IsBytes buf
    → Nowhere (test_bit (qword_at buf k)) c 0 64
    → Nowhere (bit_at buf) c (64 * k) (64 * k + 64)
Nowhere-qword buf c k h none_here j p q e =
    let i : 64 * k + (j - 64 * k) ≡ j = omega arith in
    none_here (j - 64 * k) (omega arith) (omega arith)
      (qword_bits buf k (j - 64 * k) h (omega arith) ∙ ap (bit_at buf) i ∙ e)

-- A match in the first quadword of the rest ends the loop there.
first_word :
    (buf : Bytes) (c k i left : ℕ) (o : Option ℕ)
    → IsBytes buf
    → ¬ Nowhere (test_bit (qword_at buf (k + i))) c 0 64
    → Searches (test_bit (qword_at buf (k + i))) c 0 64 o
    → Scanned buf c k i (suc left) (ok (i, o))
first_word buf c k i left none h there s = absurd (there s)
first_word buf c k i left (some a) h there s = inl (
  64 * (k + i) + a,
  record {
    from = omega arith;
    below = omega (arith, s.below);
    here = sym (qword_bits buf (k + i) a h s.below) ∙ s.here;
    before = λ j p q e.
        let d : 64 * (k + i) + (j - 64 * (k + i)) ≡ j = omega arith in
        s.before (j - 64 * (k + i)) (omega arith) (omega arith) (
          qword_bits buf (k + i) (j - 64 * (k + i)) h (omega (arith, s.below))
          ∙ ap (bit_at buf) d
          ∙ e);
  },
  let word : i ≡ (64 * (k + i) + a) / 64 - k = omega (arith, s.below) in
      let place : a ≡ (64 * (k + i) + a) % 64 = omega (arith, s.below) in
      ap₂ (λ (x y : ℕ). ok (x, some y)) word place,
)

-- Passing over a quadword.
next_word :
    (buf : Bytes) (c k i left : ℕ) {r : Reply (ℕ × Option ℕ)}
    → Nowhere (bit_at buf) c (64 * (k + i)) (64 * (k + i) + 64)
    → Scanned buf c k (i + 1) left r
    → Scanned buf c k i (suc left) r
next_word buf c k i left skip (inl (p, s, e)) = inl (
  p,
  record {
    from = omega (arith, s.from);
    below = omega (arith, s.below);
    here = s.here;
    before = λ j a b. elim (dec_lt j (64 * (k + i) + 64)) [
      | yes early ↦ skip j a early
      | no late ↦ s.before j (omega arith) b
    ];
  },
  e,
)
next_word buf c k i left skip (inr (s, e)) = inr (
  λ j a b. elim (dec_lt j (64 * (k + i) + 64)) [
    | yes early ↦ skip j a early
    | no late ↦ s j (omega arith) (omega arith)
  ],
  e ∙ ap (λ (t : ℕ). ok (t, none)) (omega arith),
)

module _ {shift : ℕ → ℕ → ℕ} {hit : ℕ → Bool} {find : ℕ → Option ℕ} {c : ℕ}
    (f : Finder shift hit find c) (buf : Bytes) (h : IsBytes buf) where
  -- The loop meets the first match of the quadwords that it covers, or runs through them all.
  pub scan_words-Scanned :
      (left k i : ℕ)
      → 8 * (k + i + left) ≤ length buf
      → Scanned buf c k i left (scan_words shift hit find left buf k i)
  unfolding scan_words
  scan_words-Scanned zero k i fits =
      inr (λ j p q. absurd (omega arith), ap (λ (t : ℕ). ok (t, none)) (omega arith))
  scan_words-Scanned (suc left) k i fits =
      let small = load_from-lt 8 buf (8 * (k + i)) h in
      rw (load-ok 8 buf (8 * (k + i)) (omega arith))
        (elim (Bool-cases (hit (qword_at buf (k + i)))) [
          | inl e ↦ rw e (
              first_word buf c k i left (find (qword_at buf (k + i))) h
                (f.hits (qword_at buf (k + i)) small e) (f.finds (qword_at buf (k + i)) small))
          | inr e ↦ rw e (
              next_word buf c k i left
                (Nowhere-qword buf c (k + i) h (f.passes (qword_at buf (k + i)) small e))
                (scan_words-Scanned left k (i + 1) (omega arith)))
        ])
