-- ===== src/BinArray/Find/Laws.antt =====
-- What `baFindOne` and `baFindZero` return.
use task_lunev.Base.{ℕ, ◌+◌, ◌-◌, ◌*◌, ◌/◌, ◌%◌, ◌^◌, ◌≤◌, ◌<◌, ◌≡◌, arith, ltb, ◌==◌}
use task_lunev.Base.{
  Bool, true, false, Option, none, some, ◌⊎◌, inl, inr, refl, if◌then◌else◌, ap, ◌∙◌,
}
use task_lunev.Base.{subst, length, dec_lt, dec_le, sym, ℕ_discrete}
use task_lunev.Base.{lt→ltb, le→ltb_false, le→leb, lt→leb_false}
use mathlib.Core.Path.{subst₂, subst₃}
use task_lunev.Bits.{test_bit}
use task_lunev.Memory.{Bytes, Reply, ok, fail, ◌>>=◌, unset}
use task_lunev.Memory.Bits.{bit_at, IsBytes, load_from-lt}
use task_lunev.Memory.Words.{load-ok}
use task_lunev.BinArray.{size_in_8byte, size_in_8byte_bounds, size_in_8byte_add}
use task_lunev.BinArray.Find.{find_aligned, find_range, report}
use task_lunev.BinArray.Find.Qword.{IsFirst, Nowhere, Searches, at_offset, Searches-offset, Finder}
use task_lunev.BinArray.Find.Scan.{qword_at, qword_bits, Scanned, scan_words-Scanned}

-- The reply of a search for bits that read `c` in a range that begins at `lo` and whose last
-- quadword ends at `end`: the first match, or a refusal. A match inside the range is not refused.
pub data Found (buf : Bytes) (c lo hi end : ℕ) (r : Reply ℕ) : Type 0 where
  hit : (p : ℕ) → IsFirst (bit_at buf) c lo end p → r ≡ ok p → Found buf c lo hi end r
  refused :
      (p : ℕ) → IsFirst (bit_at buf) c lo end p → hi ≤ p → r ≡ fail unset → Found buf c lo hi end r
  missing : Nowhere (bit_at buf) c lo end → r ≡ fail unset → Found buf c lo hi end r

-- The first match is unique.
first_unique : {b : ℕ → ℕ} {c lo hi p q : ℕ} → IsFirst b c lo hi p → IsFirst b c lo hi q → p ≡ q
first_unique {p = p} {q = q} s t = elim (dec_lt p q) [
  | yes l ↦ absurd (t.before p s.from l s.here)
  | no l ↦ elim (dec_lt q p) [ yes g ↦ absurd (s.before q t.from g t.here) | no g ↦ omega arith ]
]

-- The reply from a quadword boundary, of which `IsFirst` or `Nowhere` decides.
abbrev Aligned : Bytes → ℕ → ℕ → ℕ → Reply ℕ → Type 0
Aligned buf c k len r =
    ((p : ℕ) × IsFirst (bit_at buf) c (64 * k) (64 * k + 64 * size_in_8byte len) p
      × (r ≡ (if ltb (p % 64) len then ok p else fail unset)))
    ⊎ (Nowhere (bit_at buf) c (64 * k) (64 * k + 64 * size_in_8byte len) × (r ≡ fail unset))

report-Aligned :
    (buf : Bytes) (c k len : ℕ) {r : Reply (ℕ × Option ℕ)}
    → len < 2 ^ 32 - 64
    → Scanned buf c k 0 (size_in_8byte len) r
    → Aligned buf c k len (r >>= report len (64 * k))
unfolding report
report-Aligned buf c k len short (inl (p, s, e)) =
    let lo : 64 * (k + 0) ≡ 64 * k = omega arith in
    let hi : 64 * (k + 0 + size_in_8byte len) ≡ 64 * k + 64 * size_in_8byte len = omega arith in
    let s' = subst₂ (λ a b. IsFirst (bit_at buf) c a b p) lo hi s in
    let sum : 64 * (p / 64 - k) % 2 ^ 32 + 64 * k + p % 64 ≡ p =
      omega (arith, s'.from, s'.below, size_in_8byte_bounds len) in
    inl (p, s', rw (e, sum))
report-Aligned buf c k len short (inr (s, e)) = inr (λ j p q. s j (omega arith) (omega arith), rw e)

-- A range inside the quadword that it begins in.
within_Found :
    (buf : Bytes) (c begin len end : ℕ) (o : Option ℕ)
    → end ≡ begin + (64 - begin % 64)
    → Searches (bit_at buf) c begin (begin + (64 - begin % 64)) (at_offset begin o)
    → Found buf c begin
        (begin + len)
        end
        (elim o [ none ↦ fail unset | some p ↦ if ltb p len then ok (begin + p) else fail unset ])
within_Found buf c begin len end none e s = missing (λ j p q. s j p (omega arith)) refl
within_Found buf c begin len end (some p) e s =
    let s' = subst (λ b. IsFirst (bit_at buf) c begin b (begin + p)) (sym e) s in
    elim (dec_lt p len) [
      | yes q ↦ Found.hit (begin + p) s' (rw (lt→ltb p len q))
      | no q ↦ refused (begin + p) s' (omega arith) (rw (le→ltb_false p len (omega arith)))
    ]

-- A first match stays the first where nothing stands in front.
earlier :
    {b : ℕ → ℕ} {c lo mid end p : ℕ}
    → lo ≤ mid
    → Nowhere b c lo mid
    → IsFirst b c mid end p
    → IsFirst b c lo end p
earlier {mid = mid} le s t = record {
  from = omega (arith, t.from);
  below = t.below;
  here = t.here;
  before = λ j a d. elim (dec_lt j mid) [ yes q ↦ s j a q | no q ↦ t.before j (omega arith) d ];
}

-- A range that goes on behind its first quadword: `r` is the reply for the rest, from `mid` on.
beyond_Found :
    (buf : Bytes) (c begin mid hi end : ℕ) (o : Option ℕ) (r : Reply ℕ)
    → begin ≤ mid
    → mid ≤ end
    → Searches (bit_at buf) c begin mid (at_offset begin o)
    → Found buf c mid hi end r
    → Found buf c begin hi end (elim o [ none ↦ r | some p ↦ ok (begin + p) ])
beyond_Found buf c begin mid hi end (some p) r le le' s t =
    Found.hit (begin + p)
      (record { from = s.from; below = omega (arith, s.below); here = s.here; before = s.before })
      refl
beyond_Found buf c begin mid hi end none r le le' s (Found.hit p t e) =
    Found.hit p (earlier le s t) e
beyond_Found buf c begin mid hi end none r le le' s (refused p t l e) =
    refused p (earlier le s t) l e
beyond_Found buf c begin mid hi end none r le le' s (missing t e) =
    missing (λ j p q. elim (dec_lt j mid) [ yes b ↦ s j p b | no b ↦ t j (omega arith) q ]) e

module _ {shift : ℕ → ℕ → ℕ} {hit : ℕ → Bool} {find : ℕ → Option ℕ} {c : ℕ}
    (f : Finder shift hit find c) (buf : Bytes) (h : IsBytes buf) where
  find_aligned-Aligned :
      (k len : ℕ)
      → 8 * (k + size_in_8byte len) ≤ length buf
      → len < 2 ^ 32 - 64
      → Aligned buf c k len (find_aligned shift hit find buf k len (64 * k))
  unfolding find_aligned
  find_aligned-Aligned k len fits short =
      let small : size_in_8byte len % 2 ^ 32 ≡ size_in_8byte len =
        omega (arith, size_in_8byte_bounds len) in
      rw small (
        report-Aligned buf c k len short
          (scan_words-Scanned f buf h (size_in_8byte len) k 0 (omega arith)))

  -- From a quadword boundary a match is returned exactly when its place in its quadword is below
  -- the length.
  pub aligned_hit :
      (k len p : ℕ)
      → 8 * (k + size_in_8byte len) ≤ length buf
      → len < 2 ^ 32 - 64
      → IsFirst (bit_at buf) c (64 * k) (64 * k + 64 * size_in_8byte len) p
      → find_aligned shift hit find buf k len (64 * k)
        ≡ (if ltb (p % 64) len then ok p else fail unset)
  aligned_hit k len p fits short s = elim (find_aligned-Aligned k len fits short) [
    | inl (q, t, e) ↦ rw (first_unique s t) e
    | inr (t, e) ↦ absurd (t p s.from s.below s.here)
  ]

  -- The same from the caller's side.
  Aligned-Found :
      (k len : ℕ) {r : Reply ℕ}
      → Aligned buf c k len r
      → Found buf c (64 * k) (64 * k + len) (64 * k + 64 * size_in_8byte len) r
  Aligned-Found k len (inl (p, s, e)) = elim (dec_lt (p % 64) len) [
    | yes q ↦ Found.hit p s (e ∙ rw (lt→ltb (p % 64) len q))
    | no q ↦ refused p s (omega (arith, s.from)) (e ∙ rw (le→ltb_false (p % 64) len (omega arith)))
  ]
  Aligned-Found k len (inr (s, e)) = missing s e

  aligned_range :
      (k len begin hi : ℕ)
      → begin ≡ 64 * k
      → hi ≡ 64 * k + len
      → 8 * size_in_8byte hi ≤ length buf
      → len < 2 ^ 32 - 64
      → Found buf c begin hi (64 * size_in_8byte hi) (find_aligned shift hit find buf k len begin)
  aligned_range k len begin hi eb eh fits short =
      let size : size_in_8byte hi ≡ k + size_in_8byte len =
        ap size_in_8byte eh ∙ size_in_8byte_add k len in
      let end : 64 * k + 64 * size_in_8byte len ≡ 64 * size_in_8byte hi = omega (arith, size) in
      subst₃ (λ a b d. Found buf c a b d (find_aligned shift hit find buf k len a)) (sym eb)
        (sym eh) end (Aligned-Found k len (find_aligned-Aligned k len (omega (arith, size)) short))

  -- A range that begins inside a quadword.
  first_bits :
      (begin i : ℕ)
      → 0 < begin % 64
      → i < 64 - begin % 64
      → test_bit (shift (qword_at buf (begin / 64)) (begin % 64)) i ≡ bit_at buf (begin + i)
  first_bits begin i p q =
      let e : 64 * (begin / 64) + (begin % 64 + i) ≡ begin + i = omega arith in
      f.keeps (qword_at buf (begin / 64)) (begin % 64) i (load_from-lt 8 buf (8 * (begin / 64)) h) p
        (omega arith) q
      ∙ qword_bits buf (begin / 64) (begin % 64 + i) h (omega arith)
      ∙ ap (bit_at buf) e

  in_first :
      (begin : ℕ)
      → 0 < begin % 64
      → Searches
          (bit_at buf)
          c
          begin
          (begin + (64 - begin % 64))
          (at_offset begin (find (shift (qword_at buf (begin / 64)) (begin % 64))))
  in_first begin p =
      let r = begin % 64 in
      let q = qword_at buf (begin / 64) in
      let e : begin + 0 ≡ begin = omega arith in
      subst (λ a. Searches (bit_at buf) c a (begin + (64 - r)) (at_offset begin (find (shift q r))))
        e
        (Searches-offset (test_bit (shift q r)) (bit_at buf) c c 0 (64 - r) begin
          (λ j _ b. let g = first_bits begin j p b in (λ d. sym g ∙ d, λ d. g ∙ d))
          (find (shift q r))
          (f.first q r (load_from-lt 8 buf (8 * (begin / 64)) h) p (omega arith)))

  pub find_range-Found :
      (begin len : ℕ)
      → 0 < len
      → 8 * size_in_8byte (begin + len) ≤ length buf
      → len < 2 ^ 32 - 64
      → Found buf c begin
          (begin + len)
          (64 * size_in_8byte (begin + len))
          (find_range shift hit find buf begin len)
  unfolding find_range
  find_range-Found begin len some_left fits short = elim (ℕ_discrete (begin % 64) 0) [
    | yes z ↦
        let e : (begin % 64 == 0) ≡ true = ground arith in
        rw e (
          aligned_range (begin / 64) len begin (begin + len) (omega arith) (omega arith) fits short)
    | no nz ↦
        let k = begin / 64 in
        let r = begin % 64 in
        let e : (r == 0) ≡ false = ground arith in
        rw (e, load-ok 8 buf (8 * k) (omega (arith, size_in_8byte_bounds (begin + len))))
          (elim (dec_le (r + len) 64) [
            | yes one ↦ rw (le→leb (r + len) 64 one) (
                within_Found buf c begin len (64 * size_in_8byte (begin + len))
                  (find (shift (qword_at buf k) r))
                  (omega (arith, size_in_8byte_bounds (begin + len)))
                  (in_first begin (omega arith)))
            | no many ↦ rw (lt→leb_false (r + len) 64 (omega arith)) (
                beyond_Found buf c begin (begin + (64 - r)) (begin + len)
                  (64 * size_in_8byte (begin + len)) (find (shift (qword_at buf k) r))
                  (find_aligned shift hit find buf (k + 1) (len - (64 - r)) (begin + (64 - r)))
                  (omega arith) (omega (arith, size_in_8byte_bounds (begin + len)))
                  (in_first begin (omega arith))
                  (aligned_range (k + 1) (len - (64 - r)) (begin + (64 - r)) (begin + len)
                    (omega arith) (omega arith) fits (omega arith)))
          ])
  ]

  -- From a quadword boundary, which match is returned is a matter of its place in its quadword.
  pub find_range_hit :
      (begin len p : ℕ)
      → begin % 64 ≡ 0
      → 8 * size_in_8byte (begin + len) ≤ length buf
      → len < 2 ^ 32 - 64
      → IsFirst (bit_at buf) c begin (64 * size_in_8byte (begin + len)) p
      → find_range shift hit find buf begin len ≡ (if ltb (p % 64) len then ok p else fail unset)
  unfolding find_range
  find_range_hit begin len p aligned fits short s =
      let k = begin / 64 in
      let e : (begin % 64 == 0) ≡ true = ground arith in
      let b : begin ≡ 64 * k = omega arith in
      let sum : begin + len ≡ 64 * k + len = omega arith in
      let size : size_in_8byte (begin + len) ≡ k + size_in_8byte len =
        ap size_in_8byte sum ∙ size_in_8byte_add k len in
      let end : 64 * size_in_8byte (begin + len) ≡ 64 * k + 64 * size_in_8byte len =
        omega (arith, size) in
      rw e (
        ap (find_aligned shift hit find buf k len) b
        ∙ aligned_hit k len p (omega (arith, size)) short
            (subst₂ (λ a d. IsFirst (bit_at buf) c a d p) b end s))
