-- ===== src/BinArray/Find/Range.antt =====
-- `baFindOne`, `baFindZero` and `baFind` from the caller's side.
use task_lunev.Base.{ℕ, ◌+◌, ◌-◌, ◌*◌, ◌%◌, ◌^◌, ◌≤◌, ◌<◌, ◌≡◌, arith}
use task_lunev.Base.{Bool, true, false, some, if◌then◌else◌, ◌∙◌, ℤ, pos, minus_one}
use task_lunev.Base.{length, dec_lt, subst, lt→ltb}
use task_lunev.Memory.{Bytes, Reply, ok}
use task_lunev.Memory.Bits.{bit_at}
use task_lunev.BinArray.{array, IsValid, size_in_8byte, size_in_8byte_bounds, size_in_8byte_mono}
use task_lunev.BinArray.Check.{check_in_range, check_rest}
use task_lunev.BinArray.Find.{find_one, find_zero, find}
use task_lunev.BinArray.Find.Qword.{IsFirst, one-Finder, zero-Finder}
use task_lunev.BinArray.Find.Laws.{Found, hit, refused, missing, find_range-Found, find_range_hit}

-- A match in the range makes the reply the first of them.
Found-complete :
    {buf : Bytes} {c lo hi end : ℕ} {r : Reply ℕ} (q : ℕ)
    → Found buf c lo hi end r
    → lo ≤ q
    → q < hi
    → bit_at buf q ≡ c
    → hi ≤ end
    → (p : ℕ) × (r ≡ ok p) × IsFirst (bit_at buf) c lo hi p
Found-complete q (hit p s e) a b here le = elim (dec_lt q p) [
  | yes l ↦ absurd (s.before q a l here)
  | no l ↦ (p, e, record { from = s.from; below = omega arith; here = s.here; before = s.before })
]
Found-complete q (refused p s l e) a b here le = absurd (s.before q a (omega arith) here)
Found-complete q (missing s e) a b here le = absurd (s q a (omega arith) here)

Found-sound :
    {buf : Bytes} {c lo hi end : ℕ} {r : Reply ℕ} (q : ℕ)
    → Found buf c lo hi end r
    → r ≡ ok q
    → IsFirst (bit_at buf) c lo end q
Found-sound {buf} {c} {lo} {end = end} q (hit p s e) d =
    let same : p ≡ q = cc in subst (λ t. IsFirst (bit_at buf) c lo end t) same s
Found-sound q (refused p s l e) d = cc
Found-sound q (missing s e) d = cc

module _ {buf : Bytes} {n : ℕ} (v : IsValid buf n) (small : n < 2 ^ 32 - 64) where
  module _ (begin len : ℕ) (some_left : 0 < len) (fits : begin + len ≤ n) where
    room : 8 * size_in_8byte (begin + len) ≤ length buf
    room = omega (arith, v.whole, size_in_8byte_mono (begin + len) n fits)

    find_one-Found :
        Found buf 1 begin
          (begin + len)
          (64 * size_in_8byte (begin + len))
          (find_one (some (array buf n)) begin (pos len))
    unfolding find_one
    find_one-Found =
        rw (check_in_range v begin len fits)
          (find_range-Found one-Finder buf v.bytes begin len some_left room (omega arith))

    find_zero-Found :
        Found buf 0 begin
          (begin + len)
          (64 * size_in_8byte (begin + len))
          (find_zero (some (array buf n)) begin (pos len))
    unfolding find_zero
    find_zero-Found =
        rw (check_in_range v begin len fits)
          (find_range-Found zero-Finder buf v.bytes begin len some_left room (omega arith))

  -- Of a valid array of fewer than 2^32 - 64 bits, where a range inside it holds a set bit,
  -- baFindOne returns the position of the first set bit of the range.
  pub find_one_complete :
      (begin len q : ℕ)
      → begin + len ≤ n
      → begin ≤ q
      → q < begin + len
      → bit_at buf q ≡ 1
      → (p : ℕ) × (find_one (some (array buf n)) begin (pos len) ≡ ok p)
        × IsFirst (bit_at buf) 1 begin (begin + len) p
  find_one_complete begin len q fits a b here =
      Found-complete q (find_one-Found begin len (omega arith) fits) a b here
        (omega (arith, size_in_8byte_bounds (begin + len)))

  -- Of a valid array of fewer than 2^32 - 64 bits, where a range inside it holds a clear bit,
  -- baFindZero returns the position of the first clear bit of the range.
  pub find_zero_complete :
      (begin len q : ℕ)
      → begin + len ≤ n
      → begin ≤ q
      → q < begin + len
      → bit_at buf q ≡ 0
      → (p : ℕ) × (find_zero (some (array buf n)) begin (pos len) ≡ ok p)
        × IsFirst (bit_at buf) 0 begin (begin + len) p
  find_zero_complete begin len q fits a b here =
      Found-complete q (find_zero-Found begin len (omega arith) fits) a b here
        (omega (arith, size_in_8byte_bounds (begin + len)))

  -- Of a valid array of fewer than 2^32 - 64 bits, for a nonempty range inside it, whatever
  -- baFindOne returns is the first set bit from the beginning of the range on, and lies before the
  -- end of the quadword in which the range ends.
  pub find_one_sound :
      (begin len p : ℕ)
      → 0 < len
      → begin + len ≤ n
      → find_one (some (array buf n)) begin (pos len) ≡ ok p
      → IsFirst (bit_at buf) 1 begin (64 * size_in_8byte (begin + len)) p
  find_one_sound begin len p some_left fits =
      Found-sound p (find_one-Found begin len some_left fits)

  -- Of a valid array of fewer than 2^32 - 64 bits, for a nonempty range inside it, whatever
  -- baFindZero returns is the first clear bit from the beginning of the range on, and lies before
  -- the end of the quadword in which the range ends.
  pub find_zero_sound :
      (begin len p : ℕ)
      → 0 < len
      → begin + len ≤ n
      → find_zero (some (array buf n)) begin (pos len) ≡ ok p
      → IsFirst (bit_at buf) 0 begin (64 * size_in_8byte (begin + len)) p
  find_zero_sound begin len p some_left fits =
      Found-sound p (find_zero-Found begin len some_left fits)

  -- Of a valid array of fewer than 2^32 - 64 bits, for a range inside it that begins at a
  -- quadword: where the first set bit stands behind the range, in the quadword in which it ends,
  -- and its place in that quadword is below the length, baFindOne returns that bit.
  pub find_one_escapes :
      (begin len p : ℕ)
      → begin % 64 ≡ 0
      → begin + len ≤ n
      → IsFirst (bit_at buf) 1 begin (64 * size_in_8byte (begin + len)) p
      → begin + len ≤ p
      → p % 64 < len
      → find_one (some (array buf n)) begin (pos len) ≡ ok p
  unfolding find_one
  find_one_escapes begin len p aligned fits s out low = rw (check_in_range v begin len fits) (
      find_range_hit one-Finder buf v.bytes begin len p aligned
        (omega (arith, v.whole, size_in_8byte_mono (begin + len) n fits)) (omega arith) s
      ∙ rw (lt→ltb (p % 64) len low))

  find_rest :
      (find_one (some (array buf n)) 0 minus_one ≡ find_one (some (array buf n)) 0 (pos n))
      × (find_zero (some (array buf n)) 0 minus_one ≡ find_zero (some (array buf n)) 0 (pos n))
  unfolding find_one find_zero
  find_rest =
      let whole : n - 0 ≡ n = omega arith in
      let a = check_rest v 0 v.positive in
      let b = check_in_range v 0 n (omega arith) in (rw (a, b, whole), rw (a, b, whole))

  -- Of a valid array of fewer than 2^32 - 64 bits in which some bit has the value, baFind returns
  -- the first such bit of the whole array, whatever range it is given.
  pub find_whole :
      (begin : ℕ) (len : ℤ) (val : Bool) (q : ℕ)
      → q < n
      → bit_at buf q ≡ (if val then 1 else 0)
      → (p : ℕ) × (find (some (array buf n)) begin len val ≡ ok p)
        × IsFirst (bit_at buf) (if val then 1 else 0) 0 n p
  unfolding find
  find_whole begin len true q h here =
      let same : 0 + n ≡ n = omega arith in
      rw (find_rest.0) (
        subst
          (λ t.
            (p : ℕ) × (find_one (some (array buf n)) 0 (pos n) ≡ ok p)
            × IsFirst (bit_at buf) 1 0 t p)
          same (find_one_complete 0 n q (omega arith) (omega arith) (omega arith) here))
  find_whole begin len false q h here =
      let same : 0 + n ≡ n = omega arith in
      rw (find_rest.1) (
        subst
          (λ t.
            (p : ℕ) × (find_zero (some (array buf n)) 0 (pos n) ≡ ok p)
            × IsFirst (bit_at buf) 0 0 t p)
          same (find_zero_complete 0 n q (omega arith) (omega arith) (omega arith) here))
