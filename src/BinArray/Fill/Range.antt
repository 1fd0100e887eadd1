-- ===== src/BinArray/Fill/Range.antt =====
-- `baFillOne`, `baFillZero` and the full fills, from the caller's side.
use task_lunev.Base.{ℕ, ◌+◌, ◌-◌, ◌*◌, ◌%◌, ◌≤◌, ◌<◌, ◌≡◌, arith, if◌then◌else◌, leb}
use task_lunev.Base.{true, refl, ap, pos, minus_one, some}
use task_lunev.Bits.{test_bit, test_bit_ones, test_bit-zero}
use task_lunev.Memory.{Bytes, fill, ok, fault, ◌>>=◌, shr64}
use task_lunev.Memory.Bits.{bit_at}
use task_lunev.Memory.Words.{within, Rewrites, Rewrites-ext, fill-Rewrites}
use task_lunev.BinArray.{array, check_ptr, size_in_8byte, IsValid}
use task_lunev.BinArray.Check.{Becomes, check_in_range, check_rest, in_buffer, Rewrites-Becomes}
use task_lunev.BinArray.Mask.{mask_first, mask_last}
use task_lunev.BinArray.Fill.{fill_range, fill_one, fill_zero, fill_zero_full, fill_one_full}
use task_lunev.BinArray.Fill.Laws.{or-Writes, and_not-Writes, fill_range-Rewrites}

module _ {buf : Bytes} {n : ℕ} (v : IsValid buf n) where
  -- On a valid array baFillOne over a nonempty range inside it returns normally, sets exactly the
  -- bits of the range, and keeps every other bit and the invariant.
  pub fill_one-Becomes :
      (begin len : ℕ)
      → 0 < len
      → begin + len ≤ n
      → Becomes n
          (λ p. if within begin (begin + len) p then 1 else bit_at buf p)
          (fill_one (some (array buf n)) begin (pos len))
  unfolding fill_one
  fill_one-Becomes begin len some_left fits =
      let w =
        fill_range-Rewrites or-Writes buf begin len v.bytes some_left
          (in_buffer v (begin + len) fits) (size_in_8byte n, v.whole) in
      Rewrites-Becomes v _ w (rw (check_in_range v begin len fits, w.returns))

  -- On a valid array baFillZero over a nonempty range inside it returns normally, clears exactly
  -- the bits of the range, and keeps every other bit and the invariant.
  pub fill_zero-Becomes :
      (begin len : ℕ)
      → 0 < len
      → begin + len ≤ n
      → Becomes n
          (λ p. if within begin (begin + len) p then 0 else bit_at buf p)
          (fill_zero (some (array buf n)) begin (pos len))
  unfolding fill_zero
  fill_zero-Becomes begin len some_left fits =
      let w =
        fill_range-Rewrites and_not-Writes buf begin len v.bytes some_left
          (in_buffer v (begin + len) fits) (size_in_8byte n, v.whole) in
      Rewrites-Becomes v _ w (rw (check_in_range v begin len fits, w.returns))

  -- On a valid array a fill with length -1 from an index of it equals the fill of all the bits
  -- that are left, for baFillOne and baFillZero.
  pub fill_to_end :
      (begin : ℕ)
      → begin < n
      → (fill_one (some (array buf n)) begin minus_one
          ≡ fill_one (some (array buf n)) begin (pos (n - begin)))
        × (fill_zero (some (array buf n)) begin minus_one
            ≡ fill_zero (some (array buf n)) begin (pos (n - begin)))
  unfolding fill_one fill_zero
  fill_to_end begin h =
      let a = check_rest v begin h in
      let b = check_in_range v begin (n - begin) (omega arith) in (rw (a, b), rw (a, b))

  fill_all :
      (x c : ℕ)
      → x < 256
      → ((i : ℕ) → i < 8 → test_bit x i ≡ c)
      → Rewrites buf
          (λ p. if within 0 (64 * size_in_8byte n) p then c else bit_at buf p)
          (fill buf 0 x (8 * size_in_8byte n))
  fill_all x c small h =
      Rewrites-ext _ (λ p. ground (arith, h (p % 8)))
        (fill-Rewrites buf 0 x (8 * size_in_8byte n) v.bytes small (omega (arith, v.whole)))

  -- On a valid array baFillOneFull sets and baFillZeroFull clears every bit of the allocation, the
  -- unused bits of the last quadword included; both keep the invariant.
  pub fill_full-Becomes :
      Becomes n
        (λ p. if within 0 (64 * size_in_8byte n) p then 1 else bit_at buf p)
        (fill_one_full (some (array buf n)))
      × Becomes n
          (λ p. if within 0 (64 * size_in_8byte n) p then 0 else bit_at buf p)
          (fill_zero_full (some (array buf n)))
  unfolding fill_one_full fill_zero_full check_ptr
  fill_full-Becomes =
      let one = fill_all 0xFF 1 (omega arith) (test_bit_ones 8) in
      let nought = fill_all 0x00 0 (omega arith) (λ i h. test_bit-zero i) in
      (
        Rewrites-Becomes v _ one (ap (λ r. r >>= λ b. ok (array b n)) one.returns),
        Rewrites-Becomes v _ nought (ap (λ r. r >>= λ b. ok (array b n)) nought.returns),
      )

-- An empty range passes the check, and the mask is then a shift by the whole width.
mask_first-empty : (rshift : ℕ) → mask_first rshift 0 ≡ fault
unfolding mask_first mask_last shr64
mask_first-empty rshift = refl

-- On a valid array baFillOne and baFillZero of length 0, from an index up to the size, run into
-- undefined behaviour.
pub fill_empty :
    {buf : Bytes} {n : ℕ} (v : IsValid buf n) (begin : ℕ)
    → begin ≤ n
    → (fill_one (some (array buf n)) begin (pos 0) ≡ fault)
      × (fill_zero (some (array buf n)) begin (pos 0) ≡ fault)
unfolding fill_one fill_zero fill_range
fill_empty v begin h =
    let c = check_in_range v begin 0 (omega arith) in
    let e : leb (begin % 64 + 0) 64 ≡ true = ground arith in
    (rw (c, e, mask_first-empty (begin % 64)), rw (c, e, mask_first-empty (begin % 64)))
