-- ===== src/BinArray/Mask.antt =====
-- `_baGetMaskFirtsQWord` and `_baGetMaskLastQWord`: runs of ones in a quadword.
use task_lunev.Base.{ℕ, ◌+◌, ◌-◌, ◌*◌, ◌/◌, ◌%◌, ◌^◌, ◌≤◌, ◌<◌, ◌≡◌, arith, if◌then◌else◌, leb}
use task_lunev.Base.{dec_lt}
use native.Mathlib.Nat.{div-le_self}
use task_lunev.Bits.{
  test_bit, test_bit_ones, test_bit_beyond, test_bit-shl, test_bit-shl_below, test_bit-mod,
  test_bit-shr,
}
use task_lunev.Memory.{Reply, ok, fault, ◌>>=◌, shr64, shl64}
use task_lunev.Memory.Words.{within}

-- `len` is a `uint8_t`: above 64 the shift is by a negative number, at 0 by the whole width.
unfoldable pub mask_last : ℕ → Reply ℕ
mask_last len = if leb len 64 then shr64 (2 ^ 64 - 1) (64 - len) else fault

unfoldable pub mask_first : ℕ → ℕ → Reply ℕ
mask_first rshift len = do ones ← mask_last len; shl64 ones rshift

-- A reply that is a quadword with ones from `lo` to below `hi` and nowhere else.
pub record IsMask (lo hi : ℕ) (r : Reply ℕ) : Type 0 where
  pub mask : ℕ
  pub returns : r ≡ ok mask
  pub fits : mask < 2 ^ 64
  pub bits : (i : ℕ) → i < 64 → test_bit mask i ≡ (if within lo hi i then 1 else 0)

ones_bits :
    (len i : ℕ)
    → 0 < len
    → len ≤ 64
    → test_bit ((2 ^ 64 - 1) / 2 ^ (64 - len)) i ≡ (if within 0 len i then 1 else 0)
ones_bits len i pos le = elim (dec_lt i len) [
  | yes p ↦
      ground (
        arith,
        test_bit-shr (64 - len) (2 ^ 64 - 1) i,
        test_bit_ones 64 (64 - len + i) (omega arith),
      )
  | no p ↦ ground (
    arith,
    test_bit-shr (64 - len) (2 ^ 64 - 1) i,
    test_bit_beyond 64 (2 ^ 64 - 1) (64 - len + i) (omega arith) (omega arith),
  )
]

pub mask_last-IsMask : (len : ℕ) → 0 < len → len ≤ 64 → IsMask 0 len (mask_last len)
unfolding mask_last shr64
mask_last-IsMask len pos le = record {
  mask = (2 ^ 64 - 1) / 2 ^ (64 - len);
  returns = ground arith;
  fits = omega (arith, div-le_self (2 ^ 64 - 1) (2 ^ (64 - len)));
  bits = λ i h. ones_bits len i pos le;
}

shl64-IsMask :
    (m rshift len : ℕ)
    → ((i : ℕ) → i < 64 → test_bit m i ≡ (if within 0 len i then 1 else 0))
    → 0 < len
    → rshift + len ≤ 64
    → IsMask rshift (rshift + len) (shl64 m rshift)
unfolding shl64
shl64-IsMask m rshift len h pos le = record {
  mask = m * 2 ^ rshift % 2 ^ 64;
  returns = ground arith;
  fits = omega arith;
  bits = λ i lt. ground (
    arith,
    test_bit-mod 64 (m * 2 ^ rshift) i lt,
    test_bit-shl_below rshift m i,
    test_bit-shl rshift m i,
    h (i - rshift),
  );
}

-- For a nonempty run inside a quadword, _baGetMaskFirtsQWord returns the quadword with ones at the
-- run and nowhere else.
pub mask_first-IsMask :
    (rshift len : ℕ)
    → 0 < len
    → rshift + len ≤ 64
    → IsMask rshift (rshift + len) (mask_first rshift len)
unfolding mask_first
mask_first-IsMask rshift len pos le =
    let w = mask_last-IsMask len pos (omega arith) in
    rw (w.returns) (shl64-IsMask w.mask rshift len w.bits pos le)
