-- ===== src/BinArray/Complement/Laws.antt =====
-- What `baGetInvert` gives, with the unused bits of its last byte.
use task_lunev.Base.{
  ℕ, zero, suc, ◌+◌, ◌-◌, ◌*◌, ◌/◌, ◌%◌, ◌^◌, ◌≤◌, ◌≡◌, arith, if◌then◌else◌, ltb,
}
use task_lunev.Base.{length, some, refl, ◌∙◌}
use task_lunev.Bits.{test_bit-not}
use task_lunev.Memory.{Bytes, load_from}
use task_lunev.Memory.Bits.{bit_at, IsBytes, test_bit-load_from, load_from-lt}
use task_lunev.Memory.Words.{within, Rewrites, Rewrites-ext, Rewrites->>=, load-ok, store-Rewrites}
use task_lunev.BinArray.{array, check_ptr, IsValid, bits2bytes, size_in_8byte}
use task_lunev.BinArray.Check.{Becomes}
use task_lunev.BinArray.Create.{Allocator, members}
use task_lunev.BinArray.Create.Laws.{Granted, create-Becomes}
use task_lunev.BinArray.Complement.{invert_into, get_invert}

module _ (w : ℕ) (buf : Bytes) (h : IsBytes buf) where
  invert_into-Rewrites :
      (left a : ℕ) (inv : Bytes)
      → IsBytes inv
      → a + w * left ≤ length buf
      → a + w * left ≤ length inv
      → Rewrites inv
          (λ p. if within (8 * a) (8 * (a + w * left)) p then 1 - bit_at buf p else bit_at inv p)
          (invert_into w left buf inv a)
  unfolding invert_into
  invert_into-Rewrites zero a inv k fits room = record {
    out = inv;
    returns = refl;
    same_length = refl;
    bytes = k;
    bits = λ p. ground arith;
  }
  invert_into-Rewrites (suc left) a inv k fits room =
      let x = load_from w buf a in
      let s =
        Rewrites-ext
          (λ p. if within (8 * a) (8 * (a + w)) p then 1 - bit_at buf p else bit_at inv p)
          (λ p. ground (
            arith,
            test_bit-not (8 * w) x (p - 8 * a) (load_from-lt w buf a h),
            test_bit-load_from w buf a (p - 8 * a) h,
          ))
          (store-Rewrites w inv a (2 ^ (8 * w) - 1 - x) k (omega arith)) in
      rw (load-ok w buf a (omega arith)) (
        Rewrites-ext _ (λ p. ground (arith, s.bits p))
          (Rewrites->>= _ (λ b. invert_into w left buf b (a + w)) s
            (invert_into-Rewrites left (a + w) s.out s.bytes (omega arith)
              (omega (arith, s.same_length)))))

bytes_split :
    (n : ℕ)
    → (8 * (n / 64) + bits2bytes (n % 64) ≡ bits2bytes n) × (bits2bytes n ≤ 8 * size_in_8byte n)
unfolding bits2bytes size_in_8byte
bytes_split n = ground arith

-- With an allocator that grants the blocks, baGetInvert of a valid array gives a valid array of
-- the same size that holds the inverted bits up to the end of its last byte in use, and zeros
-- behind.
pub get_invert-Becomes :
    {buf : Bytes} {n : ℕ} (m : Allocator)
    → IsValid buf n
    → Granted m n
    → Becomes n
        (λ p. if ltb p (8 * bits2bytes n) then 1 - bit_at buf p else 0)
        (get_invert m (some (array buf n)))
unfolding get_invert check_ptr members
get_invert-Becomes {buf} {n} m v g =
    let c = create-Becomes m n v.positive g in
    let size = bytes_split n in
    let u =
      invert_into-Rewrites 8 buf v.bytes (n / 64) 0 c.out c.valid.bytes
        (omega (arith, v.whole, size)) (omega (arith, c.valid.whole, size)) in
    let t =
      invert_into-Rewrites 1 buf v.bytes (bits2bytes (n % 64)) (8 * (n / 64)) u.out u.bytes
        (omega (arith, v.whole, size)) (omega (arith, c.valid.whole, u.same_length, size)) in
    record {
      out = t.out;
      returns = rw (c.returns, u.returns, t.returns) refl;
      valid = record {
        whole = t.same_length ∙ u.same_length ∙ c.valid.whole;
        bytes = t.bytes;
        positive = v.positive;
        countable = v.countable;
      };
      bits = λ p. ground (arith, t.bits p, u.bits p, c.bits p, size);
    }
