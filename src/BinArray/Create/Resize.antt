-- ===== src/BinArray/Create/Resize.antt =====
-- `baResize`.
use task_lunev.Base.{ℕ, ◌+◌, ◌-◌, ◌*◌, ◌/◌, ◌%◌, ◌^◌, ◌≤◌, ◌<◌, ◌≡◌, arith, true, false}
use task_lunev.Base.{◌==◌, some, length, take, ◌++◌, ap, sym, ◌∙◌, dec_lt}
use task_lunev.Base.{
  length-append, length-take, get_or-take, get_or-append_left, get_or-append_right,
}
use task_lunev.Base.{get_or_beyond}
use task_lunev.Bits.{test_bit}
use task_lunev.Memory.{Bytes, byte, Reply, ok}
use task_lunev.Memory.Bits.{bit_at, IsBytes, bit_at_eq}
use task_lunev.BinArray.{BinArray, array, check_ptr, IsValid, size_in_8byte, bits2bytes}
use task_lunev.BinArray.Create.{Allocator, stale_from, resize, ba_reallocarray}
use task_lunev.BinArray.Create.Laws.{length-stale_from, get_or-stale_from}

-- What `baResize` leaves: a valid array of the new size, the bits of the old buffer as far as both
-- reach, and behind them whatever the allocator left there.
pub record Resized (m : Allocator) (buf : Bytes) (n' : ℕ) (r : Reply BinArray) : Type 0 where
  pub out : Bytes
  pub returns : r ≡ ok (array out n')
  pub valid : IsValid out n'
  pub kept : (p : ℕ) → p < 8 * length buf → p < 64 * size_in_8byte n' → bit_at out p ≡ bit_at buf p
  pub stale :
      (p : ℕ)
      → 8 * length buf ≤ p
      → p < 64 * size_in_8byte n'
      → bit_at out p ≡ test_bit (m.stale (p / 8)) (p % 8)

module _ (m : Allocator) (buf : Bytes) (k : ℕ) where
  abbrev regrown : Bytes
  regrown = take k (buf ++ stale_from m.stale (length buf) (k - length buf))

  length-regrown : length regrown ≡ k
  length-regrown = length-take k (buf ++ stale_from m.stale (length buf) (k - length buf)) (
      omega (
        arith,
        length-append buf (stale_from m.stale (length buf) (k - length buf)),
        length-stale_from m.stale (length buf) (k - length buf),
      ))

  old_byte : (i : ℕ) → i < length buf → i < k → byte regrown i ≡ byte buf i
  old_byte i h lt =
      get_or-take k (buf ++ stale_from m.stale (length buf) (k - length buf)) i 0 lt
      ∙ get_or-append_left buf _ i 0 h

  new_byte : (i : ℕ) → length buf ≤ i → i < k → byte regrown i ≡ m.stale i
  new_byte i h lt =
      let e : length buf + (i - length buf) ≡ i = omega arith in
      get_or-take k (buf ++ stale_from m.stale (length buf) (k - length buf)) i 0 lt
      ∙ get_or-append_right buf _ i 0 h
      ∙ get_or-stale_from m.stale (length buf) (k - length buf) (i - length buf) (omega arith)
      ∙ ap m.stale e

  regrown-IsBytes : IsBytes buf → IsBytes regrown
  regrown-IsBytes h i = elim (dec_lt i k) [
    | yes a ↦ elim (dec_lt i (length buf)) [
      | yes b ↦ omega (arith, old_byte i b a, h i)
      | no b ↦ omega (arith, new_byte i (omega arith) a, m.stale-lt i)
    ]
    | no a ↦ omega (arith, get_or_beyond regrown i 0 (omega (arith, length-regrown)))
  ]

ba_reallocarray-ok :
    (m : Allocator) (buf : Bytes) (k : ℕ)
    → m.grants k ≡ true
    → ba_reallocarray m buf k 1 ≡ some (regrown m buf k)
unfolding ba_reallocarray bits2bytes
ba_reallocarray-ok m buf k g = let one : k * 1 ≡ k = omega arith in rw (one, g)

-- On a valid array baResize to a nonzero size below 2^63 that the allocator grants gives a valid
-- array of that size; it keeps the bits that both buffers hold, and the bits behind the old buffer
-- are what the allocator left there.
pub resize-Resized :
    {buf : Bytes} {n : ℕ} (m : Allocator) (n' : ℕ)
    → IsValid buf n
    → 0 < n'
    → n' < 2 ^ 63
    → m.grants (8 * size_in_8byte n') ≡ true
    → Resized m buf n' (resize m (some (array buf n)) n')
unfolding resize check_ptr
resize-Resized {buf} m n' v some_bits countable g =
    let k = 8 * size_in_8byte n' in
    let e : (n' == 0) ≡ false = ground arith in
    record {
      out = regrown m buf k;
      returns = rw (e, ba_reallocarray-ok m buf k g);
      valid = record {
        whole = length-regrown m buf k;
        bytes = regrown-IsBytes m buf k v.bytes;
        positive = some_bits;
        countable = countable;
      };
      kept = λ p a b.
          bit_at_eq (regrown m buf k) p
          ∙ ap (λ t. test_bit t (p % 8)) (old_byte m buf k (p / 8) (omega arith) (omega arith))
          ∙ sym (bit_at_eq buf p);
      stale = λ p a b.
          bit_at_eq (regrown m buf k) p
          ∙ ap (λ t. test_bit t (p % 8)) (new_byte m buf k (p / 8) (omega arith) (omega arith));
    }
