-- ===== src/BinArray/Create/Laws.antt =====
-- Fresh, resized and cloned arrays.
use task_lunev.Base.{ℕ, zero, ◌+◌, ◌*◌, ◌/◌, ◌%◌, ◌<◌, ◌≡◌, arith, true, false}
use task_lunev.Base.{leb, ◌==◌, some, length, take, replicate, refl, ap, ◌∙◌}
use mathlib.Core.List.{append-nil}
use task_lunev.Base.{drop, suc, take_all, drop_all, le→leb, length-replicate}
use task_lunev.Base.{get_or-replicate, get_or, []}
use task_lunev.Bits.{test_bit-zero}
use task_lunev.Memory.{Bytes, ok}
use task_lunev.Memory.Bits.{IsBytes, bit_at_eq}
use task_lunev.BinArray.{array, check_ptr, IsValid, size_in_8byte, size_in_8byte_bounds, bits2bytes}
use task_lunev.BinArray.Check.{Becomes}
use task_lunev.BinArray.Create.{
  Allocator, kill_allocator, sizeof_bin_array, stale_from, create, get_clone, ba_calloc, members,
}

-- The allocator grants the blocks that an array of `n` bits needs, and the size is not the one
-- that the code refuses.
pub record Granted (m : Allocator) (n : ℕ) : Type 0 where
  pub structure : m.grants sizeof_bin_array ≡ true
  pub buffer : m.grants (8 * size_in_8byte n) ≡ true
  pub not_killed : n + 64 < kill_allocator

pub zero-IsBytes : (k : ℕ) → IsBytes (replicate k 0)
zero-IsBytes k i = omega (arith, get_or-replicate {A = ℕ} k i 0)

ba_calloc-ok :
    (m : Allocator) (k : ℕ)
    → k < 20705193268143112
    → m.grants k ≡ true
    → ba_calloc m 1 k ≡ some (replicate k 0)
unfolding ba_calloc bits2bytes
ba_calloc-ok m k small g =
    let e : (k == 20705193268143112) ≡ false = ground arith in
    let one : 1 * k ≡ k = omega arith in rw (e, one, g)

create-ok :
    (m : Allocator) (n : ℕ)
    → 0 < n
    → Granted m n
    → create m n ≡ ok (array (replicate (8 * size_in_8byte n) 0) n)
unfolding create
create-ok m n some_bits g =
    let e : (n == 0) ≡ false = ground arith in
    rw (
      e,
      ba_calloc-ok m sizeof_bin_array (omega arith) g.structure,
      ba_calloc-ok m (8 * size_in_8byte n) (omega (arith, g.not_killed, size_in_8byte_bounds n))
          g.buffer,
    )

-- With an allocator that grants the blocks, baCreate of a nonzero size gives a valid array of that
-- size whose bits are all 0.
pub create-Becomes : (m : Allocator) (n : ℕ) → 0 < n → Granted m n → Becomes n (λ p. 0) (create m n)
create-Becomes m n some_bits g = record {
  out = replicate (8 * size_in_8byte n) 0;
  returns = create-ok m n some_bits g;
  valid = record {
    whole = length-replicate (8 * size_in_8byte n) 0;
    bytes = zero-IsBytes (8 * size_in_8byte n);
    positive = some_bits;
    countable = omega (arith, g.not_killed);
  };
  bits = λ p.
      bit_at_eq _ p
      ∙ rw (get_or-replicate {A = ℕ} (8 * size_in_8byte n) (p / 8) 0) (test_bit-zero (p % 8));
}

-- With an allocator that grants the blocks, baGetClone of a valid array is equal to it, byte for
-- byte.
pub get_clone-eq :
    {buf : Bytes} {n : ℕ} (m : Allocator)
    → IsValid buf n
    → Granted m n
    → get_clone m (some (array buf n)) ≡ ok (array buf n)
unfolding get_clone check_ptr members
get_clone-eq {buf} {n} m v g =
    let k = 8 * size_in_8byte n in
    let c = create-ok m n v.positive g in
    let room : leb k (length buf) ≡ true = le→leb k (length buf) (omega (arith, v.whole)) in
    let fresh : leb k (length (replicate {A = ℕ} k 0)) ≡ true =
      le→leb k _ (omega (arith, length-replicate {A = ℕ} k 0)) in
    let whole : take k buf ≡ buf = take_all k buf (omega (arith, v.whole)) in
    let none_left : drop k (replicate {A = ℕ} k 0) ≡ [] =
      drop_all k (replicate {A = ℕ} k 0) (omega (arith, length-replicate {A = ℕ} k 0)) in
    rw (c, room, fresh, whole, none_left, append-nil)

pub length-stale_from : (f : ℕ → ℕ) (i n : ℕ) → length (stale_from f i n) ≡ n
length-stale_from f i zero = refl
length-stale_from f i (suc n) = ap suc (length-stale_from f (i + 1) n)

pub get_or-stale_from : (f : ℕ → ℕ) (i n j : ℕ) → j < n → get_or (stale_from f i n) j 0 ≡ f (i + j)
get_or-stale_from f i zero j h = absurd (omega arith)
get_or-stale_from f i (suc n) zero h = ap f (omega arith)
get_or-stale_from f i (suc n) (suc j) h =
    let e : i + 1 + j ≡ i + suc j = omega arith in
    get_or-stale_from f (i + 1) n j (omega arith) ∙ ap f e
