-- ===== src/BinArray/Wrapper/Laws.antt =====
-- What the operators of `binarray` do to arrays of the same size, and to others.
use task_lunev.Base.{
  ℕ, zero, suc, ◌*◌, ◌<◌, ◌≤◌, ◌≡◌, ◌≢◌, arith, if◌then◌else◌, ltb, ◌==◌, ◌&&◌, ◌||◌,
}
use task_lunev.Base.{Bool, true, false, some, refl, ◌∙◌}
use task_lunev.Memory.{Bytes}
use task_lunev.Memory.Bits.{bit_at, bit_at-lt}
use task_lunev.BinArray.{array, IsValid, get_num_bits}
use task_lunev.BinArray.Access.Laws.{is_one, get_value_lem, set_value-Becomes}
use task_lunev.BinArray.Create.{Allocator}
use task_lunev.BinArray.Create.Laws.{Granted, get_clone-eq}
use task_lunev.BinArray.Wrapper.{
  Message, Result, value, throws, undefined, Handle, num_bits_of, check_num_bits, assign, read_bit,
  const_at, and_bit, or_bit, or_bits, or_with, and_bits, and_with, logic_and_bits, logic_and, copy,
  and_op, or_op, logic_and_op,
}

-- A return of an array of `n` bits that read as `f`.
pub record Gives (n : ℕ) (f : ℕ → ℕ) (r : Result Handle) : Type 0 where
  pub out : Bytes
  pub returns : r ≡ value (some (array out n))
  pub valid : IsValid out n
  pub bits : (p : ℕ) → bit_at out p ≡ f p

num_bits_lem : (buf : Bytes) (n : ℕ) → num_bits_of (some (array buf n)) ≡ value n
unfolding num_bits_of get_num_bits
num_bits_lem buf n = refl

module _ {buf : Bytes} {n : ℕ} (v : IsValid buf n) (i : ℕ) (h : i < n) where
  read_bit_lem : read_bit (some (array buf n)) i ≡ value (is_one (bit_at buf i))
  unfolding read_bit
  read_bit_lem = rw (read_bit, get_value_lem v i h)

  const_at_lem : const_at (some (array buf n)) i ≡ value (is_one (bit_at buf i))
  unfolding const_at
  const_at_lem = rw (const_at, get_value_lem v i h)

  assign-Gives :
      (val : Bool)
      → Gives n
          (λ p. if p == i then (if val then 1 else 0) else bit_at buf p)
          (assign (some (array buf n)) i val)
  unfolding assign
  assign-Gives val =
      let w = set_value-Becomes v i val h in
      record { out = w.out; returns = rw (assign, w.returns); valid = w.valid; bits = w.bits }

logic_and_bits-Gives :
    (i : ℕ) {a b : Bytes} {n m : ℕ} (v : IsValid a n) (w : IsValid b m)
    → i ≤ n
    → i ≤ m
    → Gives n
        (λ p. if ltb p i then bit_at a p * bit_at b p else bit_at a p)
        (logic_and_bits i (some (array a n)) (some (array b m)))
unfolding logic_and_bits
logic_and_bits-Gives zero {a} v w h k = record {
  out = a;
  returns = refl;
  valid = v;
  bits = λ p. ground arith;
}
logic_and_bits-Gives (suc i) {a} {b} {n} {m} v w h k =
    let both = is_one (bit_at a i) && is_one (bit_at b i) in
    let s = assign-Gives v i (omega arith) both in
    let u = logic_and_bits-Gives i s.valid w (omega arith) (omega arith) in
    let r : (if is_one (bit_at a i) then const_at (some (array b m)) i else value false)
        ≡ value both =
      rw (const_at_lem w i (omega arith)) (ground arith) in
    record {
      out = u.out;
      returns = rw (read_bit_lem v i (omega arith), r, s.returns, u.returns);
      valid = u.valid;
      bits = λ p. u.bits p ∙ ground (arith, s.bits p, bit_at-lt a i, bit_at-lt b i);
    }

-- With an allocator that grants the blocks, operator && of two valid arrays of the same size gives
-- a valid array of that size with the conjunction of their bits; behind the size it has the bits
-- of the left one.
pub logic_and_op-Gives :
    {a b : Bytes} {n : ℕ} (m : Allocator)
    → IsValid a n
    → IsValid b n
    → Granted m n
    → Gives n
        (λ p. if ltb p n then bit_at a p * bit_at b p else bit_at a p)
        (logic_and_op m (some (array a n)) (some (array b n)))
unfolding logic_and_op copy logic_and check_num_bits
logic_and_op-Gives {a} {b} {n} m v w g =
    let u = logic_and_bits-Gives n v w (omega arith) (omega arith) in
    let e : (n == n) ≡ true = ground arith in
    record {
      out = u.out;
      returns = rw (get_clone-eq m v g, num_bits_lem a n, num_bits_lem b n, e, u.returns);
      valid = u.valid;
      bits = u.bits;
    }

-- The operators throw for arrays of different sizes.
pub operators_throw :
    {a : Bytes} {n : ℕ} (b : Bytes) (k : ℕ) (m : Allocator)
    → IsValid a n
    → Granted m n
    → n ≢ k
    → (logic_and_op m (some (array a n)) (some (array b k)) ≡ throws Message.sizes_differ)
      × (and_op m (some (array a n)) (some (array b k)) ≡ throws Message.sizes_differ)
      × (or_op m (some (array a n)) (some (array b k)) ≡ throws Message.sizes_differ)
unfolding logic_and_op and_op or_op copy logic_and and_with or_with check_num_bits
operators_throw {a} {n} b k m v g h =
    let e : (n == k) ≡ false = ground arith in
    let c = get_clone-eq m v g in
    (
      rw (c, num_bits_lem a n, num_bits_lem b k, e),
      rw (c, num_bits_lem a n, num_bits_lem b k, e),
      rw (c, num_bits_lem a n, num_bits_lem b k, e),
    )

module _ {buf : Bytes} {n : ℕ} (v : IsValid buf n) (i : ℕ) (h : i < n) (val : Bool) where
  and_bit-undefined : and_bit (some (array buf n)) i val ≡ undefined
  unfolding and_bit
  and_bit-undefined =
      rw (read_bit_lem v i h, (assign-Gives v i h (is_one (bit_at buf i) && val)).returns)

  or_bit-undefined : or_bit (some (array buf n)) i val ≡ undefined
  unfolding or_bit
  or_bit-undefined =
      rw (read_bit_lem v i h, (assign-Gives v i h (is_one (bit_at buf i) || val)).returns)

module _ {a b : Bytes} {i : ℕ} (m : Allocator) (v : IsValid a (suc i)) (w : IsValid b (suc i))
    (g : Granted m (suc i)) where
  same : (suc i == suc i) ≡ true
  same = ground arith

  and_op-undefined : and_op m (some (array a (suc i))) (some (array b (suc i))) ≡ undefined
  unfolding and_op copy and_with check_num_bits and_bits
  and_op-undefined = rw (
    get_clone-eq m v g,
    num_bits_lem a (suc i),
    num_bits_lem b (suc i),
    same,
    const_at_lem w i (omega arith),
    and_bit-undefined v i (omega arith) (is_one (bit_at b i)),
  )

  or_op-undefined : or_op m (some (array a (suc i))) (some (array b (suc i))) ≡ undefined
  unfolding or_op copy or_with or_bits
  or_op-undefined = rw (
    get_clone-eq m v g,
    num_bits_lem a (suc i),
    num_bits_lem b (suc i),
    same,
    const_at_lem w i (omega arith),
    or_bit-undefined v i (omega arith) (is_one (bit_at b i)),
  )

-- With an allocator that grants the blocks, operator & and operator | of two valid arrays of the
-- same size have undefined behaviour.
pub operators-undefined :
    {a b : Bytes} {n : ℕ} (m : Allocator)
    → IsValid a n
    → IsValid b n
    → Granted m n
    → (and_op m (some (array a n)) (some (array b n)) ≡ undefined)
      × (or_op m (some (array a n)) (some (array b n)) ≡ undefined)
operators-undefined {n = zero} m v w g = absurd (omega (arith, v.positive))
operators-undefined {a} {b} {n = suc i} m v w g =
    (and_op-undefined m v w g, or_op-undefined m v w g)
