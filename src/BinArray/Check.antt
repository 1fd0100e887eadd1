-- ===== src/BinArray/Check.antt =====
-- What the checks of the arguments accept, and the form in which the operations are specified.
use task_lunev.Base.{ℕ, ◌+◌, ◌-◌, ◌*◌, ◌^◌, ◌≤◌, ◌<◌, ◌≡◌, arith, ◌↔◌}
use task_lunev.Base.{some, pos, minus_one, length, ◌∙◌}
use task_lunev.Memory.{Bytes, Reply, ok, fail, unset}
use task_lunev.Memory.Bits.{bit_at}
use task_lunev.Memory.Words.{Rewrites}
use task_lunev.BinArray.{
  BinArray, array, Arg, calc_len, check_calc_arg, size_in_8byte_bounds, IsValid,
}

-- A normal return of an array of `num_bits` bits that read as `f`.
pub record Becomes (num_bits : ℕ) (f : ℕ → ℕ) (r : Reply BinArray) : Type 0 where
  pub out : Bytes
  pub returns : r ≡ ok (array out num_bits)
  pub valid : IsValid out num_bits
  pub bits : (p : ℕ) → bit_at out p ≡ f p

abbrev pub live_arg : Bytes → ℕ → ℕ → Arg
live_arg buf n len = record { buf = buf; num_bits = n; len = len }

-- Where neither the size plus one nor the end of the range reaches 2^64, baCheckCalcArg accepts a
-- nonnegative length exactly when the range ends inside the array.
pub calc_len_iff :
    (n begin len : ℕ)
    → n + 1 < 2 ^ 64
    → begin + len < 2 ^ 64
    → (calc_len n begin (pos len) ≡ some len) ↔ (begin + len ≤ n)
unfolding calc_len
calc_len_iff n begin len h k = ground arith

-- With length -1 baCheckCalcArg gives a length exactly when the range begins inside the array and
-- the length reaches its end.
pub calc_len-minus_one :
    (n begin len : ℕ) → (calc_len n begin minus_one ≡ some len) ↔ ((begin < n) × (begin + len ≡ n))
unfolding calc_len
calc_len-minus_one n begin len = ground arith

-- Where the end of the range wraps round 2^64 to at most the size, baCheckCalcArg accepts the
-- length, and the range lies outside the array.
pub calc_len_wraps :
    (n begin len : ℕ)
    → n + 1 < 2 ^ 64
    → begin + len < 2 * 2 ^ 64
    → 2 ^ 64 ≤ begin + len
    → begin + len ≤ 2 ^ 64 + n
    → (calc_len n begin (pos len) ≡ some len) × (n < begin + len)
unfolding calc_len
calc_len_wraps n begin len h a b c = ground arith

module _ {buf : Bytes} {n : ℕ} (v : IsValid buf n) where
  pub check_in_range :
      (begin len : ℕ)
      → begin + len ≤ n
      → check_calc_arg (some (array buf n)) begin (pos len) ≡ ok (live_arg buf n len)
  unfolding check_calc_arg
  check_in_range begin len h = ground (arith, v.countable)

  pub check_rest :
      (begin : ℕ)
      → begin < n
      → check_calc_arg (some (array buf n)) begin minus_one ≡ ok (live_arg buf n (n - begin))
  unfolding check_calc_arg
  check_rest begin h = ground arith

  pub check_outside :
      (begin len : ℕ)
      → n < begin + len
      → begin + len < 2 ^ 64
      → check_calc_arg (some (array buf n)) begin (pos len) ≡ fail unset
  unfolding check_calc_arg
  check_outside begin len h k = ground (arith, v.countable)

  pub in_buffer : (p : ℕ) → p ≤ n → p ≤ 8 * length buf
  in_buffer p h = omega (arith, v.whole, size_in_8byte_bounds n)

  -- The same memory behind a rewriting that keeps the size.
  pub Rewrites-Becomes :
      (f : ℕ → ℕ) {r : Reply Bytes} (w : Rewrites buf f r) {q : Reply BinArray}
      → q ≡ ok (array w.out n)
      → Becomes n f q
  Rewrites-Becomes f w e = record {
    out = w.out;
    returns = e;
    valid = record {
      whole = w.same_length ∙ v.whole;
      bytes = w.bytes;
      positive = v.positive;
      countable = v.countable;
    };
    bits = w.bits;
  }
