-- ===== src/BinArray/SubArray/Dump.antt =====
-- `baDumpBuf`: the dump of a range.
use task_lunev.Base.{
  ℕ, zero, suc, ◌+◌, ◌%◌, ◌<◌, ◌≤◌, ◌≡◌, arith, if◌then◌else◌, ltb, ◌⊎◌, some, pos, refl, ap, ap₂,
  ◌∙◌,
}
use task_lunev.Base.{Option, ℤ, List, ◌∷◌, Bool}
use task_lunev.Memory.{Bytes, Reply, ok, ◌>>=◌}
use task_lunev.Memory.Bits.{bit_at}
use task_lunev.BinArray.{BinArray, array, check_calc_arg, IsValid}
use task_lunev.BinArray.Check.{check_in_range}
use task_lunev.BinArray.Access.Laws.{is_one}
use task_lunev.BinArray.Create.{Allocator, destroy}
use task_lunev.BinArray.Create.Laws.{Granted}
use task_lunev.BinArray.SubArray.{get_sub_array}
use task_lunev.BinArray.SubArray.Laws.{IsSafe}
use task_lunev.BinArray.SubArray.Whole.{get_sub_array-Holds}
use task_lunev.BinArray.Visit.{dump_buf_full}
use task_lunev.BinArray.Visit.Laws.{digits, bits_from, dump_buf_full-digits}

unfoldable pub dump_buf : Allocator → Option BinArray → ℕ → ℤ → Reply Bytes
dump_buf m arr begin len = do
  _ ← check_calc_arg arr begin len
  temp ← get_sub_array m arr begin len
  text ← dump_buf_full (some temp)
  _ ← destroy (some (some temp))
  ok text

-- The same bits, read from the copy and from the range.
bits_from-copy :
    (buf out : Bytes) (begin len : ℕ)
    → ((p : ℕ)
        → (if ltb p len then bit_at out p else 0)
          ≡ (if ltb p len then bit_at buf (begin + p) else 0))
    → (left i : ℕ) → i + left ≤ len
    → bits_from left i out ≡ bits_from left (begin + i) buf
bits_from-copy buf out begin len h zero i l = refl
bits_from-copy buf out begin len h (suc left) i l =
    let same : bit_at out i ≡ bit_at buf (begin + i) = ground (arith, h i) in
    let next : begin + (i + 1) ≡ begin + i + 1 = omega arith in
    ap₂ (λ (b : ℕ) (bs : List Bool). is_one b ∷ bs) same
      (bits_from-copy buf out begin len h left (i + 1) (omega arith)
        ∙ ap (λ j. bits_from left j buf) next)

-- On a valid array, for a nonempty range inside it and an allocator that grants its length, under
-- the same condition on the range as for baGetSubArray, baDumpBuf prints a line from which,
-- without the spaces, the bits of the range can be read back in order.
pub dump_buf-digits :
    {buf : Bytes} {n : ℕ} (m : Allocator) (v : IsValid buf n) (begin len : ℕ)
    → 0 < len
    → begin + len ≤ n
    → Granted m len
    → (begin % 8 ≡ 0) ⊎ ((0 < begin % 8) × IsSafe (begin % 8) len)
    → (text : Bytes) × (dump_buf m (some (array buf n)) begin (pos len) ≡ ok text)
      × (digits text ≡ bits_from len begin buf)
unfolding dump_buf destroy
dump_buf-digits {buf} {n} m v begin len some_left fits g safe =
    let c = get_sub_array-Holds m v begin len some_left fits g safe in
    let (text, r, d) = dump_buf_full-digits c.valid in
    let e : begin + 0 ≡ begin = omega arith in
    (
      text,
      rw (check_in_range v begin len fits, c.returns, r) refl,
      d
          ∙ bits_from-copy buf c.out begin len c.bits len 0 (omega arith)
          ∙ ap (λ j. bits_from len j buf) e,
    )
