-- ===== src/BinArray/SubArray/Overflow.antt =====
-- Where `baGetSubArray` writes behind the fresh buffer.
use task_lunev.Base.{
  ℕ, zero, suc, ◌+◌, ◌-◌, ◌*◌, ◌/◌, ◌%◌, ◌^◌, ◌<◌, ◌≤◌, ◌≡◌, arith, ◌==◌, false, length, some, pos,
  refl, ap, ◌∙◌, min,
}
use task_lunev.Base.{lt→leb_false}
use task_lunev.Memory.{Bytes, ok, fault, ◌>>=◌, store, load_from}
use task_lunev.Memory.Bits.{IsBytes}
use task_lunev.Memory.Words.{load-ok}
use task_lunev.BinArray.{array, bits2bytes, size_in_8byte, IsValid}
use task_lunev.BinArray.Check.{check_in_range, in_buffer}
use task_lunev.BinArray.Create.{Allocator, members}
use task_lunev.BinArray.Create.Laws.{Granted, create-Becomes}
use task_lunev.BinArray.SubArray.{shift_word, shift_words, count_u56, shift_range, get_sub_array}
use task_lunev.BinArray.SubArray.Laws.{IsCopy, shift_word-Copies}

store-fault : (n : ℕ) (mem : Bytes) (a v : ℕ) → length mem < a + n → store n mem a v ≡ fault
unfolding store
store-fault n mem a v h = rw (lt→leb_false (a + n) (length mem) h)

size_whole : (len : ℕ) → len % 448 ≡ 0 → 8 * size_in_8byte len ≡ len / 8
unfolding size_in_8byte
size_whole len h = ground arith

-- The number of words of 7 bytes.
words_count :
    (r len : ℕ)
    → 0 < r
    → r < 8
    → 0 < len
    → len % 448 ≡ 0
    → count_u56 (bits2bytes (len + r)) len ≡ len / 56
unfolding count_u56 bits2bytes
words_count r len some_shift small some_left h = ground arith

module _ (buf : Bytes) (h : IsBytes buf) (k r : ℕ) where
  -- Words of 8 bytes, 7 apart, whose last one ends one byte behind the buffer.
  shift_word-fault :
      (a size bits : ℕ) (sub : Bytes)
      → IsCopy buf h k r size bits sub
      → a + 7 ≡ size
      → k + size + 1 ≤ length buf
      → shift_word buf k r 8 8 sub a ≡ fault
  unfolding shift_word
  shift_word-fault a size bits sub c e fits =
      rw (load-ok 8 buf (k + a) (omega arith))
        (store-fault 8 sub a (load_from 8 buf (k + a) / 2 ^ r) (omega (arith, c.same_length)))

  shift_words-fault :
      (left a size bits : ℕ) (sub : Bytes)
      → r < 8
      → IsCopy buf h k r size bits sub
      → 8 * a ≤ bits
      → a + 7 * suc left ≡ size
      → k + size + 1 ≤ length buf
      → shift_words buf k r 8 7 (suc left) sub a ≡ fault
  unfolding shift_words
  shift_words-fault zero a size bits sub small c low e fits =
      ap (λ q. q >>= λ sub'. ok sub') (shift_word-fault a size bits sub c e fits)
  shift_words-fault (suc left) a size bits sub small c low e fits =
      let first =
        shift_word-Copies buf h k r 8 8 a size bits sub c low (omega arith) (omega arith) in
      ap (λ q. q >>= λ sub'. shift_words buf k r 8 7 (suc left) sub' (a + 7)) first.returns
      ∙ shift_words-fault left (a + 7) size (8 * a + min 64 (64 - r)) first.out small first.copy
          (omega arith) (omega arith) fits

-- On a valid array, for a nonempty range inside it that does not begin at a byte and whose length
-- is a multiple of 448, and an allocator that grants its length, baGetSubArray writes behind the
-- buffer that it allocated.
pub get_sub_array-fault :
    {buf : Bytes} {n : ℕ} (m : Allocator) (v : IsValid buf n) (begin len : ℕ)
    → 0 < len
    → len % 448 ≡ 0
    → 0 < begin % 8
    → begin + len ≤ n
    → Granted m len
    → get_sub_array m (some (array buf n)) begin (pos len) ≡ fault
unfolding get_sub_array members shift_range
get_sub_array-fault {buf} {n} m v begin len some_left whole shifted fits g =
    let r = begin % 8 in
    let k = begin / 8 in
    let a = check_in_range v begin len fits in
    let c = create-Becomes m len some_left g in
    let inside = in_buffer v (begin + len) fits in
    let e : (r == 0) ≡ false = ground arith in
    let count = words_count r len shifted (omega arith) some_left whole in
    let left = len / 56 - 1 in
    let size = size_whole len whole in
    let many : len / 56 ≡ suc left = omega arith in
    let copy : IsCopy buf v.bytes k r (len / 8) 0 c.out = record {
      same_length = c.valid.whole ∙ size;
      bytes = c.valid.bytes;
      bits = λ p l. absurd (omega arith);
    } in
    let f =
      shift_words-fault buf v.bytes k r left 0 (len / 8) 0 c.out (omega arith) copy (omega arith)
        (omega arith) (omega (arith, inside)) in
    rw (a, c.returns, e, count, many, f) refl
