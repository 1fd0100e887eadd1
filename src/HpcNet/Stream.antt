-- ===== src/HpcNet/Stream.antt =====
-- HPC.Net/lib/hpc_net.c: `writen` and `readn`, which move a block over a stream socket.
use task_lunev.Base.{
  ℕ, ◌+◌, ◌-◌, ◌%◌, ◌^◌, ◌<◌, ◌≡◌, arith, refl, ap, ap₂, sym, ◌∙◌, Bool, true, false,
}
use task_lunev.Base.{
  if◌then◌else◌, leb, ltb, ◌==◌, ◌&&◌, ◌||◌, not, ℤ, pos, ltbℤ, Option, none, some,
}
use task_lunev.Base.{List, [], ◌∷◌, ◌++◌, length, take, drop, append_assoc, append-nil}
use task_lunev.Base.{dec_lt, take_all, length-drop, length-take, append-take-drop}
use task_lunev.Memory.{Bytes}

-- A block on its way: all of it moved, an error with the bytes moved until then, a call that still
-- waits, or a number that became negative as an `int`, by which the pointer goes back.
pub data Moved : Type 0 where
  done error waiting astray : Bytes → Moved

-- What `write` gives: -1, or the number of bytes that it took.
pub data Written : Type 0 where
  failed : Written
  wrote : ℕ → Written

-- What `read` gives: -1, or bytes; no bytes at the end of the stream.
pub data Got : Type 0 where
  failed : Got
  got : Bytes → Got

-- `len -= num` of a `size_t`.
abbrev pub sub_size : ℕ → ℕ → ℕ
sub_size len num = (len + 2 ^ 64 - num % 2 ^ 64) % 2 ^ 64

-- The bits of `num_written` and `num_readden`: the `int` of a `ssize_t`, negative from 2^31 on.
abbrev pub int_of : ℕ → ℕ
int_of k = k % 2 ^ 32

-- What the test of the loop makes of a number: an error at 0 and at -1, and else it goes on, or
-- back.
abbrev pub by_number : ℕ → Moved → Moved → Moved → Moved
by_number n failing back on =
    if n == 0 || n == 2 ^ 32 - 1 then failing else if ltb n (2 ^ 31) then on else back

-- The loop of `writen` over what the calls of `write` give; `sent` is what the peer has so far.
unfoldable pub write_loop : List Written → Bytes → ℕ → Bytes → Moved
write_loop [] data' len sent = Moved.waiting sent
write_loop (Written.failed ∷ calls) data' len sent = Moved.error sent
write_loop (Written.wrote k ∷ calls) data' len sent =
    let n = int_of k in
    let sent' = sent ++ take k data' in
    let rest = write_loop calls (drop n data') (sub_size len n) sent' in
    by_number n (Moved.error sent') (Moved.astray sent')
      (if sub_size len n == 0 then Moved.done sent' else rest)

-- `data` is a pointer to `len` bytes, or null.
unfoldable pub writen : ℤ → Option Bytes → ℕ → List Written → Moved
writen fd none len calls = Moved.error []
writen fd (some data') len calls =
    if ltbℤ fd (pos 0) then Moved.error [] else write_loop calls data' len []

unfoldable pub read_loop : List Got → ℕ → Bytes → Moved
read_loop [] len buf = Moved.waiting buf
read_loop (Got.failed ∷ calls) len buf = Moved.error buf
read_loop (Got.got c ∷ calls) len buf =
    let n = int_of (length c) in
    let buf' = buf ++ take n c in
    let rest = read_loop calls (sub_size len n) buf' in
    by_number n (Moved.error (buf ++ c)) (Moved.astray (buf ++ c))
      (if sub_size len n == 0 then Moved.done buf' else rest)

-- `valid` says that the pointer is not null.
unfoldable pub readn : ℤ → Bool → ℕ → List Got → Moved
readn fd valid len calls =
    if ltbℤ fd (pos 0) || not valid then Moved.error [] else read_loop calls len []

-- Pieces that `write` takes: none is empty, each is shorter than 2^31 (Linux moves at most
-- 0x7ffff000 bytes in a call), and together they are the whole length.
abbrev pub pieces : List ℕ → ℕ → Bool
pieces [] len = len == 0
pieces (k ∷ ks) len = ltb 0 k && ltb k (2 ^ 31) && leb k len && pieces ks (len - k)

abbrev pub writes : List ℕ → List Written
writes [] = []
writes (k ∷ ks) = Written.wrote k ∷ writes ks

-- The bytes that a stream delivers in these portions.
abbrev pub split : List ℕ → Bytes → List Got
split [] data' = []
split (k ∷ ks) data' = Got.got (take k data') ∷ split ks (drop k data')

-- A number that the loop accepts.
accepted : (n : ℕ) → 0 < n → n < 2 ^ 31 → (n == 0 || n == 2 ^ 32 - 1) ≡ false
accepted n h k = ground arith

write_loop-done :
    (ks : List ℕ) (data' sent : Bytes)
    → length data' < 2 ^ 64
    → 0 < length data'
    → pieces ks (length data') ≡ true
    → write_loop (writes ks) data' (length data') sent ≡ Moved.done (sent ++ data')
unfolding write_loop
write_loop-done [] data' sent h some_left p = ground arith
write_loop-done (k ∷ ks) data' sent h some_left p =
    let n = length data' in
    let left : sub_size n k ≡ length (drop k data') = grind (arith, length-drop k data') in
    let small_int : int_of k ≡ k = ground arith in
    let some = accepted k (ground arith) (ground arith) in
    let on : ltb k (2 ^ 31) ≡ true = ground arith in
    let whole : (sent ++ take k data') ++ drop k data' ≡ sent ++ data' =
      append_assoc sent (take k data') (drop k data')
      ∙ ap (λ xs. sent ++ xs) (append-take-drop k data') in
    elim (dec_lt 0 (n - k)) [
      | yes more ↦
          let e : (sub_size n k == 0) ≡ false = rw left (ground (arith, length-drop k data')) in
          rw (small_int, some, on, e, left)
            (write_loop-done ks (drop k data') (sent ++ take k data')
                (omega (arith, length-drop k data')) (omega (arith, length-drop k data'))
                (rw (length-drop k data') (ground arith))
              ∙ ap Moved.done whole)
      | no all ↦
          let e : (sub_size n k == 0) ≡ true = rw left (ground (arith, length-drop k data')) in
          rw (small_int, some, on, e)
            (ap (λ xs. Moved.done (sent ++ xs)) (take_all k data' (ground arith)))
    ]

read_loop-done :
    (ks : List ℕ) (data' buf : Bytes)
    → length data' < 2 ^ 64
    → 0 < length data'
    → pieces ks (length data') ≡ true
    → read_loop (split ks data') (length data') buf ≡ Moved.done (buf ++ data')
unfolding read_loop
read_loop-done [] data' buf h some_left p = ground arith
read_loop-done (k ∷ ks) data' buf h some_left p =
    let n = length data' in
    let size : length (take k data') ≡ k = length-take k data' (ground arith) in
    let left : sub_size n k ≡ length (drop k data') = grind (arith, length-drop k data') in
    let small_int : int_of k ≡ k = ground arith in
    let all_taken : take k (take k data') ≡ take k data' = take_all k (take k data') size in
    let some = accepted k (ground arith) (ground arith) in
    let on : ltb k (2 ^ 31) ≡ true = ground arith in
    let whole : (buf ++ take k data') ++ drop k data' ≡ buf ++ data' =
      append_assoc buf (take k data') (drop k data')
      ∙ ap (λ xs. buf ++ xs) (append-take-drop k data') in
    elim (dec_lt 0 (n - k)) [
      | yes more ↦
          let e : (sub_size n k == 0) ≡ false = rw left (ground (arith, length-drop k data')) in
          rw (size, small_int, all_taken, some, on, e, left)
            (read_loop-done ks (drop k data') (buf ++ take k data')
                (omega (arith, length-drop k data')) (omega (arith, length-drop k data'))
                (rw (length-drop k data') (ground arith))
              ∙ ap Moved.done whole)
      | no all ↦
          let e : (sub_size n k == 0) ≡ true = rw left (ground (arith, length-drop k data')) in
          rw (size, small_int, all_taken, some, on, e)
            (ap (λ xs. Moved.done (buf ++ xs)) (take_all k data' (ground arith)))
    ]

-- On descriptors that are not negative, writen of a nonempty block shorter than 2^64 bytes puts
-- the block on the stream, in whatever nonempty pieces shorter than 2^31 bytes write takes it, and
-- readn of its length gives the block back, in whatever such portions it arrives.
pub writen-readn :
    (fd_out fd_in : ℕ) (data' : Bytes) (ks js : List ℕ)
    → 0 < length data'
    → length data' < 2 ^ 64
    → pieces ks (length data') ≡ true
    → pieces js (length data') ≡ true
    → (writen (pos fd_out) (some data') (length data') (writes ks) ≡ Moved.done data')
      × (readn (pos fd_in) true (length data') (split js data') ≡ Moved.done data')
unfolding writen readn
writen-readn fd_out fd_in data' ks js some_left small p q =
    let e : (a : ℕ) → ltbℤ (pos a) (pos 0) ≡ false = λ a. ground arith in
    (
      rw (e fd_out) (write_loop-done ks data' [] small some_left p),
      rw (e fd_in) (read_loop-done js data' [] small some_left q),
    )

read_loop-short :
    (ks : List ℕ) (data' : Bytes) (len : ℕ) (buf : Bytes) (more : List Got)
    → len < 2 ^ 64
    → length data' < len
    → pieces ks (length data') ≡ true
    → read_loop (split ks data' ++ more) len buf
      ≡ read_loop more (len - length data') (buf ++ data')
unfolding read_loop
read_loop-short [] [] len buf more small short p =
    ap₂ (λ n b. read_loop more n b) (omega arith) (sym (append-nil buf))
read_loop-short [] (x ∷ xs) len buf more small short p = ground arith
read_loop-short (k ∷ ks) data' len buf more small short p =
    let size : length (take k data') ≡ k = length-take k data' (ground arith) in
    let left : sub_size len k ≡ len - k = ground arith in
    let small_int : int_of k ≡ k = ground arith in
    let all_taken : take k (take k data') ≡ take k data' = take_all k (take k data') size in
    let some = accepted k (ground arith) (ground arith) in
    let on : ltb k (2 ^ 31) ≡ true = ground arith in
    let e : (len - k == 0) ≡ false = ground arith in
    let whole : (buf ++ take k data') ++ drop k data' ≡ buf ++ data' =
      append_assoc buf (take k data') (drop k data')
      ∙ ap (λ xs. buf ++ xs) (append-take-drop k data') in
    let rest : len - k - length (drop k data') ≡ len - length data' =
      ground (arith, length-drop k data') in
    rw (size, small_int, all_taken, some, on, left, e)
      (read_loop-short ks (drop k data') (len - k) (buf ++ take k data') more (omega arith)
          (ground (arith, length-drop k data')) (rw (length-drop k data') (ground arith))
        ∙ ap₂ (λ n b. read_loop more n b) rest whole)

-- Where fewer bytes arrive than asked for, readn fails at the end of the stream and at an error, and else waits.
pub readn_cut :
    (fd : ℕ) (data' : Bytes) (len : ℕ) (ks : List ℕ)
    → len < 2 ^ 64
    → length data' < len
    → pieces ks (length data') ≡ true
    → (readn (pos fd) true len (split ks data' ++ Got.got [] ∷ []) ≡ Moved.error data')
      × (readn (pos fd) true len (split ks data' ++ Got.failed ∷ []) ≡ Moved.error data')
      × (readn (pos fd) true len (split ks data') ≡ Moved.waiting data')
unfolding readn read_loop
readn_cut fd data' len ks small short p =
    let e : ltbℤ (pos fd) (pos 0) ≡ false = ground arith in
    let none_more = read_loop-short ks data' len [] [] small short p in
    (
      rw (e, read_loop-short ks data' len [] (Got.got [] ∷ []) small short p)
          (ap Moved.error (append-nil data')),
      rw (e, read_loop-short ks data' len [] (Got.failed ∷ []) small short p) refl,
      rw e (ap (λ calls. read_loop calls len []) (sym (append-nil (split ks data'))) ∙ none_more),
    )
