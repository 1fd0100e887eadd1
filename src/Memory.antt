-- ===== src/Memory.antt =====
-- Memory as the C code of BinArray sees it: the bytes of one allocation, little-endian words of
-- any number of bytes at any byte offset, and undefined behaviour as a fault.
pub mod Bits
pub mod Words
use task_lunev.Base.{ℕ, zero, suc, ◌+◌, ◌*◌, ◌/◌, ◌%◌, ◌^◌, ◌-◌, ◌≤◌, ◌<◌, Bool, true, false}
use task_lunev.Base.{if◌then◌else◌, ltb, leb, ◌≡◌, refl, List, length, get_or, set}

-- What a C function hands back: a normal return, a return of -1 or NULL with `errno` set or left
-- alone, or undefined behaviour.
pub data Errno : Type 0 where
  einval e2big enomem unset : Errno

pub data Reply {ℓ} (A : Type ℓ) : Type ℓ where
  ok : A → Reply A
  fail : Errno → Reply A
  fault : Reply A

infixl 5 ◌>>=◌
abbrev pub ◌>>=◌ {ℓ κ} : {A : Type ℓ} {B : Type κ} → Reply A → (A → Reply B) → Reply B
ok a >>= k = k a
fail e >>= k = fail e
fault >>= k = fault

pub >>=_assoc {ℓ κ μ} :
    {A : Type ℓ} {B : Type κ} {C : Type μ} (m : Reply A) (f : A → Reply B) (g : B → Reply C)
    → ((m >>= f) >>= g) ≡ (m >>= λ a. f a >>= g)
>>=_assoc (ok a) f g = refl
>>=_assoc (fail e) f g = refl
>>=_assoc fault f g = refl

abbrev pub Bytes : Type 0
Bytes = List ℕ

abbrev pub byte : Bytes → ℕ → ℕ
byte mem a = get_or mem a 0

-- `n` bytes from address `a` on, the lowest first.
unfoldable pub load_from : ℕ → Bytes → ℕ → ℕ
load_from zero mem a = 0
load_from (suc n) mem a = byte mem a + 2 ^ 8 * load_from n mem (a + 1)

unfoldable pub store_from : ℕ → Bytes → ℕ → ℕ → Bytes
store_from zero mem a v = mem
store_from (suc n) mem a v = store_from n (set mem a (v % 2 ^ 8)) (a + 1) (v / 2 ^ 8)

-- An access that does not fit the allocation is undefined behaviour.
unfoldable pub load : ℕ → Bytes → ℕ → Reply ℕ
load n mem a = if leb (a + n) (length mem) then ok (load_from n mem a) else fault

unfoldable pub store : ℕ → Bytes → ℕ → ℕ → Reply Bytes
store n mem a v = if leb (a + n) (length mem) then ok (store_from n mem a v) else fault

-- `memset (mem + a, v, n)`
unfoldable pub fill_from : ℕ → Bytes → ℕ → ℕ → Bytes
fill_from zero mem a v = mem
fill_from (suc n) mem a v = fill_from n (set mem a v) (a + 1) v

unfoldable pub fill : Bytes → ℕ → ℕ → ℕ → Reply Bytes
fill mem a v n = if leb (a + n) (length mem) then ok (fill_from n mem a v) else fault

-- A shift of a 64-bit value by its width or more is undefined behaviour.
unfoldable pub shr64 : ℕ → ℕ → Reply ℕ
shr64 x k = if ltb k 64 then ok (x / 2 ^ k) else fault

unfoldable pub shl64 : ℕ → ℕ → Reply ℕ
shl64 x k = if ltb k 64 then ok ((x * 2 ^ k) % 2 ^ 64) else fault

abbrev pub not64 : ℕ → ℕ
not64 x = 2 ^ 64 - 1 - x

abbrev pub not8 : ℕ → ℕ
not8 x = 2 ^ 8 - 1 - x
