-- ===== src/Memory/Words.antt =====
-- Reading and rewriting one 64-bit word of memory, as a change of the row of bits.
use task_lunev.Base.{ℕ, ◌+◌, ◌*◌, ◌%◌, ◌-◌, ◌≤◌, ◌<◌, ◌≡◌, arith, ap, ◌∙◌}
use task_lunev.Base.{if◌then◌else◌, ltb, leb, ◌&&◌, length, le→leb}
use task_lunev.Base.{Bool, lt→leb_false, ap₂}
use task_lunev.Bits.{test_bit}
use task_lunev.Memory.{Bytes, Reply, ok, fault, ◌>>=◌, load, store, load_from, store_from}
use task_lunev.Memory.{fill, fill_from}
use task_lunev.Memory.Bits.{
  bit_at, IsBytes, length-store_from, IsBytes-store_from, bit_at-store_from,
  bit_at-store_from_outside, length-fill_from, IsBytes-fill_from, bit_at-fill_from,
  bit_at-fill_from_outside,
}

-- `lo ≤ p < hi`, as a test.
abbrev pub within : ℕ → ℕ → ℕ → Bool
within lo hi p = leb lo p && ltb p hi

-- A reply that carries memory of the size of `mem`, whose bits are those of `f`.
pub record Rewrites (mem : Bytes) (f : ℕ → ℕ) (r : Reply Bytes) : Type 0 where
  pub out : Bytes
  pub returns : r ≡ ok out
  pub same_length : length out ≡ length mem
  pub bytes : IsBytes out
  pub bits : (p : ℕ) → bit_at out p ≡ f p

pub load-ok :
    (n : ℕ) (mem : Bytes) (a : ℕ) → a + n ≤ length mem → load n mem a ≡ ok (load_from n mem a)
unfolding load
load-ok n mem a h = rw (le→leb _ _ h)

pub load-fault : (n : ℕ) (mem : Bytes) (a : ℕ) → length mem < a + n → load n mem a ≡ fault
unfolding load
load-fault n mem a h = rw (lt→leb_false _ _ h)

pub store-Rewrites :
    (n : ℕ) (mem : Bytes) (a v : ℕ)
    → IsBytes mem
    → a + n ≤ length mem
    → Rewrites mem
        (λ p. if within (8 * a) (8 * (a + n)) p then test_bit v (p - 8 * a) else bit_at mem p)
        (store n mem a v)
unfolding store
store-Rewrites n mem a v h fits = record {
  out = store_from n mem a v;
  returns = rw (le→leb _ _ fits);
  same_length = length-store_from n mem a v;
  bytes = IsBytes-store_from n mem a v h;
  bits = λ p. ground (arith, bit_at-store_from n mem a v p, bit_at-store_from_outside n mem a v p);
}

pub fill-Rewrites :
    (mem : Bytes) (a v n : ℕ)
    → IsBytes mem
    → v < 256
    → a + n ≤ length mem
    → Rewrites mem
        (λ p. if within (8 * a) (8 * (a + n)) p then test_bit v (p % 8) else bit_at mem p)
        (fill mem a v n)
unfolding fill
fill-Rewrites mem a v n h hv fits = record {
  out = fill_from n mem a v;
  returns = rw (le→leb _ _ fits);
  same_length = length-fill_from n mem a v;
  bytes = IsBytes-fill_from n mem a v h hv;
  bits = λ p. ground (arith, bit_at-fill_from n mem a v p, bit_at-fill_from_outside n mem a v p);
}

-- The replies may say the same bits in another way.
pub Rewrites-ext :
    {mem : Bytes} {f : ℕ → ℕ} {r : Reply Bytes} (g : ℕ → ℕ)
    → ((p : ℕ) → f p ≡ g p)
    → Rewrites mem f r
    → Rewrites mem g r
Rewrites-ext g e w = record {
  out = w.out;
  returns = w.returns;
  same_length = w.same_length;
  bytes = w.bytes;
  bits = λ p. w.bits p ∙ e p;
}

-- A rewriting, and another of its result.
pub Rewrites->>= :
    {mem : Bytes} {f : ℕ → ℕ} {r : Reply Bytes} (g : ℕ → ℕ) (k : Bytes → Reply Bytes)
    → (w : Rewrites mem f r) → Rewrites w.out g (k w.out)
    → Rewrites mem g (r >>= k)
Rewrites->>= g k w v = record {
  out = v.out;
  returns = ap (λ t. t >>= k) w.returns ∙ v.returns;
  same_length = v.same_length ∙ w.same_length;
  bytes = v.bytes;
  bits = v.bits;
}

-- `*p = g (*p)` at quadword `k`.
unfoldable pub change_qword : (ℕ → ℕ) → Bytes → ℕ → Reply Bytes
change_qword g mem k = do q ← load 8 mem (8 * k); store 8 mem (8 * k) (g q)

pub change_qword-Rewrites :
    (g : ℕ → ℕ) (mem : Bytes) (k : ℕ)
    → IsBytes mem
    → 8 * k + 8 ≤ length mem
    → Rewrites mem
        (λ p.
          if within (64 * k) (64 * k + 64) p
          then test_bit (g (load_from 8 mem (8 * k))) (p - 64 * k)
          else bit_at mem p)
        (change_qword g mem k)
unfolding change_qword
change_qword-Rewrites g mem k h fits = rw (load-ok 8 mem (8 * k) fits) (
    Rewrites-ext _
      (λ p.
        ap₂
          (λ (b : Bool) (i : ℕ).
            if b then test_bit (g (load_from 8 mem (8 * k))) i else bit_at mem p)
          (ap₂ (λ (a b : ℕ). within a b p) (omega arith) (omega arith)) (omega arith))
      (store-Rewrites 8 mem (8 * k) (g (load_from 8 mem (8 * k))) h fits))
