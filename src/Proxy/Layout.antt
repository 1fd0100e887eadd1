-- ===== src/Proxy/Layout.antt =====
-- The places of the buffers.
use task_lunev.Base.{
  ℕ, zero, suc, ◌+◌, ◌-◌, ◌*◌, ◌^◌, ◌≤◌, ◌<◌, ◌≡◌, arith, ap, ◌∙◌, subst, ℕ_discrete, List, [], ◌∷◌,
  lt→ltb,
}
use task_lunev.CircBuffer.{returned}
use task_lunev.Proxy.{calc_size_buf, add_size, size_channels, place_channels, start_buffers}

-- The places follow one another from `from` to `to`, with no gap and no overlap, and each is three
-- times as large as the next, the last of 3000 bytes.
pub data Tiles : ℕ → ℕ → ℕ → List (ℕ × ℕ) → Type 0 where
  done : {end : ℕ} → Tiles 0 end end []
  next :
      {left at end : ℕ} {places : List (ℕ × ℕ)}
      → Tiles left (at + 3 ^ suc left * 1000) end places
      → Tiles (suc left) at end ((at, 3 ^ suc left * 1000) ∷ places)

-- All the sizes that are left.
abbrev pub sum_left : ℕ → ℕ
sum_left zero = 0
sum_left (suc left) = 3 ^ suc left * 1000 + sum_left left

record Sized (left i n total : ℕ) : Type 0 where
  sizes : List ℕ
  returns : size_channels left i n total ≡ returned (sizes, total + sum_left left)
  tiled : (at : ℕ) → Tiles left at (at + sum_left left) (place_channels sizes at)

sum_mono : (m n : ℕ) → m ≤ n → sum_left m ≤ sum_left n
sum_mono m zero h = let e : m ≡ 0 = omega arith in omega (arith, ap sum_left e)
sum_mono m (suc n) h = elim (ℕ_discrete m (suc n)) [
  | yes e ↦ omega (arith, ap sum_left e)
  | no d ↦ omega (arith, sum_mono m n (omega arith))
]

size_step :
    (left i n total : ℕ) (sizes : List ℕ) (end : ℕ)
    → i + suc left ≡ n
    → total + 3 ^ suc left * 1000 < 2 ^ 31
    → size_channels left (i + 1) n (total + 3 ^ suc left * 1000) ≡ returned (sizes, end)
    → size_channels (suc left) i n total ≡ returned (3 ^ suc left * 1000 ∷ sizes, end)
unfolding size_channels calc_size_buf add_size
size_step left i n total sizes end e h rest =
    let rounds : n - i ≡ suc left = omega arith in
    let size = 3 ^ suc left * 1000 in
    rw (
      lt→ltb i n (omega arith),
      rounds,
      lt→ltb size (2 ^ 31) (omega arith),
      lt→ltb (total + size) (2 ^ 31) (omega arith),
      rest,
    )

sized : (left i n total : ℕ) → i + left ≡ n → total + sum_left left < 2 ^ 31 → Sized left i n total
unfolding size_channels place_channels
sized zero i n total e h = record {
  sizes = [];
  returns = ap (λ t. returned ([], t)) (omega arith);
  tiled = λ at. subst (λ t. Tiles 0 at t []) (omega arith) Tiles.done;
}
sized (suc left) i n total e h =
    let size = 3 ^ suc left * 1000 in
    let rest = sized left (i + 1) n (total + size) (omega arith) (omega arith) in
    let whole : total + size + sum_left left ≡ total + sum_left (suc left) = omega arith in
    record {
      sizes = size ∷ rest.sizes;
      returns =
          size_step left i n total rest.sizes _ e (omega arith) rest.returns
          ∙ ap (λ t. returned (size ∷ rest.sizes, t)) whole;
      tiled = λ at. Tiles.next (
          subst (λ t. Tiles left (at + size) t (place_channels rest.sizes (at + size)))
            (omega arith) (rest.tiled (at + size)));
    }

-- With at most 12 clients StartProxy computes the sizes of the buffers without an overflow, and
-- the buffers of the channels tile the allocation from its first byte to its last, in order, each
-- three times as large as the next and the last of 3000 bytes.
pub start_buffers-Tiles :
    (number_client : ℕ)
    → number_client ≤ 12
    → (total : ℕ) × (places : List (ℕ × ℕ)) × (start_buffers number_client
        ≡ returned (total, places))
      × Tiles number_client 0 total places
unfolding start_buffers
start_buffers-Tiles n h =
    let s = sized n 0 n 0 (omega arith) (omega (arith, sum_mono n 12 h)) in
    (_, _, rw s.returns, s.tiled 0)
