-- ===== src/BinArray/Visit/Tests.antt =====
-- Runs of the visits of an array.
use task_lunev.Base.{ℕ, ◌+◌, ◌≡◌, refl, Bool, if◌then◌else◌, [], ◌∷◌}
use task_lunev.BinArray.Visit.{print_byte, bprint, print_bits}

run_print : bprint (0x0c ∷ []) ≡ 48 ∷ 48 ∷ 48 ∷ 48 ∷ 49 ∷ 49 ∷ 48 ∷ 48 ∷ 32 ∷ []
unfolding bprint print_byte print_bits
run_print = refl

-- Count the bits that are set.
abbrev next_count : Bool → ℕ → ℕ
next_count b n = if b then n + 1 else n
