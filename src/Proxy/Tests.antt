-- ===== src/Proxy/Tests.antt =====
-- The buffers of three clients, and the theorem at them.
use task_lunev.Base.{ℕ, ◌≡◌, arith, refl, List, [], ◌∷◌}
use task_lunev.CircBuffer.{returned, undefined}
use task_lunev.Proxy.{start_buffers, size_channels, place_channels, calc_size_buf, add_size}
use task_lunev.Proxy.Layout.{Tiles, start_buffers-Tiles}

three : start_buffers 3 ≡ returned (39000, (0, 27000) ∷ (27000, 9000) ∷ (36000, 3000) ∷ [])
unfolding start_buffers size_channels place_channels calc_size_buf add_size
three = refl

-- 13 clients are too many for an `int`.
thirteen : start_buffers 13 ≡ undefined
unfolding start_buffers size_channels place_channels calc_size_buf add_size
thirteen = refl

start_buffers-Tiles_example :
    (total : ℕ) × (places : List (ℕ × ℕ)) × (start_buffers 3 ≡ returned (total, places))
    × Tiles 3 0 total places
start_buffers-Tiles_example = start_buffers-Tiles 3 (omega arith)
