-- ===== src/Proxy.antt =====
-- Proxy/LocalProxy.cpp: the sizes of the buffers of the channels, and their places in the one
-- allocation that `StartProxy` makes.
pub mod Layout
pub mod Relay
pub mod Control
mod Tests
use task_lunev.Base.{ℕ, zero, suc, ◌+◌, ◌-◌, ◌*◌, ◌^◌, List, [], ◌∷◌, if◌then◌else◌, ltb}
use task_lunev.CircBuffer.{Outcome, returned, thrown, undefined, ◌>>=◌}

-- `CalcSizeBuf`; below 2^53 the `double` of `pow` is exact, and its conversion to an `int` that does
-- not hold it is undefined.
unfoldable pub calc_size_buf : ℕ → ℕ → Outcome ℕ
calc_size_buf i n =
    if ltb i n
    then (if ltb (3 ^ (n - i) * 1000) (2 ^ 31) then returned (3 ^ (n - i) * 1000) else undefined)
    else thrown

-- `totalSizeBuf += curSizeBuf` of an `int`.
unfoldable pub add_size : ℕ → ℕ → Outcome ℕ
add_size total size = if ltb (total + size) (2 ^ 31) then returned (total + size) else undefined

-- The loop over the channels, from `i` on with `left` rounds to go: the capacities and the total.
unfoldable pub size_channels : ℕ → ℕ → ℕ → ℕ → Outcome (List ℕ × ℕ)
size_channels zero i n total = returned ([], total)
size_channels (suc left) i n total = do
  size ← calc_size_buf i n
  total' ← add_size total size
  (sizes, end) ← size_channels left (i + 1) n total'
  returned (size ∷ sizes, end)

-- The second loop: the offset of each channel's buffer, with its capacity.
unfoldable pub place_channels : List ℕ → ℕ → List (ℕ × ℕ)
place_channels [] buffers = []
place_channels (size ∷ sizes) buffers = (buffers, size) ∷ place_channels sizes (buffers + size)

-- The total, and the places of the channels.
unfoldable pub start_buffers : ℕ → Outcome (ℕ × List (ℕ × ℕ))
start_buffers number_client = do
  (sizes, total) ← size_channels number_client 0 number_client 0
  returned (total, place_channels sizes 0)
