-- ===== src/CpuTopology/Online.antt =====
-- HPC_Integral/lib/cpu_topology.c: reading which processors are online, `cputopInit`. The strings
-- are those of sysfs, as ASCII codes; `strtok`, `strchr` and `atoi` are written out.
pub mod Digits
pub mod Ranges
use task_lunev.Base.{
  ℕ, zero, suc, ◌+◌, ◌-◌, ◌*◌, ◌==◌, Bool, true, false, ◌&&◌, ◌||◌, if◌then◌else◌, leb, ltb, Option,
  none, some,
}
use task_lunev.Base.{
  List, [], ◌∷◌, ◌++◌, length, ℤ, pos, negsuc, ◌+ℤ◌, ◌-ℤ◌, lebℤ, is_int, replicate,
}
use task_lunev.Memory.{Bytes, Reply, ok, fail, fault, Errno, unset, ◌>>=◌}
use task_lunev.BinArray.Create.{Allocator}
use task_lunev.CpuTopology.{LogicCpu, CpuTopology}

-- `LOGIC_CPU_MAX`, and `sizeof (logic_cpu_t)`.
abbrev pub logic_cpu_max : ℕ
logic_cpu_max = 256

abbrev pub sizeof_logic_cpu : ℕ
sizeof_logic_cpu = 8

abbrev pub is_digit : ℕ → Bool
is_digit b = leb b'0' b && leb b b'9'

abbrev pub is_space : ℕ → Bool
is_space b = b == b' ' || (leb 9 b && leb b 13)

unfoldable pub skip_spaces : Bytes → Bytes
skip_spaces [] = []
skip_spaces (b ∷ bs) = let rest = skip_spaces bs in if is_space b then rest else b ∷ bs

-- The digits at the front, behind the value `acc`.
unfoldable pub digits_value : ℕ → Bytes → ℕ
digits_value acc [] = acc
digits_value acc (b ∷ bs) =
    let rest = digits_value (10 * acc + (b - b'0')) bs in if is_digit b then rest else acc

unfoldable pub signed_value : Bytes → ℤ
unfolding digits_value
signed_value [] = pos 0
signed_value (b ∷ bs) =
    if b == b'-'
    then pos 0 -ℤ pos (digits_value 0 bs)
    else (if b == b'+' then pos (digits_value 0 bs) else pos (digits_value 0 (b ∷ bs)))

-- `atoi`; a value that no `int` holds is undefined.
unfoldable pub atoi : Bytes → Reply ℤ
unfolding signed_value skip_spaces
atoi bs = let value = signed_value (skip_spaces bs) in if is_int value then ok value else fault

-- `strtok (..., ",")`, call after call; `word` is the token so far, and empty tokens are skipped.
abbrev pub with_word : Bytes → List Bytes → List Bytes
with_word [] words = words
with_word (b ∷ bs) words = (b ∷ bs) ∷ words

unfoldable pub tokens : Bytes → Bytes → List Bytes
tokens word [] = with_word word []
tokens word (b ∷ bs) =
    let rest = tokens (if b == b',' then [] else word ++ (b ∷ [])) bs in
    if b == b',' then with_word word rest else rest

-- `strchr (token, '-')`: what stands behind the first `-`.
unfoldable pub behind_dash : Bytes → Option Bytes
behind_dash [] = none
behind_dash (b ∷ bs) = let rest = behind_dash bs in if b == b'-' then some bs else rest

-- The `do` loop of a range, with `slots` entries of the array left; it always writes one entry. A
-- write behind the array is undefined, and so is the increment of the largest `int`.
unfoldable pub fill_range : ℕ → ℤ → ℤ → Reply (List ℤ)
fill_range zero cur max = fault
fill_range (suc slots) cur max =
    let next = cur +ℤ pos 1 in
    let rest = fill_range slots next max in
    if is_int next
    then (if lebℤ next max then (rest >>= λ ids. ok (cur ∷ ids)) else ok (cur ∷ []))
    else fault

-- One token: a number or a range.
unfoldable pub fill_token : ℕ → Bytes → Reply (List ℤ)
fill_token slots token = elim (behind_dash token) [
  | none ↦ atoi token >>= λ id. if ltb 0 slots then ok (id ∷ []) else fault
  | some end ↦ atoi token >>= λ first. atoi end >>= λ last. fill_range slots first last
]

unfoldable pub fill_tokens : ℕ → List Bytes → Reply (List ℤ)
fill_tokens slots [] = ok []
fill_tokens slots (token ∷ rest) = do
  ids ← fill_token slots token
  others ← fill_tokens (slots - length ids) rest
  ok (ids ++ others)

abbrev pub entries : List ℤ → List LogicCpu
entries [] = []
entries (id ∷ ids) = record { id = id; core_id = pos 0 } ∷ entries ids

-- `_cputopFillLogicCPU`. Where `realloc` does not grant the smaller block the array keeps its 256
-- entries; with no entry at all it frees the block, whose address the structure keeps.
unfoldable pub fill_logic_cpu : Allocator → Bytes → Reply CpuTopology
fill_logic_cpu m str_online =
    if m.grants (logic_cpu_max * sizeof_logic_cpu)
    then (do
      ids ← fill_tokens logic_cpu_max (tokens [] str_online)
      let n = length ids
      let unused = replicate (logic_cpu_max - n) (record { id = pos 0; core_id = pos 0 })
      if n == 0
          then fault
          else ok (record {
            num_logic_cpu = pos n;
            logic_cpus =
                some
                  (if m.grants (n * sizeof_logic_cpu) then entries ids else entries ids ++ unused);
          }))
    else fail Errno.einval

-- What `_readCpuTopologyFile` reads of cpu/online and of cpu#/topology/core_id; `none` where it
-- returns a null pointer.
pub record Sysfs : Type 0 where
  pub online : Option Bytes
  pub core_id : ℤ → Option Bytes

-- `_cputopFillCoreCPU` over the first `n` entries.
unfoldable pub fill_core_cpu : Sysfs → ℕ → List LogicCpu → Reply (List LogicCpu)
fill_core_cpu f zero cpus = ok cpus
fill_core_cpu f (suc n) [] = fault
fill_core_cpu f (suc n) (c ∷ cs) = elim (f.core_id c.id) [
  | none ↦ fail Errno.einval
  | some str ↦ do
    core ← atoi str
    rest ← fill_core_cpu f n cs
    ok (record { id = c.id; core_id = core } ∷ rest)
]

-- `_cputopInitCoreCPU`: the loop over a number of entries that is not positive does nothing.
unfoldable pub init_cores : Sysfs → ℤ → Option (List LogicCpu) → Reply CpuTopology
init_cores f (pos n) (some cpus) = do
  filled ← fill_core_cpu f n cpus
  ok (record { num_logic_cpu = pos n; logic_cpus = some filled })
init_cores f (pos zero) none = ok (record { num_logic_cpu = pos 0; logic_cpus = none })
init_cores f (pos (suc n)) none = fault
init_cores f (negsuc n) cpus = ok (record { num_logic_cpu = negsuc n; logic_cpus = cpus })

unfoldable pub init_core_cpu : Sysfs → CpuTopology → Reply CpuTopology
init_core_cpu f cputop = init_cores f cputop.num_logic_cpu cputop.logic_cpus

-- `cputopInit`; the array that the structure had is freed first.
unfoldable pub init : Allocator → Sysfs → Option CpuTopology → Reply CpuTopology
init m f none = fail Errno.einval
init m f (some old) = elim f.online [
  | none ↦ fail unset
  | some str ↦ fill_logic_cpu m str >>= λ cputop. init_core_cpu f cputop
]
