-- ===== src/HpcNet/Pieces.antt =====
-- HPC.Net/lib/hpc_net.c: the pieces of the interval that `hpcnetCalcIntegral` gives to the clients
-- and keeps itself, by their places in the interval.
use task_lunev.Base.{ℕ, zero, suc, ◌+◌, ◌≤◌, ◌≡◌, List, [], ◌∷◌, length}
use task_lunev.Memory.{Reply, ok}
use task_lunev.HpcNet.{Doubles, Task, TypeFunc, IntArg, func_x, local_threads}

abbrev pub total : List ℕ → ℕ
total [] = 0
total (k ∷ ks) = k + total ks

-- The numbers lie between `low` and `low + 1`.
abbrev pub AreEven : ℕ → List ℕ → Type 0
AreEven low [] = Unit {0}
AreEven low (k ∷ ks) = ((low ≤ k) × (k ≤ low + 1)) × AreEven low ks

-- The numbers of threads of the clients.
abbrev shares : (left numcli full extra : ℕ) → List ℕ
shares zero numcli full extra = []
shares (suc left) numcli full extra =
    local_threads full extra numcli ∷ shares left (numcli + 1) full extra

module _ {D : Type 0} (num : Doubles D) (n : ℕ) (a b eps : D) where
  -- The end of the part of the first `i` threads of `n`.
  abbrev pub point : ℕ → D
  point i = num.add a (num.times (num.over (num.minus b a) (num.of_nat n)) (num.of_nat i))

  -- The integral of `x` over the part of `k` threads behind the first `i`, with the step of the whole.
  abbrev pub piece : ℕ → ℕ → IntArg D
  piece i k = record {
    a = point i;
    b = point (i + k);
    func = func_x num;
    eps =
        num.over (num.times (num.fabs (num.minus b a)) eps)
          (num.fabs (num.minus (point (i + k)) (point i)));
    num_threads = k;
  }

  -- The pieces of these numbers of threads, one behind the other, added to a number.
  abbrev pub sum_pieces : (IntArg D → D) → D → ℕ → List ℕ → D
  sum_pieces hpc_integral r i [] = r
  sum_pieces hpc_integral r i (k ∷ ks) =
      sum_pieces hpc_integral (num.add r (hpc_integral (piece i k))) (i + k) ks

  -- A task that ends at the point `i`, with the step and the function of all.
  record EndsAt (i : ℕ) (t : Task D) : Type 0 where
    end : t.b ≡ point i
    step : t.dx ≡ num.times (num.fabs (num.minus b a)) eps
    func : t.type_func ≡ TypeFunc.of_x

  -- Numbers whose points are exact.
  pub record Exact : Type 0 where
    pub begins : point 0 ≡ a
    pub ends : point n ≡ b
    pub adds :
        (i k : ℕ)
        → num.add (point i) (num.times (num.over (num.minus b a) (num.of_nat n)) (num.of_nat k))
          ≡ point (i + k)

  module _ (exact : Exact) where
    abbrev len : D
    len = num.over (num.minus b a) (num.of_nat n)

-- How an interval is shared out: what the clients and the server get, and the sum of the pieces.
pub record Shared {D : Type 0} (num : Doubles D) (hpc_integral : IntArg D → D) (num_clients n : ℕ)
    (a b eps : D) (reply : Reply D) : Type 0 where
  pub clients : List ℕ
  pub own : ℕ
  pub one_each : length clients ≡ num_clients
  pub even : AreEven own clients
  pub all_threads : total clients + own ≡ n
  pub reaches : (piece num n a b eps (total clients) own).b ≡ b
  pub starts : point num n a b eps 0 ≡ a
  pub returns :
      reply
      ≡ ok (
          sum_pieces num n a b eps hpc_integral
            (hpc_integral (piece num n a b eps (total clients) own))
            0
            clients)
