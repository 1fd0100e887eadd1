-- ===== src/HpcIntegral/Loop.antt =====
-- HPC_Integral/lib/hpc.c: the loop over the points of a range.
use task_lunev.Base.{ℕ, zero, suc, ◌<◌, ◌≡◌, arith, refl, true, false, none, some}
use task_lunev.HpcIntegral.{Reals, PthArg, walk, pthread_calc_integral}
use task_lunev.HpcIntegral.Entry.{hpc_simple_integral}

module _ {D : Type 0} (r : Reals D) where
  -- The point behind `k` steps, and the sum over the `n` points from `a` on.
  abbrev pub point : D → D → ℕ → D
  point dx a zero = a
  point dx a (suc k) = point dx (r.num.add a dx) k

  abbrev pub sum_points : (D → D) → D → ℕ → D → D → D
  sum_points func dx zero a result = result
  sum_points func dx (suc n) a result =
      sum_points func dx n (r.num.add a dx) (r.num.add result (func a))

  pub walk-sum :
      (func : D → D) (b dx a result : D) (n fuel : ℕ)
      → n < fuel
      → ((k : ℕ) → k < n → r.less (point dx a k) b ≡ true)
      → r.less (point dx a n) b ≡ false
      → walk r fuel b dx func a result ≡ some (sum_points func dx n a result)
  unfolding walk
  walk-sum func b dx a result zero zero h inside beyond = absurd (omega arith)
  walk-sum func b dx a result (suc n) zero h inside beyond = absurd (omega arith)
  walk-sum func b dx a result zero (suc fuel) h inside beyond = rw (walk, beyond) refl
  walk-sum func b dx a result (suc n) (suc fuel) h inside beyond =
      rw
        (
          walk,
          inside 0 (omega arith),
          walk-sum func b dx (r.num.add a dx) (r.num.add result (func a)) n fuel (omega arith)
              (λ k l. inside (suc k) (omega arith)) beyond,
        )
        refl

  -- A thread whose first n points lie below its upper bound and whose next point does not ends
  -- within n + 1 rounds, with the values at these n points added to 0 in order.
  pub pthread_calc_integral-sum :
      (arg : PthArg D) (n fuel : ℕ)
      → n < fuel
      → ((k : ℕ) → k < n → r.less (point arg.dx arg.a k) arg.b ≡ true)
      → r.less (point arg.dx arg.a n) arg.b ≡ false
      → pthread_calc_integral r fuel arg ≡ some (sum_points arg.func arg.dx n arg.a r.num.nought)
  unfolding pthread_calc_integral
  pthread_calc_integral-sum arg n fuel h inside beyond =
      walk-sum arg.func arg.b arg.dx arg.a r.num.nought n fuel h inside beyond

  pub walk_endless :
      (func : D → D) (b dx a result : D) (fuel : ℕ)
      → r.less a b ≡ true
      → r.num.add a dx ≡ a
      → walk r fuel b dx func a result ≡ none
  unfolding walk
  walk_endless func b dx a result zero l e = refl
  walk_endless func b dx a result (suc fuel) l e =
      rw
        (
          walk,
          l,
          walk_endless func b dx (r.num.add a dx) (r.num.add result (func a)) fuel (rw e l)
              (rw e e),
        )
        refl

  -- Where adding the step does not change the lower bound, which is below the upper, no number of
  -- rounds ends hpcSimpleIntegral.
  pub hpc_simple_integral_endless :
      (func : D → D) (a b eps : D) (fuel : ℕ)
      → r.leq a b ≡ true
      → r.less a b ≡ true
      → r.num.add a (r.num.times (r.num.minus b a) eps) ≡ a
      → hpc_simple_integral r fuel a b func eps ≡ none
  unfolding hpc_simple_integral
  hpc_simple_integral_endless func a b eps fuel h l e =
      rw (hpc_simple_integral, h, walk_endless func b _ a r.num.nought fuel l e) refl
