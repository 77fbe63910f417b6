-- ===== src/Impl/State.antt =====
-- The members of QPInverseProblem (QPInverseProblem.h) and QPInverseProblemImpl that the resolution
-- reads and writes, beside the problem itself.
use soft_robots_inverse.Prelude.{Bool, List, ℕ}
use soft_robots_inverse.Problem.{Problem}

pub record Solver (F : Type 0) : Type 0 where
  pub problem : Problem F
  pub epsilon : F
  pub actuators_only : Bool
  pub tolerance : F
  pub max_iteration : ℕ
  pub max_nb_pivot : ℕ
  pub mu : F
  pub allow_sliding : Bool
  pub step : ℕ
  pub iteration : ℕ
  pub current_sequence : List ℕ
  pub previous_sequence : List ℕ
  pub sequence : List ℕ
