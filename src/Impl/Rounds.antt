-- ===== src/Impl/Rounds.antt =====
-- QPInverseProblemImpl.cpp: the loop of solveWithContact over the pivots.
pub mod Frame
pub mod Parts
pub mod Build
pub mod Attempts
pub mod Resumption
pub mod Answer
pub mod Pivots
-- The loop over the pivots.
use soft_robots_inverse.Prelude.{
  Bool, List, Option, [], false, if◌then◌else◌, some, ℕ, ◌&&◌, ◌+◌, ◌==◌, ◌>>=◌, ◌||◌, not, while,
  leb,
}
use soft_robots_inverse.Problem.{Problem}
use soft_robots_inverse.Double.{Double, nought}
use soft_robots_inverse.Impl.Oases.{OasesInput, OasesOutput, solve_inverse_problem}
use soft_robots_inverse.Impl.Pivot.{check_and_update_pivot}
use soft_robots_inverse.Impl.Contacts.{update_lambda}
use soft_robots_inverse.Impl.State.{Solver}
use soft_robots_inverse.ConstraintHandler.Equality.{build_equality_constraint_matrices}
use soft_robots_inverse.ConstraintHandler.Inequality.{build_inequality_constraint_matrices}
use soft_robots_inverse.ConstraintHandler.Bounds.{get_constraint_on_lambda}

pub record PivotCursor (F : Type 0) : Type 0 where
  pub solver : Solver F
  pub result : List F
  pub objective : F
  pub iteration : ℕ
  pub stop : Bool

module _ {F : Type 0} ⦃R : Double F⦄ where
  abbrev pub with_problem : Problem F → Solver F → Solver F
  with_problem e s = record s { problem = e }

  abbrev pub without_names : Problem F → Problem F
  without_names e = record e { params = record (e.params) { constraints_id = [] } }

  -- while(stopFlag == false && iteration <= m_maxNbPivot)
  pub goes_on : PivotCursor F → Bool
  goes_on c = not c.stop && leb c.iteration c.solver.max_nb_pivot

  module _ (oases : OasesInput F → OasesOutput F) where
    -- The QP of the current states of the contacts: the problem, the objective, the result, and the dual.
    pub solve_round : Problem F → List F → Option (Problem F × F × List F × List F)
    solve_round e result = do
      e1 ← build_inequality_constraint_matrices e result
      e2 ← build_equality_constraint_matrices e1 result
      e3 ← get_constraint_on_lambda e2 result
      solve_inverse_problem oases e3 result

    -- One round of the pivot algorithm.
    pub pivot_round : PivotCursor F → Option (PivotCursor F)
    pivot_round c = do
      (e, objective, result, dual) ← solve_round (without_names c.solver.problem) c.result
      (stop, s) ←
          check_and_update_pivot (record (c.solver) { problem = e; iteration = c.iteration }) result
            dual
      e' ←
          (if stop || (c.iteration + 1 == s.max_nb_pivot)
            then update_lambda result s.problem
            else some s.problem)
      some (record {
        solver = with_problem e' s;
        result = result;
        objective = objective;
        iteration = c.iteration + 1;
        stop = stop;
      })

    pub pivot_rounds : Solver F → List F → Option (PivotCursor F)
    pivot_rounds s result =
        while (s.max_nb_pivot + 2) goes_on pivot_round
          (record { solver = s; result = result; objective = nought; iteration = 0; stop = false })
