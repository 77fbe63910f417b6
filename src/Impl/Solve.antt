-- ===== src/Impl/Solve.antt =====
-- QPInverseProblemImpl.cpp: solve and solveWithContact, with their parts put together.
pub mod Basis
pub mod Contacts
pub mod Totality
use soft_robots_inverse.Prelude.{
  List, Option, [], if◌then◌else◌, some, ℕ, ◌+◌, ◌/◌, ◌>>=◌, ◌∷◌, ltb,
}
use soft_robots_inverse.Problem.{
  BaseConstraint, Problem, nb_actuator_rows, nb_contact_rows, nb_equality_rows,
}
use soft_robots_inverse.Double.{Double, ◌≺◌, ◌⊕◌, ◌⊗◌, nought}
use soft_robots_inverse.Impl.Oases.{OasesInput, OasesOutput}
use soft_robots_inverse.Impl.Matrices.{build_qp_matrices}
use soft_robots_inverse.Impl.Contacts.{is_feasible, solve_contacts, update_lambda}
use soft_robots_inverse.Impl.State.{Solver}
use soft_robots_inverse.Impl.Rounds.{pivot_rounds, solve_round, with_problem}
use soft_robots_inverse.Impl.Results.{StoreResults, store_results}
use soft_robots_inverse.ConstraintHandler.States.{
  init_contact_handler_list, init_contact_handlers, init_contact_handlers_from,
}

module _ {F : Type 0} ⦃R : Double F⦄ where
  -- The problem as solve() finds it, with the matrices of the enclosing framework.
  pub set_up : Solver F → (ℕ → ℕ → F) → (ℕ → F) → Problem F
  set_up s w d_free =
      let e = s.problem in
      record e {
        params = record (e.params) { mu = s.mu; allow_sliding = s.allow_sliding };
        system = record (e.system) {
          dim = nb_contact_rows e + nb_actuator_rows e + nb_equality_rows e;
          w = w;
          d_free = d_free;
        };
      }

  pub set_up_contacts : F → Problem F → Problem F
  set_up_contacts mu e =
      if nought ≺ mu
      then record e {
        params = record (e.params) {
          sliding_dir_id1 = 1;
          sliding_dir_id2 = 2;
          contact_nb_lines = 3;
          nb_contact_points = nb_contact_rows e / 3;
        };
      }
      else record e {
        params = record (e.params) { contact_nb_lines = 1; nb_contact_points = nb_contact_rows e };
      }

  -- The contact states and the sequences of pivots are forgotten.
  pub forget_pivots : Solver F → Solver F
  forget_pivots s = record s {
    problem = record (s.problem) { params = record (s.problem.params) { contact_states = [] } };
    sequence = [];
    current_sequence = [];
    previous_sequence = [];
  }

  -- The sum of dFree[r]^2 over the rows of the effectors, added to the objective.
  unfoldable pub offset_objective : Problem F → List ℕ → F → F
  offset_objective e [] objective = objective
  offset_objective e (r ∷ rs) objective =
      offset_objective e rs (objective ⊕ e.system.d_free r ⊗ e.system.d_free r)

  module _ (oases : OasesInput F → OasesOutput F) where
    -- The QP without contacts. Whether the solution is feasible only decides on a warning.
    pub solve_without_contact : Solver F → Option (Solver F × F)
    solve_without_contact s = do
      e ← build_qp_matrices s.problem s.epsilon s.actuators_only
      (e1, objective, result, dual) ← solve_round oases e []
      e2 ← update_lambda result e1
      feasible ← is_feasible e2 result
      some (with_problem e2 s, objective)

  module _ (abs_error : F → F → F → F → F → F → F) (to_double : ℕ → F)
      (oases : OasesInput F → OasesOutput F) where
    -- solveWithContact: the solver, the objective, and the number of iterations.
    pub solve_with_contact : Solver F → Option (Solver F × F × ℕ)
    solve_with_contact s = do
      let e0 = init_contact_handlers (init_contact_handler_list s.problem)
      (s1, result) ← solve_contacts abs_error to_double oases (with_problem e0 s)
      e1 ← update_lambda result s1.problem
      let e2 : Problem F = record e1 { system = record (e1.system) { previous_result = result } }
      if ltb 0 (nb_actuator_rows e2)
          then (do
            e3 ← init_contact_handlers_from e2 result
            e4 ← build_qp_matrices e3 s1.epsilon s1.actuators_only
            c ← pivot_rounds oases (with_problem e4 s1) result
            some (forget_pivots c.solver, c.objective, c.iteration))
          else some (with_problem e2 s1, nought, 0)

    -- solve, up to storeResults: the solver, the objective and the number of iterations.
    pub solve : Solver F → (ℕ → ℕ → F) → (ℕ → F) → Option (Solver F × F × ℕ)
    solve s w d_free = do
      let e = set_up s w d_free
      (s', objective, iterations) ←
          (if ltb 0 (nb_contact_rows e)
            then solve_with_contact (with_problem (set_up_contacts s.mu e) s)
            else if ltb 0 (nb_actuator_rows e + nb_equality_rows e)
            then (solve_without_contact oases (with_problem e s) >>= λ (t, objective).
                some (t, objective, 0))
            else some (with_problem e s, nought, 0))
      some (s', offset_objective s'.problem s'.problem.lists.effector_row_ids objective, iterations)

    pub solve_and_store :
        StoreResults F
        → (BaseConstraint F → List F → BaseConstraint F)
        → (BaseConstraint F → List F → BaseConstraint F)
        → Solver F
        → (ℕ → ℕ → F)
        → (ℕ → F)
        → List F
        → Option (Solver F × List F × F × ℕ)
    solve_and_store store store_effector store_sensor s w d_free forces = do
      (s', objective, iterations) ← solve s w d_free
      (e, forces') ←
          store_results store store_effector store_sensor s'.problem s'.problem.system.lambda forces
      some (with_problem e s', forces', objective, iterations)
