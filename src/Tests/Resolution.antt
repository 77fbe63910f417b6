-- ===== src/Tests/Resolution.antt =====
-- The resolution at a concrete input: an actuator, and a contact with friction.
-- A library that always reports the same point.
use soft_robots_inverse.Prelude.{Returns, false, inl, inr, refl, true, ◌<◌, ◌≡◌, ◌⊎◌, arith, not}
use soft_robots_inverse.Problem.{nb_actuator_rows, nb_equality_rows}
use soft_robots_inverse.Double.{◌⊖◌, rabs}
use soft_robots_inverse.Tests.Sample.{cone_result, contact_sample, sample_solver}
use soft_robots_inverse.Tests.Numbers.{int_double, ℤ, pos}
use soft_robots_inverse.Impl.Solve.{solve}
use soft_robots_inverse.Impl.Oases.{OasesInput, OasesOutput, solve_inverse_problem}
use soft_robots_inverse.Impl.Matrices.{build_qp_matrices}
use soft_robots_inverse.Impl.Contacts.{with_lambda}
use soft_robots_inverse.Impl.State.{Solver}
use soft_robots_inverse.Impl.Rounds.{pivot_rounds}
use soft_robots_inverse.Impl.Matrices.Totality.{IsCosted, build_qp_matrices-IsCosted}
use soft_robots_inverse.Impl.Solve.Totality.{IsGiven, IsResolved, solve-IsResolved}
use soft_robots_inverse.Impl.Rounds.Attempts.{IsSolved, solve_inverse_problem-IsSolved}
use soft_robots_inverse.Impl.Rounds.Frame.{IsRunnable}
use soft_robots_inverse.Impl.Rounds.Pivots.{IsGoing, pivot_rounds-IsGoing}
use soft_robots_inverse.Impl.Rounds.Resumption.{IsRunnable-with_lambda}
use soft_robots_inverse.ConstraintHandler.Ready.{total_lines}

abbrev steady : OasesInput ℤ → OasesOutput ℤ
steady input = record {
  infeasible = false;
  solved = true;
  primal = λ i. pos 2;
  objective = pos 3;
  dual = λ i. pos 1;
}

-- A library that finds nothing at the first two attempts.
abbrev stubborn : OasesInput ℤ → OasesOutput ℤ
stubborn input = record {
  infeasible = not input.indefinite;
  solved = input.indefinite;
  primal = λ i. pos 1;
  objective = pos 0;
  dual = λ i. pos 0;
}

abbrev distance : ℤ → ℤ → ℤ → ℤ → ℤ → ℤ → ℤ
distance a b c d e f = rabs (a ⊖ d)

sample-IsGiven : IsGiven sample_solver
unfolding total_lines
sample-IsGiven = record {
  rubs = refl;
  above = refl;
  contacts = omega arith;
  thirds = refl;
  actuator_lines = refl;
  equality_lines = refl;
  no_equality = refl;
  actuators_positive = (omega arith, tt);
  equality_positive = tt;
  warm = λ later. cc;
}

solve_example :
    Returns
      (IsResolved steady sample_solver)
      (solve distance pos steady sample_solver contact_sample.system.w contact_sample.system.d_free)
solve_example =
    solve-IsResolved distance pos steady refl sample_solver contact_sample.system.w
      contact_sample.system.d_free sample-IsGiven

contact_sample-IsRunnable : IsRunnable contact_sample 1 cone_result
unfolding total_lines
contact_sample-IsRunnable = record {
  ready = record {
    sized = refl;
    actuator_lines = refl;
    equality_lines = refl;
    contact_lines = inr (
        inl (record {
          rubs = refl;
          three_lines = refl;
          first_dir = refl;
          second_dir = refl;
          rows = refl;
        }));
    uniform = tt;
    some_line = omega arith;
    result_size = λ some_row. refl;
    previous_size = λ some_row. inl refl;
  };
  kind = record {
    rubs = refl;
    three_lines = refl;
    first_dir = refl;
    second_dir = refl;
    rows = refl;
  };
  above = refl;
  states = (inr (inl refl), tt);
  allowed = refl;
  no_equality = refl;
  result_size = refl;
  q_rows = refl;
  q_columns = (omega arith, (omega arith, (omega arith, (omega arith, tt))));
  c_size = refl;
}

-- The same with forces of the step before.
abbrev warm_solver : Solver ℤ
warm_solver = record sample_solver { problem = with_lambda cone_result contact_sample }

pivots_example :
    Returns
      (λ c. IsGoing steady 1 warm_solver c × ((c.stop ≡ true) ⊎ (100 < c.iteration)))
      (pivot_rounds steady warm_solver cone_result)
pivots_example =
    pivot_rounds-IsGoing steady 1 warm_solver cone_result
      (IsRunnable-with_lambda contact_sample 1 cone_result contact_sample-IsRunnable cone_result)
      (inl refl) refl refl

attempts_example :
    Returns
      (IsSolved 1 cone_result contact_sample stubborn 3)
      (solve_inverse_problem stubborn contact_sample cone_result)
attempts_example =
    solve_inverse_problem-IsSolved 1 cone_result contact_sample stubborn contact_sample (
      (contact_sample-IsRunnable, inl refl, refl),
      (
        ((omega arith, (omega arith, tt)), refl, λ used. refl),
        ((omega arith, tt), refl),
        (refl, refl),
        (omega arith, (omega arith, (omega arith, (omega arith, tt)))),
      ),
      omega arith,
    )

first_lines : total_lines contact_sample.lists.actuators ≡ nb_actuator_rows contact_sample
unfolding total_lines
first_lines = refl

no_lines : total_lines contact_sample.lists.equality ≡ nb_equality_rows contact_sample
unfolding total_lines
no_lines = refl

cost_example :
    Returns
      (IsCosted contact_sample refl first_lines no_lines (omega arith, tt) tt)
      (build_qp_matrices contact_sample (pos 1) false)
cost_example =
    build_qp_matrices-IsCosted contact_sample refl first_lines no_lines (omega arith, tt) tt (pos 1)
      false
