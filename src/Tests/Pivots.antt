-- ===== src/Tests/Pivots.antt =====
-- The theorems on one step of the pivot algorithm, and on the sequences of pivots, at concrete inputs.
use soft_robots_inverse.Prelude.{Returns, false, inl, inr, refl, true, ◌≡◌, ap, arith, length}
use soft_robots_inverse.Tests.Numbers.{int_double, less_irreflexive, less_transitive}
use soft_robots_inverse.Tests.Sample.{cone_result, sample_dual, sample_solver}
use soft_robots_inverse.Impl.Pivot.{check_and_update_pivot}
use soft_robots_inverse.Impl.Cycling.{is_cycling, is_in, record_pivot, same_sequence, starts_with}
use soft_robots_inverse.Impl.Cycling.Repetition.{
  HasNoRepetition, IsVaried, is_cycling-record_pivot, record_pivot-HasNoRepetition,
  record_pivot-IsVaried,
}
use soft_robots_inverse.Impl.Pivot.Step.{IsPivotable, IsUpdate}
use soft_robots_inverse.Impl.Pivot.Greatest.{IsNotBelow, check_and_update_pivot-IsUpdate}

pub sample-IsPivotable : IsPivotable sample_solver cone_result sample_dual
sample-IsPivotable = record {
  sized = refl;
  result_size = refl;
  kind = record {
    rubs = refl;
    three_lines = refl;
    first_dir = refl;
    second_dir = refl;
    rows = refl;
  };
  rubs = refl;
  allowed = refl;
  states = (inr (inl refl), tt);
  named = omega arith;
  bounded = (omega arith, (omega arith, (omega arith, tt)));
}

pivot_example :
    Returns
      (IsUpdate
        (IsNotBelow less_irreflexive less_transitive)
        sample_solver
        cone_result
        sample_dual
        sample-IsPivotable)
      (check_and_update_pivot sample_solver cone_result sample_dual)
pivot_example =
    check_and_update_pivot-IsUpdate less_irreflexive less_transitive sample_solver cone_result
      sample_dual sample-IsPivotable

cycling_example : is_cycling (record_pivot 1 sample_solver) 1 ≡ true
cycling_example = is_cycling-record_pivot sample_solver 1

single : HasNoRepetition sample_solver.current_sequence
unfolding is_in
single = (refl, tt)

repetition_example : HasNoRepetition (record_pivot 2 sample_solver).current_sequence
repetition_example = record_pivot-HasNoRepetition sample_solver 2 single

sample-IsVaried : IsVaried sample_solver
sample-IsVaried = record {
  current_new = λ h e. let l = ap length e in omega arith;
  current_newer = λ h e. let l = ap length e in omega arith;
  closed_new = λ h e. let l = ap length e in omega arith;
  long = omega arith;
  long_before = omega arith;
}

pivot_three : is_cycling sample_solver 3 ≡ false
unfolding is_cycling is_in starts_with same_sequence
pivot_three = refl

sequences_example : IsVaried (record_pivot 3 sample_solver)
sequences_example = record_pivot-IsVaried sample_solver 3 pivot_three sample-IsVaried
