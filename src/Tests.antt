-- ===== src/Tests.antt =====
-- The theorems at concrete inputs, in the arithmetic of Tests/Numbers.
mod Numbers
mod Pivots
mod Sample
mod Resolution
mod Delivery
mod Components
use soft_robots_inverse.Prelude.{
  ℕ, List, [], ◌∷◌, ◌≡◌, ◌≢◌, refl, inl, inr, true, false, Returns, if◌then◌else◌, ◌==◌, arith, ◌+◌,
  ◌≤◌, length, none, replicate,
}
use soft_robots_inverse.Double.{◌⊖◌, ◌⊗◌, rabs, nought}
use soft_robots_inverse.Contact.{
  stick, sliding, Triple, friction_states, has_reached_boundary_friction,
  new_contact_handler_friction,
}
use soft_robots_inverse.Contact.Pivot.{
  Move, here, next, touch, Blocked, new_contact_handler_friction-Move, Moves-ne-sliding,
  has_reached_boundary_friction-Blocked,
}
use soft_robots_inverse.ConstraintHandler.Rows.{check_clists_consistency, compliance_row}
use soft_robots_inverse.ConstraintHandler.Rows.Entries.{IsComplianceRow, compliance_row-Returns}
use soft_robots_inverse.ConstraintHandler.Inequality.{build_inequality_constraint_matrices}
use soft_robots_inverse.ConstraintHandler.Inequality.Build.{
  IsBalanced, build_inequality_constraint_matrices-IsBalanced,
}
use soft_robots_inverse.ConstraintHandler.Equality.{build_equality_constraint_matrices}
use soft_robots_inverse.ConstraintHandler.Equality.Totality.{
  IsLevel, build_equality_constraint_matrices-IsLevel,
}
use soft_robots_inverse.Collect.{
  Found, actuator, effector, contact, equality, collect, empty_lists, rows_from,
}
use soft_robots_inverse.Collect.Partition.{collect-Perm, collect-IsCounted, IsCounted, all_row_ids}
use mathlib.Core.List.{Perm}
use soft_robots_inverse.Tests.Numbers.{ℤ, pos, negsuc, int_double}
use soft_robots_inverse.Tests.Pivots.{sample-IsPivotable}
use soft_robots_inverse.Tests.Sample.{
  sample, sample_component, sample_result, sample-IsReady, cone_result, contact_sample,
}
use soft_robots_inverse.Nlcp.Iterations.{IsSettled, solve-IsSettled}
use soft_robots_inverse.Impl.Oases.{update_oases_matrices}
use soft_robots_inverse.Impl.Oases.Layout.{IsComplete, IsLaidOut, update_oases_matrices-IsLaidOut}
use soft_robots_inverse.ConstraintHandler.Bounds.{get_constraint_on_lambda}
use soft_robots_inverse.ConstraintHandler.Bounds.Totality.{
  IsBounded, get_constraint_on_lambda-IsBounded,
}
use soft_robots_inverse.Nlcp.{solve}
use soft_robots_inverse.ConstraintHandler.Release.{check_and_update_actuator_constraints}
use soft_robots_inverse.ConstraintHandler.Release.Opening.{
  IsEased, check_and_update_actuator_constraints-IsEased,
}
use soft_robots_inverse.ConstraintHandler.Release.Effect.{IsReleasable}
use soft_robots_inverse.Problem.{nb_actuator_rows, nb_contact_rows}
use soft_robots_inverse.ConstraintHandler.States.{init_contact_handlers_from}
use soft_robots_inverse.ConstraintHandler.States.Forces.{
  IsInitialised, init_contact_handlers_from-IsInitialised,
}
use soft_robots_inverse.Impl.Contacts.{is_feasible}
use soft_robots_inverse.Impl.Contacts.Feasible.{IsJudged, is_feasible-IsJudged}

consistent : check_clists_consistency sample ≡ false
unfolding check_clists_consistency
consistent = refl

build_inequality_example :
    Returns (IsBalanced sample) (build_inequality_constraint_matrices sample sample_result)
build_inequality_example =
    build_inequality_constraint_matrices-IsBalanced sample 1 sample_result sample-IsReady (inl refl)
      consistent

build_equality_example :
    Returns (IsLevel sample) (build_equality_constraint_matrices sample sample_result)
build_equality_example =
    build_equality_constraint_matrices-IsLevel sample 1 sample_result sample-IsReady (inl refl)
      consistent

compliance_row_example :
    Returns (IsComplianceRow sample (λ x. x) 2) (compliance_row sample (λ x. x) 2)
compliance_row_example = compliance_row-Returns sample refl (λ x. x) 2

-- An actuator, a contact, an effector and an equality, in the order of the graph.
abbrev found : List (Found ℤ × ℕ)
found =
    (actuator sample_component, 1)
    ∷ (contact 8, 3)
    ∷ (effector sample_component, 1)
    ∷ (equality sample_component, 1)
    ∷ []

collect_example :
    let (l, count) = collect found (empty_lists, 0) in Perm (all_row_ids l) (rows_from 0 count)
collect_example = collect-Perm found (tt, (tt, (tt, (tt, tt))))

collect-IsCounted_example : IsCounted (collect found (empty_lists, 0)).0
collect-IsCounted_example = collect-IsCounted found (refl, (tt, (refl, (refl, tt))))

abbrev push_forces : Triple ℤ
push_forces = record { normal = pos 4; first = pos 3; second = pos 1 }

abbrev no_motion : Triple ℤ
no_motion = record { normal = pos 0; first = pos 0; second = pos 0 }

-- A sticking contact on the cone.
handler_example :
    Returns
      (Move true stick)
      (new_contact_handler_friction stick true friction_states push_forces no_motion (pos 1))
handler_example =
    new_contact_handler_friction-Move stick true push_forces no_motion (pos 1) (inr (inl refl))

reached : (has_reached_boundary_friction stick true push_forces no_motion (pos 1) 9).0 ≡ true
unfolding has_reached_boundary_friction
reached = refl

boundary_example :
    Returns
      (Blocked stick (has_reached_boundary_friction stick true push_forces no_motion (pos 1) 9).1)
      (new_contact_handler_friction stick true friction_states push_forces no_motion (pos 1))
boundary_example =
    has_reached_boundary_friction-Blocked stick true push_forces no_motion (pos 1) 9 reached

-- Down onto the surface and off it again.
stuck_example : stick ≢ sliding
stuck_example = Moves-ne-sliding (next here touch) (λ e. cc)

bounds_example :
    Returns
      (IsBounded sample 1 sample_result sample-IsReady)
      (get_constraint_on_lambda sample sample_result)
bounds_example = get_constraint_on_lambda-IsBounded sample 1 sample_result sample-IsReady refl

contact_sample-IsComplete : IsComplete contact_sample.system
contact_sample-IsComplete = record {
  q_rows = refl;
  q_columns = (omega arith, (omega arith, (omega arith, (omega arith, tt))));
  c_size = refl;
  a_columns = (omega arith, (omega arith, tt));
  aeq_columns = (omega arith, tt);
  bu_size = refl;
  bl_size = λ used. refl;
  beq_size = refl;
  l_size = refl;
  u_size = refl;
}

layout_example :
    Returns (IsLaidOut contact_sample.system) (update_oases_matrices false contact_sample.system)
layout_example =
    update_oases_matrices-IsLaidOut false contact_sample.system contact_sample-IsComplete

-- One contact, pressed onto the surface, from no forces.
abbrev error_of : ℤ → ℤ → ℤ → ℤ → ℤ → ℤ → ℤ
error_of a b c d e f = rabs (a ⊖ d)

abbrev gap : ℕ → ℤ
gap r = negsuc 5

abbrev stiffness : ℕ → ℕ → ℤ
stiffness r c = if r == c then pos 2 else pos 0

settled_example :
    Returns
      (IsSettled error_of 3 gap stiffness
        (pos 1)
        true
        refl
        0
        5
        (pos 1 ⊗ pos 2)
        (replicate 3 nought)
        (replicate 1 none))
      (solve error_of 3 gap stiffness (pos 1) true pos (pos 1) 5 false [])
settled_example =
    solve-IsSettled error_of 3 gap stiffness (pos 1) true refl pos (pos 1) 5 false [] refl
      (λ cold. cc)

contact_sample-IsReleasable : IsReleasable contact_sample cone_result
contact_sample-IsReleasable = record {
  named = omega arith;
  bounded = (omega arith, (omega arith, (omega arith, tt)));
  columns = (omega arith, (omega arith, tt));
  x_size = refl;
  bu_size = refl;
  bl_size = λ used. refl;
  l_size = refl;
  u_size = refl;
}

-- Both rows of A are violated: one of them is the actuator's.
release_example :
    Returns
      (IsEased contact_sample cone_result contact_sample-IsReleasable)
      (check_and_update_actuator_constraints contact_sample cone_result)
release_example =
    check_and_update_actuator_constraints-IsEased contact_sample cone_result
      contact_sample-IsReleasable

feasible_example :
    Returns (IsJudged contact_sample cone_result) (is_feasible contact_sample cone_result)
feasible_example =
    is_feasible-IsJudged contact_sample cone_result contact_sample-IsReleasable
      ((omega arith, tt), refl)

-- The columns of the actuator and of the contact.
abbrev columns : List ℕ
columns = 2 ∷ 3 ∷ 4 ∷ 5 ∷ []

cone_room : nb_actuator_rows contact_sample + nb_contact_rows contact_sample ≤ length cone_result
cone_room = omega arith

initial_states_example :
    Returns
      (IsInitialised contact_sample cone_result (sample-IsPivotable.kind) cone_room)
      (init_contact_handlers_from contact_sample cone_result)
initial_states_example =
    init_contact_handlers_from-IsInitialised contact_sample cone_result (sample-IsPivotable.kind)
      cone_room
