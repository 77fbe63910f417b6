-- ===== src/Tests/Components.antt =====
-- Actuators at concrete inputs.
use soft_robots_inverse.Prelude.{
  Returns, [], false, none, refl, some, true, ◌∷◌, ◌≡◌, arith, List, ◌>>=◌,
}
use soft_robots_inverse.Tests.Numbers.{int_double, ℤ, negsuc, pos}
use soft_robots_inverse.Component.Cable.{
  Cable, cable_init_limit, cable_store_results, cable_store_results-cable_init_limit, moved,
}
use soft_robots_inverse.Component.Actuator.{
  IsApplied, actuator_store_results, actuator_store_results-IsApplied,
}
use soft_robots_inverse.Component.Joint.{
  Joint, joint_init_limit, joint_store_results, joint_store_results-joint_init_limit,
}
use soft_robots_inverse.Component.Window.{Window}
use soft_robots_inverse.Component.Pressure.{Cavity}
use soft_robots_inverse.Component.Window.Renewal.{IsNear, update_window-IsNear}
use soft_robots_inverse.Double.{◌⊕◌, rabs}
use soft_robots_inverse.Component.Point.{
  Point, point_build_constraint_matrix, point_init_limit, point_nb_lines, point_store_results,
  point_violation,
}
use soft_robots_inverse.Component.Point.Told.{IsTold, point_store_results-IsTold}
use soft_robots_inverse.Component.Point.Lines.{
  IsBuilt, IsCleared, point_build_constraint_matrix-IsBuilt, point_violation-IsCleared,
}

abbrev open_window : Window ℤ
open_window = record { has_low = false; has_high = false; low = pos 0; high = pos 0 }

-- A cable that may be pulled by 5, by 2 at a time, from time 0 on.
abbrev sample_cable : Cable ℤ
sample_cable = record {
  displacement = pos 0;
  force = pos 0;
  init_force = pos 0;
  init_force_set = false;
  constrain_at_time = pos 0;
  max_disp_variation = some (pos 2);
  max_positive_displacement = some (pos 5);
  max_negative_displacement = none;
  max_force = some (pos 9);
  min_force = some (pos 0);
  delta = open_window;
  lambda = open_window;
  has_lambda_init = false;
  lambda_init = pos 0;
  display_limit = true;
  apply_force = true;
  red = false;
  nb_lines = 1;
}

cable_example :
    Returns
      (λ (c', answer).
        (c'
          ≡ record (cable_init_limit (pos 3) (moved (pos 7) (pos 4) sample_cable)) { red = c'.red })
        × IsApplied true 1 (pos 7 ∷ []) answer)
      (cable_store_results
        (pos 3)
        (cable_init_limit (pos 1) sample_cable)
        (pos 7 ∷ [])
        (pos 4 ∷ []))
cable_example =
    cable_store_results-cable_init_limit (pos 1) (pos 3) sample_cable (pos 7 ∷ []) (pos 4 ∷ [])
      (pos 7) (pos 4) refl refl refl refl (omega arith)

abbrev sample_joint : Joint ℤ
sample_joint = record {
  is_valid = true;
  effort = pos 0;
  angle = pos 0;
  init_effort = pos 0;
  init_angle = pos 0;
  max_effort = some (pos 6);
  min_effort = none;
  max_effort_variation = some (pos 1);
  max_angle = some (pos 3);
  min_angle = some (negsuc 2);
  max_angle_variation = none;
  lambda = open_window;
  delta = open_window;
  index = 0;
  constraint_id = 0;
  nb_lines = 1;
  apply_force = false;
}

joint_example :
    Returns
      (λ (j', answer).
        (j' ≡ joint_init_limit (record sample_joint { effort = pos 2; angle = pos 1 }))
        × IsApplied false 1 (pos 2 ∷ []) answer)
      (joint_store_results (joint_init_limit sample_joint) (pos 2 ∷ []) (pos 1 ∷ []))
joint_example =
    joint_store_results-joint_init_limit sample_joint (pos 2 ∷ []) (pos 1 ∷ []) (pos 2) (pos 1) refl
      refl refl (omega arith)

abbrev sample_cavity : Cavity ℤ
sample_cavity = record {
  volume_growth = pos 8;
  pressure = pos 0;
  init_pressure = pos 0;
  init_pressure_set = false;
  max_volume_growth_variation = some (pos 2);
  max_volume_growth = none;
  min_volume_growth = some (negsuc 9);
  max_pressure = none;
  min_pressure = none;
  delta = open_window;
  lambda = open_window;
  has_lambda_init = false;
  lambda_init = pos 0;
  apply_force = true;
  nb_lines = 1;
}

update_window-IsNear_example : IsNear (pos 4) none (some (pos 5)) (pos 2) open_window
update_window-IsNear_example = update_window-IsNear (pos 4) none (some (pos 5)) (pos 2) open_window

dropped_example :
    Returns
      (IsApplied false 2 (pos 7 ∷ pos 8 ∷ []))
      (actuator_store_results false 2 (pos 7 ∷ pos 8 ∷ []))
dropped_example = actuator_store_results-IsApplied false 2 (pos 7 ∷ pos 8 ∷ []) (omega arith)

abbrev norm_one : List ℤ → ℤ
norm_one [] = pos 0
norm_one (x ∷ xs) = rabs x ⊕ norm_one xs

-- No direction is set: a line for each of two coordinates.
abbrev sample_point : Point ℤ
sample_point = record {
  max_force = some (pos 9);
  min_force = none;
  max_force_variation = some (pos 2);
  init_force = pos 1;
  init_force_set = true;
  epsilon_set = none;
  force = pos 1 ∷ pos 1 ∷ [];
  displacement = pos 0;
  direction = pos 0 ∷ pos 0 ∷ [];
  indices = 0 ∷ 7 ∷ [];
  lambda = open_window;
  has_lambda_init = true;
  lambda_init = pos 1;
  has_epsilon = false;
  epsilon = pos 0;
  constraint_id = 0;
  nb_lines = 2;
  apply_force = true;
}

point_lines_example :
    IsBuilt norm_one 2 3 sample_point (point_build_constraint_matrix norm_one 2 5 3 sample_point)
point_lines_example = point_build_constraint_matrix-IsBuilt norm_one 2 5 3 sample_point

abbrev point_places : List ℤ
point_places = pos 4 ∷ pos 4 ∷ pos 4 ∷ pos 4 ∷ pos 4 ∷ pos 4 ∷ []

point_clear_example :
    Returns
      (IsCleared norm_one 2 3 point_places
        (point_build_constraint_matrix norm_one 2 5 3 sample_point).0.nb_lines)
      (point_violation norm_one 2
        (point_build_constraint_matrix norm_one 2 5 3 sample_point).0
        point_places)
unfolding point_nb_lines
point_clear_example =
    point_violation-IsCleared norm_one 2 5 3 sample_point point_places (omega arith)

point_store_example : Returns (IsTold norm_one 2 sample_point (pos 5 ∷ pos 6 ∷ []) (pos 8)) (
    point_init_limit sample_point >>= λ q.
    point_store_results norm_one 2 q (pos 5 ∷ pos 6 ∷ []) (pos 8 ∷ []))
unfolding point_nb_lines
point_store_example =
    point_store_results-IsTold norm_one 2 sample_point (pos 5 ∷ pos 6 ∷ []) (pos 8 ∷ []) (pos 8)
      (omega arith) (omega arith) (omega arith) (omega arith) refl
