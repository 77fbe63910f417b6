-- ===== src/Tests/Sample.antt =====
-- A small problem for the tests: an actuator of one line, bounded on both sides, an equality of one line
-- and a contact with friction, of three lines.
use soft_robots_inverse.Prelude.{
  ◌*◌, ◌+◌, List, [], ◌∷◌, true, false, refl, inl, inr, replicate, arith,
}
use soft_robots_inverse.Contact.{stick, friction_states}
use soft_robots_inverse.Problem.{
  BaseConstraint, ConstraintLists, ConstraintParams, QpSystem, Problem,
}
use soft_robots_inverse.ConstraintHandler.Ready.{IsReady, total_lines}
use soft_robots_inverse.Tests.Numbers.{ℤ, pos, negsuc, int_double}
use soft_robots_inverse.Impl.State.{Solver}

abbrev pub sample_component : BaseConstraint ℤ
sample_component = record {
  nb_lines = 1;
  has_delta_max = true;
  has_delta_min = true;
  has_delta_equal = true;
  has_lambda_max = true;
  has_lambda_min = false;
  has_lambda_equal = false;
  has_lambda_init = false;
  has_epsilon = false;
  delta_max = λ k. pos 7;
  delta_min = λ k. negsuc 2;
  delta_equal = λ k. pos 4;
  lambda_max = λ k. pos 9;
  lambda_min = λ k. pos 0;
  lambda_equal = λ k. pos 0;
  lambda_init = λ k. pos 0;
  epsilon = pos 0;
}

-- Its rows of W: 2 of the actuator, 0 of the equality, 3, 4 and 5 of the contact; 1 is an effector's.
abbrev pub sample_lists : ConstraintLists ℤ
sample_lists = record {
  actuators = sample_component ∷ [];
  effectors = sample_component ∷ [];
  sensors = [];
  contacts = 8 ∷ [];
  equality = sample_component ∷ [];
  effector_row_ids = 1 ∷ [];
  actuator_row_ids = 2 ∷ [];
  sensor_row_ids = [];
  contact_row_ids = 3 ∷ 4 ∷ 5 ∷ [];
  equality_row_ids = 0 ∷ [];
}

abbrev pub sample_params : ConstraintParams ℤ
sample_params = record {
  contact_states = stick ∷ [];
  allowed_contact_states = friction_states;
  handler_sliding = λ state. true;
  sliding_dir_id1 = 1;
  sliding_dir_id2 = 2;
  contact_nb_lines = 3;
  nb_contact_points = 1;
  constraints_id = [];
  mu = pos 1;
  allow_sliding = true;
  min_contact_forces = pos 0;
  max_contact_forces = pos 20;
  has_min_contact_forces = false;
  has_max_contact_forces = true;
}

abbrev pub sample_system : QpSystem ℤ
sample_system = record {
  q = replicate 5 (replicate 5 (pos 1));
  c = replicate 5 (pos 0);
  a = [];
  aeq = [];
  bl = [];
  bu = [];
  beq = [];
  l = [];
  u = [];
  has_both_side_inequality_constraint = false;
  delta = [];
  lambda = [];
  previous_result = [];
  dim = 5;
  d_free = pos;
  w = λ r c. pos (r * 10 + c);
}

abbrev pub sample : Problem ℤ
sample = record { lists = sample_lists; params = sample_params; system = sample_system }

abbrev pub sample_result : List ℤ
sample_result = pos 1 ∷ pos 2 ∷ pos 3 ∷ negsuc 0 ∷ pos 0 ∷ []

pub sample-IsReady : IsReady sample 1 sample_result
unfolding total_lines
sample-IsReady = record {
  sized = refl;
  actuator_lines = refl;
  equality_lines = refl;
  contact_lines = inr (
      inl (record {
        rubs = refl;
        three_lines = refl;
        first_dir = refl;
        second_dir = refl;
        rows = refl;
      }));
  uniform = (refl, tt);
  some_line = omega arith;
  result_size = λ some_row. refl;
  previous_size = λ some_row. inl refl;
}

-- The same without the equality, and with rows of A for the actuator and the contact.
abbrev pub contact_sample : Problem ℤ
contact_sample = record {
  lists = record sample_lists { equality = []; equality_row_ids = [] };
  params = record sample_params { constraints_id = 0 ∷ 1 ∷ 2 ∷ [] };
  system = record sample_system {
    dim = 4;
    q = replicate 4 (replicate 4 (pos 1));
    c = replicate 4 (pos 2);
    a = replicate 4 (pos 3) ∷ replicate 4 (pos 4) ∷ [];
    aeq = replicate 4 (pos 5) ∷ [];
    bu = pos 6 ∷ pos 7 ∷ [];
    bl = negsuc 0 ∷ negsuc 1 ∷ [];
    beq = pos 8 ∷ [];
    l = replicate 4 (pos 0);
    u = replicate 4 (pos 9);
    has_both_side_inequality_constraint = true;
  };
}

abbrev pub sample_solver : Solver ℤ
sample_solver = record {
  problem = contact_sample;
  epsilon = pos 0;
  actuators_only = false;
  tolerance = pos 1;
  max_iteration = 10;
  max_nb_pivot = 100;
  mu = pos 1;
  allow_sliding = true;
  step = 0;
  iteration = 0;
  current_sequence = 1 ∷ [];
  previous_sequence = [];
  sequence = 1 ∷ 2 ∷ [];
}

-- A force on the cone: the contact is to slide.
abbrev pub cone_result : List ℤ
cone_result = pos 1 ∷ pos 2 ∷ pos 1 ∷ pos 1 ∷ []

abbrev pub sample_dual : List ℤ
sample_dual = pos 0 ∷ pos 3 ∷ pos 5 ∷ []
