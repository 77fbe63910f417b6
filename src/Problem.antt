-- ===== src/Problem.antt =====
-- component/solver/modules/QPInverseProblem.h (QPSystem, QPConstraintLists) and
-- ConstraintHandler.h (QPConstraintParams): the state that the solver's parts share.
use soft_robots_inverse.Prelude.{ℕ, ◌-◌, Bool, List, length}
use soft_robots_inverse.Contact.{ContactState}

-- What the solver reads of softrobots::behavior::SoftRobotsBaseConstraint, a class of another plugin.
pub record BaseConstraint (F : Type 0) : Type 0 where
  pub nb_lines : ℕ
  pub has_delta_max : Bool
  pub has_delta_min : Bool
  pub has_delta_equal : Bool
  pub has_lambda_max : Bool
  pub has_lambda_min : Bool
  pub has_lambda_equal : Bool
  pub has_lambda_init : Bool
  pub has_epsilon : Bool
  pub delta_max : ℕ → F
  pub delta_min : ℕ → F
  pub delta_equal : ℕ → F
  pub lambda_max : ℕ → F
  pub lambda_min : ℕ → F
  pub lambda_equal : ℕ → F
  pub lambda_init : ℕ → F
  pub epsilon : F

-- `d_free` and `w` are raw pointers into arrays that the enclosing framework owns.
pub record QpSystem (F : Type 0) : Type 0 where
  pub q : List (List F)
  pub c : List F
  pub a : List (List F)
  pub aeq : List (List F)
  pub bl : List F
  pub bu : List F
  pub beq : List F
  pub l : List F
  pub u : List F
  pub has_both_side_inequality_constraint : Bool
  pub delta : List F
  pub lambda : List F
  pub previous_result : List F
  pub dim : ℕ
  pub d_free : ℕ → F
  pub w : ℕ → ℕ → F

-- A contact is known by its number.
pub record ConstraintLists (F : Type 0) : Type 0 where
  pub actuators : List (BaseConstraint F)
  pub effectors : List (BaseConstraint F)
  pub sensors : List (BaseConstraint F)
  pub contacts : List ℕ
  pub equality : List (BaseConstraint F)
  pub effector_row_ids : List ℕ
  pub actuator_row_ids : List ℕ
  pub sensor_row_ids : List ℕ
  pub contact_row_ids : List ℕ
  pub equality_row_ids : List ℕ

-- `handler_sliding` is m_allowSliding of each of the four handlers.
pub record ConstraintParams (F : Type 0) : Type 0 where
  pub contact_states : List ContactState
  pub allowed_contact_states : List ContactState
  pub handler_sliding : ContactState → Bool
  pub sliding_dir_id1 : ℕ
  pub sliding_dir_id2 : ℕ
  pub contact_nb_lines : ℕ
  pub nb_contact_points : ℕ
  pub constraints_id : List ℕ
  pub mu : F
  pub allow_sliding : Bool
  pub min_contact_forces : F
  pub max_contact_forces : F
  pub has_min_contact_forces : Bool
  pub has_max_contact_forces : Bool

-- What the modules of the solver share: the lists, the parameters of the constraint handler and the
-- quadratic problem.
pub record Problem (F : Type 0) : Type 0 where
  pub lists : ConstraintLists F
  pub params : ConstraintParams F
  pub system : QpSystem F

module _ {F : Type 0} where
  abbrev pub nb_actuator_rows : Problem F → ℕ
  nb_actuator_rows e = length e.lists.actuator_row_ids

  abbrev pub nb_equality_rows : Problem F → ℕ
  nb_equality_rows e = length e.lists.equality_row_ids

  abbrev pub nb_contact_rows : Problem F → ℕ
  nb_contact_rows e = length e.lists.contact_row_ids

  -- i - nbActuatorRows - nbEqualityRows: the place of a contact's variable among the contact rows.
  abbrev pub contact_offset : Problem F → ℕ → ℕ
  contact_offset e i = i - nb_actuator_rows e - nb_equality_rows e
