-- ===== src/Collect.antt =====
-- component/solver/modules/QPMechanicalSetConstraint.cpp: how the visitor gives each line of each
-- constraint a row, and sorts the rows into the lists of QPConstraintLists; and clearProblem of
-- QPInverseProblem.cpp, which empties the lists before.
pub mod Partition
use soft_robots_inverse.Prelude.{List, [], suc, zero, ℕ, ◌++◌, ◌+◌, ◌∷◌}
use soft_robots_inverse.Problem.{BaseConstraint, ConstraintLists, Problem}

-- What the visitor finds at a constraint: a SoftRobotsBaseConstraint of a type, another BaseConstraint
-- (a contact, known by a number), or neither.
pub data Found (F : Type 0) : Type 0 where
  actuator : BaseConstraint F → Found F
  effector : BaseConstraint F → Found F
  sensor : BaseConstraint F → Found F
  equality : BaseConstraint F → Found F
  contact : ℕ → Found F
  other : Found F

-- index, index + 1, ..., index + n - 1
pub rows_from : ℕ → ℕ → List ℕ
rows_from index zero = []
rows_from index (suc n) = index ∷ rows_from (index + 1) n

module _ {F : Type 0} where
  -- fwdConstraintSet: `n` is how many lines buildConstraintMatrix has added to m_constraintId.
  pub fwd_constraint_set : Found F × ℕ → ConstraintLists F × ℕ → ConstraintLists F × ℕ
  fwd_constraint_set (actuator c, n) (l, index) = (
    record l {
      actuator_row_ids = l.actuator_row_ids ++ rows_from index n;
      actuators = l.actuators ++ (c ∷ []);
    },
    index + n,
  )
  fwd_constraint_set (effector c, n) (l, index) = (
    record l {
      effector_row_ids = l.effector_row_ids ++ rows_from index n;
      effectors = l.effectors ++ (c ∷ []);
    },
    index + n,
  )
  fwd_constraint_set (sensor c, n) (l, index) = (
    record l {
      sensor_row_ids = l.sensor_row_ids ++ rows_from index n;
      sensors = l.sensors ++ (c ∷ []);
    },
    index + n,
  )
  fwd_constraint_set (equality c, n) (l, index) = (
    record l {
      equality_row_ids = l.equality_row_ids ++ rows_from index n;
      equality = l.equality ++ (c ∷ []);
    },
    index + n,
  )
  fwd_constraint_set (contact k, n) (l, index) = (
    record l {
      contact_row_ids = l.contact_row_ids ++ rows_from index n;
      contacts = l.contacts ++ (k ∷ []);
    },
    index + n,
  )
  fwd_constraint_set (other, n) (l, index) = (l, index + n)

  -- The visit of all constraints, in the order of the graph.
  pub collect : List (Found F × ℕ) → ConstraintLists F × ℕ → ConstraintLists F × ℕ
  collect [] s = s
  collect (c ∷ cs) s = collect cs (fwd_constraint_set c s)

  pub empty_lists : ConstraintLists F
  empty_lists = record {
    actuators = [];
    effectors = [];
    sensors = [];
    contacts = [];
    equality = [];
    effector_row_ids = [];
    actuator_row_ids = [];
    sensor_row_ids = [];
    contact_row_ids = [];
    equality_row_ids = [];
  }

  -- clearProblem
  pub clear_problem : Problem F → Problem F
  clear_problem e = record e {
    lists = empty_lists;
    system = record (e.system) { a = []; aeq = []; bl = []; bu = []; beq = []; q = []; c = [] };
  }
