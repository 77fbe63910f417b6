-- ===== src/ConstraintHandler/Equality.antt =====
-- ConstraintHandler.cpp: buildEqualityConstraintMatrices. Its loop writes Aeq, beq and constraintsId
-- alone, which are threaded through it.
pub mod Lines
pub mod Totality
use soft_robots_inverse.Prelude.{
  List, Option, [], for_range, get_elem?, if◌then◌else◌, some, ℕ, ◌&&◌, ◌++◌, ◌+◌, ◌-◌, ◌/◌, ◌∷◌,
  ltb, while, length, ◌>>=◌, write, replicate,
}
use soft_robots_inverse.Contact.{ContactState, active, inactive, sliding, stick}
use soft_robots_inverse.Problem.{
  BaseConstraint, Problem, contact_offset, nb_actuator_rows, nb_equality_rows,
}
use soft_robots_inverse.Double.{Double, ◌≺◌, ◌⊖◌, nought, negate, one, rabs, small}
use soft_robots_inverse.ConstraintHandler.Rows.{
  check_clists_consistency, compliance_row, contact_row_id, friction_row,
}

pub record Equalities (F : Type 0) : Type 0 where
  pub aeq : List (List F)
  pub beq : List F
  pub ids : List ℕ

-- The loop's variables: the first line that is left, the actuator and the equality that come next.
pub record EqualityCursor (F : Type 0) : Type 0 where
  pub i : ℕ
  pub actuators_id : ℕ
  pub equality_id : ℕ
  pub built : Equalities F

abbrev pub push_equality : {F : Type 0} → List F → ℕ → F → Equalities F → Equalities F
push_equality row i x n = record {
  aeq = n.aeq ++ (row ∷ []);
  beq = n.beq ++ (x ∷ []);
  ids = n.ids ++ (i ∷ []);
}

module _ {F : Type 0} ⦃R : Double F⦄ (e : Problem F) where
  -- Line `k` of a component whose force is given: the row that picks variable i + k.
  pub lambda_equal_line : BaseConstraint F → ℕ → ℕ → Equalities F → Option (Equalities F)
  lambda_equal_line c i k n = do
    row ← write (replicate e.system.dim nought) (i + k) one
    some (push_equality row i (c.lambda_equal k) n)

  -- Line `k` of a component whose displacement is given. `ids` are the rows of W of its kind, and
  -- `first` is the number of the first variable of this kind.
  pub delta_equal_line :
      List ℕ → ℕ → BaseConstraint F → ℕ → ℕ → Equalities F → Option (Equalities F)
  delta_equal_line ids first c i k n = do
    r ← get_elem? ids (i + k - first)
    row ← compliance_row e (λ x. x) r
    some (push_equality row i (c.delta_equal k ⊖ e.system.d_free r) n)

  pub component_equalities :
      List ℕ → ℕ → BaseConstraint F → ℕ → Equalities F → Option (Equalities F)
  component_equalities ids first c i n = do
    m ← (if c.has_lambda_equal then for_range c.nb_lines 0 (lambda_equal_line c i) n else some n)
    (if c.has_delta_equal
        then for_range c.nb_lines 0 (delta_equal_line ids first c i) m
        else some m)

  -- The displacement of line `k` of the contact that starts at variable `i` is zero.
  pub contact_line : ℕ → ℕ → Equalities F → Option (Equalities F)
  contact_line i k n = do
    r ← contact_row_id e i k
    row ← compliance_row e negate r
    some (push_equality row (i + k) (e.system.d_free r) n)

  -- The entry of a tangent direction in the row of the cone: -1 by the force, or by the last force
  -- where it is small, else 1.
  pub cone_sign : List F → ℕ → Option F
  cone_sign result j = do
    x ← get_elem? result j
    if x ≺ nought
        then some (negate one)
        else if (rabs x ≺ small) && ltb 0 (length e.system.previous_result)
        then (do
          y ← get_elem? e.system.previous_result j
          some (if y ≺ nought then negate one else one))
        else some one

  -- |lambda_t| + |lambda_o| = mu * lambda_n, of a contact that slides.
  pub cone_equality : List F → ℕ → Equalities F → Option (Equalities F)
  cone_equality result i n = do
    x ← cone_sign result (i + e.params.sliding_dir_id1)
    y ← cone_sign result (i + e.params.sliding_dir_id2)
    row ←
        friction_row e i (negate e.params.mu) e.params.sliding_dir_id1 x e.params.sliding_dir_id2 y
    some (push_equality row (i + 1) nought n)

  pub friction_equalities : ContactState → List F → ℕ → Equalities F → Option (Equalities F)
  friction_equalities inactive result i n = some n
  friction_equalities active result i n = contact_line i 0 n
  friction_equalities stick result i n = do m ← contact_line i 0 n; for_range 2 1 (contact_line i) m
  friction_equalities sliding result i n = do m ← contact_line i 0 n; cone_equality result i m

  pub frictionless_equalities : ContactState → ℕ → Equalities F → Option (Equalities F)
  frictionless_equalities active i n = contact_line i 0 n
  frictionless_equalities other i n = some n

  -- The state of a frictionless contact is looked up at i - nbActuatorRows.
  pub contact_equalities : List F → ℕ → Equalities F → Option (Equalities F)
  contact_equalities result i n =
      if nought ≺ e.params.mu
      then (do
        state ← get_elem? e.params.contact_states (contact_offset e i / e.params.contact_nb_lines)
        friction_equalities state result i n)
      else (do
        state ← get_elem? e.params.contact_states (i - nb_actuator_rows e)
        frictionless_equalities state i n)

  -- The body of the loop over the lines, by the kind of line.
  pub actuator_line_step : EqualityCursor F → Option (EqualityCursor F)
  actuator_line_step s = do
    ac ← get_elem? e.lists.actuators s.actuators_id
    n ← component_equalities e.lists.actuator_row_ids 0 ac s.i s.built
    some (record s { i = s.i + ac.nb_lines; actuators_id = s.actuators_id + 1; built = n })

  pub equality_line_step : EqualityCursor F → Option (EqualityCursor F)
  equality_line_step s = do
    ec ← get_elem? e.lists.equality s.equality_id
    n ← component_equalities e.lists.equality_row_ids (nb_actuator_rows e) ec s.i s.built
    some (record s { i = s.i + ec.nb_lines; equality_id = s.equality_id + 1; built = n })

  pub contact_line_step : List F → EqualityCursor F → Option (EqualityCursor F)
  contact_line_step result s = do
    n ← contact_equalities result s.i s.built
    some (record s { i = s.i + e.params.contact_nb_lines; built = n })

  pub line_step : List F → EqualityCursor F → Option (EqualityCursor F)
  line_step result s =
      if ltb s.i (nb_actuator_rows e)
      then actuator_line_step s
      else if ltb s.i (nb_actuator_rows e + nb_equality_rows e)
      then equality_line_step s
      else contact_line_step result s

  pub equality_rows : List F → Equalities F → Option (EqualityCursor F)
  equality_rows result n =
      while (e.system.dim + length e.lists.actuators + length e.lists.equality + 1)
        (λ s. ltb s.i e.system.dim) (line_step result)
        (record { i = 0; actuators_id = 0; equality_id = 0; built = n })

module _ {F : Type 0} ⦃R : Double F⦄ where
  pub build_equality_constraint_matrices : Problem F → List F → Option (Problem F)
  build_equality_constraint_matrices e result = if check_clists_consistency e then some e else (do
    s ← equality_rows e result (record { aeq = []; beq = []; ids = e.params.constraints_id })
    some (record e {
      params = record (e.params) { constraints_id = s.built.ids };
      system = record (e.system) { aeq = s.built.aeq; beq = s.built.beq };
    }))
