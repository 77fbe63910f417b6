-- ===== src/ConstraintHandler/Inequality.antt =====
-- ConstraintHandler.cpp: buildInequalityConstraintMatrices. Its loop writes A, bu, bl and constraintsId
-- alone, which are threaded through it.
pub mod Lines
pub mod Contacts
pub mod Totality
pub mod Build
use soft_robots_inverse.Prelude.{
  ℕ, ◌+◌, ◌-◌, ◌/◌, ◌&&◌, ◌||◌, Option, some, List, [], ltb, ◌==◌, if◌then◌else◌, length, get_elem?,
  ◌>>=◌, for_range, while,
}
use soft_robots_inverse.Double.{Double, ◌⊖◌, ◌⊕◌, ◌⊗◌, ◌≺◌, negate, rabs, nought, one, small, huge}
use soft_robots_inverse.Contact.{ContactState, active, inactive, stick, sliding}
use soft_robots_inverse.Problem.{
  Problem, BaseConstraint, nb_actuator_rows, nb_equality_rows, contact_offset,
}
use soft_robots_inverse.ConstraintHandler.Rows.{
  Inequalities, push_row, push_upper, push_lower, push_unbounded, compliance_row, contact_row_id,
  friction_row, check_clists_consistency,
}
use soft_robots_inverse.ConstraintHandler.Limits.{add_contact_limits}
use soft_robots_inverse.ConstraintHandler.Sides.{mark_actuators, mark_limits}

-- The loop's variables: the first line that is left, the actuator that it belongs to.
pub record Cursor (F : Type 0) : Type 0 where
  pub i : ℕ
  pub actuators_id : ℕ
  pub built : Inequalities F

module _ {F : Type 0} ⦃R : Double F⦄ (e : Problem F) where
  -- Line `k` of an actuator with a bound from above.
  pub delta_max_line : BaseConstraint F → ℕ → ℕ → Inequalities F → Option (Inequalities F)
  delta_max_line ac i k n = do
    r ← get_elem? e.lists.actuator_row_ids (i + k)
    row ← compliance_row e (λ x. x) r
    let n' = push_upper (ac.delta_max k ⊖ e.system.d_free r) (push_row row i n)
    some (
        if ac.has_delta_min
        then push_lower (ac.delta_min k ⊖ e.system.d_free r) n'
        else push_unbounded e n')

  -- Line `k` of an actuator with a bound from below alone, where bl is in use.
  pub delta_min_line : BaseConstraint F → ℕ → ℕ → Inequalities F → Option (Inequalities F)
  delta_min_line ac i k n = do
    r ← get_elem? e.lists.actuator_row_ids (i + k)
    row ← compliance_row e (λ x. x) r
    some (push_upper huge (push_lower (ac.delta_min k ⊖ e.system.d_free r) (push_row row i n)))

  -- The same where bl is not in use: the negated row, bounded from above.
  pub delta_min_negated_line : BaseConstraint F → ℕ → ℕ → Inequalities F → Option (Inequalities F)
  delta_min_negated_line ac i k n = do
    r ← get_elem? e.lists.actuator_row_ids (i + k)
    row ← compliance_row e negate r
    some (push_upper (negate (ac.delta_min k) ⊕ e.system.d_free r) (push_row row i n))

  pub actuator_inequalities : BaseConstraint F → ℕ → Inequalities F → Option (Inequalities F)
  actuator_inequalities ac i n =
      if ac.has_delta_max
      then for_range ac.nb_lines 0 (delta_max_line ac i) n
      else if ac.has_delta_min
      then (if e.system.has_both_side_inequality_constraint
          then for_range ac.nb_lines 0 (delta_min_line ac i) n
          else for_range ac.nb_lines 0 (delta_min_negated_line ac i) n)
      else some n

  -- delta_n >= 0, of an inactive contact.
  pub separation_inequality : ℕ → Inequalities F → Option (Inequalities F)
  separation_inequality i n = do
    r ← contact_row_id e i 0
    row ← compliance_row e negate r
    some (push_unbounded e (push_upper (e.system.d_free r) (push_row row i n)))

  -- One face of |lambda_t| + |lambda_o| <= mu * lambda_n.
  pub cone_face : ℕ → F → F → Inequalities F → Option (Inequalities F)
  cone_face i x y n = do
    row ← friction_row e i (negate e.params.mu) 1 x 2 y
    some (push_row row (i + 1) n)

  -- The four faces of the friction cone, of a contact that sticks.
  pub cone_inequalities : ℕ → Inequalities F → Option (Inequalities F)
  cone_inequalities i n = do
    n1 ← cone_face i one one n
    n2 ← cone_face i (negate one) (negate one) n1
    n3 ← cone_face i one (negate one) n2
    n4 ← cone_face i (negate one) one n3
    for_range 4 0 (λ _ m. some (push_unbounded e (push_upper nought m))) n4

  -- The sign of line `j` of a sliding contact, by the force, or by the last force where it is small.
  pub sliding_sign : List F → ℕ → Option F
  sliding_sign result j = do
    x ← get_elem? result j
    if nought ≺ x
        then some (negate one)
        else if (rabs x ≺ small) && ltb 0 (length e.system.previous_result)
        then (do
          y ← get_elem? e.system.previous_result j
          some (if nought ≺ y then negate one else one))
        else some one

  pub sliding_line : List F → ℕ → ℕ → Inequalities F → Option (Inequalities F)
  sliding_line result i k n =
      if (k == e.params.sliding_dir_id1) || (k == e.params.sliding_dir_id2)
      then (do
        sign ← sliding_sign result (i + k)
        r ← contact_row_id e i k
        row ← compliance_row e (λ x. negate x ⊗ sign) r
        some (push_unbounded e (push_upper (e.system.d_free r ⊗ sign) (push_row row (i + k) n))))
      else some n

  pub friction_inequalities : ContactState → List F → ℕ → Inequalities F → Option (Inequalities F)
  friction_inequalities active result i n = some n
  friction_inequalities inactive result i n = separation_inequality i n
  friction_inequalities stick result i n =
      if e.params.allow_sliding then cone_inequalities i n else some n
  friction_inequalities sliding result i n =
      for_range (e.params.contact_nb_lines - 1) 1 (sliding_line result i) n

  pub frictionless_inequalities : ContactState → ℕ → Inequalities F → Option (Inequalities F)
  frictionless_inequalities inactive i n = separation_inequality i n
  frictionless_inequalities other i n = some n

  -- The state of a frictionless contact is looked up at i - nbActuatorRows.
  pub contact_inequalities : List F → ℕ → Inequalities F → Option (Inequalities F)
  contact_inequalities result i n =
      if nought ≺ e.params.mu
      then (do
        state ← get_elem? e.params.contact_states (contact_offset e i / e.params.contact_nb_lines)
        friction_inequalities state result i n)
      else (do
        state ← get_elem? e.params.contact_states (i - nb_actuator_rows e)
        frictionless_inequalities state i n)

  -- The body of the loop over the lines, by the kind of line.
  pub actuator_step : Cursor F → Option (Cursor F)
  actuator_step s = do
    ac ← get_elem? e.lists.actuators s.actuators_id
    n ← actuator_inequalities ac s.i s.built
    some (record { i = s.i + ac.nb_lines; actuators_id = s.actuators_id + 1; built = n })

  -- An equality takes the lines of the first one: equalityId starts from 0 in each round.
  pub equality_step : Cursor F → Option (Cursor F)
  equality_step s = do ec ← get_elem? e.lists.equality 0; some (record s { i = s.i + ec.nb_lines })

  pub contact_step : List F → Cursor F → Option (Cursor F)
  contact_step result s = do
    n ← contact_inequalities result s.i s.built
    some (record s { i = s.i + e.params.contact_nb_lines; built = n })

  pub inequality_step : List F → Cursor F → Option (Cursor F)
  inequality_step result s =
      if ltb s.i (nb_actuator_rows e)
      then actuator_step s
      else if ltb s.i (nb_actuator_rows e + nb_equality_rows e)
      then equality_step s
      else contact_step result s

  pub inequality_rows : List F → Inequalities F → Option (Cursor F)
  inequality_rows result n =
      while (e.system.dim + length e.lists.actuators + 1) (λ s. ltb s.i e.system.dim)
        (inequality_step result) (record { i = 0; actuators_id = 0; built = n })

module _ {F : Type 0} ⦃R : Double F⦄ where
  -- A, bu and bl cleared.
  abbrev pub cleared : Problem F → Inequalities F
  cleared e = record { a = []; bu = []; bl = []; ids = e.params.constraints_id }

  pub limited : Problem F → Option (Inequalities F)
  limited e =
      if e.params.has_min_contact_forces || e.params.has_max_contact_forces
      then add_contact_limits (mark_actuators e) (cleared e)
      else some (cleared e)

  pub build_inequality_constraint_matrices : Problem F → List F → Option (Problem F)
  build_inequality_constraint_matrices e result = if check_clists_consistency e then some e else (do
    n ← limited e
    let marked = mark_limits (mark_actuators e)
    s ← inequality_rows marked result n
    some (record marked {
      params = record (marked.params) { constraints_id = s.built.ids };
      system = record (marked.system) { a = s.built.a; bu = s.built.bu; bl = s.built.bl };
    }))
