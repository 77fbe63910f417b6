-- ===== src/ConstraintHandler/Equality/Totality.antt =====
-- buildEqualityConstraintMatrices as a whole: it ends, reads and writes no vector out of its bounds, and
-- Aeq, beq and constraintsId come out in step.
use soft_robots_inverse.Prelude.{
  All, List, Returns, Returns-bind, Returns-mono, [], false, get_elem?, get_elem?-lt, if_elim, inl,
  inr, refl, suc, while-Returns, ℕ, ◌+◌, ◌-◌, ◌<◌, ◌≡◌, ◌≤◌, ◌⊎◌, arith, length, ltb, tests,
  All-Unit, Bool,
}
use soft_robots_inverse.Problem.{Problem, nb_actuator_rows, nb_equality_rows}
use soft_robots_inverse.Double.{Double, ◌≺◌, nought}
use soft_robots_inverse.ConstraintHandler.Shape.{IsWide, IsVariable, Names}
use soft_robots_inverse.ConstraintHandler.Stages.{
  Stage, actuator-Stage, contact-Stage, equality-Stage, friction_room, frictionless_room,
  kind_of_contacts, start-Stage,
}
use soft_robots_inverse.ConstraintHandler.Equality.{
  Equalities, EqualityCursor, actuator_line_step, build_equality_constraint_matrices,
  component_equalities, contact_equalities, contact_line_step, equality_line_step, equality_rows,
  line_step,
}
use soft_robots_inverse.ConstraintHandler.Ready.{
  InContacts, IsAligned, IsFrictional, IsFrictionless, IsReady,
}
use soft_robots_inverse.ConstraintHandler.Rows.{check_clists_consistency}
use soft_robots_inverse.ConstraintHandler.Equality.Lines.{
  IsEven, component_equalities-IsEven, friction_equalities-IsEven, frictionless_equalities-IsEven,
}

module _ {F : Type 0} ⦃R : Double F⦄ (e : Problem F) (stride : ℕ) (result : List F)
    (ready : IsReady e stride result) (aligned : IsAligned e) (base : Names) where
  open ready use {sized}

  abbrev Even : Equalities F → Type 0
  Even = IsEven e stride result ready base

  contact_equalities-Even :
      (i m : ℕ) (n : Equalities F)
      → InContacts e i (suc m)
      → i < e.system.dim
      → Even n
      → Returns Even (contact_equalities e result i n)
  unfolding contact_equalities
  contact_equalities-Even i m n p h v =
      at_contact (kind_of_contacts e stride result ready i p.0 h) aligned
    where
      rubbing : IsFrictional e.lists e.params → Returns Even (contact_equalities e result i n)
      rubbing f =
          let (room, rows, vars) = friction_room e stride result ready i m f p in
          if_elim (Returns Even) (nought ≺ e.params.mu) _ _
            (λ _.
              Returns-bind (λ _. Unit {0}) Even (get_elem? e.params.contact_states _) _
                (let (state, at) = get_elem?-lt e.params.contact_states _ room in (state, at, tt))
                λ state _.
                  friction_equalities-IsEven e stride result ready base state i n f rows vars v)
            (λ slips. ground (arith, f.rubs))

      slipping :
          IsFrictionless e.lists e.params
          → nb_equality_rows e ≡ 0
          → Returns Even (contact_equalities e result i n)
      slipping f no_equality =
          let (rows, vars) = frictionless_room e stride result ready i m f p in
          if_elim (Returns Even) (nought ≺ e.params.mu) _ _ (λ rubs. ground (arith, f.slips))
            λ _.
              Returns-bind (λ _. Unit {0}) Even (get_elem? e.params.contact_states _) _
                (let (state, at) =
                    get_elem?-lt e.params.contact_states (i - nb_actuator_rows e)
                      (omega (arith, f.rows)) in
                  (state, at, tt))
                λ state _.
                  frictionless_equalities-IsEven e stride result ready base state i n rows v

      at_contact :
          IsFrictional e.lists e.params ⊎ IsFrictionless e.lists e.params
          → IsAligned e
          → Returns Even (contact_equalities e result i n)
      at_contact (inl f) a = rubbing f
      at_contact (inr f) (inl rubs) = ground (arith, f.slips)
      at_contact (inr f) (inr (inl no_equality)) = slipping f no_equality
      at_contact (inr f) (inr (inr no_contact)) = absurd (omega (arith, sized, p.0))

  abbrev IsGood : EqualityCursor F → Type 0
  IsGood s = Stage e s.i s.actuators_id s.equality_id × Even s.built

  abbrev measure : EqualityCursor F → ℕ
  measure s =
      (e.system.dim - s.i)
      + (length e.lists.actuators - s.actuators_id)
      + (length e.lists.equality - s.equality_id)

  abbrev Next : EqualityCursor F → EqualityCursor F → Type 0
  Next s t = IsGood t × (measure t < measure s)

  actuator_round :
      (s : EqualityCursor F)
      → IsGood s
      → s.i < nb_actuator_rows e
      → Returns (Next s) (actuator_line_step e s)
  unfolding actuator_line_step
  actuator_round s (stage, v) h =
      let (ac, at, fits, stage', lt) =
        actuator-Stage e stride result ready s.i s.actuators_id s.equality_id stage h in
      rw at (
        Returns-bind Even (Next s)
          (component_equalities e e.lists.actuator_row_ids 0 ac s.i s.built) _
          (component_equalities-IsEven e stride result ready base e.lists.actuator_row_ids 0 ac s.i
            s.built (omega arith) (omega arith) (omega (arith, sized)) v)
          λ n w. (_, refl, ((stage', w), omega (arith, sized))))

  equality_round :
      (s : EqualityCursor F)
      → IsGood s
      → nb_actuator_rows e ≤ s.i
      → s.i < nb_actuator_rows e + nb_equality_rows e
      → Returns (Next s) (equality_line_step e s)
  unfolding equality_line_step
  equality_round s (stage, v) h h' =
      let (ec, at, fits, stage', lt) =
        equality-Stage e stride result ready s.i s.actuators_id s.equality_id stage h h' in
      rw at (
        Returns-bind Even (Next s)
          (component_equalities e e.lists.equality_row_ids (nb_actuator_rows e) ec s.i s.built) _
          (component_equalities-IsEven e stride result ready base e.lists.equality_row_ids
            (nb_actuator_rows e) ec s.i s.built h fits (omega (arith, sized)) v)
          λ n w. (_, refl, ((stage', w), omega (arith, sized))))

  contact_round :
      (s : EqualityCursor F)
      → IsGood s
      → nb_actuator_rows e + nb_equality_rows e ≤ s.i
      → s.i < e.system.dim
      → Returns (Next s) (contact_line_step e result s)
  unfolding contact_line_step
  contact_round s (stage, v) h h' =
      let (m, p) =
        contact-Stage e stride result ready s.i s.actuators_id s.equality_id stage h h' in
      Returns-bind Even (Next s) (contact_equalities e result s.i s.built) _
        (contact_equalities-Even s.i m s.built p h' v)
        λ n w. (_, refl, ((inr (inr (m, omega (arith, p.1))), w), grind (arith, p.1)))

  line_step-IsGood :
      (s : EqualityCursor F)
      → IsGood s
      → s.i < e.system.dim
      → Returns (Next s) (line_step e result s)
  unfolding line_step
  line_step-IsGood s good h =
      if_elim (Returns (Next s)) (ltb s.i (nb_actuator_rows e)) _ _
        (λ a. actuator_round s good (omega tests))
        λ na.
          if_elim (Returns (Next s)) (ltb s.i (nb_actuator_rows e + nb_equality_rows e)) _ _
            (λ b. equality_round s good (omega tests) (omega tests))
            (λ nb. contact_round s good (omega tests) h)

  equality_rows-Even :
      (n : Equalities F) → Even n → Returns (λ s. Even s.built) (equality_rows e result n)
  unfolding equality_rows
  equality_rows-Even n v =
      Returns-mono (λ s. IsGood s × (ltb s.i e.system.dim ≡ false)) (λ s. Even s.built) _
        (λ s p. p.0.1)
        (while-Returns IsGood measure (λ s. ltb s.i e.system.dim) (line_step e result)
          (λ s good more. line_step-IsGood s good (omega tests))
          (e.system.dim + length e.lists.actuators + length e.lists.equality + 1) _ (omega arith)
          (start-Stage e stride result ready, v))

module _ {F : Type 0} ⦃R : Double F⦄ where
  -- Aeq and beq of `e'` have as many rows as entries, constraintsId has grown by one number for each, and
  -- the rows are as wide as the problem.
  pub record IsLevel (e e' : Problem F) : Type 0 where
    pub sides : length e'.system.beq ≡ length e'.system.aeq
    pub names :
        length e'.params.constraints_id ≡ length e.params.constraints_id + length e'.system.aeq
    pub widths : All (IsWide e) e'.system.aeq
    pub same : e' ≡ record e {
      params = record (e.params) { constraints_id = e'.params.constraints_id };
      system = record (e.system) { aeq = e'.system.aeq; beq = e'.system.beq };
    }

  abbrev pub IsNumbered : Bool → Problem F → Problem F → Type 0
  IsNumbered strict e e' = IsLevel e e' × All (IsVariable e strict) e'.params.constraints_id

  pub build_equality_constraint_matrices-IsNumbered :
      (e : Problem F) (stride : ℕ) (result : List F) (strict : Bool)
      → IsReady e stride result
      → IsAligned e
      → All (IsVariable e strict) e.params.constraints_id
      → check_clists_consistency e ≡ false
      → Returns (IsNumbered strict e) (build_equality_constraint_matrices e result)
  unfolding build_equality_constraint_matrices
  build_equality_constraint_matrices-IsNumbered e stride result strict ready aligned known
        consistent =
      let base : Names = record { count = length e.params.constraints_id; strict = strict } in
      if_elim (Returns (IsNumbered strict e)) (check_clists_consistency e) _ _
        (λ wrong. ground (arith, wrong))
        λ _.
          Returns-bind (λ s. IsEven e stride result ready base s.built) (IsNumbered strict e)
            (equality_rows e result _) _
            (equality_rows-Even e stride result ready aligned base
              (record { aeq = []; beq = []; ids = e.params.constraints_id })
              (record { sides = refl; names = omega arith; known = known; widths = tt }))
            λ s w. (
              _,
              refl,
              (
                record { sides = w.sides; names = w.names; widths = w.widths; same = refl },
                w.known,
              ),
            )

  -- For a problem whose lists have the sizes that the collection gives them and pass the
  -- consistency check, equalities of equal line counts, results with an entry for each variable
  -- where there are contacts, and with friction, no equality or no contact,
  -- buildEqualityConstraintMatrices faults nowhere and leaves one entry of beq and one new number
  -- in constraintsId for each row of Aeq, with rows as wide as the problem; and nothing else of the
  -- problem changes.
  pub build_equality_constraint_matrices-IsLevel :
      (e : Problem F) (stride : ℕ) (result : List F)
      → IsReady e stride result
      → IsAligned e
      → check_clists_consistency e ≡ false
      → Returns (IsLevel e) (build_equality_constraint_matrices e result)
  build_equality_constraint_matrices-IsLevel e stride result ready aligned consistent =
      Returns-mono (IsNumbered false e) (IsLevel e) _ (λ e' w. w.0)
        (build_equality_constraint_matrices-IsNumbered e stride result false ready aligned
          (All-Unit e.params.constraints_id) consistent)
