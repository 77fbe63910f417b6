-- ===== src/ConstraintHandler/Bounds/Totality.antt =====
-- getConstraintOnLambda as a whole: it ends with no fault, and no bound is left over from before.
use soft_robots_inverse.Prelude.{
  ℕ, List, Returns, Returns-bind, false, get_elem?-lt, if_elim, inl, inr, refl, suc, while-Returns,
  ◌+◌, ◌-◌, ◌<◌, ◌≡◌, ◌≤◌, ◌⊎◌, arith, length, ltb, subst, sym, tests, get_elem?, some,
}
use soft_robots_inverse.Problem.{
  BaseConstraint, Problem, contact_offset, nb_actuator_rows, nb_equality_rows,
}
use soft_robots_inverse.Double.{Double}
use soft_robots_inverse.ConstraintHandler.Stages.{
  Stage, actuator-Stage, contact-Stage, equality-Stage, friction_room, frictionless_room,
  kind_of_contacts, start-Stage, actuator_position, equality_position, friction_place,
}
use soft_robots_inverse.ConstraintHandler.Ready.{InContacts, IsFrictional, IsFrictionless, IsReady}
use soft_robots_inverse.ConstraintHandler.Bounds.{
  BoundCursor, actuator_bound_step, actuator_high, actuator_low, bound_step, contact_bound_step,
  contact_bounds, equality_bound_step, equality_high, equality_low, friction_bounds,
  frictionless_bounds, get_constraint_on_lambda,
}
use soft_robots_inverse.ConstraintHandler.Bounds.Filled.{
  IsBound, IsFilled, IsWritten, length-resize, lines-IsWritten, of_actuator, of_equality,
}
use soft_robots_inverse.ConstraintHandler.Bounds.Contacts.{
  friction_bounds-IsWritten, frictionless_bounds-IsWritten,
}

module _ {F : Type 0} ⦃R : Double F⦄ (e : Problem F) (stride : ℕ) (result : List F)
    (ready : IsReady e stride result) where
  open ready use {sized}

  abbrev IsGood : BoundCursor F → Type 0
  IsGood s = Stage e s.i s.actuators_id s.equality_id × IsFilled e result s.l s.u s.i

  abbrev measure : BoundCursor F → ℕ
  measure s =
      (e.system.dim - s.i)
      + (length e.lists.actuators - s.actuators_id)
      + (length e.lists.equality - s.equality_id)

  abbrev Next : BoundCursor F → BoundCursor F → Type 0
  Next s t = IsGood t × (measure t < measure s)

  actuator-IsBound :
      (s : BoundCursor F) (ac : BaseConstraint F) (k : ℕ)
      → IsGood s
      → s.i < nb_actuator_rows e
      → get_elem? e.lists.actuators s.actuators_id ≡ some ac
      → k < ac.nb_lines
      → IsBound e result (s.i + k) (actuator_low e ac k) (actuator_high e ac k)
  unfolding actuator_low actuator_high
  actuator-IsBound s ac k good h at few =
      let p = actuator_position e stride result ready s.i s.actuators_id s.equality_id good.0 h in
      of_actuator ac s.actuators_id k at few (omega (arith, p)) (λ g. rw g refl, λ g. rw g refl)
        (λ g. rw g refl, λ g. rw g refl)

  equality-IsBound :
      (s : BoundCursor F) (ec : BaseConstraint F) (k : ℕ)
      → IsGood s
      → nb_actuator_rows e ≤ s.i
      → s.i < nb_actuator_rows e + nb_equality_rows e
      → get_elem? e.lists.equality s.equality_id ≡ some ec
      → k < ec.nb_lines
      → IsBound e result (s.i + k) (equality_low e ec k) (equality_high e ec k)
  unfolding equality_low equality_high
  equality-IsBound s ec k good h h' at few =
      let p =
        equality_position e stride result ready s.i s.actuators_id s.equality_id good.0 h h' in
      of_equality ec s.equality_id k at few (omega (arith, p)) (λ g. rw g refl, λ g. rw g refl)
        (λ g. rw g refl, λ g. rw g refl)

  actuator_round :
      (s : BoundCursor F)
      → IsGood s
      → s.i < nb_actuator_rows e
      → Returns (Next s) (actuator_bound_step e s)
  unfolding actuator_bound_step
  actuator_round s (stage, v) h =
      let (ac, at, fits, stage', lt) =
        actuator-Stage e stride result ready s.i s.actuators_id s.equality_id stage h in
      rw at (
        Returns-bind (IsWritten e result s (s.i + ac.nb_lines)) (Next s) _ _
          (lines-IsWritten e result s s.i ac.nb_lines (actuator_low e ac) (actuator_high e ac)
            (omega (arith, sized)) (λ k. actuator-IsBound s ac k (stage, v) h at) v)
          λ t w. (
            _,
            refl,
            (
              (subst (Stage e (s.i + ac.nb_lines) (s.actuators_id + 1)) (sym w.2) stage', w.3),
              omega (arith, sized, w.2),
            ),
          ))

  equality_round :
      (s : BoundCursor F)
      → IsGood s
      → nb_actuator_rows e ≤ s.i
      → s.i < nb_actuator_rows e + nb_equality_rows e
      → Returns (Next s) (equality_bound_step e s)
  unfolding equality_bound_step
  equality_round s (stage, v) h h' =
      let (ec, at, fits, stage', lt) =
        equality-Stage e stride result ready s.i s.actuators_id s.equality_id stage h h' in
      rw at (
        Returns-bind (IsWritten e result s (s.i + ec.nb_lines)) (Next s) _ _
          (lines-IsWritten e result s s.i ec.nb_lines (equality_low e ec) (equality_high e ec)
            (omega (arith, sized)) (λ k. equality-IsBound s ec k (stage, v) h h' at) v)
          λ t w. (
            _,
            refl,
            (
              (
                subst (λ a. Stage e (s.i + ec.nb_lines) a (s.equality_id + 1)) (sym w.1) stage',
                w.3,
              ),
              omega (arith, sized, w.1),
            ),
          ))

  contact_bounds-IsWritten :
      (s : BoundCursor F) (m : ℕ)
      → InContacts e s.i (suc m)
      → s.i < e.system.dim
      → IsFilled e result s.l s.u s.i
      → Returns
          (IsWritten e result s (s.i + e.params.contact_nb_lines))
          (contact_bounds e result s.i s)
  unfolding contact_bounds
  contact_bounds-IsWritten s m p h v = at_contact (kind_of_contacts e stride result ready s.i p.0 h)
    where
      at_contact :
          IsFrictional e.lists e.params ⊎ IsFrictionless e.lists e.params
          → Returns
              (IsWritten e result s (s.i + e.params.contact_nb_lines))
              (contact_bounds e result s.i s)
      at_contact (inl f) =
          let (room, rows, vars) = friction_room e stride result ready s.i m f p in
          let (state, at) = get_elem?-lt e.params.contact_states _ room in
          rw (f.rubs, at)
            (subst
              (λ n. Returns (IsWritten e result s (s.i + n)) (friction_bounds e state result s.i s))
              (sym f.three_lines)
              (friction_bounds-IsWritten e stride result ready (omega arith) s s.i _ f
                (friction_place e stride result ready s.i m f p) state s at f.three_lines vars
                (refl, refl, refl, v)))
      at_contact (inr f) =
          let (rows, vars) = frictionless_room e stride result ready s.i m f p in
          let (state, at) =
            get_elem?-lt e.params.contact_states (contact_offset e s.i) (omega (arith, f.rows)) in
          rw (f.slips, at)
            (subst
              (λ n. Returns (IsWritten e result s (s.i + n)) (frictionless_bounds e state s.i s))
              (sym f.one_line)
              (frictionless_bounds-IsWritten e stride result ready (omega arith) s s.i
                (contact_offset e s.i) state s f (omega (arith, p.0)) at vars
                (refl, refl, refl, v)))

  contact_round :
      (s : BoundCursor F)
      → IsGood s
      → nb_actuator_rows e + nb_equality_rows e ≤ s.i
      → s.i < e.system.dim
      → Returns (Next s) (contact_bound_step e result s)
  unfolding contact_bound_step
  contact_round s (stage, v) h h' =
      let (m, p) =
        contact-Stage e stride result ready s.i s.actuators_id s.equality_id stage h h' in
      let some_lines : 0 < e.params.contact_nb_lines =
        lines (kind_of_contacts e stride result ready s.i p.0 h') in
      Returns-bind (IsWritten e result s (s.i + e.params.contact_nb_lines)) (Next s)
        (contact_bounds e result s.i s) _ (contact_bounds-IsWritten s m p h' v)
        λ t w. (
          _,
          refl,
          (
            (inr (inr (m, (omega (arith, p.0), grind (arith, p.1)))), w.3),
            grind (arith, p.1, w.1, w.2),
          ),
        )
    where
      lines :
          IsFrictional e.lists e.params ⊎ IsFrictionless e.lists e.params
          → 0 < e.params.contact_nb_lines
      lines (inl f) = omega (arith, f.three_lines)
      lines (inr f) = omega (arith, f.one_line)

  bound_step-IsGood :
      (s : BoundCursor F) → IsGood s → s.i < e.system.dim → Returns (Next s) (bound_step e result s)
  unfolding bound_step
  bound_step-IsGood s good h =
      if_elim (Returns (Next s)) (ltb s.i (nb_actuator_rows e)) _ _
        (λ a. actuator_round s good (omega tests))
        λ na.
          if_elim (Returns (Next s)) (ltb s.i (nb_actuator_rows e + nb_equality_rows e)) _ _
            (λ b. equality_round s good (omega tests) (omega tests))
            (λ nb. contact_round s good (omega tests) h)

  -- The bounds of all variables.
  abbrev pub IsBounded : Problem F → Type 0
  IsBounded e' =
      IsFilled e result e'.system.l e'.system.u e.system.dim
      × (e' ≡ record e { system = record (e.system) { l = e'.system.l; u = e'.system.u } })

  -- In a problem whose lists have the sizes that the collection gives them, with equalities of
  -- equal line counts, a row of Q for each variable, and results with an entry for each variable
  -- where there are contacts, getConstraintOnLambda ends with no fault, and each variable has its
  -- own pair of bounds. A line of an actuator has the actuator's limits for that line, a line of an
  -- equality the value for that line, each open where none is given. Of a contact with friction, an
  -- inactive one is held at zero; else the normal force is from zero up, and a tangential one is
  -- free if the contact is active or sticks, and keeps to the side of its former sign if it slides.
  -- Without friction an active contact's force is from zero up, and any other is held at zero.
  -- Nothing else of the problem changes.
  pub get_constraint_on_lambda-IsBounded :
      length e.system.q ≡ e.system.dim → Returns IsBounded (get_constraint_on_lambda e result)
  unfolding get_constraint_on_lambda
  get_constraint_on_lambda-IsBounded square =
      Returns-bind (λ s. IsGood s × (ltb s.i (length e.system.q) ≡ false)) IsBounded _ _
        (while-Returns IsGood measure (λ s. ltb s.i (length e.system.q)) (bound_step e result)
          (λ s good more. bound_step-IsGood s good (omega (tests, square)))
          (length e.system.q + length e.lists.actuators + length e.lists.equality + 1) _
          (omega (arith, square))
          (
            start-Stage e stride result ready,
            record {
              lows = length-resize e.system.dim e.system.l;
              highs = length-resize e.system.dim e.system.u;
              pairs = λ j no. absurd (omega arith);
            },
          ))
        λ s w. (
          _,
          refl,
          (
            record {
              lows = w.0.1.lows;
              highs = w.0.1.highs;
              pairs = λ j h. w.0.1.pairs j (omega (tests, square));
            },
            refl,
          ),
        )
