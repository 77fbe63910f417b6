-- ===== src/ConstraintHandler/Stages.antt =====
-- The loops of buildEqualityConstraintMatrices and getConstraintOnLambda: which component a line belongs
-- to. Here actuators and equalities are both counted component by component.
use soft_robots_inverse.Prelude.{
  List, get_elem?, inl, inr, refl, some, suc, ℕ, ◌*◌, ◌+◌, ◌/◌, ◌<◌, ◌∙◌, ◌≡◌, ◌≤◌, ◌⊎◌, arith,
  length, subst, ap, sym,
}
use soft_robots_inverse.Problem.{
  BaseConstraint, Problem, contact_offset, nb_actuator_rows, nb_contact_rows, nb_equality_rows,
}
use soft_robots_inverse.Double.{Double}
use soft_robots_inverse.ConstraintHandler.Ready.{
  HasContacts, InActuators, InContacts, IsFrictional, IsFrictionless, IsReady, first_contact,
  lines_from, lines_from-pos, one_left,
}

third_lt : (n c s : ℕ) → c ≡ 3 → n < s * 3 → n / c < s
third_lt n c s e h = subst (λ d. n / d < s) (sym e) (omega arith)

module _ {F : Type 0} ⦃R : Double F⦄ where
  -- Within the actuators, where component `a` comes next; within the equalities, where component `q`
  -- comes next; or within the contacts, of which `m` are left.
  abbrev pub Stage : Problem F → ℕ → ℕ → ℕ → Type 0
  Stage e i a q =
      (InActuators e i a × (q ≡ 0))
      ⊎ (((nb_actuator_rows e ≤ i)
            × (i + lines_from e.lists.equality q ≡ nb_actuator_rows e + nb_equality_rows e))
          ⊎ ((m : ℕ) × InContacts e i m))

  module _ (e : Problem F) (stride : ℕ) (result : List F) (ready : IsReady e stride result) where
    open ready use {sized}

    pub start-Stage : Stage e 0 0 0
    unfolding lines_from
    start-Stage = inl (omega (arith, ready.actuator_lines), refl)

    pub actuator-Stage :
        (i a q : ℕ)
        → Stage e i a q
        → i < nb_actuator_rows e
        → (ac : BaseConstraint F) × (get_elem? e.lists.actuators a ≡ some ac)
          × (i + ac.nb_lines ≤ nb_actuator_rows e)
          × Stage e (i + ac.nb_lines) (a + 1) q
          × (a < length e.lists.actuators)
    actuator-Stage i a q (inl (p, z)) h =
        let (ac, at, split, lt) = lines_from-pos e.lists.actuators a (omega arith) in
        let next : lines_from e.lists.actuators (a + 1) ≡ lines_from e.lists.actuators (suc a) =
          ap (lines_from e.lists.actuators) (omega arith) in
        (ac, at, omega arith, inl (omega arith, z), lt)
    actuator-Stage i a q (inr (inl p)) h = absurd (omega arith)
    actuator-Stage i a q (inr (inr (m, p))) h = absurd (omega arith)

    from_equality :
        (i a q : ℕ)
        → nb_actuator_rows e ≤ i
        → i + lines_from e.lists.equality q ≡ nb_actuator_rows e + nb_equality_rows e
        → i < nb_actuator_rows e + nb_equality_rows e
        → (ec : BaseConstraint F) × (get_elem? e.lists.equality q ≡ some ec)
          × (i + ec.nb_lines ≤ nb_actuator_rows e + nb_equality_rows e)
          × Stage e (i + ec.nb_lines) a (q + 1)
          × (q < length e.lists.equality)
    from_equality i a q h p h' =
        let (ec, at, split, lt) = lines_from-pos e.lists.equality q (omega arith) in
        let next : lines_from e.lists.equality (q + 1) ≡ lines_from e.lists.equality (suc q) =
          ap (lines_from e.lists.equality) (omega arith) in
        (ec, at, omega arith, inr (inl (omega arith)), lt)

    pub equality-Stage :
        (i a q : ℕ)
        → Stage e i a q
        → nb_actuator_rows e ≤ i
        → i < nb_actuator_rows e + nb_equality_rows e
        → (ec : BaseConstraint F) × (get_elem? e.lists.equality q ≡ some ec)
          × (i + ec.nb_lines ≤ nb_actuator_rows e + nb_equality_rows e)
          × Stage e (i + ec.nb_lines) a (q + 1)
          × (q < length e.lists.equality)
    unfolding lines_from
    equality-Stage i a q (inl (p, z)) h h' =
        let all : lines_from e.lists.equality q ≡ nb_equality_rows e =
          ap (lines_from e.lists.equality) z ∙ ready.equality_lines in
        from_equality i a q h (omega arith) h'
    equality-Stage i a q (inr (inl p)) h h' = from_equality i a q h p.1 h'
    equality-Stage i a q (inr (inr (m, p))) h h' = absurd (omega arith)

    -- The component that comes next begins at the row.
    pub actuator_position :
        (i a q : ℕ)
        → Stage e i a q
        → i < nb_actuator_rows e
        → i + lines_from e.lists.actuators a ≡ nb_actuator_rows e
    actuator_position i a q (inl (p, z)) h = p
    actuator_position i a q (inr (inl p)) h = absurd (omega arith)
    actuator_position i a q (inr (inr (m, p))) h = absurd (omega arith)

    pub equality_position :
        (i a q : ℕ)
        → Stage e i a q
        → nb_actuator_rows e ≤ i
        → i < nb_actuator_rows e + nb_equality_rows e
        → i + lines_from e.lists.equality q ≡ nb_actuator_rows e + nb_equality_rows e
    unfolding lines_from
    equality_position i a q (inl (p, z)) h h' =
        let all : lines_from e.lists.equality q ≡ nb_equality_rows e =
          ap (lines_from e.lists.equality) z ∙ ready.equality_lines in
        omega arith
    equality_position i a q (inr (inl p)) h h' = p.1
    equality_position i a q (inr (inr (m, p))) h h' = absurd (omega arith)

    pub contact-Stage :
        (i a q : ℕ)
        → Stage e i a q
        → nb_actuator_rows e + nb_equality_rows e ≤ i
        → i < e.system.dim
        → (m : ℕ) × InContacts e i (suc m)
    contact-Stage i a q (inl (p, z)) h h' = first_contact e stride result ready i (omega arith) h'
    contact-Stage i a q (inr (inl p)) h h' = first_contact e stride result ready i (omega arith) h'
    contact-Stage i a q (inr (inr (m, p))) h h' =
        let (k, left) = one_left i m e.params.contact_nb_lines _ p.1 h' in (k, (h, left))

    -- A contact with friction has its state, and its three lines, in the lists.
    pub friction_room :
        (i m : ℕ)
        → IsFrictional e.lists e.params
        → InContacts e i (suc m)
        → (contact_offset e i / e.params.contact_nb_lines < length e.params.contact_states)
          × (contact_offset e i + 2 < nb_contact_rows e)
          × (i + 2 < e.system.dim)
    friction_room i m f (h, left) =
        let left' : i + suc m * 3 ≡ e.system.dim =
          subst (λ c. i + suc m * c ≡ e.system.dim) f.three_lines left in
        (
          third_lt _ _ _ f.three_lines (omega (arith, sized, f.rows)),
          omega (arith, sized, f.rows),
          omega arith,
        )

    -- The row is the first of its contact's.
    pub friction_place :
        (i m : ℕ)
        → IsFrictional e.lists e.params
        → InContacts e i (suc m)
        → i
          ≡ nb_actuator_rows e
            + nb_equality_rows e
            + contact_offset e i / e.params.contact_nb_lines * 3
    friction_place i m f (h, left) =
        let left' : i + suc m * 3 ≡ e.system.dim =
          subst (λ c. i + suc m * c ≡ e.system.dim) f.three_lines left in
        subst (λ d. i ≡ nb_actuator_rows e + nb_equality_rows e + contact_offset e i / d * 3)
          (sym f.three_lines) (omega (arith, sized, f.rows))

    pub frictionless_room :
        (i m : ℕ)
        → IsFrictionless e.lists e.params
        → InContacts e i (suc m)
        → (contact_offset e i < nb_contact_rows e) × (i < e.system.dim)
    frictionless_room i m f (h, left) =
        let left' : i + suc m * 1 ≡ e.system.dim =
          subst (λ c. i + suc m * c ≡ e.system.dim) f.one_line left in
        (omega (arith, sized), omega arith)

    -- The contacts are of one kind, where there is one.
    pub kind_of_contacts :
        (i : ℕ)
        → nb_actuator_rows e + nb_equality_rows e ≤ i
        → i < e.system.dim
        → IsFrictional e.lists e.params ⊎ IsFrictionless e.lists e.params
    kind_of_contacts i h h' = of_contacts ready.contact_lines
      where
        of_contacts :
            HasContacts e → IsFrictional e.lists e.params ⊎ IsFrictionless e.lists e.params
        of_contacts (inl no_contact) = absurd (omega (arith, sized))
        of_contacts (inr kind) = kind
