-- ===== src/ConstraintHandler/Ready.antt =====
-- What the functions of ConstraintHandler.cpp need of the problem that they are given: the sizes that
-- QPInverseProblemImpl::solve and QPMechanicalSetConstraint set up.
use soft_robots_inverse.Prelude.{
  List, ℕ, All, suc, ◌<◌, ◌∷◌, get_elem?, ◌+◌, ◌≡◌, false, length, some, true, ◌⊎◌, arith, ◌*◌, [],
  zero, refl, inl, inr, ◌≤◌, ap, ◌∙◌, sym, All-get_elem?, get_elem?-lt,
}
use soft_robots_inverse.Double.{Double, nought, ◌≺◌}
use soft_robots_inverse.Problem.{
  BaseConstraint, Problem, nb_contact_rows, nb_actuator_rows, nb_equality_rows, ConstraintLists,
  ConstraintParams,
}
use soft_robots_inverse.ConstraintHandler.Rows.Entries.{IsSized}

pub one_left : (i m d t : ℕ) → i + m * d ≡ t → i < t → (k : ℕ) × (i + suc k * d ≡ t)
one_left i zero d t e h = absurd (grind arith)
one_left i (suc k) d t e h = (k, e)

module _ {F : Type 0} where
  unfoldable pub total_lines : List (BaseConstraint F) → ℕ
  total_lines [] = 0
  total_lines (c ∷ cs) = c.nb_lines + total_lines cs

  pub length-mul_lines :
      (stride : ℕ) (cs : List (BaseConstraint F))
      → All (λ c. c.nb_lines ≡ stride) cs
      → total_lines cs ≡ length cs * stride
  unfolding total_lines
  length-mul_lines stride [] all = omega arith
  length-mul_lines stride (c ∷ cs) (same, all) = grind (arith, length-mul_lines stride cs all)

  -- The lines of the components from number `id` on.
  unfoldable pub lines_from : List (BaseConstraint F) → ℕ → ℕ
  unfolding total_lines
  lines_from cs zero = total_lines cs
  lines_from [] (suc id) = 0
  lines_from (c ∷ cs) (suc id) = lines_from cs id

  -- Where lines are left there is a next component, and its lines are the first of those.
  pub lines_from-pos :
      (cs : List (BaseConstraint F)) (id : ℕ)
      → 0 < lines_from cs id
      → (c : BaseConstraint F) × (get_elem? cs id ≡ some c)
        × (lines_from cs id ≡ c.nb_lines + lines_from cs (suc id))
        × (id < length cs)
  unfolding lines_from
  lines_from-pos [] zero h = absurd (omega arith)
  lines_from-pos [] (suc id) h = absurd (omega arith)
  lines_from-pos (c ∷ cs) zero h = (c, refl, refl, omega arith)
  lines_from-pos (c ∷ cs) (suc id) h =
      let (d, e, l, b) = lines_from-pos cs id h in (d, e, l, omega arith)

module _ {F : Type 0} ⦃R : Double F⦄ where
  -- Three lines for each contact, in the directions 0, 1 and 2.
  pub record IsFrictional (l : ConstraintLists F) (p : ConstraintParams F) : Type 0 where
    pub rubs : (nought ≺ p.mu) ≡ true
    pub three_lines : p.contact_nb_lines ≡ 3
    pub first_dir : p.sliding_dir_id1 ≡ 1
    pub second_dir : p.sliding_dir_id2 ≡ 2
    pub rows : length l.contact_row_ids ≡ length p.contact_states * 3

  pub record IsFrictionless (l : ConstraintLists F) (p : ConstraintParams F) : Type 0 where
    pub slips : (nought ≺ p.mu) ≡ false
    pub one_line : p.contact_nb_lines ≡ 1
    pub rows : length l.contact_row_ids ≡ length p.contact_states

  abbrev pub HasContacts : Problem F → Type 0
  HasContacts e =
      (nb_contact_rows e ≡ 0) ⊎ (IsFrictional e.lists e.params ⊎ IsFrictionless e.lists e.params)

  -- With friction, with no equality or with no contact: where the two ways to look up a contact's state agree.
  abbrev pub IsAligned : Problem F → Type 0
  IsAligned e =
      ((nought ≺ e.params.mu) ≡ true) ⊎ ((nb_equality_rows e ≡ 0) ⊎ (nb_contact_rows e ≡ 0))

  -- `stride` is the number of lines that every equality has. Only contacts look at the results.
  pub record IsReady (e : Problem F) (stride : ℕ) (result : List F) : Type 0 where
    pub sized : IsSized e
    pub actuator_lines : total_lines e.lists.actuators ≡ nb_actuator_rows e
    pub equality_lines : total_lines e.lists.equality ≡ nb_equality_rows e
    pub contact_lines : HasContacts e
    pub uniform : All (λ ec. ec.nb_lines ≡ stride) e.lists.equality
    pub some_line : 0 < stride
    pub result_size : 0 < nb_contact_rows e → length result ≡ e.system.dim
    pub previous_size :
        0 < nb_contact_rows e
        → (length e.system.previous_result ≡ 0) ⊎ (length e.system.previous_result ≡ e.system.dim)

  -- The contacts make up whole groups of lines.
  pub contact_groups :
      (e : Problem F)
      → HasContacts e
      → (m : ℕ) × (nb_contact_rows e ≡ m * e.params.contact_nb_lines)
  contact_groups e (inl no_contact) = (0, omega arith)
  contact_groups e (inr (inl f)) =
      (length e.params.contact_states, grind (arith, f.rows, f.three_lines))
  contact_groups e (inr (inr f)) =
      (length e.params.contact_states, grind (arith, f.rows, f.one_line))

  -- A loop that steps over the groups of lines: within the actuators, where component `id` comes next;
  -- within the equalities, of which `m` are left; or within the contacts, of which `m` are left.
  abbrev pub InActuators : Problem F → ℕ → ℕ → Type 0
  InActuators e i id = i + lines_from e.lists.actuators id ≡ nb_actuator_rows e

  abbrev pub InEqualities : Problem F → ℕ → ℕ → ℕ → Type 0
  InEqualities e stride i m =
      (nb_actuator_rows e ≤ i) × (i + m * stride ≡ nb_actuator_rows e + nb_equality_rows e)

  abbrev pub InContacts : Problem F → ℕ → ℕ → Type 0
  InContacts e i m =
      (nb_actuator_rows e + nb_equality_rows e ≤ i)
      × (i + m * e.params.contact_nb_lines ≡ e.system.dim)

  abbrev pub Place : Problem F → ℕ → ℕ → ℕ → Type 0
  Place e stride i id =
      InActuators e i id ⊎ (((m : ℕ) × InEqualities e stride i m) ⊎ ((m : ℕ) × InContacts e i m))

  module _ (e : Problem F) (stride : ℕ) (result : List F) (ready : IsReady e stride result) where
    open ready use {sized}

    pub start-Place : Place e stride 0 0
    unfolding lines_from
    start-Place = inl (omega (arith, ready.actuator_lines))

    pub actuator-Place :
        (i id : ℕ)
        → Place e stride i id
        → i < nb_actuator_rows e
        → (ac : BaseConstraint F) × (get_elem? e.lists.actuators id ≡ some ac)
          × (i + ac.nb_lines ≤ nb_actuator_rows e)
          × Place e stride (i + ac.nb_lines) (id + 1)
          × (id < length e.lists.actuators)
    actuator-Place i id (inl p) h =
        let (ac, at, split, lt) = lines_from-pos e.lists.actuators id (omega arith) in
        let next : lines_from e.lists.actuators (id + 1) ≡ lines_from e.lists.actuators (suc id) =
          ap (lines_from e.lists.actuators) (omega arith) in
        (ac, at, omega arith, inl (omega arith), lt)
    actuator-Place i id (inr (inl (m, p))) h = absurd (omega arith)
    actuator-Place i id (inr (inr (m, p))) h = absurd (omega arith)

    pub first_equality :
        0 < nb_equality_rows e
        → (ec : BaseConstraint F) × (get_elem? e.lists.equality 0 ≡ some ec)
          × (ec.nb_lines ≡ stride)
    first_equality h =
        let all : nb_equality_rows e ≡ length e.lists.equality * stride =
          sym ready.equality_lines ∙ length-mul_lines stride e.lists.equality ready.uniform in
        let (ec, at) = get_elem?-lt e.lists.equality 0 (grind (arith, all)) in
        (ec, at, All-get_elem? (λ c. c.nb_lines ≡ stride) e.lists.equality 0 ec ready.uniform at)

    pub equality-Place :
        (i id : ℕ)
        → Place e stride i id
        → nb_actuator_rows e ≤ i
        → i < nb_actuator_rows e + nb_equality_rows e
        → (m : ℕ) × InEqualities e stride i (suc m)
    equality-Place i id (inl p) h h' =
        let all : nb_equality_rows e ≡ length e.lists.equality * stride =
          sym ready.equality_lines ∙ length-mul_lines stride e.lists.equality ready.uniform in
        let (k, left) = one_left i (length e.lists.equality) stride _ (omega (arith, all)) h' in
        (k, (h, left))
    equality-Place i id (inr (inl (m, p))) h h' =
        let (k, left) = one_left i m stride _ p.1 h' in (k, (h, left))
    equality-Place i id (inr (inr (m, p))) h h' = absurd (omega arith)

    pub first_contact :
        (i : ℕ)
        → i ≡ nb_actuator_rows e + nb_equality_rows e
        → i < e.system.dim
        → (m : ℕ) × InContacts e i (suc m)
    first_contact i start h =
        let (m, all) = contact_groups e ready.contact_lines in
        let (k, left) = one_left i m e.params.contact_nb_lines _ (omega (arith, all, sized)) h in
        (k, (omega arith, left))

    pub contact-Place :
        (i id : ℕ)
        → Place e stride i id
        → nb_actuator_rows e + nb_equality_rows e ≤ i
        → i < e.system.dim
        → (m : ℕ) × InContacts e i (suc m)
    contact-Place i id (inl p) h h' = first_contact i (omega arith) h'
    contact-Place i id (inr (inl (m, p))) h h' = first_contact i (omega arith) h'
    contact-Place i id (inr (inr (m, p))) h h' =
        let (k, left) = one_left i m e.params.contact_nb_lines _ p.1 h' in (k, (h, left))
