-- ===== src/Impl/Contacts/Forces.antt =====
-- solveContacts with friction ends with no fault.
-- The forces that the problem of the contacts starts from: those of the actuators are all there, or there
-- are none, and no contact pulls.
use soft_robots_inverse.Prelude.{
  IsTable, List, Returns, Returns-bind, Returns-mono, false, for_range-Returns, get_elem?,
  get_elem?-lt, if_elim, length-replicate, refl, tabulate-IsTable, write-Returns, ℕ, ◌*◌, ◌+◌, ◌/◌,
  ◌<◌, ◌∙◌, ◌≡◌, ◌≤◌, ◌⊎◌, arith, length, ltb, leb, tests,
}
use soft_robots_inverse.Problem.{Problem, nb_actuator_rows, nb_contact_rows}
use soft_robots_inverse.Double.{Double, ◌≺◌, nought}
use soft_robots_inverse.Nlcp.Forces.{IsPushing, replicate-IsPushing}
use soft_robots_inverse.Impl.Contacts.{
  contact_compliance, contact_violation, place_contacts, warm_start,
}

module _ {F : Type 0} ⦃R : Double F⦄ where
  pub record IsWarm (e : Problem F) : Type 0 where
    pub enough : (length e.system.lambda ≡ 0) ⊎ (nb_actuator_rows e ≤ length e.system.lambda)
    pub push :
        (c : ℕ)
        → c < nb_contact_rows e / 3
        → nb_actuator_rows e + nb_contact_rows e ≤ length e.system.lambda
        → Returns
            (λ x. (x ≺ nought) ≡ false)
            (get_elem? e.system.lambda (nb_actuator_rows e + 3 * c))

  module _ (e : Problem F) (warm : IsWarm e) where
    pub contact_violation-Returns :
        (i : ℕ) → i < nb_contact_rows e → Returns (λ _. Unit {0}) (contact_violation e i)
    unfolding contact_violation
    contact_violation-Returns i h =
        let (row, er) = get_elem?-lt e.lists.contact_row_ids i h in
        rw er (
          if_elim (Returns (λ _. Unit {0})) (ltb 0 (length e.system.lambda)) _ _
            (λ used.
              for_range-Returns (λ _ _. Unit {0}) _ (nb_actuator_rows e) 0 (nb_actuator_rows e) _
                (omega arith)
                (λ j sum lo hi _.
                  let (column, ec) = get_elem?-lt e.lists.actuator_row_ids j hi in
                  let (x, ex) = get_elem?-lt e.system.lambda j (omega (tests, warm.enough)) in
                  rw (ec, ex) (_, refl, tt))
                tt)
            (λ _. (_, refl, tt)))

    pub contact_compliance-Returns :
        (i : ℕ) → i < nb_contact_rows e → Returns (λ _. Unit {0}) (contact_compliance e i)
    unfolding contact_compliance
    contact_compliance-Returns i h =
        Returns-mono _ (λ _. Unit {0}) _ (λ _ _. tt)
          (tabulate-IsTable (nb_contact_rows e) 0 _ λ j lo hi.
            let (row, er) = get_elem?-lt e.lists.contact_row_ids i h in
            let (column, ec) = get_elem?-lt e.lists.contact_row_ids j (omega arith) in
            rw (er, ec) (_, refl, tt))

    -- The start of the iteration: a force for each contact row, and no contact pulls.
    abbrev pub IsStartOf : List F → Type 0
    IsStartOf x = (length x ≡ nb_contact_rows e) × IsPushing (nb_contact_rows e / 3) x

    pub warm_start-IsStartOf : (nought {F = F} ≺ nought) ≡ false → Returns IsStartOf (warm_start e)
    unfolding warm_start
    warm_start-IsStartOf irreflexive =
        if_elim (Returns IsStartOf)
          (leb (nb_actuator_rows e + nb_contact_rows e) (length e.system.lambda)) _ _
          (λ used.
            let room : nb_actuator_rows e + nb_contact_rows e ≤ length e.system.lambda =
              ground arith in
            Returns-mono
              (IsTable (nb_contact_rows e) (nb_actuator_rows e) (get_elem? e.system.lambda))
              IsStartOf _
              (λ x t. (
                t.0,
                λ c h.
                    let (y, ey, ok) = warm.push c h room in (y, t.1 (3 * c) (omega arith) ∙ ey, ok),
              ))
              (tabulate-IsTable (nb_contact_rows e) (nb_actuator_rows e) (get_elem? e.system.lambda)
                λ k lo hi.
                  let (y, ey) = get_elem?-lt e.system.lambda k (omega arith) in (y, ey, tt)))
          (λ _. (
            _,
            refl,
            (
              length-replicate (nb_contact_rows e) nought,
              replicate-IsPushing irreflexive (nb_contact_rows e),
            ),
          ))

    pub place_contacts-Returns :
        (x : List F)
        → length x ≡ nb_contact_rows e
        → nb_actuator_rows e + nb_contact_rows e ≤ e.system.dim
        → Returns (λ res. length res ≡ e.system.dim) (place_contacts e x)
    unfolding place_contacts
    place_contacts-Returns x len fits =
        Returns-bind (λ res. length res ≡ e.system.dim) (λ res. length res ≡ e.system.dim) _ _
          (for_range-Returns (λ _ res. length res ≡ e.system.dim) _ (nb_contact_rows e) 0
            (nb_contact_rows e) _ (omega arith)
            (λ i res lo hi v.
              let (a, ea) = get_elem?-lt x i (omega arith) in
              rw ea (
                Returns-mono (λ t. length t ≡ length res) _ _ (λ t same. same ∙ v)
                  (write-Returns res (i + nb_actuator_rows e) a (omega arith))))
            (length-replicate e.system.dim nought))
          λ res v.
            if_elim (Returns (λ r. length r ≡ e.system.dim))
              (leb (nb_actuator_rows e) (length e.system.lambda)) _ _
              (λ used.
                let room : nb_actuator_rows e ≤ length e.system.lambda = ground arith in
                for_range-Returns (λ _ r. length r ≡ e.system.dim) _ (nb_actuator_rows e) 0
                  (nb_actuator_rows e) res (omega arith)
                  (λ i r lo hi u.
                    let (a, ea) = get_elem?-lt e.system.lambda i (omega arith) in
                    rw ea (
                      Returns-mono (λ t. length t ≡ length r) _ _ (λ t same. same ∙ u)
                        (write-Returns r i a (omega arith))))
                  v)
              (λ _. (res, refl, v))
