-- ===== src/Impl/Pivot/Moved.antt =====
-- checkAndUpdatePivot: where the contact of the pivot moves.
use soft_robots_inverse.Prelude.{
  All, All-get_elem?, List, Returns, Returns-bind, Returns-made, get_elem?, get_elem?-lt, refl,
  some, true, ℕ, ◌%◌, ◌*◌, ◌+◌, ◌-◌, ◌/◌, ◌<◌, ◌∙◌, ◌≡◌, length, subst, sym, arith, ap,
}
use soft_robots_inverse.Problem.{nb_contact_rows}
use soft_robots_inverse.Double.{Double, ◌≺◌, nought}
use soft_robots_inverse.Contact.{
  ContactState, Triple, friction_states, new_contact_handler_friction,
}
use soft_robots_inverse.Contact.Pivot.{IsFrictionState, Move, new_contact_handler_friction-Move}
use soft_robots_inverse.Impl.Pivot.{contact_deltas, contact_forces, pivot_state}
use soft_robots_inverse.Impl.State.{Solver}
use soft_robots_inverse.Impl.Pivot.Reads.{contact_deltas-IsRead, contact_forces-IsRead}
use soft_robots_inverse.ConstraintHandler.Ready.{IsFrictional}
use soft_robots_inverse.ConstraintHandler.Rows.Entries.{IsSized}

-- The entry of contact rows `best` belongs to contact (best - best % 3) / 3 of three rows.
contact_of_row : (n best states : ℕ) → n ≡ 3 → best < states * 3 → (best - best % n) / n < states
contact_of_row n best states e h = subst (λ d. (best - best % d) / d < states) (sym e) (omega arith)

rows_of_contact :
    (n best states : ℕ) → n ≡ 3 → best < states * 3 → (best - best % n) / n * n + 2 < states * 3
rows_of_contact n best states e h =
    subst (λ d. (best - best % d) / d * d + 2 < states * 3) (sym e) (omega arith)

third_of : (n best : ℕ) → n ≡ 3 → (best - best % n) / n ≡ best / 3
third_of n best e = subst (λ d. (best - best % d) / d ≡ best / 3) (sym e) (omega arith)

module _ {F : Type 0} ⦃R : Double F⦄ (s : Solver F) where
  -- The contact of row `best`, its state before, and the move from it that its handler makes with the
  -- contact's own displacements and forces.
  abbrev pub IsMoved : List F → ℕ → ℕ × ContactState → Type 0
  IsMoved result best (k, state') =
      (k ≡ best / 3)
      × (state : ContactState) × (get_elem? s.problem.params.contact_states k ≡ some state)
      × Move (s.problem.params.handler_sliding state) state state'
      × (deltas : Triple F) × (forces : Triple F) × (contact_deltas s.problem result
            (k * s.problem.params.contact_nb_lines) 1 2
          ≡ some deltas)
      × (contact_forces s.problem result (k * s.problem.params.contact_nb_lines) 1 2 ≡ some forces)
      × (new_contact_handler_friction state (s.problem.params.handler_sliding state)
            s.problem.params.allowed_contact_states forces deltas s.mu
          ≡ some state')

  pub pivot_state-IsMoved :
      (result : List F) (best : ℕ)
      → IsSized s.problem
      → length result ≡ s.problem.system.dim
      → IsFrictional s.problem.lists s.problem.params
      → (nought ≺ s.mu) ≡ true
      → s.problem.params.allowed_contact_states ≡ friction_states
      → All IsFrictionState s.problem.params.contact_states
      → best < nb_contact_rows s.problem
      → Returns (IsMoved result best) (pivot_state s result best)
  unfolding pivot_state
  pivot_state-IsMoved result best sized size f rubs allowed states h =
      let n = s.problem.params.contact_nb_lines in
      let k = (best - best % n) / n in
      let room =
        rows_of_contact n best (length s.problem.params.contact_states) f.three_lines
          (omega (arith, f.rows)) in
      let place =
        contact_of_row n best (length s.problem.params.contact_states) f.three_lines
          (omega (arith, f.rows)) in
      let (state, at) = get_elem?-lt s.problem.params.contact_states k place in
      let good = All-get_elem? IsFrictionState s.problem.params.contact_states k state states at in
      rw rubs (
        Returns-bind
          (λ deltas. (contact_deltas s.problem result (k * n) 1 2 ≡ some deltas) × Unit {0})
          (IsMoved result best) _ _
          (Returns-made (
            contact_deltas-IsRead s.problem result sized size (k * n) 1 2 (omega (arith, f.rows))
              (omega (arith, f.rows))))
          λ deltas (read, _).
            Returns-bind
              (λ forces. (contact_forces s.problem result (k * n) 1 2 ≡ some forces) × Unit {0})
              (IsMoved result best) _ _
              (Returns-made (
                contact_forces-IsRead s.problem result sized size (k * n) 1 2
                  (omega (arith, f.rows)) (omega (arith, f.rows))))
              λ forces (read', _).
                let (state', there, move) =
                  new_contact_handler_friction-Move state (s.problem.params.handler_sliding state)
                    forces deltas s.mu good in
                let there' : new_contact_handler_friction state
                      (s.problem.params.handler_sliding state)
                      s.problem.params.allowed_contact_states forces deltas s.mu
                    ≡ some state' =
                  ap
                    (λ l.
                      new_contact_handler_friction state (s.problem.params.handler_sliding state) l
                        forces deltas s.mu)
                    allowed
                  ∙ there in
                rw at (
                  rw there' (
                    _,
                    refl,
                    (
                      third_of n best f.three_lines,
                      state,
                      at,
                      move,
                      deltas,
                      forces,
                      read,
                      read',
                      there',
                    ),
                  )))
