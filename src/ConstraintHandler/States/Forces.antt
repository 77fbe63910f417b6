-- ===== src/ConstraintHandler/States/Forces.antt =====
-- initContactHandlers(result): with friction, each contact's state comes from its own three forces.
use soft_robots_inverse.Prelude.{
  ℕ, List, Returns, Returns-bind, false, get_elem?, get_elem?-lt, get_elem?-set, get_elem?-set_self,
  inl, inr, length-set, refl, some, while-Returns, ◌*◌, ◌+◌, ◌-◌, ◌/◌, ◌<◌, ◌∙◌, ◌≡◌, ◌≤◌, length,
  subst, arith, ltb, set, sym, lt→ltb, tests, ap,
}
use soft_robots_inverse.Problem.{Problem, nb_actuator_rows, nb_contact_rows}
use soft_robots_inverse.Double.{Double}
use soft_robots_inverse.Contact.{ContactState}
use soft_robots_inverse.ConstraintHandler.States.{
  StateCursor, contact_states_of, friction_state_step, init_contact_handlers_from, state_of_forces,
}
use soft_robots_inverse.ConstraintHandler.Ready.{IsFrictional}
use soft_robots_inverse.Contact.Pivot.{IsFrictionState}

place_of : (n i k : ℕ) → n ≡ 3 → i ≡ 3 * k → i / n ≡ k
place_of n i k e h = subst (λ d. i / d ≡ k) (sym e) (omega arith)

module _ {F : Type 0} ⦃R : Double F⦄ where
  -- The state that the forces of a contact give is one of a contact with friction.
  pub state_of_forces-IsFrictionState :
      (e : Problem F) (n t o : F) → IsFrictionState (state_of_forces e n t o)
  unfolding state_of_forces
  state_of_forces-IsFrictionState e n t o = ground arith

module _ {F : Type 0} ⦃R : Double F⦄ (e : Problem F) (result : List F)
    (f : IsFrictional e.lists e.params)
    (room : nb_actuator_rows e + nb_contact_rows e ≤ length result) where
  -- The state of contact `c`, from the forces right behind those of the actuators.
  abbrev pub IsStateOf : List ContactState → ℕ → Type 0
  IsStateOf states c =
      (n : F) × (t : F) × (o : F) × (get_elem? result (nb_actuator_rows e + 3 * c) ≡ some n)
      × (get_elem? result (nb_actuator_rows e + 3 * c + 1) ≡ some t)
      × (get_elem? result (nb_actuator_rows e + 3 * c + 2) ≡ some o)
      × (get_elem? states c ≡ some (state_of_forces e n t o))

  -- The contacts before number `k` have their states.
  record IsGood (s : StateCursor) (k : ℕ) : Type 0 where
    pub at : s.i ≡ 3 * k
    pub below : k ≤ length e.params.contact_states
    pub size : length s.states ≡ length e.params.contact_states
    pub done : (c : ℕ) → c < k → IsStateOf s.states c

  abbrev Next : StateCursor → StateCursor → Type 0
  Next s t = ((k : ℕ) × IsGood t k) × (nb_contact_rows e - t.i < nb_contact_rows e - s.i)

  set-IsStateOf :
      (states : List ContactState) (k : ℕ) (n t o : F)
      → k < length states
      → get_elem? result (nb_actuator_rows e + 3 * k) ≡ some n
      → get_elem? result (nb_actuator_rows e + 3 * k + 1) ≡ some t
      → get_elem? result (nb_actuator_rows e + 3 * k + 2) ≡ some o
      → ((c : ℕ) → c < k → IsStateOf states c)
      → (c : ℕ) → c < k + 1
      → IsStateOf (set states k (state_of_forces e n t o)) c
  set-IsStateOf states k n t o h en et eo done c hc =
      elim (get_elem?-set states k c (state_of_forces e n t o) h) [
        | inl (same, there) ↦
            subst (IsStateOf (set states k (state_of_forces e n t o))) same
              (n, t, o, en, et, eo, get_elem?-set_self states k (state_of_forces e n t o) h)
        | inr (apart, there) ↦
            let (n', t', o', en', et', eo', es) = done c (omega arith) in
            (n', t', o', en', et', eo', there ∙ es)
      ]

  friction_state_step-Next :
      (s : StateCursor) (k : ℕ)
      → IsGood s k
      → s.i < nb_contact_rows e
      → Returns (Next s) (friction_state_step e result s)
  unfolding friction_state_step
  friction_state_step-Next s k good h =
      let start = good.at in
      let (n, en) = get_elem?-lt result (nb_actuator_rows e + s.i) (omega arith) in
      let (t, et) = get_elem?-lt result (nb_actuator_rows e + s.i + 1) (omega (arith, f.rows)) in
      let (o, eo) = get_elem?-lt result (nb_actuator_rows e + s.i + 2) (omega (arith, f.rows)) in
      let inside : k < length s.states = omega (arith, f.rows, good.size) in
      rw
        (
          en,
          et,
          eo,
          place_of e.params.contact_nb_lines s.i k f.three_lines start,
          lt→ltb k (length s.states) inside,
        )
        (
          _,
          refl,
          (
            (
              k + 1,
              record {
                at = omega (arith, f.three_lines);
                below = omega (arith, f.rows);
                size = length-set s.states k (state_of_forces e n t o) ∙ good.size;
                done =
                    set-IsStateOf s.states k n t o inside (ap (get_elem? result) (omega arith) ∙ en)
                      (ap (get_elem? result) (omega arith) ∙ et)
                      (ap (get_elem? result) (omega arith) ∙ eo) good.done;
              },
            ),
            omega (arith, f.three_lines),
          ),
        )

  -- What the call leaves.
  pub record IsInitialised (e' : Problem F) : Type 0 where
    pub size : length e'.params.contact_states ≡ length e.params.contact_states
    pub each : (c : ℕ) → c < length e.params.contact_states → IsStateOf e'.params.contact_states c
    pub same :
        e' ≡ record e { params = record (e.params) { contact_states = e'.params.contact_states } }

  -- With friction and a result that holds the forces of actuators and contacts one behind the
  -- other, initContactHandlers(result) faults nowhere, and each contact gets the state of its own
  -- three forces; nothing else changes.
  pub init_contact_handlers_from-IsInitialised :
      Returns IsInitialised (init_contact_handlers_from e result)
  unfolding init_contact_handlers_from contact_states_of
  init_contact_handlers_from-IsInitialised = rw f.rubs (
      Returns-bind
        (λ states.
          IsInitialised (record e { params = record (e.params) { contact_states = states } }))
        IsInitialised _ _
        (Returns-bind (λ s. ((k : ℕ) × IsGood s k) × (ltb s.i (nb_contact_rows e) ≡ false))
          (λ states.
            IsInitialised (record e { params = record (e.params) { contact_states = states } }))
          _ _
          (while-Returns (λ s. (k : ℕ) × IsGood s k) (λ s. nb_contact_rows e - s.i)
            (λ s. ltb s.i (nb_contact_rows e)) (friction_state_step e result)
            (λ s (k, good) more. friction_state_step-Next s k good (omega tests))
            (nb_contact_rows e + 1) _ (omega arith)
            (
              0,
              record {
                at = omega arith;
                below = omega arith;
                size = refl;
                done = λ c h. absurd (omega arith);
              },
            ))
          λ s ((k, good), over). (
            s.states,
            refl,
            record {
              size = good.size;
              each = λ c h. good.done c (omega (tests, f.rows, good.at));
              same = refl;
            },
          ))
        λ states w. (_, refl, w))
