-- ===== src/ConstraintHandler/States.antt =====
-- ConstraintHandler.cpp: initContactHandlerList and both initContactHandlers, which set up the states of
-- the contacts.
pub mod Forces
use soft_robots_inverse.Prelude.{
  Bool, List, Option, [], for_range, get_elem?, if◌then◌else◌, some, ℕ, ◌&&◌, ◌+◌, ◌/◌, ◌>>=◌, ◌∷◌,
  replicate, write, while, ltb,
}
use soft_robots_inverse.Contact.{
  ContactState, active, inactive, sliding, stick, same_state, friction_states, frictionless_states,
}
use soft_robots_inverse.Problem.{Problem, nb_actuator_rows, nb_contact_rows}
use soft_robots_inverse.Double.{Double, ◌≺◌, ◌≼◌, ◌⊕◌, ◌⊖◌, ◌⊗◌, nought, rabs, tiny}

-- The loop's variables.
pub record StateCursor : Type 0 where
  pub i : ℕ
  pub states : List ContactState

-- The handlers in the list are told whether they may slide; the others keep what they were told.
pub set_allow_sliding : List ContactState → Bool → (ContactState → Bool) → ContactState → Bool
set_allow_sliding [] allow old state = old state
set_allow_sliding (s ∷ rest) allow old state =
    set_allow_sliding rest allow (λ t. if same_state s t then allow else old t) state

module _ {F : Type 0} ⦃R : Double F⦄ where
  -- initContactHandlers(): every contact is inactive.
  unfoldable pub init_contact_handlers : Problem F → Problem F
  init_contact_handlers e = record e {
    params = record (e.params) { contact_states = replicate e.params.nb_contact_points inactive };
  }

  unfoldable pub init_contact_handler_list : Problem F → Problem F
  unfolding set_allow_sliding
  init_contact_handler_list e =
      let allowed = if nought ≺ e.params.mu then friction_states else frictionless_states in
      record e {
        params = record (e.params) {
          allowed_contact_states = allowed;
          handler_sliding =
              set_allow_sliding allowed e.params.allow_sliding e.params.handler_sliding;
        };
      }

module _ {F : Type 0} ⦃R : Double F⦄ (e : Problem F) where
  -- The state of a contact with friction, from the forces of its three lines.
  pub state_of_forces : F → F → F → ContactState
  state_of_forces n t o =
      if (rabs n ≼ tiny) && ((rabs t ≼ tiny) && (rabs o ≼ tiny))
      then inactive
      else if rabs (rabs t ⊕ rabs o ⊖ e.params.mu ⊗ rabs n) ≺ tiny
      then (if e.params.allow_sliding then sliding else stick)
      else stick

  -- The forces are read right behind those of the actuators.
  pub friction_state_step : List F → StateCursor → Option StateCursor
  friction_state_step result s = do
    n ← get_elem? result (nb_actuator_rows e + s.i)
    t ← get_elem? result (nb_actuator_rows e + s.i + 1)
    o ← get_elem? result (nb_actuator_rows e + s.i + 2)
    states ← write s.states (s.i / e.params.contact_nb_lines) (state_of_forces n t o)
    some (record { i = s.i + e.params.contact_nb_lines; states = states })

  pub frictionless_state_step : List F → ℕ → List ContactState → Option (List ContactState)
  frictionless_state_step result i states = do
    x ← get_elem? result (nb_actuator_rows e + i)
    if tiny ≺ x then write states i active else some states

  pub contact_states_of : List F → Option (List ContactState)
  contact_states_of result =
      if nought ≺ e.params.mu
      then (do
        s ←
            while (nb_contact_rows e + 1) (λ s. ltb s.i (nb_contact_rows e))
              (friction_state_step result) (record { i = 0; states = e.params.contact_states })
        some s.states)
      else for_range (nb_contact_rows e) 0 (frictionless_state_step result) e.params.contact_states

  -- initContactHandlers(result, lists)
  pub init_contact_handlers_from : List F → Option (Problem F)
  init_contact_handlers_from result = do
    states ← contact_states_of result
    some (record e { params = record (e.params) { contact_states = states } })
