-- ===== src/Contact.antt =====
-- component/solver/modules/ContactHandler.h and ContactHandler.cpp: what each contact state takes for
-- its boundary, and the state that it moves to. A contact is in one of the four states; the source
-- keeps a pointer to one of four handler objects instead.
pub mod Pivot
use soft_robots_inverse.Prelude.{
  ℕ, Bool, true, false, ◌&&◌, Option, none, List, get_elem?, if◌then◌else◌, [], ◌∷◌,
}
use soft_robots_inverse.Double.{Double, ◌⊕◌, ◌⊖◌, ◌⊗◌, ◌≼◌, rabs, tiny}

pub data ContactState : Type 0 where
  active inactive stick sliding : ContactState

-- The states that a contact may be in, with friction and without.
abbrev pub friction_states : List ContactState
friction_states = inactive ∷ stick ∷ sliding ∷ []

abbrev pub frictionless_states : List ContactState
frictionless_states = active ∷ inactive ∷ []

-- Whether two pointers are to the same handler.
abbrev pub same_state : ContactState → ContactState → Bool
same_state active active = true
same_state inactive inactive = true
same_state stick stick = true
same_state sliding sliding = true
same_state _ _ = false

-- A vector of the three entries of a contact with friction: the normal direction and two tangents.
pub record Triple (F : Type 0) : Type 0 where
  pub normal : F
  pub first : F
  pub second : F

module _ {F : Type 0} ⦃R : Double F⦄ where
  -- rabs(rabs(lambda[1]) + rabs(lambda[2]) - mu*lambda[0]) <= m_epsilon
  abbrev pub on_cone : Triple F → F → Bool
  on_cone lambda mu = rabs (rabs lambda.first ⊕ rabs lambda.second ⊖ mu ⊗ lambda.normal) ≼ tiny

  -- hasReachedBoundary(lambda, delta): the overloads without friction.
  pub has_reached_boundary : ContactState → F → F → Bool
  has_reached_boundary active lambda delta = rabs lambda ≼ tiny
  has_reached_boundary inactive lambda delta = rabs delta ≼ tiny
  has_reached_boundary stick lambda delta = false
  has_reached_boundary sliding lambda delta = false

  -- getNewContactHandler(list, lambda, delta): `none` is a null pointer, or an entry out of bounds.
  pub new_contact_handler : ContactState → List ContactState → F → F → Option ContactState
  new_contact_handler active handlers lambda delta = get_elem? handlers 1
  new_contact_handler inactive handlers lambda delta = get_elem? handlers 0
  new_contact_handler stick handlers lambda delta = none
  new_contact_handler sliding handlers lambda delta = none

  -- hasReachedBoundary(lambda, delta, mu, candidateId): the result, and candidateId after the call.
  -- The Boolean argument is the handler's m_allowSliding.
  unfoldable pub has_reached_boundary_friction :
      ContactState → Bool → Triple F → Triple F → F → ℕ → Bool × ℕ
  has_reached_boundary_friction active allow lambda delta mu candidate = (false, candidate)
  has_reached_boundary_friction inactive allow lambda delta mu candidate =
      (rabs delta.normal ≼ tiny, 0)
  has_reached_boundary_friction stick allow lambda delta mu candidate =
      if allow && on_cone lambda mu
      then (true, 3)
      else if rabs lambda.normal ≼ tiny
      then (true, 0)
      else (false, candidate)
  has_reached_boundary_friction sliding allow lambda delta mu candidate =
      if rabs lambda.normal ≼ tiny
      then (true, 0)
      else if (rabs delta.first ≼ tiny) && (rabs delta.second ≼ tiny)
      then (true, 3)
      else (false, candidate)

  -- getNewContactHandler(list, lambda, delta, mu)
  pub new_contact_handler_friction :
      ContactState → Bool → List ContactState → Triple F → Triple F → F → Option ContactState
  new_contact_handler_friction active allow handlers lambda delta mu = none
  new_contact_handler_friction inactive allow handlers lambda delta mu =
      if allow && on_cone lambda mu then get_elem? handlers 2 else get_elem? handlers 1
  new_contact_handler_friction stick allow handlers lambda delta mu =
      if allow && on_cone lambda mu then get_elem? handlers 2 else get_elem? handlers 0
  new_contact_handler_friction sliding allow handlers lambda delta mu =
      if rabs lambda.normal ≼ tiny then get_elem? handlers 0 else get_elem? handlers 1
