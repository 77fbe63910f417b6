-- ===== src/Contact/Pivot.antt =====
-- ContactHandler.cpp: which moves between the states of a contact the handlers make, and that they agree
-- with the boundary that was reached.
use soft_robots_inverse.Prelude.{
  Bool, Returns, false, true, ℕ, ◌≡◌, ◌≢◌, ◌⊎◌, arith, if_elim, if◌then◌else◌, inl, inr, refl, some,
  ◌&&◌,
}
use soft_robots_inverse.Contact.{
  ContactState, Triple, active, has_reached_boundary_friction, inactive,
  new_contact_handler_friction, sliding, stick, friction_states, on_cone, rabs, tiny,
}
use soft_robots_inverse.Double.{Double, ◌≼◌}

-- With friction: `allow` is m_allowSliding.
pub data Move (allow : Bool) : ContactState → ContactState → Type 0 where
  touch : Move allow inactive stick
  skid : allow ≡ true → Move allow inactive sliding
  slip : allow ≡ true → Move allow stick sliding
  part : Move allow stick inactive
  leave : Move allow sliding inactive
  grip : Move allow sliding stick

pub data Moves (allow : Bool) (s : ContactState) : ContactState → Type 0 where
  here : Moves allow s s
  next : {t u : ContactState} → Moves allow s t → Move allow t u → Moves allow s u

-- A state of a contact with friction.
abbrev pub IsFrictionState : ContactState → Type 0
IsFrictionState state = (state ≡ inactive) ⊎ ((state ≡ stick) ⊎ (state ≡ sliding))

-- A contact whose handlers may not slide never comes to slide.
pub Moves-ne-sliding : {s t : ContactState} → Moves false s t → s ≢ sliding → t ≢ sliding
Moves-ne-sliding here h = h
Moves-ne-sliding (next r touch) h = λ e. cc
Moves-ne-sliding (next r (skid e)) h = cc
Moves-ne-sliding (next r (slip e)) h = cc
Moves-ne-sliding (next r part) h = λ e. cc
Moves-ne-sliding (next r leave) h = λ e. cc
Moves-ne-sliding (next r grip) h = λ e. cc

-- What the variable that blocks a contact, 3 for the tangents and 0 for the normal, says of the state
-- that comes next.
abbrev pub Blocked : ContactState → ℕ → ContactState → Type 0
Blocked inactive k t = (k ≡ 0) × ((t ≡ stick) ⊎ (t ≡ sliding))
Blocked stick k t = ((k ≡ 3) × (t ≡ sliding)) ⊎ ((k ≡ 0) × (t ≡ inactive))
Blocked sliding k t = ((k ≡ 3) × (t ≡ stick)) ⊎ ((k ≡ 0) × (t ≡ inactive))
Blocked active k t = ⊥

stick-Blocked :
    (a b : Bool) (k : ℕ)
    → let r : Bool × ℕ = (if a then (true, 3) else if b then (true, 0) else (false, k)) in
      r.0 ≡ true → Returns (Blocked stick r.1) (if a then some sliding else some inactive)
stick-Blocked true b k h = (sliding, refl, inl (refl, refl))
stick-Blocked false true k h = (inactive, refl, inr (refl, refl))
stick-Blocked false false k h = cc

sliding-Blocked :
    (a b : Bool) (k : ℕ)
    → let r : Bool × ℕ = (if a then (true, 0) else if b then (true, 3) else (false, k)) in
      r.0 ≡ true → Returns (Blocked sliding r.1) (if a then some inactive else some stick)
sliding-Blocked true b k h = (inactive, refl, inr (refl, refl))
sliding-Blocked false true k h = (stick, refl, inl (refl, refl))
sliding-Blocked false false k h = cc

module _ {F : Type 0} ⦃R : Double F⦄ where
  -- From any state with friction the handler gives a new state, over the list of the three allowed
  -- states, and the two are joined by a move: it is never a null pointer and never the old state.
  pub new_contact_handler_friction-Move :
      (state : ContactState) (allow : Bool) (lambda delta : Triple F) (mu : F)
      → IsFrictionState state
      → Returns
          (Move allow state)
          (new_contact_handler_friction state allow friction_states lambda delta mu)
  unfolding new_contact_handler_friction
  new_contact_handler_friction-Move active allow lambda delta mu h = ground arith
  new_contact_handler_friction-Move inactive allow lambda delta mu h =
      if_elim (Returns (Move allow inactive)) (allow && on_cone lambda mu) _ _
        (λ e. (sliding, refl, skid (ground arith))) (λ _. (stick, refl, touch))
  new_contact_handler_friction-Move stick allow lambda delta mu h =
      if_elim (Returns (Move allow stick)) (allow && on_cone lambda mu) _ _
        (λ e. (sliding, refl, slip (ground arith))) (λ _. (inactive, refl, part))
  new_contact_handler_friction-Move sliding allow lambda delta mu h =
      if_elim (Returns (Move allow sliding)) (rabs lambda.normal ≼ tiny) _ _
        (λ _. (inactive, refl, leave)) (λ _. (stick, refl, grip))

  -- If a contact has reached its boundary, candidateId tells where the handler moves it: by the tangents
  -- (3) between sticking and sliding, by the normal (0) off the surface, or onto it from inactive.
  pub has_reached_boundary_friction-Blocked :
      (state : ContactState) (allow : Bool) (lambda delta : Triple F) (mu : F) (k : ℕ)
      → (has_reached_boundary_friction state allow lambda delta mu k).0 ≡ true
      → Returns
          (Blocked state (has_reached_boundary_friction state allow lambda delta mu k).1)
          (new_contact_handler_friction state allow friction_states lambda delta mu)
  unfolding has_reached_boundary_friction new_contact_handler_friction
  has_reached_boundary_friction-Blocked active allow lambda delta mu k h = cc
  has_reached_boundary_friction-Blocked inactive allow lambda delta mu k h =
      if_elim (Returns (Blocked inactive 0)) (allow && on_cone lambda mu) _ _
        (λ _. (sliding, refl, (refl, inr refl))) (λ _. (stick, refl, (refl, inl refl)))
  has_reached_boundary_friction-Blocked stick allow lambda delta mu k h =
      stick-Blocked (allow && on_cone lambda mu) (rabs lambda.normal ≼ tiny) k h
  has_reached_boundary_friction-Blocked sliding allow lambda delta mu k h =
      sliding-Blocked (rabs lambda.normal ≼ tiny)
        ((rabs delta.first ≼ tiny) && (rabs delta.second ≼ tiny)) k h
