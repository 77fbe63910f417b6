-- ===== src/ConstraintHandler/Bounds.antt =====
-- ConstraintHandler.cpp: getConstraintOnLambda, the bounds l <= lambda <= u on each variable.
pub mod Filled
pub mod Back
pub mod Contacts
pub mod Totality
use soft_robots_inverse.Prelude.{
  Bool, List, Option, [], false, for_range, get_elem?, if◌then◌else◌, some, suc, true, zero, ℕ,
  ◌&&◌, ◌+◌, ◌-◌, ◌/◌, ◌==◌, ◌>>=◌, ◌||◌, ◌∷◌, length, ltb, write, while,
}
use soft_robots_inverse.Contact.{ContactState, active, inactive, sliding, stick}
use soft_robots_inverse.Problem.{
  BaseConstraint, Problem, contact_offset, nb_actuator_rows, nb_equality_rows,
}
use soft_robots_inverse.Double.{Double, ◌≺◌, huge, negate, nought, rabs, small}

-- The loop's variables, and the two vectors that it writes.
pub record BoundCursor (F : Type 0) : Type 0 where
  pub i : ℕ
  pub actuators_id : ℕ
  pub equality_id : ℕ
  pub l : List F
  pub u : List F

module _ {F : Type 0} ⦃R : Double F⦄ where
  -- vector::resize: the entries that fit stay, new ones are zero.
  unfoldable pub resize : ℕ → List F → List F
  resize zero xs = []
  resize (suc n) [] = nought ∷ resize n []
  resize (suc n) (x ∷ xs) = x ∷ resize n xs

  -- l[j] = low; u[j] = high.
  pub bound : ℕ → F → F → BoundCursor F → Option (BoundCursor F)
  bound j low high s = do
    u ← write s.u j high
    l ← write s.l j low
    some (record s { l = l; u = u })

module _ {F : Type 0} ⦃R : Double F⦄ (e : Problem F) where
  -- The bounds of line `k` of an actuator.
  pub actuator_low : BaseConstraint F → ℕ → F
  actuator_low ac k = if ac.has_lambda_min then ac.lambda_min k else negate huge

  pub actuator_high : BaseConstraint F → ℕ → F
  actuator_high ac k = if ac.has_lambda_max then ac.lambda_max k else huge

  pub equality_low : BaseConstraint F → ℕ → F
  equality_low ec k = if ec.has_lambda_equal then ec.lambda_equal k else negate huge

  pub equality_high : BaseConstraint F → ℕ → F
  equality_high ec k = if ec.has_lambda_equal then ec.lambda_equal k else huge

  -- Whether the force of variable `j` is taken to be negative.
  pub pushes_back : List F → ℕ → Option Bool
  pushes_back result j = do
    x ← get_elem? result j
    if x ≺ nought
        then some true
        else if (rabs x ≺ small) && ltb 0 (length e.system.previous_result)
        then (do y ← get_elem? e.system.previous_result j; some (y ≺ nought))
        else some false

  -- Line `k` of a contact that slides.
  pub sliding_bound : List F → ℕ → ℕ → BoundCursor F → Option (BoundCursor F)
  sliding_bound result i k s =
      if (k == e.params.sliding_dir_id1) || (k == e.params.sliding_dir_id2)
      then (do
        back ← pushes_back result (i + k)
        if back then bound (i + k) (negate huge) nought s else bound (i + k) nought huge s)
      else bound (i + k) nought nought s

  -- Line `k` of a contact that sticks.
  pub stick_bound : ℕ → ℕ → BoundCursor F → Option (BoundCursor F)
  stick_bound i k s =
      if (k == 1) || (k == 2)
      then bound (i + k) (negate huge) huge s
      else bound (i + k) nought nought s

  pub friction_bounds : ContactState → List F → ℕ → BoundCursor F → Option (BoundCursor F)
  friction_bounds inactive result i s = do
    s0 ← bound i nought nought s
    s1 ← bound (i + 1) nought nought s0
    bound (i + 2) nought nought s1
  friction_bounds sliding result i s = do
    t ← bound i nought huge s
    for_range (e.params.contact_nb_lines - 1) 1 (sliding_bound result i) t
  friction_bounds active result i s = do
    t ← bound i nought huge s
    for_range (e.params.contact_nb_lines - 1) 1 (stick_bound i) t
  friction_bounds stick result i s = do
    t ← bound i nought huge s
    for_range (e.params.contact_nb_lines - 1) 1 (stick_bound i) t

  pub frictionless_bounds : ContactState → ℕ → BoundCursor F → Option (BoundCursor F)
  frictionless_bounds active i s = bound i nought huge s
  frictionless_bounds other i s = bound i nought nought s

  pub contact_bounds : List F → ℕ → BoundCursor F → Option (BoundCursor F)
  contact_bounds result i s =
      if nought ≺ e.params.mu
      then (do
        state ← get_elem? e.params.contact_states (contact_offset e i / e.params.contact_nb_lines)
        friction_bounds state result i s)
      else (do
        state ← get_elem? e.params.contact_states (contact_offset e i)
        frictionless_bounds state i s)

  pub actuator_bound_step : BoundCursor F → Option (BoundCursor F)
  actuator_bound_step s = do
    ac ← get_elem? e.lists.actuators s.actuators_id
    t ← for_range ac.nb_lines 0 (λ k. bound (s.i + k) (actuator_low ac k) (actuator_high ac k)) s
    some (record t { i = s.i + ac.nb_lines; actuators_id = s.actuators_id + 1 })

  pub equality_bound_step : BoundCursor F → Option (BoundCursor F)
  equality_bound_step s = do
    ec ← get_elem? e.lists.equality s.equality_id
    t ← for_range ec.nb_lines 0 (λ k. bound (s.i + k) (equality_low ec k) (equality_high ec k)) s
    some (record t { i = s.i + ec.nb_lines; equality_id = s.equality_id + 1 })

  pub contact_bound_step : List F → BoundCursor F → Option (BoundCursor F)
  contact_bound_step result s = do
    t ← contact_bounds result s.i s
    some (record t { i = s.i + e.params.contact_nb_lines })

  -- The body of the loop over the lines.
  pub bound_step : List F → BoundCursor F → Option (BoundCursor F)
  bound_step result s =
      if ltb s.i (nb_actuator_rows e)
      then actuator_bound_step s
      else if ltb s.i (nb_actuator_rows e + nb_equality_rows e)
      then equality_bound_step s
      else contact_bound_step result s

  -- The number of variables is that of Q's rows here.
  pub get_constraint_on_lambda : List F → Option (Problem F)
  get_constraint_on_lambda result = do
    let dim = length e.system.q
    s ←
        while (dim + length e.lists.actuators + length e.lists.equality + 1) (λ s. ltb s.i dim)
          (bound_step result)
          (record {
            i = 0;
            actuators_id = 0;
            equality_id = 0;
            l = resize e.system.dim e.system.l;
            u = resize e.system.dim e.system.u;
          })
    some (record e { system = record (e.system) { l = s.l; u = s.u } })
