-- ===== src/ConstraintHandler/Release.antt =====
-- ConstraintHandler.cpp: getInfeasibleConstraints and checkAndUpdateActuatorConstraints, which release
-- the bounds of actuators that cannot be met.
pub mod Effect
pub mod Opened
pub mod Opening
use soft_robots_inverse.Prelude.{
  Bool, List, Option, false, for_range, get_elem?, if◌then◌else◌, some, suc, true, zero, ℕ, ◌&&◌,
  ◌+◌, ◌>>=◌, ◌||◌, length, ltb, write, replicate,
}
use soft_robots_inverse.Problem.{Problem}
use soft_robots_inverse.Double.{Double, ◌≺◌, ◌⊕◌, ◌⊖◌, ◌⊗◌, nought, slack, negate, rabs, huge}

module _ {F : Type 0} ⦃R : Double F⦄ where
  -- sum += row[j] * x[j] for j = i, ..., i + n - 1
  unfoldable pub dot_from : ℕ → ℕ → List F → List F → F → Option F
  dot_from zero i row x sum = some sum
  dot_from (suc n) i row x sum = do
    a ← get_elem? row i
    b ← get_elem? x i
    dot_from n (i + 1) row x (sum ⊕ a ⊗ b)

  -- Whether `ax` is above, or below, a bound by more than 1e-5.
  abbrev pub exceeds : F → F → Bool
  exceeds ax high = (high ≺ ax) && (slack ≺ rabs (ax ⊖ high))

  abbrev pub falls_below : F → F → Bool
  falls_below ax low = (ax ≺ low) && (slack ≺ rabs (ax ⊖ low))

module _ {F : Type 0} ⦃R : Double F⦄ (e : Problem F) where
  -- Whether row `i` of A is violated by `x`.
  unfoldable pub row_violated : List F → ℕ → Option Bool
  row_violated x i = do
    row ← get_elem? e.system.a i
    ax ← dot_from e.system.dim 0 row x nought
    high ← get_elem? e.system.bu i
    if e.system.has_both_side_inequality_constraint
        then (do low ← get_elem? e.system.bl i; some (exceeds ax high || falls_below ax low))
        else some (exceeds ax high)

  -- Only the rows whose number in constraintsId is below the count of actuators can be released.
  pub infeasible_step : List F → ℕ → List Bool → Option (List Bool)
  infeasible_step x i marks = do
    id ← get_elem? e.params.constraints_id i
    if ltb id (length e.lists.actuators)
        then (do bad ← row_violated x i; if bad then write marks i true else some marks)
        else some marks

  pub get_infeasible_constraints : List F → Option (List Bool)
  get_infeasible_constraints x =
      for_range (length e.system.a) 0 (infeasible_step x)
        (replicate (length e.system.a + length e.system.aeq) false)

module _ {F : Type 0} ⦃R : Double F⦄ where
  -- The force of the row's variable is held at zero, and the row's own bounds are opened.
  pub release : ℕ → Problem F → Option (Problem F)
  release i e = do
    index ← get_elem? e.params.constraints_id i
    l ← write e.system.l index nought
    u ← write e.system.u index nought
    bl ←
        (if e.system.has_both_side_inequality_constraint
          then write e.system.bl i (negate huge)
          else some e.system.bl)
    bu ← write e.system.bu i huge
    some (record e { system = record (e.system) { l = l; u = u; bl = bl; bu = bu } })

  pub release_step : List Bool → ℕ → Problem F → Option (Problem F)
  release_step marks i e = do marked ← get_elem? marks i; if marked then release i e else some e

  pub check_and_update_actuator_constraints : Problem F → List F → Option (Problem F)
  check_and_update_actuator_constraints e result = do
    marks ← get_infeasible_constraints e result
    for_range (length marks) 0 (release_step marks) e
