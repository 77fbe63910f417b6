-- ===== src/Component/Effector.antt =====
-- behavior/Effector.inl: the target of an effector, not further than a maximum shift away. `shift` is
-- maxShiftToTarget where limitShiftToTarget is set.
use soft_robots_inverse.Prelude.{
  List, Option, get_elem?, if◌then◌else◌, none, some, ◌>>=◌, tabulate, length,
}
use soft_robots_inverse.Double.{Double, ◌≺◌, ◌⊕◌, ◌⊖◌, ◌⊗◌, ◌⊘◌, rabs}

module _ {F : Type 0} ⦃R : Double F⦄ where
  pub get_target : Option F → F → F → F
  get_target none target current = target
  get_target (some shift) target current =
      if shift ≺ rabs (target ⊖ current)
      then (if current ≺ target then current ⊕ shift else current ⊖ shift)
      else target

  -- For a point: the difference of target and position, and its norm, come from the library of the
  -- framework. `step` is maxSpeed * dt where maxSpeed is set.
  pub get_target_point : Option F → Option F → List F → List F → List F → F → Option (List F)
  get_target_point shift step target current direction displacement =
      let limited : Option F = (elim step [
        | none ↦ none
        | some s ↦ (if s ≺ displacement then some s else none)
      ]) in
      tabulate (length target) 0 (λ i. do
        t ← get_elem? target i
        x ← get_elem? current i
        d ← get_elem? direction i
        some (get_target shift (elim limited [ none ↦ t | some s ↦ x ⊕ d ⊘ displacement ⊗ s ]) x))
