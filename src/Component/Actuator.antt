-- ===== src/Component/Actuator.antt =====
-- behavior/Actuator.inl: storeResults of all actuators.
use soft_robots_inverse.Prelude.{
  Bool, List, Option, Returns, false, for_range, for_range-Returns, get_elem?, get_elem?-set,
  if◌then◌else◌, inl, inr, length-set, refl, some, true, ℕ, ◌+◌, ◌<◌, ◌∙◌, ◌≡◌, ◌≤◌, length, write,
  arith, set, lt→ltb,
}
use soft_robots_inverse.Double.{Double, nought}

module _ {F : Type 0} ⦃R : Double F⦄ where
  -- An actuator that is not to apply its force gives back none, on each of its lines.
  unfoldable pub actuator_store_results : Bool → ℕ → List F → Option (List F)
  actuator_store_results apply_force nb_lines lambda =
      if apply_force then some lambda else for_range nb_lines 0 (λ i v. write v i nought) lambda

  -- The forces that are left: those that were computed, or zero on each line.
  abbrev pub IsApplied : Bool → ℕ → List F → List F → Type 0
  IsApplied apply_force nb_lines lambda answer =
      (length answer ≡ length lambda)
      × ((i : ℕ)
          → i < nb_lines
          → get_elem? answer i ≡ (if apply_force then get_elem? lambda i else some nought))
      × ((i : ℕ) → nb_lines ≤ i → get_elem? answer i ≡ get_elem? lambda i)

  abbrev IsDropped : List F → ℕ → List F → Type 0
  IsDropped lambda k v =
      (length v ≡ length lambda)
      × ((i : ℕ) → i < k → get_elem? v i ≡ some nought)
      × ((i : ℕ) → k ≤ i → get_elem? v i ≡ get_elem? lambda i)

  drop_one :
      (lambda v : List F) (k : ℕ)
      → k < length lambda
      → IsDropped lambda k v
      → IsDropped lambda (k + 1) (set v k nought)
  drop_one lambda v k h (len, zeroed, kept) = (
    length-set v k nought ∙ len,
    λ i hi. elim (get_elem?-set v k i nought (omega arith)) [
      | inl (same, now) ↦ now
      | inr (apart, old) ↦ old ∙ zeroed i (omega arith)
    ],
    λ i hi. elim (get_elem?-set v k i nought (omega arith)) [
      | inl (same, now) ↦ absurd (omega arith)
      | inr (apart, old) ↦ old ∙ kept i (omega arith)
    ],
  )

  -- For as many forces as lines at least, storeResults of an actuator faults nowhere; it keeps all
  -- forces, or sets those of its own lines to zero where the actuator is not to apply its force.
  pub actuator_store_results-IsApplied :
      (apply_force : Bool) (nb_lines : ℕ) (lambda : List F)
      → nb_lines ≤ length lambda
      → Returns
          (IsApplied apply_force nb_lines lambda)
          (actuator_store_results apply_force nb_lines lambda)
  unfolding actuator_store_results
  actuator_store_results-IsApplied true nb_lines lambda h =
      (lambda, refl, (refl, λ i hi. refl, λ i hi. refl))
  actuator_store_results-IsApplied false nb_lines lambda h =
      for_range-Returns (IsDropped lambda) _ nb_lines 0 nb_lines lambda (omega arith)
        (λ k v lo hi w.
          rw (lt→ltb k (length v) (omega (arith, w.0)))
            (_, refl, drop_one lambda v k (omega arith) w))
        (refl, λ i hi. absurd (omega arith), λ i hi. refl)
