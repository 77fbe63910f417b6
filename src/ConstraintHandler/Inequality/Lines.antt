-- ===== src/ConstraintHandler/Inequality/Lines.antt =====
-- One actuator, or one contact, in buildInequalityConstraintMatrices: no vector is read out of its
-- bounds, and the shape of A, bu and bl is kept.
use soft_robots_inverse.Prelude.{
  Bool, List, Option, Returns, Returns-bind, false, for_range, for_range-Returns, get_elem?,
  get_elem?-Returns, if_elim, refl, some, true, ℕ, ◌+◌, ◌<◌, ◌>>=◌, ◌≡◌, ◌≤◌, arith, length,
}
use soft_robots_inverse.Problem.{BaseConstraint, Problem, nb_actuator_rows}
use soft_robots_inverse.Double.{Double}
use soft_robots_inverse.ConstraintHandler.Shape.{
  IsShaped, IsWide, push_lower-IsShaped, push_unbounded-IsShaped, push_upper-IsShaped, Names,
}
use soft_robots_inverse.ConstraintHandler.Inequality.{
  actuator_inequalities, delta_max_line, delta_min_line, delta_min_negated_line, negate,
}
use soft_robots_inverse.ConstraintHandler.Ready.{IsReady}
use soft_robots_inverse.ConstraintHandler.Rows.{Inequalities, compliance_row}
use soft_robots_inverse.ConstraintHandler.Rows.Entries.{IsComplianceRow, compliance_row-Returns}
use soft_robots_inverse.ConstraintHandler.Sides.{has_two_sides}

module _ {F : Type 0} ⦃R : Double F⦄ (e : Problem F) (stride : ℕ) (result : List F)
    (ready : IsReady e stride result) (base : Names) where
  open ready use {sized}

  abbrev pub Shaped : Inequalities F → Type 0
  Shaped = IsShaped e base

  abbrev both_sided : Bool
  both_sided = e.system.has_both_side_inequality_constraint

  -- The row of W of a line, and what is pushed with it.
  pub row_of_w :
      (scale : F → F) (ids : List ℕ) (j : ℕ) (finish : ℕ → List F → Option (Inequalities F))
      → j < length ids
      → ((r : ℕ) (row : List F) → IsWide e row → Returns Shaped (finish r row))
      → Returns Shaped (get_elem? ids j >>= λ r. compliance_row e scale r >>= finish r)
  row_of_w scale ids j finish h k =
      Returns-bind (λ r. get_elem? ids j ≡ some r) Shaped (get_elem? ids j)
        (λ r. compliance_row e scale r >>= finish r) (get_elem?-Returns ids j h)
        λ r _.
          Returns-bind (IsComplianceRow e scale r) Shaped (compliance_row e scale r) (finish r)
            (compliance_row-Returns e sized scale r) (λ row t. k r row t.0)

  delta_max_line-Shaped :
      (ac : BaseConstraint F) (i k : ℕ) (n : Inequalities F)
      → i + k < nb_actuator_rows e
      → (ac.has_delta_min ≡ true → both_sided ≡ true)
      → Shaped n
      → Returns Shaped (delta_max_line e ac i k n)
  unfolding delta_max_line
  delta_max_line-Shaped ac i k n h both v =
      row_of_w (λ x. x) e.lists.actuator_row_ids (i + k) _ h
        λ r row wide. (
          _,
          refl,
          if_elim Shaped ac.has_delta_min _ _
              (λ down.
                push_lower-IsShaped e base row i _ n v wide (omega (arith, sized)) _ (both down))
              (λ _. push_unbounded-IsShaped e base row i _ n v wide (omega (arith, sized))),
        )

  delta_min_line-Shaped :
      (ac : BaseConstraint F) (i k : ℕ) (n : Inequalities F)
      → i + k < nb_actuator_rows e
      → both_sided ≡ true
      → Shaped n
      → Returns Shaped (delta_min_line e ac i k n)
  unfolding delta_min_line
  delta_min_line-Shaped ac i k n h both v =
      row_of_w (λ x. x) e.lists.actuator_row_ids (i + k) _ h
        λ r row wide.
          (_, refl, push_lower-IsShaped e base row i _ n v wide (omega (arith, sized)) _ both)

  delta_min_negated_line-Shaped :
      (ac : BaseConstraint F) (i k : ℕ) (n : Inequalities F)
      → i + k < nb_actuator_rows e
      → both_sided ≡ false
      → Shaped n
      → Returns Shaped (delta_min_negated_line e ac i k n)
  unfolding delta_min_negated_line
  delta_min_negated_line-Shaped ac i k n h one_sided v =
      row_of_w negate e.lists.actuator_row_ids (i + k) _ h λ r row wide.
        (_, refl, push_upper-IsShaped e base row i _ n v wide (omega (arith, sized)) one_sided)

  -- Any of the three bodies, over the lines of an actuator.
  over_lines :
      (ac : BaseConstraint F) (i : ℕ) (n : Inequalities F)
      (body : ℕ → Inequalities F → Option (Inequalities F))
      → i + ac.nb_lines ≤ nb_actuator_rows e
      → ((k : ℕ) (m : Inequalities F)
          → i + k < nb_actuator_rows e
          → Shaped m
          → Returns Shaped (body k m))
      → Shaped n
      → Returns Shaped (for_range ac.nb_lines 0 body n)
  over_lines ac i n body h each v =
      for_range-Returns (λ _. Shaped) body ac.nb_lines 0 ac.nb_lines n (omega arith)
        (λ k m _ hi w. each k m (omega arith) w) v

  pub actuator_inequalities-Shaped :
      (ac : BaseConstraint F) (i : ℕ) (n : Inequalities F)
      → i + ac.nb_lines ≤ nb_actuator_rows e
      → (has_two_sides ac ≡ true → both_sided ≡ true)
      → Shaped n
      → Returns Shaped (actuator_inequalities e ac i n)
  unfolding actuator_inequalities
  actuator_inequalities-Shaped ac i n h both v =
      if_elim (Returns Shaped) ac.has_delta_max _ _
        (λ up.
          over_lines ac i n _ h
            (λ k m lt w. delta_max_line-Shaped ac i k m lt (λ down. both (ground arith)) w) v)
        λ _.
          if_elim (Returns Shaped) ac.has_delta_min _ _
            (λ _.
              if_elim (Returns Shaped) both_sided _ _
                (λ b. over_lines ac i n _ h (λ k m lt w. delta_min_line-Shaped ac i k m lt b w) v)
                (λ b.
                  over_lines ac i n _ h (λ k m lt w. delta_min_negated_line-Shaped ac i k m lt b w)
                    v))
            (λ _. (n, refl, v))
