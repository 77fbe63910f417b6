-- ===== src/Component/Joint.antt =====
-- constraint/JointActuator.inl: the limits of a joint, its line, and the results that it is told.
use soft_robots_inverse.Prelude.{
  Bool, List, Option, Returns, [], get_elem?, if◌then◌else◌, none, some, true, ℕ, ◌++◌, ◌+◌, ◌-◌,
  ◌>>=◌, ◌∙◌, ◌∷◌, ◌≡◌, ◌≤◌, ap, length, Returns-bind, refl, if_elim,
}
use soft_robots_inverse.Double.{Double, ◌⊕◌, ◌⊖◌, one}
use soft_robots_inverse.Component.Actuator.{
  IsApplied, actuator_store_results, actuator_store_results-IsApplied,
}
use soft_robots_inverse.Component.Window.{Window, init_window, update_window}
use soft_robots_inverse.Component.Window.Renewal.{update_window-init_window}

pub record Joint (F : Type 0) : Type 0 where
  pub is_valid : Bool
  pub effort : F
  pub angle : F
  pub init_effort : F
  pub init_angle : F
  pub max_effort : Option F
  pub min_effort : Option F
  pub max_effort_variation : Option F
  pub max_angle : Option F
  pub min_angle : Option F
  pub max_angle_variation : Option F
  pub lambda : Window F
  pub delta : Window F
  pub index : ℕ
  pub constraint_id : ℕ
  pub nb_lines : ℕ
  pub apply_force : Bool

module _ {F : Type 0} ⦃R : Double F⦄ where
  pub joint_init_limit : Joint F → Joint F
  joint_init_limit j = record j {
    lambda = init_window j.effort j.min_effort j.max_effort j.max_effort_variation j.lambda;
    delta = init_window j.angle j.min_angle j.max_angle j.max_angle_variation j.delta;
  }

  pub joint_init_datas : Joint F → Joint F
  joint_init_datas j = record j { effort = j.init_effort; angle = j.init_angle }

  pub joint_update_limit : Joint F → Joint F
  joint_update_limit j = record j {
    lambda = update_window j.effort j.min_effort j.max_effort j.max_effort_variation j.lambda;
    delta = update_window j.angle j.min_angle j.max_angle j.max_angle_variation j.delta;
  }

  -- The entries (row, column, value) that are added to the matrix, and cIndex.
  pub joint_build_constraint_matrix :
      Joint F → List (ℕ × ℕ × F) → ℕ → Joint F × List (ℕ × ℕ × F) × ℕ
  joint_build_constraint_matrix j matrix c_index =
      if j.is_valid
      then (
        record j { constraint_id = c_index; nb_lines = c_index + 1 - c_index },
        matrix ++ ((c_index, j.index, one) ∷ []),
        c_index + 1,
      )
      else (j, matrix, c_index)

  -- The row and the violation that is set there; `jdx` is its first entry.
  pub joint_get_constraint_violation : Joint F → F → Option (ℕ × F)
  joint_get_constraint_violation j jdx =
      if j.is_valid then some (j.constraint_id, jdx ⊖ j.init_angle ⊕ j.angle) else none

  pub joint_store_results : Joint F → List F → List F → Option (Joint F × List F)
  joint_store_results j lambda delta =
      if j.is_valid
      then (do
        effort ← get_elem? lambda 0
        angle ← get_elem? delta 0
        answer ← actuator_store_results j.apply_force j.nb_lines lambda
        some (joint_update_limit (record j { effort = effort; angle = angle }), answer))
      else some (j, lambda)

  -- Each update gives the limits that a fresh start would give with the effort and angle of the moment.
  pub joint_update_limit-joint_init_limit :
      (effort angle : F) (j : Joint F)
      → joint_update_limit (record (joint_init_limit j) { effort = effort; angle = angle })
        ≡ joint_init_limit (record j { effort = effort; angle = angle })
  unfolding joint_update_limit joint_init_limit
  joint_update_limit-joint_init_limit effort angle j =
      ap
        (λ l. told l (
          update_window angle j.min_angle j.max_angle j.max_angle_variation
            (init_window j.angle j.min_angle j.max_angle j.max_angle_variation j.delta)))
        (update_window-init_window effort j.effort j.min_effort j.max_effort j.max_effort_variation
          j.lambda)
      ∙ ap (told (init_window effort j.min_effort j.max_effort j.max_effort_variation j.lambda)) (
          update_window-init_window angle j.angle j.min_angle j.max_angle j.max_angle_variation
            j.delta)
    where
      told : Window F → Window F → Joint F
      told l d = record j { effort = effort; angle = angle; lambda = l; delta = d }

  -- For a valid joint that was set up, with a force for each of its lines, storeResults leaves the
  -- joint as a fresh start at the new effort and angle would, and gives back the forces that it was
  -- told, or zero where it is not to apply its force.
  pub joint_store_results-joint_init_limit :
      (j : Joint F) (lambda delta : List F) (effort angle : F)
      → j.is_valid ≡ true
      → get_elem? lambda 0 ≡ some effort
      → get_elem? delta 0 ≡ some angle
      → j.nb_lines ≤ length lambda
      → Returns
          (λ (j', answer).
            (j' ≡ joint_init_limit (record j { effort = effort; angle = angle }))
            × IsApplied j.apply_force j.nb_lines lambda answer)
          (joint_store_results (joint_init_limit j) lambda delta)
  unfolding joint_store_results joint_init_limit
  joint_store_results-joint_init_limit j lambda delta effort angle valid first angle_there room =
      if_elim (Returns _) j.is_valid _ _
        (λ _.
          rw (first, angle_there)
            (Returns-bind (IsApplied j.apply_force j.nb_lines lambda) _ _ _
              (actuator_store_results-IsApplied j.apply_force j.nb_lines lambda room)
              λ answer applied.
                (_, refl, (joint_update_limit-joint_init_limit effort angle j, applied))))
        (λ invalid. cc)
