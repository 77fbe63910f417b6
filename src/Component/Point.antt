-- ===== src/Component/Point.antt =====
-- constraint/ForcePointActuator.inl: a force on points of the model, with one line along its direction or,
-- where no direction is set, one for each coordinate.
pub mod Lines
pub mod Told
use soft_robots_inverse.Prelude.{
  Bool, List, Option, for_range, get_elem?, if◌then◌else◌, none, some, true, ℕ, ◌&&◌, ◌+◌, ◌>>=◌,
  replicate, write, [], suc, zero, ◌∷◌, ltb, map, set, ◌-◌,
}
use soft_robots_inverse.Double.{Double, ◌≼◌, nought, ◌⊘◌, one}
use soft_robots_inverse.Component.Window.{
  Window, init_window, open_high, open_low, place_high, place_low, update_window,
}
use soft_robots_inverse.Component.Actuator.{actuator_store_results}

pub record Point (F : Type 0) : Type 0 where
  pub max_force : Option F
  pub min_force : Option F
  pub max_force_variation : Option F
  pub init_force : F
  pub init_force_set : Bool
  pub epsilon_set : Option F
  pub force : List F
  pub displacement : F
  pub direction : List F
  pub indices : List ℕ
  pub lambda : Window F
  pub has_lambda_init : Bool
  pub lambda_init : F
  pub has_epsilon : Bool
  pub epsilon : F
  pub constraint_id : ℕ
  pub nb_lines : ℕ
  pub apply_force : Bool

module _ {F : Type 0} ⦃R : Double F⦄ where
  -- The force is read only where there is a variation.
  pub point_window : Option F → List F → (F → Window F) → Window F → Option (Window F)
  point_window none force near w = some w
  point_window (some v) force near w = do now ← get_elem? force 0; some (near now)

  pub point_init_limit : Point F → Option (Point F)
  point_init_limit p = do
    w ←
        point_window p.max_force_variation p.force
          (λ now. init_window now p.min_force p.max_force p.max_force_variation p.lambda)
          (open_low p.min_force (open_high p.max_force p.lambda))
    some (record p { lambda = w })

  pub point_update_limit : Point F → Option (Point F)
  point_update_limit p = do
    w ←
        point_window p.max_force_variation p.force
          (λ now. update_window now p.min_force p.max_force p.max_force_variation p.lambda)
          (place_low p.min_force (place_high p.max_force p.lambda))
    some (record p { lambda = w })

  -- The points of the model that a line acts on, each along the direction of the line.
  pub point_columns : ℕ → List ℕ → List F → List (ℕ × List F)
  point_columns size [] direction = []
  point_columns size (i ∷ is) direction =
      let rest = point_columns size is direction in
      if ltb i size then (i, direction) ∷ rest else rest

  -- One force of the solver is taken over.
  abbrev pub take_force : List F → ℕ → List F → Option (List F)
  take_force lambda j force = do x ← get_elem? lambda j; write force j x

-- Deriv::norm and Deriv::total_size are the framework's.
module _ {F : Type 0} ⦃R : Double F⦄ (norm : List F → F) (total_size : ℕ) where
  -- direction.norm() == 0: no fixed direction.
  abbrev pub is_free : Point F → Bool
  is_free p = (norm p.direction ≼ nought) && (nought ≼ norm p.direction)

  pub point_init_datas : Point F → Point F
  point_init_datas p =
      let p1 : Point F = elim p.epsilon_set [
        | none ↦ p
        | some penalty ↦ record p { has_epsilon = true; epsilon = penalty }
      ] in
      let p2 : Point F =
        if p.init_force_set
        then record p1 { has_lambda_init = true; lambda_init = p.init_force }
        else p1 in
      record p2 { force = replicate (if is_free p then total_size else 1) p.init_force }

  -- dir[j] = 1
  abbrev pub unit_direction : ℕ → List F
  unit_direction j = set (replicate total_size nought) j one

  pub unit_lines : ℕ → ℕ → ℕ → ℕ → List ℕ → List (ℕ × List (ℕ × List F))
  unit_lines zero j c size is = []
  unit_lines (suc n) j c size is =
      (c + j, point_columns size is (unit_direction j)) ∷ unit_lines n (j + 1) c size is

  -- The point, the lines that are written, with their numbers, and cIndex after them. `size` is
  -- m_state->getSize().
  pub point_build_constraint_matrix : ℕ → ℕ → Point F → Point F × List (ℕ × List (ℕ × List F)) × ℕ
  point_build_constraint_matrix size c p =
      let next = if is_free p then c + total_size else c + 1 in
      (
        record p { constraint_id = c; nb_lines = next - c },
        (if is_free p
            then unit_lines total_size 0 c size p.indices
            else (c, point_columns size p.indices (map (λ x. x ⊘ norm p.direction) p.direction))
              ∷ []),
        next,
      )

  -- How many lines a point has: one along its direction, or one for each coordinate.
  unfoldable pub point_nb_lines : Point F → ℕ
  point_nb_lines p = if is_free p then total_size else 1

  pub point_violation : Point F → List F → Option (List F)
  point_violation p res =
      if is_free p
      then for_range total_size 0 (λ j v. write v (p.constraint_id + j) nought) res
      else write res p.constraint_id nought

  pub point_take_forces : Point F → List F → Option (List F)
  point_take_forces p lambda =
      if is_free p
      then for_range total_size 0 (take_force lambda) p.force
      else take_force lambda 0 p.force

  pub point_store_results : Point F → List F → List F → Option (Point F × List F)
  point_store_results p lambda delta = do
    displacement ← get_elem? delta 0
    force ← point_take_forces p lambda
    limited ← point_update_limit (record p { displacement = displacement; force = force })
    answer ← actuator_store_results p.apply_force p.nb_lines lambda
    some (limited, answer)
