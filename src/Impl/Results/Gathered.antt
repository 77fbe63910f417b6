-- ===== src/Impl/Results/Gathered.antt =====
-- sendResults reads what storeResults has placed.
use soft_robots_inverse.Prelude.{
  All, List, Option, Returns, Returns-mono, get_elem?, get_elem?-lt, some, tabulate_cong, ℕ, ◌+◌,
  ◌<◌, ◌≡◌, ◌≤◌, length, tabulate, arith,
}
use soft_robots_inverse.Problem.{ConstraintLists}
use soft_robots_inverse.Double.{Double}
use soft_robots_inverse.Impl.Results.{place_forces, gather}
use soft_robots_inverse.Impl.Results.Placed.{IsPlaced, place_forces-IsPlaced, written_rows}
use soft_robots_inverse.Impl.Results.Rows.{IsDistinct}

module _ {F : Type 0} ⦃R : Double F⦄ (l : ConstraintLists F) (x v : List F)
    (distinct : IsDistinct (written_rows l)) (inside : All (λ row. row < length v) (written_rows l))
    (room : length l.actuator_row_ids + length l.equality_row_ids + length l.contact_row_ids
      ≤ length x) where
  -- The lines from `line` on, `n` of them, of the actuators and of the equalities.
  abbrev pub AreGathered : List F → Type 0
  AreGathered v' =
      ((line n : ℕ)
        → line + n ≤ length l.actuator_row_ids
        → gather l.actuator_row_ids v' line n ≡ tabulate n line (get_elem? x))
      × ((line n : ℕ)
          → line + n ≤ length l.equality_row_ids
          → gather l.equality_row_ids v' line n
            ≡ tabulate n line (λ i. get_elem? x (length l.actuator_row_ids + i)))

  gathered :
      (ids : List ℕ) (value : ℕ → Option F) (v' : List F)
      → ((i row : ℕ) → get_elem? ids i ≡ some row → get_elem? v' row ≡ value i)
      → (line n : ℕ) → line + n ≤ length ids
      → gather ids v' line n ≡ tabulate n line value
  unfolding gather
  gathered ids value v' there line n fits =
      tabulate_cong n line _ value
        λ k lo hi. let (row, at) = get_elem?-lt ids k (omega arith) in rw at (there k row at)

  -- For rows that are all different and in range, and a solution with a force for each row of
  -- actuators, equalities and contacts, storeResults places the forces so that what sendResults
  -- collects for any lines of the actuators, or of the equalities, is that part of the solution.
  pub gather-place_forces : Returns AreGathered (place_forces l x v)
  gather-place_forces =
      Returns-mono (IsPlaced l x v) AreGathered _
        (λ v' w. (
          gathered l.actuator_row_ids (get_elem? x) v' w.actuators,
          gathered l.equality_row_ids (λ i. get_elem? x (length l.actuator_row_ids + i)) v'
              w.equalities,
        ))
        (place_forces-IsPlaced l x v distinct inside room)
