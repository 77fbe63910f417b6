-- ===== src/Impl/Matrices/Symmetry.antt =====
-- buildQPMatrices: the quadratic matrix before the energy is added.
use soft_robots_inverse.Prelude.{ℕ, IsTable, List, get_elem?, some, ◌<◌, ◌≡◌, length}
use soft_robots_inverse.Problem.{Problem}
use soft_robots_inverse.Double.{Double, ◌⊗◌}
use soft_robots_inverse.Impl.Matrices.{quadratic_entry}

module _ {F : Type 0} ⦃R : Double F⦄ (e : Problem F) (ids : List ℕ)
    (size : length ids ≡ e.system.dim) (commute : (a b : F) → a ⊗ b ≡ b ⊗ a) where
  -- Row `k` of the matrix.
  abbrev IsRow : ℕ → List F → Type 0
  IsRow k = IsTable e.system.dim 0 (quadratic_entry e ids k)

  -- A square matrix whose entry (k, j) is the sum of W[r][column of k] * W[r][column of j] over the rows r
  -- of the effectors, and the same as entry (j, k).
  pub record IsProduct (q : List (List F)) : Type 0 where
    pub height : length q ≡ e.system.dim
    pub widths : (k : ℕ) (row : List F) → get_elem? q k ≡ some row → length row ≡ e.system.dim
    pub sums :
        (k j : ℕ) (row : List F)
        → get_elem? q k ≡ some row
        → j < e.system.dim
        → get_elem? row j ≡ quadratic_entry e ids k j
    pub symmetric :
        (k j : ℕ) (row row' : List F)
        → get_elem? q k ≡ some row
        → get_elem? q j ≡ some row'
        → get_elem? row j ≡ get_elem? row' k
