-- ===== src/Impl/Matrices.antt =====
-- QPInverseProblemImpl.cpp: buildQPMatrices and computeEnergyWeight, the cost 1/2 x Q x + c x.
pub mod Symmetry
pub mod Energy
pub mod Totality
use soft_robots_inverse.Prelude.{
  Bool, List, Option, [], for_range, get_elem?, if◌then◌else◌, some, ℕ, ◌&&◌, ◌+◌, ◌==◌, ◌>>=◌, ◌∷◌,
  ltb, tabulate, write,
}
use soft_robots_inverse.Problem.{BaseConstraint, Problem, nb_actuator_rows, nb_equality_rows}
use soft_robots_inverse.Double.{Double, ◌≺◌, ◌⊕◌, ◌⊗◌, ◌⊘◌, nought, rabs, tiny}
use soft_robots_inverse.ConstraintHandler.Rows.{column_id}

-- The loop over the rows of Q that get energy: the matrix, and which actuator and which equality the
-- next row belongs to, with how many of its lines have passed.
pub record EnergyCursor (F : Type 0) : Type 0 where
  pub q : List (List F)
  pub actuators_id : ℕ
  pub actuators_nb_lines : ℕ
  pub equality_id : ℕ
  pub equality_nb_lines : ℕ

module _ {F : Type 0} where
  -- acIds
  unfoldable pub ac_ids : Problem F → Option (List ℕ)
  ac_ids e = tabulate e.system.dim 0 (column_id e)

module _ {F : Type 0} ⦃R : Double F⦄ (e : Problem F) where
  -- The sum of W[r][j] * W[r][k] over the rows of the effectors.
  unfoldable pub effector_product : List ℕ → ℕ → ℕ → F → F
  effector_product [] j k sum = sum
  effector_product (r ∷ rs) j k sum =
      effector_product rs j k (sum ⊕ e.system.w r j ⊗ e.system.w r k)

  -- The sum of W[r][j] * dFree[r] over the rows of the effectors.
  unfoldable pub effector_offset : List ℕ → ℕ → F → F
  effector_offset [] j sum = sum
  effector_offset (r ∷ rs) j sum = effector_offset rs j (sum ⊕ e.system.w r j ⊗ e.system.d_free r)

  abbrev pub quadratic_entry : List ℕ → ℕ → ℕ → Option F
  quadratic_entry ids k j = do
    cj ← get_elem? ids j
    ck ← get_elem? ids k
    some (effector_product e.lists.effector_row_ids cj ck nought)

  pub quadratic_row : List ℕ → ℕ → Option (List F)
  quadratic_row ids k = tabulate e.system.dim 0 (quadratic_entry ids k)

  pub quadratic_matrix : List ℕ → Option (List (List F))
  quadratic_matrix ids = tabulate e.system.dim 0 (quadratic_row ids)

  abbrev pub linear_entry : List ℕ → ℕ → Option F
  linear_entry ids j = do
    cj ← get_elem? ids j
    some (effector_offset e.lists.effector_row_ids cj nought)

  pub linear_vector : List ℕ → Option (List F)
  linear_vector ids = tabulate e.system.dim 0 (linear_entry ids)

  -- The greatest sum of absolute values of a row, over `n` rows and columns.
  pub uniform_norm : ℕ → (ℕ → ℕ → Option F) → Option F
  uniform_norm n entry =
      for_range n 0
        (λ k norm. do
          sum ← for_range n 0 (λ j sum. entry k j >>= λ x. some (sum ⊕ rabs x)) nought
          some (if norm ≺ sum then sum else norm))
        nought

  abbrev pub matrix_entry : List (List F) → ℕ → ℕ → Option F
  matrix_entry q k j = do row ← get_elem? q k; get_elem? row j

  abbrev pub compliance_of : List ℕ → ℕ → ℕ → Option F
  compliance_of ids k j = do ck ← get_elem? ids k; cj ← get_elem? ids j; some (e.system.w ck cj)

  -- The rows and columns that get energy.
  abbrev pub energy_dim : Bool → ℕ
  energy_dim actuators_only = if actuators_only then nb_actuator_rows e else e.system.dim

  pub compute_energy_weight : Bool → List ℕ → List (List F) → Option F
  compute_energy_weight actuators_only ids q = do
    norm_q ← uniform_norm e.system.dim (matrix_entry q)
    norm_w ← uniform_norm (energy_dim actuators_only) (compliance_of ids)
    some (if tiny ≺ norm_w then norm_q ⊘ norm_w else nought)

  -- Q[k][j] += factor(j) * weight * W[acIds[k]][acIds[j]] for the columns j < n.
  pub add_energy : List ℕ → F → ℕ → (ℕ → F) → ℕ → List (List F) → Option (List (List F))
  add_energy ids weight n factor k q = do
    row ← get_elem? q k
    row' ←
        for_range n 0
          (λ j r. do
            x ← get_elem? r j
            w ← compliance_of ids k j
            write r j (x ⊕ factor j ⊗ weight ⊗ w))
          row
    write q k row'

  -- The epsilon of a component for its own variable, else the one of the solver.
  abbrev pub energy_factor : F → BaseConstraint F → ℕ → ℕ → F
  energy_factor epsilon c k j = if c.has_epsilon && (j == k) then c.epsilon else epsilon

  pub energy_step : F → List ℕ → F → ℕ → ℕ → EnergyCursor F → Option (EnergyCursor F)
  energy_step epsilon ids weight n k s =
      if ltb k (nb_actuator_rows e)
      then (do
        ac ← get_elem? e.lists.actuators s.actuators_id
        q ← add_energy ids weight n (energy_factor epsilon ac k) k s.q
        some (
            if s.actuators_nb_lines + 1 == ac.nb_lines
            then record s { q = q; actuators_nb_lines = 0; actuators_id = s.actuators_id + 1 }
            else record s { q = q; actuators_nb_lines = s.actuators_nb_lines + 1 }))
      else if ltb k (nb_actuator_rows e + nb_equality_rows e)
      then (do
        ec ← get_elem? e.lists.equality s.equality_id
        q ← add_energy ids weight n (energy_factor epsilon ec k) k s.q
        some (
            if s.equality_nb_lines + 1 == ec.nb_lines
            then record s { q = q; equality_nb_lines = 0; equality_id = s.equality_id + 1 }
            else record s { q = q; equality_nb_lines = s.equality_nb_lines + 1 }))
      else (do q ← add_energy ids weight n (λ _. epsilon) k s.q; some (record s { q = q }))

  pub build_qp_matrices : F → Bool → Option (Problem F)
  build_qp_matrices epsilon actuators_only = do
    ids ← ac_ids e
    q ← quadratic_matrix ids
    c ← linear_vector ids
    weight ← compute_energy_weight actuators_only ids q
    s ←
        for_range (energy_dim actuators_only) 0
          (energy_step epsilon ids weight (energy_dim actuators_only))
          (record {
            q = q;
            actuators_id = 0;
            actuators_nb_lines = 0;
            equality_id = 0;
            equality_nb_lines = 0;
          })
    some (record e { system = record (e.system) { q = s.q; c = c } })
