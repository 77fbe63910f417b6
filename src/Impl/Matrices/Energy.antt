-- ===== src/Impl/Matrices/Energy.antt =====
-- buildQPMatrices: the weight of the energy, and what it adds to a row, have room.
use soft_robots_inverse.Prelude.{
  All, All-get_elem?, All-set, Bool, List, Option, Returns, Returns-bind, Returns-mono,
  for_range-Returns, get_elem?-lt, length-set, refl, write-Returns, ℕ, ◌<◌, ◌∙◌, ◌≡◌, ◌≤◌, length,
  arith, lt→ltb,
}
use soft_robots_inverse.Problem.{Problem}
use soft_robots_inverse.Double.{Double, nought}
use soft_robots_inverse.Impl.Matrices.{
  add_energy, compliance_of, compute_energy_weight, energy_dim, matrix_entry, uniform_norm,
}

module _ {F : Type 0} ⦃R : Double F⦄ where
  pub uniform_norm-Returns :
      (e : Problem F) (n : ℕ) (entry : ℕ → ℕ → Option F)
      → ((k j : ℕ) → k < n → j < n → Returns (λ _. Unit {0}) (entry k j))
      → Returns (λ _. Unit {0}) (uniform_norm e n entry)
  unfolding uniform_norm
  uniform_norm-Returns e n entry all =
      for_range-Returns (λ _ _. Unit {0}) _ n 0 n nought (omega arith)
        (λ k norm lo hi _.
          Returns-bind (λ _. Unit {0}) (λ _. Unit {0}) _ _
            (for_range-Returns (λ _ _. Unit {0}) _ n 0 n nought (omega arith)
              (λ j sum lo' hi' _. let (x, e, _) = all k j hi hi' in rw e (_, refl, tt)) tt)
            λ sum _. (_, refl, tt))
        tt

  module _ (e : Problem F) (ids : List ℕ) (size : length ids ≡ e.system.dim) where
    -- A row for each variable, each with a column for each variable.
    abbrev pub QFits : List (List F) → Type 0
    QFits q = (length q ≡ e.system.dim) × All (λ row. e.system.dim ≤ length row) q

    pub compliance_of-Returns :
        (k j : ℕ)
        → k < e.system.dim
        → j < e.system.dim
        → Returns (λ _. Unit {0}) (compliance_of e ids k j)
    compliance_of-Returns k j hk hj =
        let (a, ea) = get_elem?-lt ids k (omega arith) in
        let (b, eb) = get_elem?-lt ids j (omega arith) in rw (ea, eb) (_, refl, tt)

    pub matrix_entry-Returns :
        (q : List (List F)) (k j : ℕ)
        → QFits q
        → k < e.system.dim
        → j < e.system.dim
        → Returns (λ _. Unit {0}) (matrix_entry e q k j)
    matrix_entry-Returns q k j (len, wide) hk hj =
        let (row, er) = get_elem?-lt q k (omega arith) in
        let w : e.system.dim ≤ length row =
          All-get_elem? (λ r. e.system.dim ≤ length r) q k row wide er in
        let (x, ex) = get_elem?-lt row j (omega arith) in rw (er, ex) (_, refl, tt)

    pub compute_energy_weight-Returns :
        (actuators_only : Bool) (q : List (List F))
        → QFits q
        → energy_dim e actuators_only ≤ e.system.dim
        → Returns (λ _. Unit {0}) (compute_energy_weight e actuators_only ids q)
    unfolding compute_energy_weight
    compute_energy_weight-Returns actuators_only q fits low =
        Returns-bind (λ _. Unit {0}) (λ _. Unit {0}) _ _
          (uniform_norm-Returns e e.system.dim (matrix_entry e q)
            (λ k j hk hj. matrix_entry-Returns q k j fits hk hj))
          λ norm_q _.
            Returns-bind (λ _. Unit {0}) (λ _. Unit {0}) _ _
              (uniform_norm-Returns e (energy_dim e actuators_only) (compliance_of e ids)
                (λ k j hk hj. compliance_of-Returns k j (omega arith) (omega arith)))
              λ norm_w _. (_, refl, tt)

    pub add_energy-QFits :
        (weight : F) (n : ℕ) (factor : ℕ → F) (k : ℕ) (q : List (List F))
        → n ≤ e.system.dim
        → k < e.system.dim
        → QFits q
        → Returns QFits (add_energy e ids weight n factor k q)
    unfolding add_energy
    add_energy-QFits weight n factor k q low h (len, wide) =
        let (row, er) = get_elem?-lt q k (omega arith) in
        let w : e.system.dim ≤ length row =
          All-get_elem? (λ r. e.system.dim ≤ length r) q k row wide er in
        rw er (
          Returns-bind (λ r. e.system.dim ≤ length r) QFits _ _
            (for_range-Returns (λ _ r. e.system.dim ≤ length r) _ n 0 n row (omega arith)
              (λ j r lo hi v.
                let (x, ex) = get_elem?-lt r j (omega arith) in
                rw ex (
                  Returns-bind (λ _. Unit {0}) (λ t. e.system.dim ≤ length t) _ _
                    (compliance_of-Returns k j h (omega arith))
                    λ c _.
                      Returns-mono (λ t. length t ≡ length r) _ _ (λ t same. omega arith)
                        (write-Returns r j _ (omega arith))))
              w)
            λ row' v. rw (lt→ltb k (length q) (omega arith)) (
              _,
              refl,
              (length-set q k row' ∙ len, All-set (λ r. e.system.dim ≤ length r) q k row' wide v),
            ))
