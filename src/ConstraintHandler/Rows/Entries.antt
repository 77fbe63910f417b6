-- ===== src/ConstraintHandler/Rows/Entries.antt =====
-- The entries of the rows of A and Aeq (ConstraintHandler.cpp): which columns of W, in what order.
use soft_robots_inverse.Problem.{Problem, nb_actuator_rows, nb_equality_rows, nb_contact_rows}
use soft_robots_inverse.Prelude.{
  List, ℕ, ◌≡◌, Returns, get_elem?, length, ◌++◌, ◌<◌, Bool-cases, IsTable, some, ◌+◌,
  get_elem?-Returns, ltb, Returns-mono, arith, inl, length-append, sym, tabulate-IsTable,
  get_elem?-append_left, tests, inr, get_elem?-append_right, ◌-◌, ◌∙◌, get_elem?-bound, ap,
  if◌then◌else◌, Returns-bind, length-replicate, write-Returns, ◌>>=◌, replicate, write,
}
use soft_robots_inverse.ConstraintHandler.Rows.{
  column_id, compliance_row, compliance_entry, friction_row,
}
use soft_robots_inverse.Double.{Double, nought}

get_elem?-append_three {ℓ} :
    {A : Type ℓ} (xs ys zs : List A) (j : ℕ)
    → (if ltb j (length xs)
        then get_elem? xs j
        else if ltb j (length xs + length ys)
        then get_elem? ys (j - length xs)
        else get_elem? zs (j - length xs - length ys))
      ≡ get_elem? (xs ++ (ys ++ zs)) j
get_elem?-append_three xs ys zs j =
    let m = j - length xs in
    elim (Bool-cases (ltb j (length xs))) [
      | inl a ↦ rw a (sym (get_elem?-append_left xs (ys ++ zs) j (omega tests)))
      | inr a ↦ rw a (elim (Bool-cases (ltb j (length xs + length ys))) [
        | inl b ↦ rw b (
            sym (
              get_elem?-append_right xs (ys ++ zs) j m (omega tests)
              ∙ get_elem?-append_left ys zs m (omega tests)))
        | inr b ↦ rw b (
            sym (
              get_elem?-append_right xs (ys ++ zs) j m (omega tests)
              ∙ get_elem?-append_right ys zs m (m - length ys) (omega tests)))
      ])
    ]

module _ {F : Type 0} (e : Problem F) where
  -- The variables: the rows of the actuators, then of the equalities, then of the contacts.
  abbrev pub variable_row_ids : List ℕ
  variable_row_ids =
      e.lists.actuator_row_ids ++ (e.lists.equality_row_ids ++ e.lists.contact_row_ids)

  abbrev pub IsSized : Type 0
  IsSized = e.system.dim ≡ nb_actuator_rows e + nb_equality_rows e + nb_contact_rows e

  -- The three-way test on the number of a variable finds the entry of the joined lists.
  pub column_id-append : (j : ℕ) → column_id e j ≡ get_elem? variable_row_ids j
  unfolding column_id
  column_id-append j =
      get_elem?-append_three e.lists.actuator_row_ids e.lists.equality_row_ids
        e.lists.contact_row_ids j

  length-variable_row_ids :
      length variable_row_ids ≡ nb_actuator_rows e + nb_equality_rows e + nb_contact_rows e
  length-variable_row_ids = omega (
    arith,
    length-append e.lists.actuator_row_ids (e.lists.equality_row_ids ++ e.lists.contact_row_ids),
    length-append e.lists.equality_row_ids e.lists.contact_row_ids,
  )

  pub column_id-Returns :
      (j : ℕ) → IsSized → j < e.system.dim → Returns (λ c. column_id e j ≡ some c) (column_id e j)
  column_id-Returns j sized h =
      rw (column_id-append j)
        (get_elem?-Returns variable_row_ids j (omega (arith, length-variable_row_ids)))

  -- What a row of `compliance_row` holds: entry `j` is the scaled W[r][column of variable j].
  abbrev pub IsComplianceRow : (F → F) → ℕ → List F → Type 0
  IsComplianceRow scale r row =
      (length row ≡ e.system.dim)
      × ((j c : ℕ)
          → get_elem? variable_row_ids j ≡ some c
          → get_elem? row j ≡ some (scale (e.system.w r c)))

  pub compliance_row-Returns :
      IsSized
      → (scale : F → F) (r : ℕ) → Returns (IsComplianceRow scale r) (compliance_row e scale r)
  unfolding compliance_row
  compliance_row-Returns sized scale r =
      Returns-mono (IsTable e.system.dim 0 (compliance_entry e scale r)) (IsComplianceRow scale r) _
        (λ row t. (t.0, entries row t))
        (tabulate-IsTable e.system.dim 0 (compliance_entry e scale r) λ j lo hi.
          let (c, eq, _) = column_id-Returns j sized (omega arith) in
          (scale (e.system.w r c), rw eq, tt))
    where
      entries :
          (row : List F)
          → IsTable e.system.dim 0 (compliance_entry e scale r) row
          → (j c : ℕ) → get_elem? variable_row_ids j ≡ some c
          → get_elem? row j ≡ some (scale (e.system.w r c))
      entries row t j c at =
          t.1 j (omega (arith, get_elem?-bound variable_row_ids j c at, length-variable_row_ids))
          ∙ rw (
            column_id-append (0 + j),
            ap (get_elem? variable_row_ids) (let same : 0 + j ≡ j = omega arith in same),
            at,
          )

module _ {F : Type 0} ⦃R : Double F⦄ (e : Problem F) where
  -- Three writes within the row leave its length.
  pub friction_row-Returns :
      (i m n : ℕ) (x y z : F)
      → i + m < e.system.dim
      → i + n < e.system.dim
      → Returns (λ row. length row ≡ e.system.dim) (friction_row e i x m y n z)
  unfolding friction_row
  friction_row-Returns i m n x y z hm hn =
      let zeros : List F = replicate e.system.dim nought in
      let wide : length zeros ≡ e.system.dim = length-replicate e.system.dim nought in
      Returns-bind (λ row. length row ≡ length zeros) (λ row. length row ≡ e.system.dim)
        (write zeros i x) (λ row. write row (i + m) y >>= λ row'. write row' (i + n) z)
        (write-Returns zeros i x (omega (arith, wide)))
        λ row h.
          Returns-bind (λ row'. length row' ≡ length row) (λ r. length r ≡ e.system.dim)
            (write row (i + m) y) (λ row'. write row' (i + n) z)
            (write-Returns row (i + m) y (omega (arith, wide)))
            λ row' h'.
              Returns-mono (λ r. length r ≡ length row') (λ r. length r ≡ e.system.dim) _
                (λ r h''. omega (arith, wide)) (write-Returns row' (i + n) z (omega (arith, wide)))
