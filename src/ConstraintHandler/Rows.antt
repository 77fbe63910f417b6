-- ===== src/ConstraintHandler/Rows.antt =====
-- ConstraintHandler.cpp: the rows that the matrices A and Aeq are made of, and checkCListsConsistency.
pub mod Entries
use soft_robots_inverse.Prelude.{
  ℕ, ◌+◌, ◌-◌, ◌/◌, Bool, not, ◌&&◌, ◌||◌, Option, some, List, ltb, ◌==◌, if◌then◌else◌, length,
  get_elem?, replicate, ◌>>=◌, write, tabulate, ◌++◌, ◌∷◌, [],
}
use soft_robots_inverse.Double.{Double, ◌≺◌, ◌≼◌, nought, negate, huge}
use soft_robots_inverse.Problem.{
  Problem, nb_actuator_rows, nb_equality_rows, nb_contact_rows, contact_offset,
}

-- The four vectors that the inequalities go to: A, bu, bl and constraintsId.
pub record Inequalities (F : Type 0) : Type 0 where
  pub a : List (List F)
  pub bu : List F
  pub bl : List F
  pub ids : List ℕ

module _ {F : Type 0} where
  abbrev pub push_row : List F → ℕ → Inequalities F → Inequalities F
  push_row row i n = record n { a = n.a ++ (row ∷ []); ids = n.ids ++ (i ∷ []) }

  abbrev pub push_upper : F → Inequalities F → Inequalities F
  push_upper x n = record n { bu = n.bu ++ (x ∷ []) }

  abbrev pub push_lower : F → Inequalities F → Inequalities F
  push_lower x n = record n { bl = n.bl ++ (x ∷ []) }

module _ {F : Type 0} where
  -- The column of W of variable `j`: the actuators first, then the equalities, the contacts last.
  unfoldable pub column_id : Problem F → ℕ → Option ℕ
  column_id e j =
      if ltb j (nb_actuator_rows e)
      then get_elem? e.lists.actuator_row_ids j
      else if ltb j (nb_actuator_rows e + nb_equality_rows e)
      then get_elem? e.lists.equality_row_ids (j - nb_actuator_rows e)
      else get_elem? e.lists.contact_row_ids (contact_offset e j)

  -- row[j] = scale(W[r][column of j]) for all variables j.
  abbrev pub compliance_entry : Problem F → (F → F) → ℕ → ℕ → Option F
  compliance_entry e scale r j = do c ← column_id e j; some (scale (e.system.w r c))

  unfoldable pub compliance_row : Problem F → (F → F) → ℕ → Option (List F)
  compliance_row e scale r = tabulate e.system.dim 0 (compliance_entry e scale r)

  -- The row of W of line `k` of the contact whose first variable is `i`.
  unfoldable pub contact_row_id : Problem F → ℕ → ℕ → Option ℕ
  contact_row_id e i k = get_elem? e.lists.contact_row_ids (contact_offset e i + k)

module _ {F : Type 0} ⦃R : Double F⦄ where
  -- A row of zeros but for the entries i, i + m and i + n.
  unfoldable pub friction_row : Problem F → ℕ → F → ℕ → F → ℕ → F → Option (List F)
  friction_row e i x m y n z = do
    row ← write (replicate e.system.dim nought) i x
    row' ← write row (i + m) y
    write row' (i + n) z

  -- checkCListsConsistency: whether there is an error.
  unfoldable pub check_clists_consistency : Problem F → Bool
  check_clists_consistency e =
      ltb 0 (nb_contact_rows e)
      && ((nought ≺ e.params.mu
            && not
                (length e.params.contact_states == nb_contact_rows e / e.params.contact_nb_lines))
          || (e.params.mu ≼ nought && not (length e.params.contact_states == nb_contact_rows e)))

  -- One constraint has two sides and this one has not.
  abbrev pub push_unbounded : Problem F → Inequalities F → Inequalities F
  push_unbounded e n =
      if e.system.has_both_side_inequality_constraint then push_lower (negate huge) n else n
