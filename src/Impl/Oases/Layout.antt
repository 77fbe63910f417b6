-- ===== src/Impl/Oases/Layout.antt =====
-- QPInverseProblemImpl.cpp: updateOASESMatrices as a whole.
use soft_robots_inverse.Prelude.{
  ℕ, All, All-append, Bool, Bool-cases, List, Returns, Returns-bind, get_elem?,
  get_elem?-append_left, get_elem?-append_right, get_elem?-bound, if◌then◌else◌, inl, inr,
  length-append, refl, some, true, ◌*◌, ◌++◌, ◌+◌, ◌<◌, ◌∙◌, ◌≡◌, ◌≤◌, length, replicate, arith, ap,
}
use soft_robots_inverse.Problem.{QpSystem}
use soft_robots_inverse.Double.{Double, negate, huge}
use soft_robots_inverse.Impl.Oases.{OasesInput, update_oases_matrices, entries}
use soft_robots_inverse.Impl.Oases.Arrays.{IsFlat, entries-all, flat-IsFlat}

module _ {F : Type 0} ⦃R : Double F⦄ where
  -- The sizes that the builders of the matrices leave.
  pub record IsComplete (s : QpSystem F) : Type 0 where
    pub q_rows : length s.q ≡ s.dim
    pub q_columns : All (λ row. s.dim ≤ length row) s.q
    pub c_size : length s.c ≡ s.dim
    pub a_columns : All (λ row. s.dim ≤ length row) s.a
    pub aeq_columns : All (λ row. s.dim ≤ length row) s.aeq
    pub bu_size : length s.bu ≡ length s.a
    pub bl_size : s.has_both_side_inequality_constraint ≡ true → length s.bl ≡ length s.a
    pub beq_size : length s.beq ≡ length s.aeq
    pub l_size : length s.l ≡ s.dim
    pub u_size : length s.u ≡ s.dim

  -- The vector of lower bounds of the rows of A, whether they are in use or not.
  abbrev pub lower_bounds : QpSystem F → List F
  lower_bounds s =
      if s.has_both_side_inequality_constraint then s.bl else replicate (length s.a) (negate huge)

  -- What is where in the arrays: the rows of A and then those of Aeq, in one matrix, with bu and beq, and
  -- with bl, or -1e99, and beq.
  pub record IsLaidOut (s : QpSystem F) (input : OasesInput F) : Type 0 where
    pub size : input.nv ≡ s.dim
    pub quadratic :
        (i j : ℕ) (row : List F)
        → get_elem? s.q i ≡ some row
        → j < s.dim
        → get_elem? input.h (i * s.dim + j) ≡ get_elem? row j
    pub linear : input.g ≡ s.c
    pub inequalities :
        (i j : ℕ) (row : List F)
        → get_elem? s.a i ≡ some row
        → j < s.dim
        → get_elem? input.a (i * s.dim + j) ≡ get_elem? row j
    pub equalities :
        (i j : ℕ) (row : List F)
        → get_elem? s.aeq i ≡ some row
        → j < s.dim
        → get_elem? input.a ((i + length s.a) * s.dim + j) ≡ get_elem? row j
    pub matrix_size : length input.a ≡ (length s.a + length s.aeq) * s.dim
    pub uppers : input.ub_a ≡ s.bu ++ s.beq
    pub lowers : input.lb_a ≡ lower_bounds s ++ s.beq
    pub box : (input.lb ≡ s.l) × (input.ub ≡ s.u)

  lower_bounds-entries :
      (s : QpSystem F)
      → IsComplete s
      → (if s.has_both_side_inequality_constraint
          then entries (length s.a) s.bl
          else some (replicate (length s.a) (negate huge)))
        ≡ some (lower_bounds s)
  lower_bounds-entries s v = elim (Bool-cases s.has_both_side_inequality_constraint) [
    | inl used ↦ rw used (entries-all (length s.a) s.bl (v.bl_size used))
    | inr unused ↦ rw unused refl
  ]

  -- For a system whose parts have the sizes that the builders leave, updateOASESMatrices reads no vector
  -- out of its bounds, and each matrix lies row by row in its array: Q; the rows of A and behind them those
  -- of Aeq. Both bounds of a row of Aeq are its entry of beq; a row of A has its entry of bu above and, if
  -- some constraint has two sides, its entry of bl below, else -1e99.
  pub update_oases_matrices-IsLaidOut :
      (indefinite : Bool) (s : QpSystem F)
      → IsComplete s
      → Returns (IsLaidOut s) (update_oases_matrices indefinite s)
  unfolding update_oases_matrices
  update_oases_matrices-IsLaidOut indefinite s v = rw (entries-all s.dim s.q v.q_rows) (
      Returns-bind (IsFlat s.dim s.q) (IsLaidOut s) _ _ (flat-IsFlat s.dim s.q v.q_columns)
        λ h flat_q. rw (entries-all s.dim s.c v.c_size) (
          Returns-bind (IsFlat s.dim (s.a ++ s.aeq)) (IsLaidOut s) _ _
            (flat-IsFlat s.dim (s.a ++ s.aeq)
              (All-append (λ row. s.dim ≤ length row) s.a s.aeq v.a_columns v.aeq_columns))
            λ a flat_a.
              rw
                (
                  entries-all (length s.a) s.bu v.bu_size,
                  lower_bounds-entries s v,
                  entries-all (length s.aeq) s.beq v.beq_size,
                  entries-all s.dim s.l v.l_size,
                  entries-all s.dim s.u v.u_size,
                )
                (
                  _,
                  refl,
                  record {
                    size = refl;
                    quadratic = flat_q.1;
                    linear = refl;
                    inequalities = λ i j row e hj.
                        flat_a.1 i j row
                          (get_elem?-append_left s.a s.aeq i (get_elem?-bound s.a i row e) ∙ e) hj;
                    equalities = λ i j row e hj.
                        flat_a.1 (i + length s.a) j row
                          (get_elem?-append_right s.a s.aeq (i + length s.a) i (omega arith) ∙ e)
                          hj;
                    matrix_size = flat_a.0 ∙ ap (λ n. n * s.dim) (length-append s.a s.aeq);
                    uppers = refl;
                    lowers = refl;
                    box = (refl, refl);
                  },
                )))
