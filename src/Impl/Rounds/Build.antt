-- ===== src/Impl/Rounds/Build.antt =====
-- solveInverseProblem, and the matrices of one round of solveWithContact that it is called on.
use soft_robots_inverse.Prelude.{
  All, List, Returns, Returns-mono, ℕ, ◌+◌, ◌<◌, ◌∙◌, ◌≡◌, ◌≤◌, ap, length, arith, subst, sym,
  Returns-bind, ◌>>=◌,
}
use soft_robots_inverse.Problem.{Problem}
use soft_robots_inverse.Double.{Double}
use soft_robots_inverse.Impl.Rounds.Parts.{
  EqualitiesFit, IsPosed, RowsFit, WithRows, inequalities-WithRows, NamesFit, WithBox,
  WithEqualities, bounds-WithBox, equalities-WithEqualities,
}
use soft_robots_inverse.Impl.Rounds.Frame.{
  IsFormer, IsRevision, IsRevision-trans, IsRunnable, IsRunnable-revise,
}
use soft_robots_inverse.ConstraintHandler.Inequality.{build_inequality_constraint_matrices}
use soft_robots_inverse.ConstraintHandler.Equality.{build_equality_constraint_matrices}
use soft_robots_inverse.ConstraintHandler.Bounds.{get_constraint_on_lambda}

module _ {F : Type 0} ⦃R : Double F⦄ (stride : ℕ) (result : List F) (e0 : Problem F) where
  -- A revision of `e0` that a round can work on.
  abbrev pub IsSound : Problem F → Type 0
  IsSound e = IsRunnable e stride result × IsFormer e × IsRevision e0 e

  pub carry-IsSound :
      (e e' : Problem F)
      → IsSound e
      → IsRevision e e'
      → e'.system.previous_result ≡ e.system.previous_result
      → IsSound e'
  carry-IsSound e e' (v, former, since) same previous =
      let dims : e'.system.dim ≡ e.system.dim = ap (λ q. q.system.dim) same in
      let former' : IsFormer e' =
        let len = ap (λ (xs : List F). length xs) previous in omega (arith, former) in
      (
        IsRunnable-revise e e' stride result result v same former' v.result_size,
        former',
        IsRevision-trans e0 e e' since same,
      )

  -- The problem is posed, with `n` numbers in constraintsId at least.
  abbrev pub IsReadyFor : ℕ → Problem F → Type 0
  IsReadyFor n e = IsSound e × IsPosed e × (n ≤ length e.params.constraints_id)

  abbrev pub IsNamedSound : Problem F → Type 0
  IsNamedSound e = IsSound e × All (λ id. id < e.system.dim) e.params.constraints_id

  -- A and its bounds are built anew, and the numbers of the rows come behind the old ones.
  pub inequalities_round :
      (e : Problem F)
      → IsNamedSound e
      → Returns
          (λ e'.
            IsNamedSound e'
            × RowsFit e'
            × (length e'.params.constraints_id
                ≡ length e.params.constraints_id + length e'.system.a)
            × (EqualitiesFit e → EqualitiesFit e')
            × (length e'.system.aeq ≡ length e.system.aeq))
          (build_inequality_constraint_matrices e result)
  inequalities_round e (sound, known) =
      Returns-mono (WithRows e stride result sound.0 known) _ _
        (λ e' w. (
          (carry-IsSound e e' sound w.1 w.6, w.3),
          w.0,
          w.2,
          λ fit. equalities_kept e e' w.1 w.4 w.5 fit,
          ap (λ (xs : List (List F)). length xs) w.4,
        ))
        (inequalities-WithRows e stride result sound.0 known)
    where
      equalities_kept :
          (e e' : Problem F)
          → IsRevision e e'
          → e'.system.aeq ≡ e.system.aeq
          → e'.system.beq ≡ e.system.beq
          → EqualitiesFit e
          → EqualitiesFit e'
      equalities_kept e e' same rows targets (widths, size) =
          let dims : e'.system.dim ≡ e.system.dim = ap (λ q. q.system.dim) same in
          (
            subst (λ d. All (λ row. d ≤ length row) e'.system.aeq) (sym dims)
                (subst (All (λ row. e.system.dim ≤ length row)) (sym rows) widths),
            ap (λ (xs : List F). length xs) targets
                ∙ size
                ∙ sym (ap (λ (xs : List (List F)). length xs) rows),
          )

  -- Aeq is built anew on top.
  pub equalities_round :
      (e : Problem F)
      → IsNamedSound e
      → RowsFit e
      → length e.system.a ≤ length e.params.constraints_id
      → Returns
          (λ e'. IsNamedSound e' × RowsFit e' × EqualitiesFit e' × NamesFit e')
          (build_equality_constraint_matrices e result)
  equalities_round e (sound, known) rows named =
      Returns-mono (WithEqualities e stride result sound.0 known) _ _
        (λ e' w.
          let rows_kept = ap (λ (xs : List (List F)). length xs) w.5 in
          ((carry-IsSound e e' sound w.1 w.6, w.3), w.4 rows, w.0, (omega (arith, w.2), w.3)))
        (equalities-WithEqualities e stride result sound.0 known)

  -- The bounds of the variables complete the problem.
  pub bounds_round :
      (e : Problem F)
      → IsSound e
      → RowsFit e
      → EqualitiesFit e
      → NamesFit e
      → Returns (IsReadyFor (length e.params.constraints_id)) (get_constraint_on_lambda e result)
  bounds_round e sound rows equalities named =
      Returns-mono (WithBox e stride result sound.0 named.1) _ _
        (λ e' w. (
          carry-IsSound e e' sound w.1 w.5,
          (w.2 rows, w.3 equalities, w.0, w.4 named),
          omega (arith, w.6),
        ))
        (bounds-WithBox e stride result sound.0 named.1)

  -- The bounds of A and of the variables alone, as they are restored for the last attempt.
  pub rebuilt-IsReadyFor :
      (e : Problem F)
      → IsReadyFor 0 e
      → Returns (IsReadyFor (length e.params.constraints_id)) (
          build_inequality_constraint_matrices e result >>= λ e1.
          get_constraint_on_lambda e1 result)
  rebuilt-IsReadyFor e (sound, posed, _) =
      Returns-bind _ (IsReadyFor (length e.params.constraints_id)) _ _
        (inequalities_round e (sound, posed.3.1))
        λ e1 w.
          Returns-mono (IsReadyFor (length e1.params.constraints_id)) _ _
            (λ e2 y. (y.0, y.1, omega (arith, w.2, y.2)))
            (bounds_round e1 w.0.0 w.1 (w.3 posed.1) (omega (arith, w.2, w.4, posed.3.0), w.0.1))
