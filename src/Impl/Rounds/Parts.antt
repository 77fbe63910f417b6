-- ===== src/Impl/Rounds/Parts.antt =====
-- The sizes of the parts of the quadratic problem, each read off a few fields, so that they outlive a
-- change of the others.
use soft_robots_inverse.Prelude.{
  All, All-mono, List, Returns, Returns-mono, if◌then◌else◌, inl, refl, true, ℕ, ◌+◌, ◌<◌, ◌∙◌, ◌≡◌,
  ◌≤◌, ap, arith, length, sym, subst,
}
use soft_robots_inverse.Problem.{Problem}
use soft_robots_inverse.Double.{Double}
use soft_robots_inverse.Impl.Oases.Layout.{IsComplete}
use soft_robots_inverse.Impl.Rounds.Frame.{
  IsRevision, IsRunnable, runnable_consistent, IsRevision-of,
}
use soft_robots_inverse.ConstraintHandler.Inequality.{build_inequality_constraint_matrices}
use soft_robots_inverse.ConstraintHandler.Ready.{IsAligned}
use soft_robots_inverse.ConstraintHandler.Release.Effect.{IsReleasable}
use soft_robots_inverse.ConstraintHandler.Inequality.Build.{
  IsNamed, build_inequality_constraint_matrices-IsNamed,
}
use soft_robots_inverse.ConstraintHandler.Equality.{build_equality_constraint_matrices}
use soft_robots_inverse.ConstraintHandler.Bounds.{get_constraint_on_lambda}
use soft_robots_inverse.ConstraintHandler.Bounds.Totality.{
  IsBounded, get_constraint_on_lambda-IsBounded,
}
use soft_robots_inverse.ConstraintHandler.Equality.Totality.{
  IsNumbered, build_equality_constraint_matrices-IsNumbered,
}

module _ {F : Type 0} where
  -- A, bu and, where it is in use, bl.
  abbrev pub RowsFit : Problem F → Type 0
  RowsFit e =
      All (λ row. e.system.dim ≤ length row) e.system.a
      × (length e.system.bu ≡ length e.system.a)
      × (e.system.has_both_side_inequality_constraint ≡ true
          → length e.system.bl ≡ length e.system.a)

  abbrev pub EqualitiesFit : Problem F → Type 0
  EqualitiesFit e =
      All (λ row. e.system.dim ≤ length row) e.system.aeq
      × (length e.system.beq ≡ length e.system.aeq)

  abbrev pub BoxFits : Problem F → Type 0
  BoxFits e = (length e.system.l ≡ e.system.dim) × (length e.system.u ≡ e.system.dim)

  -- A number in constraintsId for each row, and all of them numbers of variables.
  abbrev pub NamesFit : Problem F → Type 0
  NamesFit e =
      (length e.system.a + length e.system.aeq ≤ length e.params.constraints_id)
      × All (λ id. id < e.system.dim) e.params.constraints_id

  abbrev pub IsPosed : Problem F → Type 0
  IsPosed e = RowsFit e × EqualitiesFit e × BoxFits e × NamesFit e

  fit_widths :
      (e : Problem F) (dim : ℕ) (rows : List (List F))
      → dim ≡ e.system.dim
      → All (λ row. length row ≡ dim) rows
      → All (λ row. e.system.dim ≤ length row) rows
  fit_widths e dim rows same =
      All-mono (λ row. length row ≡ dim) (λ row. e.system.dim ≤ length row) rows
        (λ row w. omega arith)

module _ {F : Type 0} ⦃R : Double F⦄ where
  pub posed-IsComplete :
      (e : Problem F) (stride : ℕ) (result : List F)
      → IsRunnable e stride result
      → IsPosed e
      → IsComplete e.system
  posed-IsComplete e stride result v (rows, equalities, box, named) = record {
    q_rows = v.q_rows;
    q_columns = v.q_columns;
    c_size = v.c_size;
    a_columns = rows.0;
    aeq_columns = equalities.0;
    bu_size = rows.1;
    bl_size = rows.2;
    beq_size = equalities.1;
    l_size = box.0;
    u_size = box.1;
  }

  pub posed-IsReleasable :
      (e : Problem F) (stride : ℕ) (result : List F)
      → IsRunnable e stride result
      → IsPosed e
      → IsReleasable e result
  posed-IsReleasable e stride result v (rows, equalities, box, named) = record {
    named = omega (arith, named.0);
    bounded = named.1;
    columns = rows.0;
    x_size = v.result_size;
    bu_size = rows.1;
    bl_size = rows.2;
    l_size = box.0;
    u_size = box.1;
  }

  pub runnable-IsAligned :
      (e : Problem F) (stride : ℕ) (result : List F) → IsRunnable e stride result → IsAligned e
  runnable-IsAligned e stride result v = inl v.kind.rubs

  module _ (e : Problem F) (stride : ℕ) (result : List F) (v : IsRunnable e stride result)
      (known : All (λ id. id < e.system.dim) e.params.constraints_id) where
    -- A new A, with all that is not rebuilt left alone.
    abbrev pub WithRows : Problem F → Type 0
    WithRows e' =
        RowsFit e'
        × IsRevision e e'
        × (length e'.params.constraints_id ≡ length e.params.constraints_id + length e'.system.a)
        × All (λ id. id < e'.system.dim) e'.params.constraints_id
        × (e'.system.aeq ≡ e.system.aeq)
        × (e'.system.beq ≡ e.system.beq)
        × (e'.system.previous_result ≡ e.system.previous_result)

    pub inequalities-WithRows : Returns WithRows (build_inequality_constraint_matrices e result)
    inequalities-WithRows =
        Returns-mono (IsNamed true e) WithRows _
          (λ e' (w, ids).
            let dims : e'.system.dim ≡ e.system.dim = ap (λ q. q.system.dim) w.same in
            (
              (
                fit_widths e' e.system.dim e'.system.a (sym dims) w.widths,
                w.uppers,
                λ used. w.lowers ∙ ap (λ b. if b then length e'.system.a else 0) used,
              ),
              IsRevision-of e _ e' w.same refl,
              w.names,
              subst (λ d. All (λ id. id < d) e'.params.constraints_id) (sym dims) ids,
              ap (λ q. q.system.aeq) w.same,
              ap (λ q. q.system.beq) w.same,
              ap (λ q. q.system.previous_result) w.same,
            ))
          (build_inequality_constraint_matrices-IsNamed e stride result v.ready
            (runnable-IsAligned e stride result v) true known
            (runnable_consistent e stride result v))

    -- A new Aeq.
    abbrev pub WithEqualities : Problem F → Type 0
    WithEqualities e' =
        EqualitiesFit e'
        × IsRevision e e'
        × (length e'.params.constraints_id ≡ length e.params.constraints_id + length e'.system.aeq)
        × All (λ id. id < e'.system.dim) e'.params.constraints_id
        × (RowsFit e → RowsFit e')
        × (e'.system.a ≡ e.system.a)
        × (e'.system.previous_result ≡ e.system.previous_result)

    pub equalities-WithEqualities :
        Returns WithEqualities (build_equality_constraint_matrices e result)
    equalities-WithEqualities =
        Returns-mono (IsNumbered true e) WithEqualities _
          (λ e' (w, ids).
            let dims : e'.system.dim ≡ e.system.dim = ap (λ q. q.system.dim) w.same in
            (
              (fit_widths e' e.system.dim e'.system.aeq (sym dims) w.widths, w.sides),
              IsRevision-of e _ e' w.same refl,
              w.names,
              subst (λ d. All (λ id. id < d) e'.params.constraints_id) (sym dims) ids,
              λ fit. subst RowsFit (sym w.same) fit,
              ap (λ q. q.system.a) w.same,
              ap (λ q. q.system.previous_result) w.same,
            ))
          (build_equality_constraint_matrices-IsNumbered e stride result true v.ready
            (runnable-IsAligned e stride result v) known (runnable_consistent e stride result v))

    -- New bounds of the variables.
    abbrev pub WithBox : Problem F → Type 0
    WithBox e' =
        BoxFits e'
        × IsRevision e e'
        × (RowsFit e → RowsFit e')
        × (EqualitiesFit e → EqualitiesFit e')
        × (NamesFit e → NamesFit e')
        × (e'.system.previous_result ≡ e.system.previous_result)
        × (length e'.params.constraints_id ≡ length e.params.constraints_id)

    pub bounds-WithBox : Returns WithBox (get_constraint_on_lambda e result)
    bounds-WithBox =
        Returns-mono (IsBounded e stride result v.ready) WithBox _
          (λ e' (filled, same). (
            (
              filled.lows ∙ sym (ap (λ q. q.system.dim) same),
              filled.highs ∙ sym (ap (λ q. q.system.dim) same),
            ),
            IsRevision-of e _ e' same refl,
            λ fit. subst RowsFit (sym same) fit,
            λ fit. subst EqualitiesFit (sym same) fit,
            λ fit. subst NamesFit (sym same) fit,
            ap (λ q. q.system.previous_result) same,
            ap (λ q. length q.params.constraints_id) same,
          ))
          (get_constraint_on_lambda-IsBounded e stride result v.ready v.q_rows)
