-- ===== src/Impl/Rounds/Attempts.antt =====
-- solveInverseProblem: the attempts to solve the quadratic problem.
use soft_robots_inverse.Prelude.{
  Bool, List, Returns, Returns-bind, Returns-mono, false, if_elim, refl, some, ℕ, ◌>>=◌, ◌||◌, ◌∙◌,
  ◌≡◌, ◌≤◌, IsTable, Returns-bind_assoc, inr, true, ◌+◌, tabulate-IsTable, ap, length, ltb, not,
  arith, subst, sym, tabulate,
}
use soft_robots_inverse.Problem.{Problem}
use soft_robots_inverse.Double.{Double}
use soft_robots_inverse.Impl.Oases.{
  OasesInput, OasesOutput, solve_indefinite, solve_released, update_oases_matrices,
  solve_inverse_problem, attempt,
}
use soft_robots_inverse.Impl.Oases.Layout.{IsLaidOut, update_oases_matrices-IsLaidOut}
use soft_robots_inverse.Impl.Rounds.Parts.{IsPosed, posed-IsComplete, posed-IsReleasable}
use soft_robots_inverse.Impl.Rounds.Frame.{
  IsRevision-of, IsFormer, IsRevision-trans, IsRunnable-revise,
}
use soft_robots_inverse.Impl.Rounds.Build.{IsReadyFor, rebuilt-IsReadyFor, IsSound, carry-IsSound}
use soft_robots_inverse.ConstraintHandler.Release.{check_and_update_actuator_constraints}
use soft_robots_inverse.ConstraintHandler.Release.Opening.{
  IsEased, check_and_update_actuator_constraints-IsEased,
}
use soft_robots_inverse.ConstraintHandler.Release.Effect.{IsReleasable}
use soft_robots_inverse.ConstraintHandler.Inequality.{build_inequality_constraint_matrices}
use soft_robots_inverse.ConstraintHandler.Bounds.{get_constraint_on_lambda}

module _ {F : Type 0} ⦃R : Double F⦄ (stride : ℕ) (result : List F) (e0 : Problem F)
    (oases : OasesInput F → OasesOutput F) where
  -- `out` is what the library reports for the arrays that hold the problem `e`.
  pub record IsAnswer (e : Problem F) (out : OasesOutput F) : Type 0 where
    pub indefinite : Bool
    pub input : OasesInput F
    pub laid_out : IsLaidOut e.system input
    pub given : update_oases_matrices indefinite e.system ≡ some input
    pub reported : out ≡ oases input

  abbrev pub IsTried : ℕ → Problem F × OasesOutput F → Type 0
  IsTried n (e, out) = IsReadyFor stride result e0 n e × IsAnswer e out

  -- The library is asked.
  ask :
      (n : ℕ) (indefinite : Bool) (e : Problem F)
      → IsReadyFor stride result e0 n e
      → Returns
          (IsTried n)
          (update_oases_matrices indefinite e.system >>= λ input. some (e, oases input))
  ask n indefinite e v =
      let (input, given, laid_out) =
        update_oases_matrices-IsLaidOut indefinite e.system
          (posed-IsComplete e stride result v.0.0 v.1) in
      rw given (
        _,
        refl,
        (
          v,
          record {
            indefinite = indefinite;
            input = input;
            laid_out = laid_out;
            given = given;
            reported = refl;
          },
        ),
      )

  -- The release of constraints changes only contents of l, u, bl and bu.
  released-IsReadyFor :
      (n : ℕ) (e : Problem F)
      → IsReadyFor stride result e0 n e
      → Returns (IsReadyFor stride result e0 n) (check_and_update_actuator_constraints e result)
  released-IsReadyFor n e (sound, posed, count) =
      let fit : IsReleasable e result = posed-IsReleasable e stride result sound.0 posed in
      Returns-mono (IsEased e result fit) _ _
        (λ e' (marks, found, (few, o)). (
          carry-IsSound stride result e0 e e' sound (IsRevision-of e _ e' o.same refl)
              (ap (λ q. q.system.previous_result) o.same),
          subst IsPosed (sym o.same) (
            (posed.0.0, o.bu_size ∙ posed.0.1, λ used. o.bl_size ∙ posed.0.2 used),
            posed.1,
            (o.l_size ∙ posed.2.0, o.u_size ∙ posed.2.1),
            posed.3,
          ),
          subst (λ q. n ≤ length q.params.constraints_id) (sym o.same) count,
        ))
        (check_and_update_actuator_constraints-IsEased e result fit)

  solve_released-IsTried :
      (n : ℕ) (e : Problem F) (out : OasesOutput F)
      → IsTried n (e, out)
      → Returns (IsTried n) (solve_released oases e result out)
  unfolding solve_released
  solve_released-IsTried n e out v =
      if_elim (Returns (IsTried n)) (ltb 0 (length e.lists.contacts)) _ _
        (λ _.
          Returns-bind (IsReadyFor stride result e0 n) (IsTried n) _ _ (released-IsReadyFor n e v.0)
            (λ e' w. ask n false e' w))
        (λ _. (_, refl, v))

  solve_indefinite-IsTried :
      (n : ℕ) (e : Problem F) (out : OasesOutput F)
      → IsTried n (e, out)
      → Returns (IsTried n) (solve_indefinite oases e result out)
  unfolding solve_indefinite
  solve_indefinite-IsTried n e out (v, answer) =
      if_elim (Returns (IsTried n)) (out.infeasible || not out.solved) _ _
        (λ _. Returns-bind_assoc (IsTried n) (build_inequality_constraint_matrices e result) _ _ (
          Returns-bind (IsReadyFor stride result e0 (length e.params.constraints_id)) (IsTried n)
            (build_inequality_constraint_matrices e result >>= λ e1.
              get_constraint_on_lambda e1 result)
            _ (rebuilt-IsReadyFor stride result e0 e (v.0, v.1, omega arith))
            λ e2 w. ask n true e2 (w.0, w.1, omega (arith, w.2, v.2))))
        (λ _. (_, refl, (v, answer)))

  pub attempt-IsTried :
      (n : ℕ) (e : Problem F)
      → IsReadyFor stride result e0 n e
      → Returns (IsTried n) (attempt oases e result)
  unfolding attempt
  attempt-IsTried n e v =
      let (input, given, laid_out) =
        update_oases_matrices-IsLaidOut false e.system
          (posed-IsComplete e stride result v.0.0 v.1) in
      let first : IsAnswer e (oases input) = record {
        indefinite = false;
        input = input;
        laid_out = laid_out;
        given = given;
        reported = refl;
      } in
      rw given (
        if_elim (Returns (IsTried n)) (oases input).infeasible _ _
          (λ _.
            Returns-bind (IsTried n) (IsTried n) _ _
              (solve_released-IsTried n e (oases input) (v, first))
              λ (e1, out1) w. solve_indefinite-IsTried n e1 out1 w)
          (λ _. (_, refl, (v, first))))

  -- What solveInverseProblem returns: the answer of the library on the problem that it leaves, in
  -- vectors of `dim` and of `n` entries, with the former result noted.
  abbrev pub IsSolved : ℕ → Problem F × F × List F × List F → Type 0
  IsSolved n (e, objective, lambda, dual) =
      IsReadyFor stride result e0 n e
      × ((out : OasesOutput F) × IsAnswer e out
          × (objective ≡ out.objective)
          × IsTable e0.system.dim 0 (λ i. some (out.primal i)) lambda
          × IsTable n e0.system.dim (λ i. some (out.dual i)) dual)

  -- On a revision of the problem of a round whose matrices, bounds and numbers have the sizes that
  -- the builders leave, solveInverseProblem ends with no fault, whether the first attempt succeeds,
  -- constraints are released for a second one, or all bounds are restored for a third. Its result,
  -- dual variables and objective are what the library reports last, for the arrays that hold the
  -- problem that is left, row by row; that problem can be run on again.
  pub solve_inverse_problem-IsSolved :
      (e : Problem F)
      → IsReadyFor stride result e0 (length e.system.a + length e.system.aeq) e
      → Returns
          (IsSolved (length e.system.a + length e.system.aeq))
          (solve_inverse_problem oases e result)
  unfolding solve_inverse_problem
  solve_inverse_problem-IsSolved e v =
      let n : ℕ = length e.system.a + length e.system.aeq in
      Returns-bind (IsTried n) (IsSolved n) _ _ (attempt-IsTried n noted (noted-IsSound, v.1, v.2))
        λ (e', out) w.
          Returns-bind (IsTable e0.system.dim 0 (λ i. some (out.primal i))) (IsSolved n) _ _
            (subst
              (λ d.
                Returns (IsTable d 0 (λ i. some (out.primal i)))
                  (tabulate e.system.dim 0 (λ i. some (out.primal i))))
              dims
              (tabulate-IsTable e.system.dim 0 (λ i. some (out.primal i)) (λ k _ _. (_, refl, tt))))
            λ lambda p.
              Returns-bind (IsTable n e0.system.dim (λ i. some (out.dual i))) (IsSolved n) _ _
                (subst
                  (λ d.
                    Returns (IsTable n d (λ i. some (out.dual i)))
                      (tabulate n e.system.dim (λ i. some (out.dual i))))
                  dims
                  (tabulate-IsTable n e.system.dim (λ i. some (out.dual i))
                    (λ k _ _. (_, refl, tt))))
                λ dual d. (_, refl, (w.0, (out, w.1, refl, p, d)))
    where
      dims : e.system.dim ≡ e0.system.dim
      dims = ap (λ q. q.system.dim) v.0.2

      noted : Problem F
      noted = record e { system = record (e.system) { previous_result = result } }

      noted-IsSound : IsSound stride result e0 noted
      noted-IsSound =
          let former : IsFormer noted = inr v.0.0.result_size in
          (
            IsRunnable-revise e noted stride result result v.0.0 refl former v.0.0.result_size,
            former,
            IsRevision-trans e0 e noted v.0.2 refl,
          )
