-- ===== src/Impl/Rounds/Answer.antt =====
-- One round of solveWithContact: the matrices, and the answer of the library.
use soft_robots_inverse.Prelude.{
  All, IsTable, List, Returns, Returns-bind, Returns-mono, refl, some, ℕ, ◌+◌, ◌<◌, ◌∙◌, ◌≡◌, ◌≤◌,
  ap, length, sym, arith, subst,
}
use soft_robots_inverse.Problem.{Problem}
use soft_robots_inverse.Double.{Double}
use soft_robots_inverse.Impl.Oases.{OasesInput, OasesOutput}
use soft_robots_inverse.Impl.Rounds.{solve_round}
use soft_robots_inverse.Impl.Oases.Layout.{IsLaidOut}
use soft_robots_inverse.Impl.Rounds.Attempts.{IsSolved, solve_inverse_problem-IsSolved}
use soft_robots_inverse.Impl.Rounds.Frame.{IsFormer, IsRevision, IsRunnable}
use soft_robots_inverse.Impl.Rounds.Build.{
  IsSound, bounds_round, equalities_round, inequalities_round,
}
use soft_robots_inverse.Impl.Rounds.Resumption.{IsRunnable-renew}

module _ {F : Type 0} ⦃R : Double F⦄ (oases : OasesInput F → OasesOutput F) where
  -- `x` is the answer of the library for the arrays that hold the problem `e`.
  abbrev pub IsAnswered : Problem F → List F → Type 0
  IsAnswered e x =
      (input : OasesInput F) × IsLaidOut e.system input
      × IsTable e.system.dim 0 (λ i. some ((oases input).primal i)) x

module _ {F : Type 0} ⦃R : Double F⦄ (oases : OasesInput F → OasesOutput F) (stride : ℕ)
    (e0 : Problem F) where
  -- One round, on a problem whose constraintsId is empty: what it leaves, the result and the dual.
  abbrev pub IsRound : Problem F × F × List F × List F → Type 0
  IsRound (e, objective, x, dual) =
      IsRunnable e stride x
      × IsFormer e
      × IsRevision e0 e
      × (length dual ≤ length e.params.constraints_id)
      × All (λ id. id < e.system.dim) e.params.constraints_id
      × IsAnswered oases e x

  pub solve_round-IsRound :
      (result : List F)
      → IsRunnable e0 stride result
      → IsFormer e0
      → All (λ id. id < e0.system.dim) e0.params.constraints_id
      → Returns IsRound (solve_round oases e0 result)
  unfolding solve_round
  solve_round-IsRound result v former known =
      Returns-bind _ IsRound _ _ (inequalities_round stride result e0 e0 (sound, known)) λ e1 w.
        Returns-bind _ IsRound _ _
          (equalities_round stride result e0 e1 w.0 w.1 (omega (arith, w.2)))
          λ e2 x.
            Returns-bind _ IsRound _ _ (bounds_round stride result e0 e2 x.0.0 x.1 x.2 x.3) λ e3 y.
              let n : ℕ = length e3.system.a + length e3.system.aeq in
              Returns-mono (IsSolved stride result e0 oases n) IsRound _
                (λ (e, objective, lambda, dual) s. finish n e objective lambda dual s)
                (solve_inverse_problem-IsSolved stride result e0 oases e3 (y.0, y.1, y.1.3.0))
    where
      sound : IsSound stride result e0 e0
      sound = (v, former, refl)

      finish :
          (n : ℕ) (e : Problem F) (objective : F) (x dual : List F)
          → IsSolved stride result e0 oases n (e, objective, x, dual)
          → IsRound (e, objective, x, dual)
      finish n e objective x dual ((sound, posed, count), (out, answer, _, p, d)) =
          let dims : e.system.dim ≡ e0.system.dim = ap (λ q. q.system.dim) sound.2 in
          (
            IsRunnable-renew e stride result x sound.0 sound.1 (p.0 ∙ sym dims),
            sound.1,
            sound.2,
            omega (arith, d.0),
            posed.3.1,
            (
              answer.input,
              answer.laid_out,
              subst (λ d. IsTable d 0 (λ i. some ((oases answer.input).primal i)) x) (sym dims)
                  (subst (λ o. IsTable e0.system.dim 0 (λ i. some (o.primal i)) x) answer.reported
                    p),
            ),
          )
