-- ===== src/Impl/Contacts/Totality.antt =====
-- solveContacts as a whole, with friction.
use soft_robots_inverse.Prelude.{
  All, IsTable, Returns, Returns-bind, Returns-mono, false, if_elim, if◌then◌else◌, refl, some,
  tabulate-IsTable, true, ℕ, ◌%◌, ◌+◌, ◌/◌, ◌<◌, ◌==◌, ◌>>=◌, ◌≡◌, length, List, inr, ◌*◌, ◌∙◌, ap,
  arith,
}
use soft_robots_inverse.Problem.{Problem, nb_actuator_rows, nb_contact_rows, nb_equality_rows}
use soft_robots_inverse.Double.{Double, ◌≺◌, nought}
use soft_robots_inverse.Nlcp.Forces.{IsPushing}
use soft_robots_inverse.Nlcp.Iterations.{solve-IsSettled}
use soft_robots_inverse.Impl.Oases.{OasesInput, OasesOutput}
use soft_robots_inverse.Impl.Contacts.{
  contact_compliance, contact_forces_of, contact_violation, entry_of, matrix_of, with_lambda, init,
  solve_contacts,
}
use soft_robots_inverse.Impl.State.{Solver}
use soft_robots_inverse.Impl.Contacts.Forces.{
  IsWarm, place_contacts-Returns, contact_compliance-Returns, contact_violation-Returns,
  warm_start-IsStartOf,
}
use soft_robots_inverse.Impl.Contacts.Start.{init_lambda-IsStart}
use soft_robots_inverse.ConstraintHandler.Ready.{total_lines}
use soft_robots_inverse.ConstraintHandler.Rows.Entries.{IsSized}

module _ {F : Type 0} ⦃R : Double F⦄ where
  -- What solveContacts leaves: another lambda at most, with a force for each variable.
  pub record IsStarted (s : Solver F) (s' : Solver F) : Type 0 where
    pub problem : s'.problem ≡ with_lambda s'.problem.system.lambda s.problem
    pub options : (s'.mu ≡ s.mu) × (s'.max_nb_pivot ≡ s.max_nb_pivot)
    pub warm : IsWarm s'.problem

module _ {F : Type 0} ⦃R : Double F⦄ (abs_error : F → F → F → F → F → F → F) (to_double : ℕ → F)
    (oases : OasesInput F → OasesOutput F) (irreflexive : (nought {F = F} ≺ nought) ≡ false) where
  contact_forces_of-Returns :
      (s : Solver F)
      → IsWarm s.problem
      → (nought ≺ s.mu) ≡ true
      → nb_contact_rows s.problem % 3 ≡ 0
      → Returns
          (λ x. length x ≡ nb_contact_rows s.problem)
          (contact_forces_of abs_error to_double oases s)
  unfolding contact_forces_of
  contact_forces_of-Returns s warm rubs thirds =
      let e : Problem F = s.problem in
      let n : ℕ = nb_contact_rows e in
      Returns-bind (λ _. Unit {0}) (λ x. length x ≡ n) _ _
        (Returns-mono (IsTable n 0 (contact_violation e)) (λ _. Unit {0}) _ (λ _ _. tt)
          (tabulate-IsTable n 0 (contact_violation e)
            λ i lo hi. contact_violation-Returns e warm i (omega arith)))
        λ q _.
          Returns-bind (λ _. Unit {0}) (λ x. length x ≡ n) _ _
            (Returns-mono (IsTable n 0 (contact_compliance e)) (λ _. Unit {0}) _ (λ _ _. tt)
              (tabulate-IsTable n 0 (contact_compliance e)
                λ i lo hi. contact_compliance-Returns e warm i (omega arith)))
            λ m _. rw rubs (
              Returns-bind (λ x. (length x ≡ n) × IsPushing (n / 3) x) (λ x. length x ≡ n) _ _
                (warm_start-IsStartOf e warm irreflexive)
                λ x start.
                  Returns-bind _ (λ x. length x ≡ n) _ _
                    (solve-IsSettled abs_error n (entry_of q) (matrix_of m) s.mu s.allow_sliding
                      irreflexive to_double s.tolerance s.max_iteration true x thirds (λ _. start))
                    λ o v. (_, refl, v.size))

  module _ (s : Solver F) (sized : IsSized s.problem)
      (actuator_lines : total_lines s.problem.lists.actuators ≡ nb_actuator_rows s.problem)
      (positive : All (λ c. 0 < c.nb_lines) s.problem.lists.actuators)
      (no_equality : nb_equality_rows s.problem ≡ 0)
      (warm : (s.step == 0) ≡ false → IsWarm s.problem) where
    started :
        Returns
          (IsStarted s)
          (if s.step == 0 then (init s >>= λ t. some (record t { step = t.step + 1 })) else some s)
    unfolding init
    started =
        if_elim (Returns (IsStarted s)) (s.step == 0) _ _
          (λ _.
            let (lambda, made, v) = init_lambda-IsStart s.problem actuator_lines positive in
            rw made (
              _,
              refl,
              record {
                problem = refl;
                options = (refl, refl);
                warm = record {
                  enough = inr (omega (arith, v.0, sized));
                  push = λ c h _. (
                    nought,
                    v.1 (nb_actuator_rows s.problem + 3 * c) (omega arith) (omega (arith, sized)),
                    irreflexive,
                  );
                };
              },
            ))
          (λ later. (s, refl, record { problem = refl; options = (refl, refl); warm = warm later }))

    -- What solveContacts gives: a force for each variable, and the solver that it leaves.
    abbrev pub IsContactsSolved : Solver F × List F → Type 0
    IsContactsSolved (s', result) = (length result ≡ s.problem.system.dim) × IsStarted s s'

    pub solve_contacts-IsContactsSolved :
        (nought ≺ s.mu) ≡ true
        → nb_contact_rows s.problem % 3 ≡ 0
        → Returns IsContactsSolved (solve_contacts abs_error to_double oases s)
    unfolding solve_contacts
    solve_contacts-IsContactsSolved rubs thirds =
        Returns-bind (IsStarted s) IsContactsSolved _ _ started λ s' v.
          let rows : nb_contact_rows s'.problem ≡ nb_contact_rows s.problem =
            ap (λ e. nb_contact_rows e) v.problem in
          let actuators : nb_actuator_rows s'.problem ≡ nb_actuator_rows s.problem =
            ap (λ e. nb_actuator_rows e) v.problem in
          let dims : s'.problem.system.dim ≡ s.problem.system.dim =
            ap (λ e. e.system.dim) v.problem in
          Returns-bind (λ x. length x ≡ nb_contact_rows s'.problem) IsContactsSolved _ _
            (contact_forces_of-Returns s' v.warm (ap (λ m. nought ≺ m) v.options.0 ∙ rubs)
              (ap (λ m. m % 3) rows ∙ thirds))
            λ x len.
              Returns-bind (λ r. length r ≡ s'.problem.system.dim) IsContactsSolved _ _
                (place_contacts-Returns s'.problem v.warm x len (omega (arith, sized)))
                λ res size. (_, refl, (size ∙ dims, v))
