-- ===== src/Impl/Solve/Totality.antt =====
-- solve with contacts and friction, as a whole.
use soft_robots_inverse.Prelude.{
  List, Returns, Returns-bind, false, inl, inr, refl, some, true, ℕ, ◌+◌, ◌<◌, ◌==◌, ◌>>=◌, ◌∙◌,
  ◌≡◌, ◌≤◌, ◌⊎◌, length, arith, subst, sym, ap, All, ◌%◌, length-replicate, if_elim, if◌then◌else◌,
  ltb, tests, lt→ltb,
}
use soft_robots_inverse.Problem.{Problem, nb_actuator_rows, nb_contact_rows, nb_equality_rows}
use soft_robots_inverse.Double.{Double, ◌≺◌, nought, ◌≼◌}
use soft_robots_inverse.Impl.Oases.{OasesInput, OasesOutput}
use soft_robots_inverse.Impl.State.{Solver}
use soft_robots_inverse.Impl.Rounds.{PivotCursor, pivot_rounds, with_problem}
use soft_robots_inverse.Impl.Solve.{
  solve, forget_pivots, set_up, set_up_contacts, solve_with_contact,
}
use soft_robots_inverse.Impl.Contacts.Forces.{IsWarm}
use soft_robots_inverse.Impl.Solve.Basis.{Basis}
use soft_robots_inverse.Impl.Solve.Contacts.{
  IsLaunched, IsUnder, costed_problem, initialised_states, placed-IsUnder,
}
use soft_robots_inverse.Impl.Rounds.Pivots.{IsGoing, pivot_rounds-IsGoing}
use soft_robots_inverse.Impl.Rounds.Answer.{IsAnswered}
use soft_robots_inverse.ConstraintHandler.States.{
  init_contact_handler_list, init_contact_handlers, init_contact_handlers_from,
}
use soft_robots_inverse.ConstraintHandler.Ready.{total_lines}
use soft_robots_inverse.Contact.{inactive}
use soft_robots_inverse.Impl.Contacts.Totality.{
  IsContactsSolved, solve_contacts-IsContactsSolved, IsStarted,
}
use soft_robots_inverse.Impl.Contacts.Storage.{update_lambda_lem}
use soft_robots_inverse.Impl.Matrices.{build_qp_matrices}
use soft_robots_inverse.Impl.Contacts.{with_lambda}

module _ {F : Type 0} ⦃R : Double F⦄ where
  -- What a solver is called with: friction; contacts of three lines; lists of the sizes that the collection
  -- gives them, of components with a line at least, and no equality; and, after the first step, forces to
  -- start from.
  pub record IsGiven (s : Solver F) : Type 0 where
    pub rubs : (nought ≺ s.mu) ≡ true
    pub above : (s.mu ≼ nought) ≡ false
    pub contacts : 0 < nb_contact_rows s.problem
    pub thirds : nb_contact_rows s.problem % 3 ≡ 0
    pub actuator_lines : total_lines s.problem.lists.actuators ≡ nb_actuator_rows s.problem
    pub equality_lines : total_lines s.problem.lists.equality ≡ nb_equality_rows s.problem
    pub no_equality : nb_equality_rows s.problem ≡ 0
    pub actuators_positive : All (λ c. 0 < c.nb_lines) s.problem.lists.actuators
    pub equality_positive : All (λ c. 0 < c.nb_lines) s.problem.lists.equality
    pub warm : (s.step == 0) ≡ false → IsWarm s.problem

  module _ (oases : OasesInput F → OasesOutput F) where
    -- What the resolution leaves: the lists as they were; a force for each variable; with an actuator, at
    -- most one more round than pivots are allowed, and, if there were fewer, the answer of the library to the
    -- problem that is left.
    pub record IsResolved (s : Solver F) (r : Solver F × F × ℕ) : Type 0 where
      pub lists : r.0.problem.lists ≡ s.problem.lists
      pub size : length r.0.problem.system.lambda ≡ r.0.problem.system.dim
      pub dim : r.0.problem.system.dim ≡ nb_contact_rows s.problem + nb_actuator_rows s.problem
      pub counted : r.2 ≤ s.max_nb_pivot + 1
      pub answered :
          0 < nb_actuator_rows s.problem
          → IsAnswered oases r.0.problem r.0.problem.system.lambda ⊎ (r.2 ≡ s.max_nb_pivot + 1)

module _ {F : Type 0} ⦃R : Double F⦄ (abs_error : F → F → F → F → F → F → F) (to_double : ℕ → F)
    (oases : OasesInput F → OasesOutput F) (irreflexive : (nought {F = F} ≺ nought) ≡ false) where
  -- A problem whose contact handlers are set up.
  module _ (s : Solver F) (b : Basis s.problem) (rubs : (nought ≺ s.mu) ≡ true) where
    rounds-IsResolved :
        (s1 : Solver F) (e4 : Problem F) (result : List F)
        → IsLaunched s.problem result e4
        → (s1.mu ≡ s.mu) × (s1.max_nb_pivot ≡ s.max_nb_pivot)
        → Returns (IsResolved oases s) (
            pivot_rounds oases (with_problem e4 s1) result >>= λ c.
            some (forget_pivots c.solver, c.objective, c.iteration))
    unfolding forget_pivots
    rounds-IsResolved s1 e4 result ready options =
        let s4 : Solver F = with_problem e4 s1 in
        Returns-bind
          (λ c. IsGoing oases 1 s4 c × ((c.stop ≡ true) ⊎ (s4.max_nb_pivot < c.iteration)))
          (IsResolved oases s) _ _
          (pivot_rounds-IsGoing oases 1 s4 result ready.0 ready.1
            (ap (λ m. nought ≺ m) options.0 ∙ rubs) ready.2)
          λ c (g, ended). (
            _,
            refl,
            record {
              lists = ap (λ e. e.lists) g.since ∙ ready.3;
              size = g.lambda_size;
              dim = ap (λ e. e.system.dim) g.since ∙ ready.4 ∙ sized;
              counted = omega (arith, g.counted, options.1);
              answered = λ _. answer c g ended;
            },
          )
      where
        sized : s.problem.system.dim ≡ nb_contact_rows s.problem + nb_actuator_rows s.problem
        sized = omega (arith, b.6, b.9)

        answer :
            (c : PivotCursor F)
            → IsGoing oases 1 (with_problem e4 s1) c
            → (c.stop ≡ true) ⊎ (s1.max_nb_pivot < c.iteration)
            → IsAnswered oases (forget_pivots c.solver).problem c.solver.problem.system.lambda
              ⊎ (c.iteration ≡ s.max_nb_pivot + 1)
        answer c g (inl stopped) =
            let (same, answered) = g.stored stopped in
            inl (subst (IsAnswered oases (forget_pivots c.solver).problem) (sym same) answered)
        answer c g (inr over) = inr (omega (arith, g.counted, options.1))

  module _ (s : Solver F) (w : ℕ → ℕ → F) (d_free : ℕ → F) (v : IsGiven s) where
    -- The problem as solve sets it up, with inactive contacts.
    abbrev start : Problem F
    start =
        init_contact_handlers (init_contact_handler_list (set_up_contacts s.mu (set_up s w d_free)))

    start-Basis : Basis start
    unfolding init_contact_handlers init_contact_handler_list set_up_contacts set_up
    start-Basis = rw v.rubs (
      v.rubs,
      v.above,
      refl,
      refl,
      refl,
      omega (arith, v.thirds),
      omega arith,
      v.actuator_lines,
      v.equality_lines,
      v.no_equality,
      v.actuators_positive,
      v.equality_positive,
      rw v.rubs refl,
    )

    start-IsWarm : (s.step == 0) ≡ false → IsWarm start
    unfolding init_contact_handlers init_contact_handler_list set_up_contacts set_up
    start-IsWarm later =
        let g : IsWarm s.problem = v.warm later in
        rw v.rubs (record { enough = g.enough; push = g.push })

    start-thirds : nb_contact_rows start % 3 ≡ 0
    unfolding init_contact_handlers init_contact_handler_list set_up_contacts set_up
    start-thirds = rw v.rubs v.thirds

    start-points : length start.params.contact_states ≡ start.params.nb_contact_points
    unfolding init_contact_handlers
    start-points =
        let e : Problem F = init_contact_handler_list (set_up_contacts s.mu (set_up s w d_free)) in
        length-replicate e.params.nb_contact_points inactive

    start-lists : start.lists ≡ s.problem.lists
    unfolding init_contact_handlers init_contact_handler_list set_up_contacts set_up
    start-lists = rw v.rubs refl

    with_contact-IsResolved : Returns (IsResolved oases (with_problem start s)) (
        solve_with_contact abs_error to_double oases
          (with_problem (set_up_contacts s.mu (set_up s w d_free)) s))
    unfolding solve_with_contact
    with_contact-IsResolved =
        let s0 : Solver F = with_problem start s in
        Returns-bind
          (IsContactsSolved abs_error to_double oases irreflexive s0 start-Basis.6 start-Basis.7
            start-Basis.10 start-Basis.9 start-IsWarm)
          (IsResolved oases s0) _ _
          (solve_contacts-IsContactsSolved abs_error to_double oases irreflexive s0 start-Basis.6
            start-Basis.7 start-Basis.10 start-Basis.9 start-IsWarm v.rubs start-thirds)
          λ (s1, result) (size, begun).
            let dims : s1.problem.system.dim ≡ start.system.dim =
              ap (λ e. e.system.dim) begun.problem in
            rw (update_lambda_lem result s1.problem (size ∙ sym dims)) (
              from_forces s1 result
                (placed-IsUnder s0 s1 result start-Basis start-points size begun) begun)
      where
        placed : Solver F → List F → Problem F
        placed s1 result = record (with_lambda result s1.problem) {
          system = record ((with_lambda result s1.problem).system) { previous_result = result };
        }

        from_forces :
            (s1 : Solver F) (result : List F)
            → IsUnder start (placed s1 result) result
            → IsStarted (with_problem start s) s1
            → Returns (IsResolved oases (with_problem start s)) (
                if ltb 0 (nb_actuator_rows (placed s1 result))
                then (init_contact_handlers_from (placed s1 result) result >>= λ e3.
                    build_qp_matrices e3 s1.epsilon s1.actuators_only >>= λ e4.
                    pivot_rounds oases (with_problem e4 s1) result >>= λ c.
                    some (forget_pivots c.solver, c.objective, c.iteration))
                else some (with_problem (placed s1 result) s1, nought, 0))
        from_forces s1 result u begun =
            let s0 : Solver F = with_problem start s in
            let e2 : Problem F = placed s1 result in
            if_elim (Returns (IsResolved oases s0)) (ltb 0 (nb_actuator_rows e2)) _ _
              (λ _.
                Returns-bind _ (IsResolved oases s0) _ _ (initialised_states start e2 result u)
                  λ e3 (u3, states).
                    Returns-bind (IsLaunched start result) (IsResolved oases s0) _ _
                      (costed_problem start e3 result s1.epsilon s1.actuators_only u3 states)
                      λ e4 ready.
                        rounds-IsResolved s0 start-Basis v.rubs s1 e4 result ready begun.options)
              (λ none_there. (
                _,
                refl,
                record {
                  lists = u.5;
                  size = u.2;
                  dim =
                      u.6
                      ∙ (let sum : start.system.dim
                              ≡ nb_contact_rows start + nb_actuator_rows start =
                            omega (arith, start-Basis.6, start-Basis.9) in
                          sum);
                  counted = omega arith;
                  answered = λ some_there.
                      let rows : nb_actuator_rows e2 ≡ nb_actuator_rows start =
                        ap (λ l. length l.actuator_row_ids) u.5 in
                      absurd (omega (tests, none_there));
                },
              ))

    started_over :
        (r : Solver F × F × ℕ) → IsResolved oases (with_problem start s) r → IsResolved oases s r
    started_over r g =
        let contacts : nb_contact_rows start ≡ nb_contact_rows s.problem =
          ap (λ l. length l.contact_row_ids) start-lists in
        let actuators : nb_actuator_rows start ≡ nb_actuator_rows s.problem =
          ap (λ l. length l.actuator_row_ids) start-lists in
        record {
          lists = g.lists ∙ start-lists;
          size = g.size;
          dim = omega (arith, g.dim);
          counted = g.counted;
          answered = λ some_actuator. g.answered (omega arith);
        }

  -- With friction, contacts of three lines, lists of the sizes that the collection gives them,
  -- whose components have a line at least, no equality, and, after the first step, forces to start
  -- from by which no contact pulls, solve ends with no fault. The lists stay, and lambda holds a
  -- force for each row of contacts and actuators. With an actuator, either lambda is what the QP
  -- library answers to the problem that is left in the system, laid out row by row, or the loop
  -- over the pivots made one round more than m_maxNbPivot. Zero is assumed not to be below itself.
  pub solve-IsResolved :
      (s : Solver F) (w : ℕ → ℕ → F) (d_free : ℕ → F)
      → IsGiven s
      → Returns (IsResolved oases s) (solve abs_error to_double oases s w d_free)
  unfolding solve set_up
  solve-IsResolved s w d_free v = rw (lt→ltb 0 (nb_contact_rows s.problem) v.contacts) (
      Returns-bind (IsResolved oases (with_problem (start s w d_free v) s)) (IsResolved oases s) _ _
        (with_contact-IsResolved s w d_free v)
        λ (s', objective, iterations) g. (
          _,
          refl,
          (let g' : IsResolved oases s (s', objective, iterations) =
                started_over s w d_free v (s', objective, iterations) g in
              record {
                lists = g'.lists;
                size = g'.size;
                dim = g'.dim;
                counted = g'.counted;
                answered = g'.answered;
              }),
        ))
