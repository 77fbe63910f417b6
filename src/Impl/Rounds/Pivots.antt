-- ===== src/Impl/Rounds/Pivots.antt =====
-- solveWithContact: the rounds of the pivot algorithm with friction.
use soft_robots_inverse.Prelude.{
  List, Returns, some, ℕ, ◌<◌, ◌∙◌, ◌≡◌, ◌≤◌, ap, length, sym, arith, subst, Returns-bind,
  Returns-mono, refl, ◌+◌, All-mono, true, ◌-◌, Bool, Option, false, if_elim, if◌then◌else◌, inl,
  inr, length-set, while-Returns, ◌==◌, ◌>>=◌, ◌||◌, ◌⊎◌,
}
use soft_robots_inverse.Problem.{Problem, nb_actuator_rows, nb_contact_rows}
use soft_robots_inverse.Double.{Double, ◌≺◌, nought}
use soft_robots_inverse.Impl.Oases.{OasesInput, OasesOutput}
use soft_robots_inverse.Impl.Rounds.{
  PivotCursor, without_names, goes_on, pivot_round, pivot_rounds, with_problem,
}
use soft_robots_inverse.Impl.Rounds.Frame.{
  IsFormer, IsRunnable, IsRevision-of, IsRunnable-revise, revise,
}
use soft_robots_inverse.Impl.Rounds.Resumption.{
  IsResumption, IsResumption-of, IsResumption-trans, IsLaidOut-with_lambda, IsRunnable-with_lambda,
  IsRunnable-with_states, with_states,
}
use soft_robots_inverse.Impl.State.{Solver}
use soft_robots_inverse.Impl.Pivot.Step.{IsPivotable, IsUpdate, check_and_update_pivot-IsBeaten}
use soft_robots_inverse.Contact.{ContactState}
use soft_robots_inverse.Impl.Contacts.{update_lambda, with_lambda}
use soft_robots_inverse.Impl.Contacts.Storage.{update_lambda_lem}
use soft_robots_inverse.Impl.Rounds.Answer.{IsAnswered, IsRound, solve_round-IsRound}
use soft_robots_inverse.Impl.Pivot.Choice.{IsBeaten}

module _ {F : Type 0} ⦃R : Double F⦄ (oases : OasesInput F → OasesOutput F) (stride : ℕ)
    (s0 : Solver F) where
  -- The loop over the pivots, started in `s0`. Where it stops, the stored lambda is the result, and the
  -- answer of the library on the problem that is left.
  pub record IsGoing (c : PivotCursor F) : Type 0 where
    pub runnable : IsRunnable c.solver.problem stride c.result
    pub former : IsFormer c.solver.problem
    pub since : IsResumption s0.problem c.solver.problem
    pub rubs : (nought ≺ c.solver.mu) ≡ true
    pub counted : c.iteration ≤ s0.max_nb_pivot + 1
    pub lambda_size : length c.solver.problem.system.lambda ≡ c.solver.problem.system.dim
    pub limit : c.solver.max_nb_pivot ≡ s0.max_nb_pivot
    pub stored :
        c.stop ≡ true
        → (c.solver.problem.system.lambda ≡ c.result) × IsAnswered oases c.solver.problem c.result

  abbrev pub measure : PivotCursor F → ℕ
  measure c = s0.max_nb_pivot + 1 - c.iteration

  module _ (c : PivotCursor F) (g : IsGoing c) (more : c.iteration ≤ s0.max_nb_pivot) where
    abbrev Next : PivotCursor F → Type 0
    Next t = IsGoing t × (measure t < measure c)

    abbrev e0 : Problem F
    e0 = without_names c.solver.problem

    e0-IsRunnable : IsRunnable e0 stride c.result
    e0-IsRunnable =
        IsRunnable-revise c.solver.problem e0 stride c.result c.result g.runnable
          (IsRevision-of c.solver.problem e0 e0 refl refl) g.former g.runnable.result_size

    module _ (e : Problem F) (objective : F) (x dual : List F)
        (r : IsRound oases stride e0 (e, objective, x, dual)) where
      abbrev at_round : Solver F
      at_round = record (c.solver) { problem = e; iteration = c.iteration }

      e-IsResumption : IsResumption s0.problem e
      e-IsResumption = IsResumption-trans s0.problem c.solver.problem e g.since (
          IsResumption-trans c.solver.problem e0 e
            (IsResumption-of c.solver.problem e0 e0 refl refl)
            (IsResumption-of e0 (revise e0 e) e r.2 refl))

      round-IsPivotable : IsPivotable at_round x dual
      round-IsPivotable = record {
        sized = r.0.ready.sized;
        result_size = r.0.result_size;
        kind = r.0.kind;
        rubs = g.rubs;
        allowed = r.0.allowed;
        states = r.0.states;
        named = r.3;
        bounded =
            All-mono (λ id. id < e.system.dim) (λ id. id < nb_actuator_rows e + nb_contact_rows e)
              e.params.constraints_id (λ id h. omega (arith, r.0.ready.sized, r.0.no_equality)) r.4;
      }

      -- What is left of the round behind checkAndUpdatePivot.
      abbrev conclude : Bool → Solver F → Option (PivotCursor F)
      conclude stop s =
          (if stop || (c.iteration + 1 == s.max_nb_pivot)
            then update_lambda x s.problem
            else some s.problem)
          >>= λ e'. some (record {
            solver = with_problem e' s;
            result = x;
            objective = objective;
            iteration = c.iteration + 1;
            stop = stop;
          })

      conclude-IsGoing :
          (stop : Bool) (s : Solver F)
          → IsUpdate IsBeaten at_round x dual round-IsPivotable (stop, s)
          → Returns Next (conclude stop s)
      conclude-IsGoing true s (unchanged, _) =
          subst (λ t. Returns Next (conclude true t)) (sym unchanged)
            (rw (update_lambda_lem x e r.0.result_size) (
              _,
              refl,
              (
                record {
                  runnable = IsRunnable-with_lambda e stride x r.0 x;
                  former = r.1;
                  since =
                      IsResumption-trans s0.problem e (with_lambda x e) e-IsResumption
                        (IsResumption-of e (with_lambda x e) (with_lambda x e) refl refl);
                  rubs = g.rubs;
                  counted = omega arith;
                  lambda_size = r.0.result_size;
                  limit = g.limit;
                  stored = λ _. (refl, (r.5.0, IsLaidOut-with_lambda e x r.5.0 r.5.1, r.5.2));
                },
                omega arith,
              ),
            ))
      conclude-IsGoing false s (found, at, (searched, (best, pivot))) =
          Returns-bind (λ e'. (e' ≡ with_lambda x s.problem) ⊎ (e' ≡ s.problem)) Next _ _
            (if_elim (Returns (λ e'. (e' ≡ with_lambda x s.problem) ⊎ (e' ≡ s.problem)))
              (c.iteration + 1 == s.max_nb_pivot) _ _
              (λ _. rw (update_lambda_lem x s.problem runnable.result_size) (_, refl, inl refl))
              (λ _. (_, refl, inr refl)))
            λ e' kept. (_, refl, (next e' kept, omega arith))
        where
          states : List ContactState
          states = s.problem.params.contact_states

          size : length states ≡ length e.params.contact_states
          size =
              let (k, state', moved, same) = pivot.moved in
              ap (λ (xs : List ContactState). length xs) same
              ∙ length-set e.params.contact_states k state'

          runnable : IsRunnable s.problem stride x
          runnable =
              subst (λ q. IsRunnable q stride x) (sym pivot.kept)
                (IsRunnable-with_states e stride x r.0 states pivot.states size)

          former : IsFormer s.problem
          former = subst IsFormer (sym pivot.kept) r.1

          since : IsResumption s0.problem s.problem
          since =
              IsResumption-trans s0.problem e s.problem e-IsResumption
                (IsResumption-of e (with_states states e) s.problem pivot.kept refl)

          sized :
              (e' : Problem F)
              → (e' ≡ with_lambda x s.problem) ⊎ (e' ≡ s.problem)
              → length e'.system.lambda ≡ e'.system.dim
          sized e' (inl same) =
              subst (λ q. length q.system.lambda ≡ q.system.dim) (sym same) runnable.result_size
          sized e' (inr same) =
              subst (λ q. length q.system.lambda ≡ q.system.dim) (sym same)
                (subst (λ q. length q.system.lambda ≡ q.system.dim) (sym pivot.kept)
                  (subst (λ q. length q.system.lambda ≡ q.system.dim) (sym r.2) g.lambda_size))

          next :
              (e' : Problem F)
              → (e' ≡ with_lambda x s.problem) ⊎ (e' ≡ s.problem)
              → IsGoing (record {
                solver = with_problem e' s;
                result = x;
                objective = objective;
                iteration = c.iteration + 1;
                stop = false;
              })
          next e' (inl same) = record {
            runnable =
                subst (λ q. IsRunnable q stride x) (sym same)
                  (IsRunnable-with_lambda s.problem stride x runnable x);
            former = subst IsFormer (sym same) former;
            since =
                IsResumption-trans s0.problem s.problem e' since
                  (IsResumption-of s.problem (with_lambda x s.problem) e' same refl);
            rubs = ap (λ m. nought ≺ m) pivot.options.0 ∙ g.rubs;
            counted = omega arith;
            lambda_size = sized e' (inl same);
            limit = pivot.options.1 ∙ g.limit;
            stored = λ stopped. cc;
          }
          next e' (inr same) = record {
            runnable = subst (λ q. IsRunnable q stride x) (sym same) runnable;
            former = subst IsFormer (sym same) former;
            since = subst (IsResumption s0.problem) (sym same) since;
            rubs = ap (λ m. nought ≺ m) pivot.options.0 ∙ g.rubs;
            counted = omega arith;
            lambda_size = sized e' (inr same);
            limit = pivot.options.1 ∙ g.limit;
            stored = λ stopped. cc;
          }

    pivot_round-IsGoing : Returns Next (pivot_round oases c)
    unfolding pivot_round
    pivot_round-IsGoing =
        Returns-bind (IsRound oases stride e0) Next _ _
          (solve_round-IsRound oases stride e0 c.result e0-IsRunnable g.former tt)
          λ (e, objective, x, dual) r.
            Returns-bind
              (IsUpdate IsBeaten (at_round e objective x dual r) x dual
                (round-IsPivotable e objective x dual r))
              Next _ _
              (check_and_update_pivot-IsBeaten (at_round e objective x dual r) x dual
                (round-IsPivotable e objective x dual r))
              λ (stop, s) update. conclude-IsGoing e objective x dual r stop s update

  -- From a problem with friction and no equality that a round can run on, with a former result and
  -- a lambda of its size, the loop over the pivots ends with no fault: because it was told to stop,
  -- or after one round more than m_maxNbPivot. Only what a round computes anew, the states of the
  -- contacts and lambda have changed, and the states are states with friction. If it was told to
  -- stop, lambda is the result, which is the answer of the QP library to the problem that is left.
  pub pivot_rounds-IsGoing :
      (result : List F)
      → IsRunnable s0.problem stride result
      → IsFormer s0.problem
      → (nought ≺ s0.mu) ≡ true
      → length s0.problem.system.lambda ≡ s0.problem.system.dim
      → Returns
          (λ c. IsGoing c × ((c.stop ≡ true) ⊎ (s0.max_nb_pivot < c.iteration)))
          (pivot_rounds oases s0 result)
  unfolding pivot_rounds goes_on
  pivot_rounds-IsGoing result runnable former rubs filled =
      Returns-mono (λ c. IsGoing c × (goes_on c ≡ false)) _ _
        (λ c (g, ended). (g, ground (arith, ended, g.limit)))
        (while-Returns IsGoing measure goes_on (pivot_round oases)
          (λ c g more. pivot_round-IsGoing c g (ground (arith, more, g.limit)))
          (s0.max_nb_pivot + 2) _ (omega arith)
          (record {
            runnable = runnable;
            former = former;
            since = refl;
            rubs = rubs;
            counted = omega arith;
            lambda_size = filled;
            limit = refl;
            stored = λ stopped. cc;
          }))
