-- ===== src/Impl/Solve/Contacts.antt =====
-- solveWithContact: from the states of the contacts to the rounds.
use soft_robots_inverse.Prelude.{
  All, Bool, List, Returns, Returns-mono, ◌+◌, ◌≡◌, ◌≤◌, length, arith, subst, sym, inr, refl, ◌∙◌,
  ap,
}
use soft_robots_inverse.Problem.{Problem, nb_actuator_rows, nb_contact_rows}
use soft_robots_inverse.Double.{Double}
use soft_robots_inverse.Contact.Pivot.{IsFrictionState}
use soft_robots_inverse.Impl.Matrices.{build_qp_matrices}
use soft_robots_inverse.Impl.Matrices.Totality.{IsCosted, build_qp_matrices-IsCosted}
use soft_robots_inverse.Impl.Solve.Basis.{
  Basis, basis_kind, initialised-IsFrictionState, Basis-IsRunnable,
}
use soft_robots_inverse.Impl.Rounds.Frame.{IsFormer, IsRunnable}
use soft_robots_inverse.ConstraintHandler.States.{init_contact_handlers_from}
use soft_robots_inverse.ConstraintHandler.Ready.{IsFrictional}
use soft_robots_inverse.ConstraintHandler.States.Forces.{
  IsInitialised, init_contact_handlers_from-IsInitialised,
}
use soft_robots_inverse.Impl.Contacts.{with_lambda}
use soft_robots_inverse.Impl.State.{Solver}
use soft_robots_inverse.Impl.Contacts.Totality.{IsStarted}

module _ {F : Type 0} ⦃R : Double F⦄ where
  -- Beside the basis: the states are one for each contact, and lambda and the former result are a force
  -- for each variable.
  abbrev pub IsUnder : Problem F → Problem F → List F → Type 0
  IsUnder e0 e result =
      Basis e
      × (length e.params.contact_states ≡ e.params.nb_contact_points)
      × (length result ≡ e.system.dim)
      × (e.system.lambda ≡ result)
      × (e.system.previous_result ≡ result)
      × (e.lists ≡ e0.lists)
      × (e.system.dim ≡ e0.system.dim)

  -- The rounds can start.
  abbrev pub IsLaunched : Problem F → List F → Problem F → Type 0
  IsLaunched e0 result e =
      IsRunnable e 1 result
      × IsFormer e
      × (length e.system.lambda ≡ e.system.dim)
      × (e.lists ≡ e0.lists)
      × (e.system.dim ≡ e0.system.dim)

  costed-IsLaunched :
      (e0 e e' : Problem F) (result : List F)
      → IsUnder e0 e result
      → (b : Basis e) → All IsFrictionState e.params.contact_states
      → IsCosted e b.6 b.7 b.8 b.10 b.11 e'
      → IsLaunched e0 result e'
  costed-IsLaunched e0 e e' result u b states w =
      let costed : Problem F = record e {
        system = record (e.system) { q = e'.system.q; c = e'.system.c };
      } in
      let former : IsFormer costed = inr (ap (λ (xs : List F). length xs) u.4 ∙ u.2) in
      subst (IsLaunched e0 result) (sym w.same) (
        Basis-IsRunnable costed result b u.1 states u.2 former w.rows w.columns w.linear,
        former,
        ap (λ (xs : List F). length xs) u.3 ∙ u.2,
        u.5,
        u.6,
      )

  -- The states from the forces.
  initialised-IsUnder :
      (e0 e e' : Problem F) (result : List F) (u : IsUnder e0 e result)
      (room : nb_actuator_rows e + nb_contact_rows e ≤ length result)
      → IsInitialised e result (basis_kind e u.0 u.1) room e'
      → IsUnder e0 e' result
  initialised-IsUnder e0 e e' result u room v = (
    subst Basis (sym v.same) u.0,
    v.size ∙ u.1 ∙ sym (ap (λ q. q.params.nb_contact_points) v.same),
    u.2 ∙ sym (ap (λ q. q.system.dim) v.same),
    ap (λ q. q.system.lambda) v.same ∙ u.3,
    ap (λ q. q.system.previous_result) v.same ∙ u.4,
    ap (λ q. q.lists) v.same ∙ u.5,
    ap (λ q. q.system.dim) v.same ∙ u.6,
  )

  pub initialised_states :
      (e0 e : Problem F) (result : List F)
      → IsUnder e0 e result
      → Returns
          (λ e3. IsUnder e0 e3 result × All IsFrictionState e3.params.contact_states)
          (init_contact_handlers_from e result)
  initialised_states e0 e result u =
      let kind : IsFrictional e.lists e.params = basis_kind e u.0 u.1 in
      let room : nb_actuator_rows e + nb_contact_rows e ≤ length result =
        omega (arith, u.0.6, u.2) in
      Returns-mono (IsInitialised e result kind room) _ _
        (λ e3 v. (
          initialised-IsUnder e0 e e3 result u room v,
          initialised-IsFrictionState e result kind room e3 v,
        ))
        (init_contact_handlers_from-IsInitialised e result kind room)

  -- And the cost.
  pub costed_problem :
      (e0 e : Problem F) (result : List F) (epsilon : F) (actuators_only : Bool)
      → IsUnder e0 e result
      → All IsFrictionState e.params.contact_states
      → Returns (IsLaunched e0 result) (build_qp_matrices e epsilon actuators_only)
  costed_problem e0 e result epsilon actuators_only u states =
      let b : Basis e = u.0 in
      Returns-mono (IsCosted e b.6 b.7 b.8 b.10 b.11) (IsLaunched e0 result) _
        (λ e4 w. costed-IsLaunched e0 e e4 result u b states w)
        (build_qp_matrices-IsCosted e b.6 b.7 b.8 b.10 b.11 epsilon actuators_only)

  -- The forces of the contacts, in both places where the rounds look for them.
  pub placed-IsUnder :
      (s s' : Solver F) (result : List F)
      → Basis s.problem
      → length s.problem.params.contact_states ≡ s.problem.params.nb_contact_points
      → length result ≡ s.problem.system.dim
      → IsStarted s s'
      → IsUnder s.problem
          (record (with_lambda result s'.problem) {
            system = record ((with_lambda result s'.problem).system) { previous_result = result };
          })
          result
  placed-IsUnder s s' result b points size v =
      let same = v.problem in
      (
        subst Basis (sym same) b,
        subst (λ e. length e.params.contact_states ≡ e.params.nb_contact_points) (sym same) points,
        subst (λ e. length result ≡ e.system.dim) (sym same) size,
        refl,
        refl,
        ap (λ e. e.lists) same,
        ap (λ e. e.system.dim) same,
      )
