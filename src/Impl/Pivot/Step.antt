-- ===== src/Impl/Pivot/Step.antt =====
-- checkAndUpdatePivot with friction: its steps together, with no law of the order of numbers.
use soft_robots_inverse.Prelude.{
  ℕ, All, All-set, Bool, List, Returns, Returns-bind, false, get_elem?-bound, if_elim, inl, inr,
  refl, some, true, ◌+◌, ◌<◌, ◌==◌, ◌>>=◌, ◌≡◌, ◌≤◌, length, set, ap, lt→ltb, subst, sym, ◌∙◌,
  Returns-made, arith,
}
use soft_robots_inverse.Problem.{nb_actuator_rows, nb_contact_rows, Problem}
use soft_robots_inverse.Double.{Double, ◌≺◌, nought}
use soft_robots_inverse.Contact.{ContactState, friction_states}
use soft_robots_inverse.Contact.Pivot.{IsFrictionState, Move, touch, skid, slip, part, leave, grip}
use soft_robots_inverse.Impl.Pivot.{
  BestCursor, CandidateCursor, check_and_update_pivot, find_candidates, set_contact_state,
}
use soft_robots_inverse.Impl.Cycling.{is_cycling, is_in, record_pivot}
use soft_robots_inverse.Impl.State.{Solver}
use soft_robots_inverse.Impl.Cycling.Repetition.{is_cycling-record_pivot}
use soft_robots_inverse.Impl.Pivot.Choice.{IsBeaten, IsChosen, IsEligible, best_candidate-IsChosen}
use soft_robots_inverse.Impl.Pivot.Moved.{IsMoved, pivot_state-IsMoved}
use soft_robots_inverse.Impl.Pivot.Candidates.{IsSearched, find_candidates-IsSearched}
use soft_robots_inverse.ConstraintHandler.Ready.{IsFrictional}
use soft_robots_inverse.ConstraintHandler.Rows.Entries.{IsSized}

-- The state that a move leads to is one of a contact with friction.
Move-IsFrictionState : {allow : Bool} {s t : ContactState} → Move allow s t → IsFrictionState t
Move-IsFrictionState touch = inr (inl refl)
Move-IsFrictionState (skid a) = inr (inr refl)
Move-IsFrictionState (slip a) = inr (inr refl)
Move-IsFrictionState part = inl refl
Move-IsFrictionState leave = inl refl
Move-IsFrictionState grip = inr (inl refl)

module _ {F : Type 0} where
  record_pivot-problem : (p : ℕ) (s : Solver F) → (record_pivot p s).problem ≡ s.problem
  unfolding record_pivot
  record_pivot-problem p s =
      if_elim (λ (t : Solver F). t.problem ≡ s.problem) (is_in s.current_sequence p) _ _ (λ _. refl)
        (λ _. refl)

  record_pivot-options :
      (p : ℕ) (s : Solver F)
      → ((record_pivot p s).mu ≡ s.mu) × ((record_pivot p s).max_nb_pivot ≡ s.max_nb_pivot)
  unfolding record_pivot
  record_pivot-options p s =
      if_elim (λ (t : Solver F). (t.mu ≡ s.mu) × (t.max_nb_pivot ≡ s.max_nb_pivot))
        (is_in s.current_sequence p) _ _ (λ _. (refl, refl)) (λ _. (refl, refl))

module _ {F : Type 0} ⦃R : Double F⦄ where
  -- What checkAndUpdatePivot relies on with friction: as the solver sets it up, where no equality
  -- constraint is in the way (constraintsId is below the rows of actuators and contacts).
  pub record IsPivotable (s : Solver F) (result dual : List F) : Type 0 where
    pub sized : IsSized s.problem
    pub result_size : length result ≡ s.problem.system.dim
    pub kind : IsFrictional s.problem.lists s.problem.params
    pub rubs : (nought ≺ s.mu) ≡ true
    pub allowed : s.problem.params.allowed_contact_states ≡ friction_states
    pub states : All IsFrictionState s.problem.params.contact_states
    pub named : length dual ≤ length s.problem.params.constraints_id
    pub bounded :
        All
          (λ id. id < nb_actuator_rows s.problem + nb_contact_rows s.problem)
          s.problem.params.constraints_id

  -- With these candidates, the pivot `best` comes from an eligible row whose dual value is over those of all
  -- eligible rows; the contact of row `best` has moved, no other; the pivot was no cycle before and is one
  -- now; the options and the rest of the problem are what they were.
  pub record IsPivot (Over : F → F → Type 0) (s : Solver F) (result dual : List F)
      (marks : List Bool) (best : ℕ) (s' : Solver F) : Type 0 where
    pub chosen :
        (i : ℕ) × (x : F) × IsEligible s marks dual i best x
        × ((j k : ℕ) (y : F) → j < length dual → IsEligible s marks dual j k y → Over x y)
    pub moved :
        (k : ℕ) × (state' : ContactState) × IsMoved s result best (k, state')
        × (s'.problem.params.contact_states ≡ set s.problem.params.contact_states k state')
    pub spent : is_cycling s' best ≡ true
    pub kept : s'.problem ≡ record (s.problem) {
      params = record (s.problem.params) { contact_states = s'.problem.params.contact_states };
    }
    pub options : (s'.mu ≡ s.mu) × (s'.max_nb_pivot ≡ s.max_nb_pivot)
    pub states : All IsFrictionState s'.problem.params.contact_states

  -- No row is eligible.
  abbrev pub HasNoPivot : Solver F → List F → List Bool → Type 0
  HasNoPivot s dual marks = (j k : ℕ) (y : F) → j < length dual → IsEligible s marks dual j k y → ⊥

  -- The candidates, with marks that tell which rows they are.
  abbrev pub IsFound :
      (s : Solver F) (result dual : List F) → IsPivotable s result dual → CandidateCursor → Type 0
  IsFound s result dual p =
      IsSearched s.problem result s.mu s.allow_sliding p.kind (nb_contact_rows s.problem)

  -- The call stops and leaves the solver as it is, since no pivot is left, or it goes on after a pivot.
  abbrev pub IsUpdate :
      (F → F → Type 0)
      → (s : Solver F) (result dual : List F) → IsPivotable s result dual
      → Bool × Solver F
      → Type 0
  IsUpdate Over s result dual p (true, s') =
      (s' ≡ s)
      × Returns (λ c. IsFound s result dual p c × HasNoPivot s dual c.marks)
          (find_candidates s.problem s.mu s.allow_sliding result)
  IsUpdate Over s result dual p (false, s') =
      Returns
        (λ c. IsFound s result dual p c × ((best : ℕ) × IsPivot Over s result dual c.marks best s'))
        (find_candidates s.problem s.mu s.allow_sliding result)

  module _ (s : Solver F) (result dual : List F) (p : IsPivotable s result dual) where
    pivot_step-IsUpdate :
        (c : CandidateCursor) (b : BestCursor F) (k : ℕ) (state' : ContactState)
        → find_candidates s.problem s.mu s.allow_sliding result ≡ some c
        → IsFound s result dual p c
        → IsChosen s c.marks dual (length dual) b
        → b.do_pivot ≡ true
        → IsMoved s result b.best (k, state')
        → Returns
            (IsUpdate IsBeaten s result dual p)
            (set_contact_state s k state' >>= λ s'. some (false, record_pivot b.best s'))
    unfolding set_contact_state
    pivot_step-IsUpdate c b k state' found searched chosen on by_handler =
        let best = b.best in
        let state = by_handler.1 in
        let at = by_handler.2 in
        let move = by_handler.3 in
        let (low, i, good, greatest) = chosen.pivot on in
        let states : List ContactState = s.problem.params.contact_states in
        let s1 : Solver F = record s {
          problem = record (s.problem) {
            params = record (s.problem.params) { contact_states = set states k state' };
          };
        } in
        let same : (record_pivot best s1).problem.params.contact_states ≡ set states k state' =
          ap (λ q. q.params.contact_states) (record_pivot-problem best s1) in
        rw (lt→ltb k (length states) (get_elem?-bound states k state at)) (
          _,
          refl,
          (
            c,
            found,
            (
              searched,
              (
                best,
                record {
                  chosen = (i, b.greatest, good, greatest);
                  moved = (k, state', by_handler, same);
                  spent = is_cycling-record_pivot s1 best;
                  kept =
                      record_pivot-problem best s1
                      ∙ sym (
                          ap {B = Problem F}
                            (λ (q : Problem F). record (s.problem) {
                              params = record (s.problem.params) {
                                contact_states = q.params.contact_states;
                              };
                            })
                            (record_pivot-problem best s1));
                  options = record_pivot-options best s1;
                  states = subst (All IsFrictionState) (sym same) (
                      All-set IsFrictionState states k state' p.states (Move-IsFrictionState move));
                },
              ),
            ),
          ),
        )

    -- What holds with no law of the order.
    pub check_and_update_pivot-IsBeaten :
        Returns (IsUpdate IsBeaten s result dual p) (check_and_update_pivot s result dual)
    unfolding check_and_update_pivot
    check_and_update_pivot-IsBeaten =
        let P = Returns (IsUpdate IsBeaten s result dual p) in
        let Kept = λ (c : CandidateCursor).
          (find_candidates s.problem s.mu s.allow_sliding result ≡ some c)
          × IsFound s result dual p c in
        let search =
          find_candidates-IsSearched s.problem result s.mu s.allow_sliding p.kind p.sized
            p.result_size p.rubs in
        if_elim P (length dual == 0) _ _
          (λ none_there.
            let (c, found, searched) = search in
            (_, refl, (refl, (c, found, (searched, λ j k y h can. absurd (ground arith))))))
          λ _.
            Returns-bind Kept (IsUpdate IsBeaten s result dual p) _ _ (Returns-made search)
              λ c (found, searched).
                let len : length c.marks ≡ nb_contact_rows s.problem = searched.0.0 in
                if_elim P (c.nb_pivot == 0) _ _
                  (λ none_there.
                    let no_pivot : c.nb_pivot ≡ 0 = ground arith in
                    (
                      _,
                      refl,
                      (
                        refl,
                        (
                          c,
                          found,
                          (
                            searched,
                            λ j k y h can.
                                searched.1 no_pivot k
                                  (let low = get_elem?-bound c.marks k true can.1 in omega arith)
                                  can.1,
                          ),
                        ),
                      ),
                    ))
                  λ _.
                    Returns-bind (IsChosen s c.marks dual (length dual))
                      (IsUpdate IsBeaten s result dual p) _ _
                      (best_candidate-IsChosen s c.marks dual len p.named p.bounded)
                      λ b chosen.
                        if_elim P b.do_pivot _ _
                          (λ on.
                            let low = (chosen.pivot on).0 in
                            Returns-bind (IsMoved s result b.best)
                              (IsUpdate IsBeaten s result dual p) _ _
                              (pivot_state-IsMoved s result b.best p.sized p.result_size p.kind
                                p.rubs p.allowed p.states low)
                              λ (k, state') moved.
                                pivot_step-IsUpdate c b k state' found searched chosen on moved)
                          (λ off. (_, refl, (refl, (c, found, (searched, chosen.no_pivot off)))))
