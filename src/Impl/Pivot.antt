-- ===== src/Impl/Pivot.antt =====
-- QPInverseProblemImpl.cpp: getDelta and checkAndUpdatePivot, one step of the pivot algorithm on the
-- states of the contacts.
pub mod Reads
pub mod Marks
pub mod Candidates
pub mod Choice
pub mod Moved
pub mod Step
pub mod Greatest
use soft_robots_inverse.Prelude.{
  Bool, List, Option, false, for_range, get_elem?, if◌then◌else◌, some, true, ℕ, ◌%◌, ◌&&◌, ◌*◌,
  ◌+◌, ◌-◌, ◌/◌, ◌==◌, ◌>>=◌, ◌||◌, length, ltb, replicate, write, not, while,
}
use soft_robots_inverse.Problem.{Problem, nb_actuator_rows, nb_contact_rows}
use soft_robots_inverse.Double.{Double, ◌≺◌, ◌⊕◌, ◌⊗◌, nought}
use soft_robots_inverse.Contact.{
  ContactState, Triple, has_reached_boundary, has_reached_boundary_friction, new_contact_handler,
  new_contact_handler_friction,
}
use soft_robots_inverse.Impl.Matrices.{ac_ids}
use soft_robots_inverse.Impl.Cycling.{is_cycling, record_pivot}
use soft_robots_inverse.Impl.State.{Solver}

-- The loop over the contacts with friction: which rows are candidates, and how many contacts have one.
pub record CandidateCursor : Type 0 where
  pub i : ℕ
  pub marks : List Bool
  pub nb_pivot : ℕ

-- The search for the candidate with the greatest dual variable.
pub record BestCursor (F : Type 0) : Type 0 where
  pub greatest : F
  pub do_pivot : Bool
  pub best : ℕ

module _ {F : Type 0} ⦃R : Double F⦄ (e : Problem F) where
  -- delta = dFree[index] + W[index] * result
  pub get_delta : List F → ℕ → Option F
  get_delta result index = do
    ids ← ac_ids e
    for_range e.system.dim 0
        (λ i delta. do
          c ← get_elem? ids i
          x ← get_elem? result i
          some (delta ⊕ e.system.w index c ⊗ x))
        (e.system.d_free index)

  -- getDelta at entry `k` of the contact rows.
  pub contact_delta : List F → ℕ → Option F
  contact_delta result k = do r ← get_elem? e.lists.contact_row_ids k; get_delta result r

  -- The violations, and the forces, of the contact whose rows begin at `i`: the normal, and the
  -- directions `m` and `n`. The forces are read right behind those of the actuators.
  pub contact_deltas : List F → ℕ → ℕ → ℕ → Option (Triple F)
  contact_deltas result i m n = do
    x ← contact_delta result i
    y ← contact_delta result (i + m)
    z ← contact_delta result (i + n)
    some (record { normal = x; first = y; second = z })

  pub contact_forces : List F → ℕ → ℕ → ℕ → Option (Triple F)
  contact_forces result i m n = do
    x ← get_elem? result (nb_actuator_rows e + i)
    y ← get_elem? result (nb_actuator_rows e + i + m)
    z ← get_elem? result (nb_actuator_rows e + i + n)
    some (record { normal = x; first = y; second = z })

  -- The rows of a contact that has reached its boundary by `candidate`.
  pub mark_candidates : Bool → ℕ → ℕ → List Bool → Option (List Bool)
  mark_candidates allow i candidate marks =
      if allow
      then (if ltb 2 candidate
          then (do
            marks' ← write marks (i + e.params.sliding_dir_id1) true
            write marks' (i + e.params.sliding_dir_id2) true)
          else write marks (i + candidate) true)
      else write marks i true

  pub any_of_three : List Bool → ℕ → Option Bool
  any_of_three marks i = do
    a ← get_elem? marks i
    b ← get_elem? marks (i + 1)
    c ← get_elem? marks (i + 2)
    some (a || (b || c))

  pub friction_candidate_step : F → Bool → List F → CandidateCursor → Option CandidateCursor
  friction_candidate_step mu allow result s = do
    deltas ← contact_deltas result s.i e.params.sliding_dir_id1 e.params.sliding_dir_id2
    forces ← contact_forces result s.i e.params.sliding_dir_id1 e.params.sliding_dir_id2
    cleared ← for_range e.params.contact_nb_lines 0 (λ k marks. write marks (s.i + k) false) s.marks
    state ← get_elem? e.params.contact_states (s.i / e.params.contact_nb_lines)
    let (reached, candidate) =
        has_reached_boundary_friction state (e.params.handler_sliding state) forces deltas mu 0
    marks ← (if reached then mark_candidates allow s.i candidate cleared else some cleared)
    any ← any_of_three marks s.i
    some (record {
      i = s.i + e.params.contact_nb_lines;
      marks = marks;
      nb_pivot = if any then s.nb_pivot + 1 else s.nb_pivot;
    })

  pub frictionless_candidate_step : List F → ℕ → CandidateCursor → Option CandidateCursor
  frictionless_candidate_step result i s = do
    delta ← contact_delta result i
    lambda ← get_elem? result (nb_actuator_rows e + i)
    state ← get_elem? e.params.contact_states i
    let reached = has_reached_boundary state lambda delta
    marks ← write s.marks i reached
    some (record s { marks = marks; nb_pivot = if reached then s.nb_pivot + 1 else s.nb_pivot })

  -- The candidates for a pivot.
  pub find_candidates : F → Bool → List F → Option CandidateCursor
  find_candidates mu allow result =
      let start : CandidateCursor = record {
        i = 0;
        marks = replicate (nb_contact_rows e) false;
        nb_pivot = 0;
      } in
      if nought ≺ mu
      then while (nb_contact_rows e + 1) (λ s. ltb s.i (nb_contact_rows e))
          (friction_candidate_step mu allow result) start
      else for_range (nb_contact_rows e) 0 (frictionless_candidate_step result) start

module _ {F : Type 0} ⦃R : Double F⦄ (s : Solver F) where
  open s use {problem}

  -- Row `i` of [A; Aeq]. A number in constraintsId behind the actuators is taken for a contact's.
  pub best_step : List Bool → List F → ℕ → BestCursor F → Option (BestCursor F)
  best_step marks dual i b = do
    id ← get_elem? problem.params.constraints_id i
    if ltb id (nb_actuator_rows problem) then some b else (do
      let contact = id - nb_actuator_rows problem
      marked ← get_elem? marks contact
      x ← get_elem? dual i
      some (
          if (marked && ((b.greatest ≺ x) || not b.do_pivot)) && not (is_cycling s contact)
          then record { greatest = x; do_pivot = true; best = contact }
          else b))

  pub best_candidate : List Bool → List F → Option (BestCursor F)
  best_candidate marks dual =
      for_range (length dual) 0 (best_step marks dual)
        (record { greatest = nought; do_pivot = false; best = 0 })

  -- The state that the contact of row `best` moves to, with the contact's number. A null pointer would
  -- be stored, and fault when it is next used: here it is a fault at once.
  pub pivot_state : List F → ℕ → Option (ℕ × ContactState)
  pivot_state result best =
      if nought ≺ s.mu
      then (do
        let n = problem.params.contact_nb_lines
        let contact = (best - best % n) / n
        deltas ← contact_deltas problem result (contact * n) 1 2
        forces ← contact_forces problem result (contact * n) 1 2
        state ← get_elem? problem.params.contact_states contact
        state' ←
            new_contact_handler_friction state (problem.params.handler_sliding state)
              problem.params.allowed_contact_states forces deltas s.mu
        some (contact, state'))
      else (do
        delta ← contact_delta problem result best
        lambda ← get_elem? result (nb_actuator_rows problem + best)
        state ← get_elem? problem.params.contact_states best
        state' ← new_contact_handler state problem.params.allowed_contact_states lambda delta
        some (best, state'))

  pub set_contact_state : ℕ → ContactState → Option (Solver F)
  set_contact_state contact state = do
    states ← write problem.params.contact_states contact state
    some (record s {
      problem = record problem { params = record (problem.params) { contact_states = states } };
    })

  -- Whether to stop, and the members after the call.
  pub check_and_update_pivot : List F → List F → Option (Bool × Solver F)
  check_and_update_pivot result dual = if length dual == 0 then some (true, s) else (do
    found ← find_candidates problem s.mu s.allow_sliding result
    if found.nb_pivot == 0 then some (true, s) else (do
      b ← best_candidate found.marks dual
      if b.do_pivot
          then (do
            (contact, state) ← pivot_state result b.best
            s' ← set_contact_state contact state
            some (false, record_pivot b.best s'))
          else some (true, s)))
