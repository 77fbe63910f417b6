-- ===== src/Impl/Contacts.antt =====
-- QPInverseProblemImpl.cpp: init, updateLambda, isFeasible and solveContacts.
pub mod Storage
pub mod Feasible
pub mod Start
pub mod Forces
pub mod Totality
use soft_robots_inverse.Nlcp
-- The loop of init: the forces, and which line of which actuator comes next.
use soft_robots_inverse.Prelude.{
  Bool, List, Option, false, for_range, get_elem?, if◌then◌else◌, none, some, suc, true, zero, ℕ,
  ◌+◌, ◌==◌, ◌>>=◌, leb, length, ltb, replicate, tabulate, write, not,
}
use soft_robots_inverse.Problem.{Problem, nb_actuator_rows, nb_contact_rows}
use soft_robots_inverse.Double.{Double, ◌≺◌, ◌⊕◌, ◌⊖◌, ◌⊗◌, nought, slack, rabs}
use soft_robots_inverse.Impl.Oases.{OasesInput, OasesOutput, lcp_solve, entries}
use soft_robots_inverse.Impl.State.{Solver}
use soft_robots_inverse.ConstraintHandler.Release.{dot_from, row_violated}

pub record InitCursor (F : Type 0) : Type 0 where
  pub lambda : List F
  pub actuators_id : ℕ
  pub actuator_line : ℕ

-- Whether test(i) holds for some i from `i` on, with no test behind the first that holds.
unfoldable pub any_from : ℕ → ℕ → (ℕ → Option Bool) → Option Bool
any_from zero i test = some false
any_from (suc n) i test = do
  found ← test i
  elim found [ true ↦ some true | false ↦ any_from n (i + 1) test ]

module _ {F : Type 0} ⦃R : Double F⦄ where
  pub init_step : Problem F → ℕ → InitCursor F → Option (InitCursor F)
  init_step e k s =
      if ltb k (nb_actuator_rows e)
      then (do
        ac ← get_elem? e.lists.actuators s.actuators_id
        lambda ←
            (if ac.has_lambda_init
              then write s.lambda k (ac.lambda_init s.actuator_line)
              else some s.lambda)
        some (
            if s.actuator_line + 1 == ac.nb_lines
            then record { lambda = lambda; actuators_id = s.actuators_id + 1; actuator_line = 0 }
            else record s { lambda = lambda; actuator_line = s.actuator_line + 1 }))
      else some s

  pub init_lambda : Problem F → Option (List F)
  init_lambda e = do
    s ←
        for_range e.system.dim 0 (init_step e)
          (record { lambda = replicate e.system.dim nought; actuators_id = 0; actuator_line = 0 })
    some s.lambda

  abbrev pub with_lambda : List F → Problem F → Problem F
  with_lambda lambda e = record e { system = record (e.system) { lambda = lambda } }

  -- init, which also sets m_step to 0.
  pub init : Solver F → Option (Solver F)
  init s = do
    lambda ← init_lambda s.problem
    some (record s { problem = with_lambda lambda s.problem; step = 0 })

  -- A message is all that happens if the sizes differ; a vector that is too short is read out of bounds.
  pub update_lambda : List F → Problem F → Option (Problem F)
  update_lambda lambda e = do copied ← entries e.system.dim lambda; some (with_lambda copied e)

  pub equality_violated : Problem F → List F → ℕ → Option Bool
  equality_violated e x i = do
    row ← get_elem? e.system.aeq i
    ax ← dot_from e.system.dim 0 row x nought
    target ← get_elem? e.system.beq i
    some (slack ≺ rabs (ax ⊖ target))

  pub is_feasible : Problem F → List F → Option Bool
  is_feasible e x = do
    unequal ← any_from (length e.system.a) 0 (row_violated e x)
    elim unequal [
      | true ↦ some false
      | false ↦ any_from (length e.system.aeq) 0 (equality_violated e x) >>= λ bad. some (not bad)
    ]

  -- The entry of a vector that is read within its bounds.
  abbrev pub entry_of : List F → ℕ → F
  entry_of v i = elim (get_elem? v i) [ some x ↦ x | none ↦ nought ]

  -- q[i], the free violation of contact row i with the forces of the actuators.
  pub contact_violation : Problem F → ℕ → Option F
  contact_violation e i = do
    row ← get_elem? e.lists.contact_row_ids i
    if ltb 0 (length e.system.lambda)
        then for_range (nb_actuator_rows e) 0
            (λ j sum. do
              column ← get_elem? e.lists.actuator_row_ids j
              x ← get_elem? e.system.lambda j
              some (sum ⊕ e.system.w row column ⊗ x))
            (e.system.d_free row)
        else some (e.system.d_free row)

  pub contact_compliance : Problem F → ℕ → Option (List F)
  contact_compliance e i = tabulate (nb_contact_rows e) 0 (λ j. do
    row ← get_elem? e.lists.contact_row_ids i
    column ← get_elem? e.lists.contact_row_ids j
    some (e.system.w row column))

  abbrev pub matrix_of : List (List F) → ℕ → ℕ → F
  matrix_of m i j = elim (get_elem? m i) [ some row ↦ entry_of row j | none ↦ nought ]

  -- The forces that the Gauss-Seidel solver starts from.
  pub warm_start : Problem F → Option (List F)
  warm_start e =
      if leb (nb_actuator_rows e + nb_contact_rows e) (length e.system.lambda)
      then tabulate (nb_contact_rows e) (nb_actuator_rows e) (get_elem? e.system.lambda)
      else some (replicate (nb_contact_rows e) nought)

  -- x behind the rows of the actuators, and lambda, where it is long enough, in them.
  pub place_contacts : Problem F → List F → Option (List F)
  place_contacts e x = do
    res ←
        for_range (nb_contact_rows e) 0
          (λ i res. get_elem? x i >>= λ a. write res (i + nb_actuator_rows e) a)
          (replicate e.system.dim nought)
    if leb (nb_actuator_rows e) (length e.system.lambda)
        then for_range (nb_actuator_rows e) 0
            (λ i res. get_elem? e.system.lambda i >>= λ a. write res i a) res
        else some res

  module _ (abs_error : F → F → F → F → F → F → F) (to_double : ℕ → F)
      (oases : OasesInput F → OasesOutput F) where
    pub contact_forces_of : Solver F → Option (List F)
    contact_forces_of s = do
      let e = s.problem
      q ← tabulate (nb_contact_rows e) 0 (contact_violation e)
      m ← tabulate (nb_contact_rows e) 0 (contact_compliance e)
      if nought ≺ s.mu
          then (do
            x ← warm_start e
            o ←
                Nlcp.solve abs_error (nb_contact_rows e) (entry_of q) (matrix_of m) s.mu
                  s.allow_sliding to_double s.tolerance s.max_iteration true x
            some o.forces)
          else lcp_solve oases (nb_contact_rows e) (entry_of q) (matrix_of m)

    -- solveContacts: the solver after the first call of init, and the result.
    pub solve_contacts : Solver F → Option (Solver F × List F)
    solve_contacts s = do
      s' ← (if s.step == 0 then (init s >>= λ t. some (record t { step = t.step + 1 })) else some s)
      x ← contact_forces_of s'
      res ← place_contacts s'.problem x
      some (s', res)
