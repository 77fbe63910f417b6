-- ===== src/ConstraintHandler/Limits.antt =====
-- ConstraintHandler.cpp: addContactLimits, the bounds on the sum of the normal contact forces.
pub mod Totality
use soft_robots_inverse.Prelude.{
  ℕ, ◌+◌, ◌/◌, Option, some, List, ltb, if◌then◌else◌, get_elem?, replicate, ◌>>=◌, write, while,
}
use soft_robots_inverse.Double.{Double, negate, nought, one}
use soft_robots_inverse.Contact.{ContactState, inactive}
use soft_robots_inverse.Problem.{Problem, nb_actuator_rows, nb_contact_rows}
use soft_robots_inverse.ConstraintHandler.Rows.{
  Inequalities, push_row, push_upper, push_lower, push_unbounded,
}

-- The loop's variables: the contact row, the row of A, and the number of contacts that it names.
pub record LimitCursor (F : Type 0) : Type 0 where
  pub i : ℕ
  pub row : List F
  pub nb_active : ℕ

module _ {F : Type 0} ⦃R : Double F⦄ (e : Problem F) where
  -- A contact that is not inactive has its normal direction in the row.
  pub limit_entry : ContactState → F → LimitCursor F → Option (LimitCursor F)
  limit_entry inactive value s = some s
  limit_entry other value s = do
    row ← write s.row (nb_actuator_rows e + s.i) value
    some (record s { row = row; nb_active = s.nb_active + 1 })

  pub limit_step : F → LimitCursor F → Option (LimitCursor F)
  limit_step value s = do
    state ← get_elem? e.params.contact_states (s.i / e.params.contact_nb_lines)
    t ← limit_entry state value s
    some (record t { i = s.i + e.params.contact_nb_lines })

  pub limit_row : F → Option (LimitCursor F)
  limit_row value =
      while (nb_contact_rows e + 1) (λ s. ltb s.i (nb_contact_rows e)) (limit_step value)
        (record { i = 0; row = replicate e.system.dim nought; nb_active = 0 })

  pub push_limit : List F → Inequalities F → Inequalities F
  push_limit row n =
      let n' = push_row row 0 n in
      if e.params.has_max_contact_forces
      then (let upper = push_upper e.params.max_contact_forces n' in
          if e.params.has_min_contact_forces
          then push_lower e.params.min_contact_forces upper
          else push_unbounded e upper)
      else push_unbounded e (push_upper (negate e.params.min_contact_forces) n')

  pub add_contact_limits : Inequalities F → Option (Inequalities F)
  add_contact_limits n = do
    s ← limit_row (if e.params.has_max_contact_forces then one else negate one)
    some (if ltb s.nb_active 2 then n else push_limit s.row n)
