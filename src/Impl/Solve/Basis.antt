-- ===== src/Impl/Solve/Basis.antt =====
-- What solveWithContact relies on from its first step to the last, and the states that it starts the
-- rounds with.
use soft_robots_inverse.Prelude.{
  All, All-of_each, List, [], false, inl, inr, true, ◌*◌, ◌+◌, ◌<◌, ◌∙◌, ◌∷◌, ◌≡◌, ◌≤◌, arith,
  length, ap, sym,
}
use soft_robots_inverse.Problem.{
  BaseConstraint, Problem, nb_actuator_rows, nb_contact_rows, nb_equality_rows,
}
use soft_robots_inverse.Double.{Double, ◌≺◌, ◌≼◌, nought}
use soft_robots_inverse.Contact.{friction_states}
use soft_robots_inverse.Contact.Pivot.{IsFrictionState}
use soft_robots_inverse.Impl.Rounds.Frame.{IsFormer, IsRunnable}
use soft_robots_inverse.ConstraintHandler.States.{state_of_forces}
use soft_robots_inverse.ConstraintHandler.Ready.{IsFrictional, total_lines}
use soft_robots_inverse.ConstraintHandler.Rows.Entries.{IsSized}
use soft_robots_inverse.ConstraintHandler.States.Forces.{
  IsInitialised, state_of_forces-IsFrictionState,
}

module _ {F : Type 0} ⦃R : Double F⦄ where
  -- Only lists, parameters and the size are named, so that this outlives a change of all else.
  abbrev pub Basis : Problem F → Type 0
  Basis e =
      ((nought ≺ e.params.mu) ≡ true)
      × ((e.params.mu ≼ nought) ≡ false)
      × (e.params.contact_nb_lines ≡ 3)
      × (e.params.sliding_dir_id1 ≡ 1)
      × (e.params.sliding_dir_id2 ≡ 2)
      × (nb_contact_rows e ≡ e.params.nb_contact_points * 3)
      × IsSized e
      × (total_lines e.lists.actuators ≡ nb_actuator_rows e)
      × (total_lines e.lists.equality ≡ nb_equality_rows e)
      × (nb_equality_rows e ≡ 0)
      × All (λ c. 0 < c.nb_lines) e.lists.actuators
      × All (λ c. 0 < c.nb_lines) e.lists.equality
      × (e.params.allowed_contact_states ≡ friction_states)

  pub basis_kind :
      (e : Problem F)
      → Basis e
      → length e.params.contact_states ≡ e.params.nb_contact_points
      → IsFrictional e.lists e.params
  basis_kind e b len = record {
    rubs = b.0;
    three_lines = b.2;
    first_dir = b.3;
    second_dir = b.4;
    rows = b.5 ∙ ap (λ n. n * 3) (sym len);
  }

  -- Where no line belongs to an equality there is none.
  no_component :
      (cs : List (BaseConstraint F))
      → total_lines cs ≡ 0
      → All (λ c. 0 < c.nb_lines) cs
      → All (λ c. c.nb_lines ≡ 1) cs
  unfolding total_lines
  no_component [] none_left positive = tt
  no_component (c ∷ cs) none_left (p, positive) = absurd (omega arith)

  pub Basis-IsRunnable :
      (e : Problem F) (result : List F)
      → Basis e
      → length e.params.contact_states ≡ e.params.nb_contact_points
      → All IsFrictionState e.params.contact_states
      → length result ≡ e.system.dim
      → IsFormer e
      → length e.system.q ≡ e.system.dim
      → All (λ row. e.system.dim ≤ length row) e.system.q
      → length e.system.c ≡ e.system.dim
      → IsRunnable e 1 result
  Basis-IsRunnable e result b len states size former rows columns linear = record {
    ready = record {
      sized = b.6;
      actuator_lines = b.7;
      equality_lines = b.8;
      contact_lines = inr (inl (basis_kind e b len));
      uniform = no_component e.lists.equality (b.8 ∙ b.9) b.11;
      some_line = omega arith;
      result_size = λ _. size;
      previous_size = λ _. former;
    };
    kind = basis_kind e b len;
    above = b.1;
    states = states;
    allowed = b.12;
    no_equality = b.9;
    result_size = size;
    q_rows = rows;
    q_columns = columns;
    c_size = linear;
  }

  module _ (e : Problem F) (result : List F) (kind : IsFrictional e.lists e.params)
      (room : nb_actuator_rows e + nb_contact_rows e ≤ length result) (e' : Problem F)
      (v : IsInitialised e result kind room e') where
    pub initialised-IsFrictionState : All IsFrictionState e'.params.contact_states
    initialised-IsFrictionState = All-of_each IsFrictionState e'.params.contact_states λ c h.
        let (n, t, o, _, _, _, at) = v.each c (omega (arith, v.size)) in
        (state_of_forces e n t o, at, state_of_forces-IsFrictionState e n t o)
