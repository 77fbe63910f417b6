-- ===== src/Impl/Matrices/Totality.antt =====
-- buildQPMatrices as a whole.
use soft_robots_inverse.Prelude.{
  All, Bool, IsTable, List, Returns, Returns-bind, Returns-mono, for_range-Returns, get_elem?-lt,
  if_elim, refl, tabulate-All, tabulate-IsTable, ℕ, ◌+◌, ◌-◌, ◌<◌, ◌==◌, ◌≡◌, ◌≤◌, arith, length,
  lt→ltb, subst, Bool-cases, inl, inr, ge→ltb, ltb, tests,
}
use soft_robots_inverse.Problem.{Problem, nb_actuator_rows, nb_equality_rows}
use soft_robots_inverse.Double.{Double}
use soft_robots_inverse.Impl.Matrices.{
  EnergyCursor, ac_ids, build_qp_matrices, energy_dim, energy_factor, energy_step, linear_entry,
  linear_vector, quadratic_entry, quadratic_matrix, quadratic_row,
}
use soft_robots_inverse.Impl.Lines.{IsAtLine, first-IsAtLine, next-IsAtLine}
use soft_robots_inverse.Impl.Matrices.Energy.{
  QFits, add_energy-QFits, compute_energy_weight-Returns,
}
use soft_robots_inverse.ConstraintHandler.Ready.{total_lines}
use soft_robots_inverse.ConstraintHandler.Rows.{column_id}
use soft_robots_inverse.ConstraintHandler.Rows.Entries.{IsSized, column_id-Returns}

module _ {F : Type 0} where
  pub ac_ids-Returns :
      (e : Problem F) → IsSized e → Returns (λ ids. length ids ≡ e.system.dim) (ac_ids e)
  unfolding ac_ids
  ac_ids-Returns e sized =
      Returns-mono (IsTable e.system.dim 0 (column_id e)) (λ ids. length ids ≡ e.system.dim) _
        (λ ids t. t.0)
        (tabulate-IsTable e.system.dim 0 (column_id e)
          λ j lo hi. let (c, eq, _) = column_id-Returns e j sized (omega arith) in (c, eq, tt))

module _ {F : Type 0} ⦃R : Double F⦄ (e : Problem F) (sized : IsSized e)
    (actuator_lines : total_lines e.lists.actuators ≡ nb_actuator_rows e)
    (equality_lines : total_lines e.lists.equality ≡ nb_equality_rows e)
    (actuators_positive : All (λ c. 0 < c.nb_lines) e.lists.actuators)
    (equality_positive : All (λ c. 0 < c.nb_lines) e.lists.equality) where
  module _ (ids : List ℕ) (size : length ids ≡ e.system.dim) where
    -- Before row `k` gets its energy.
    record IsWalking (k : ℕ) (s : EnergyCursor F) : Type 0 where
      pub fits : QFits e ids size s.q
      pub in_actuators :
          k ≤ nb_actuator_rows e
          → IsAtLine e.lists.actuators s.actuators_id s.actuators_nb_lines k (nb_actuator_rows e)
      pub in_equalities :
          k ≤ nb_actuator_rows e + nb_equality_rows e
          → IsAtLine e.lists.equality s.equality_id s.equality_nb_lines
              (k - nb_actuator_rows e)
              (nb_equality_rows e)

    quadratic_matrix-QFits : Returns (QFits e ids size) (quadratic_matrix e ids)
    unfolding quadratic_matrix quadratic_row
    quadratic_matrix-QFits =
        tabulate-All (λ row. e.system.dim ≤ length row) e.system.dim 0 (quadratic_row e ids)
          λ k lo hi.
            Returns-mono (IsTable e.system.dim 0 (quadratic_entry e ids k)) _ _
              (λ row t. omega (arith, t.0))
              (tabulate-IsTable e.system.dim 0 (quadratic_entry e ids k) λ j lo' hi'.
                let (cj, ej) = get_elem?-lt ids j (omega arith) in
                let (ck, ek) = get_elem?-lt ids k (omega arith) in rw (ej, ek) (_, refl, tt))

    linear_vector-Returns : Returns (λ c. length c ≡ e.system.dim) (linear_vector e ids)
    unfolding linear_vector
    linear_vector-Returns =
        Returns-mono (IsTable e.system.dim 0 (linear_entry e ids)) _ _ (λ c t. t.0)
          (tabulate-IsTable e.system.dim 0 (linear_entry e ids)
            λ j lo hi. let (cj, ej) = get_elem?-lt ids j (omega arith) in rw ej (_, refl, tt))

    module _ (epsilon weight : F) (n : ℕ) (low : n ≤ e.system.dim) where
      actuator_energy :
          (k : ℕ) (s : EnergyCursor F)
          → IsWalking k s
          → k < n
          → k < nb_actuator_rows e
          → Returns (IsWalking (k + 1)) (energy_step e epsilon ids weight n k s)
      unfolding energy_step
      actuator_energy k s v hk h =
          let (ac, at, last, more) =
            next-IsAtLine e.lists.actuators s.actuators_id s.actuators_nb_lines k
              (nb_actuator_rows e) actuators_positive (v.in_actuators (omega arith)) h in
          rw (lt→ltb k (nb_actuator_rows e) h, at)
            (Returns-bind (QFits e ids size) (IsWalking (k + 1)) _ _
              (add_energy-QFits e ids size weight n (energy_factor e epsilon ac k) k s.q low
                (omega arith) v.fits)
              λ q fits. (
                _,
                refl,
                if_elim (IsWalking (k + 1)) (s.actuators_nb_lines + 1 == ac.nb_lines) _ _
                    (λ same. record {
                      fits = fits;
                      in_actuators = λ _. last (ground (arith, same));
                      in_equalities = λ room.
                          subst
                            (λ m.
                              IsAtLine e.lists.equality s.equality_id s.equality_nb_lines m
                                (nb_equality_rows e))
                            (omega arith) (v.in_equalities (omega arith));
                    })
                    (λ apart. record {
                      fits = fits;
                      in_actuators = λ _. more (λ same. ground (arith, same, apart));
                      in_equalities = λ room.
                          subst
                            (λ m.
                              IsAtLine e.lists.equality s.equality_id s.equality_nb_lines m
                                (nb_equality_rows e))
                            (omega arith) (v.in_equalities (omega arith));
                    }),
              ))

      equality_energy :
          (k : ℕ) (s : EnergyCursor F)
          → IsWalking k s
          → k < n
          → nb_actuator_rows e ≤ k
          → k < nb_actuator_rows e + nb_equality_rows e
          → Returns (IsWalking (k + 1)) (energy_step e epsilon ids weight n k s)
      unfolding energy_step
      equality_energy k s v hk h h' =
          let (ec, at, last, more) =
            next-IsAtLine e.lists.equality s.equality_id s.equality_nb_lines
              (k - nb_actuator_rows e) (nb_equality_rows e) equality_positive
              (v.in_equalities (omega arith)) (omega arith) in
          let shift : k - nb_actuator_rows e + 1 ≡ k + 1 - nb_actuator_rows e = omega arith in
          rw (ge→ltb k (nb_actuator_rows e) h, lt→ltb k _ h', at)
            (Returns-bind (QFits e ids size) (IsWalking (k + 1)) _ _
              (add_energy-QFits e ids size weight n (energy_factor e epsilon ec k) k s.q low
                (omega arith) v.fits)
              λ q fits. (
                _,
                refl,
                if_elim (IsWalking (k + 1)) (s.equality_nb_lines + 1 == ec.nb_lines) _ _
                    (λ same. record {
                      fits = fits;
                      in_actuators = λ room. absurd (omega arith);
                      in_equalities = λ room.
                          subst
                            (λ m.
                              IsAtLine e.lists.equality (s.equality_id + 1) 0 m
                                (nb_equality_rows e))
                            shift (last (ground (arith, same)));
                    })
                    (λ apart. record {
                      fits = fits;
                      in_actuators = λ room. absurd (omega arith);
                      in_equalities = λ room.
                          subst
                            (λ m.
                              IsAtLine e.lists.equality s.equality_id (s.equality_nb_lines + 1) m
                                (nb_equality_rows e))
                            shift (more (λ same. ground (arith, same, apart)));
                    }),
              ))

      contact_energy :
          (k : ℕ) (s : EnergyCursor F)
          → IsWalking k s
          → k < n
          → nb_actuator_rows e + nb_equality_rows e ≤ k
          → Returns (IsWalking (k + 1)) (energy_step e epsilon ids weight n k s)
      unfolding energy_step
      contact_energy k s v hk h =
          rw
            (
              ge→ltb k (nb_actuator_rows e) (omega arith),
              ge→ltb k (nb_actuator_rows e + nb_equality_rows e) h,
            )
            (Returns-bind (QFits e ids size) (IsWalking (k + 1)) _ _
              (add_energy-QFits e ids size weight n (λ _. epsilon) k s.q low (omega arith) v.fits)
              λ q fits. (
                _,
                refl,
                record {
                  fits = fits;
                  in_actuators = λ room. absurd (omega arith);
                  in_equalities = λ room. absurd (omega arith);
                },
              ))

      energy_step-IsWalking :
          (k : ℕ) (s : EnergyCursor F)
          → IsWalking k s
          → k < n
          → Returns (IsWalking (k + 1)) (energy_step e epsilon ids weight n k s)
      energy_step-IsWalking k s v hk = elim (Bool-cases (ltb k (nb_actuator_rows e))) [
        | inl h ↦ actuator_energy k s v hk (omega tests)
        | inr h ↦ elim (Bool-cases (ltb k (nb_actuator_rows e + nb_equality_rows e))) [
          | inl h' ↦ equality_energy k s v hk (omega tests) (omega tests)
          | inr h' ↦ contact_energy k s v hk (omega tests)
        ]
      ]

  -- A new cost of the right sizes, and nothing else.
  pub record IsCosted (e' : Problem F) : Type 0 where
    pub rows : length e'.system.q ≡ e.system.dim
    pub columns : All (λ row. e.system.dim ≤ length row) e'.system.q
    pub linear : length e'.system.c ≡ e.system.dim
    pub same : e' ≡ record e { system = record (e.system) { q = e'.system.q; c = e'.system.c } }

  -- In a problem with a variable for each row of the actuators, equalities and contacts, whose
  -- actuators and equalities have a line at least and as many as rows, buildQPMatrices faults
  -- nowhere: each row that gets energy finds its component. It leaves a row of Q with a column for
  -- each variable, an entry of c for each variable, and changes nothing else.
  pub build_qp_matrices-IsCosted :
      (epsilon : F) (actuators_only : Bool)
      → Returns IsCosted (build_qp_matrices e epsilon actuators_only)
  unfolding build_qp_matrices
  build_qp_matrices-IsCosted epsilon actuators_only =
      let n : ℕ = energy_dim e actuators_only in
      Returns-bind _ IsCosted _ _ (ac_ids-Returns e sized) λ ids size.
        Returns-bind (QFits e ids size) IsCosted _ _ (quadratic_matrix-QFits ids size) λ q fits.
          Returns-bind (λ c. length c ≡ e.system.dim) IsCosted _ _ (linear_vector-Returns ids size)
            λ c linear.
              Returns-bind (λ _. Unit {0}) IsCosted _ _
                (compute_energy_weight-Returns e ids size actuators_only q fits low)
                λ weight _.
                  Returns-bind (IsWalking ids size n) IsCosted _ _
                    (for_range-Returns (IsWalking ids size) _ n 0 n _ (omega arith)
                      (λ k s lo hi v. energy_step-IsWalking ids size epsilon weight n low k s v hi)
                      (record {
                        fits = fits;
                        in_actuators = λ _.
                            first-IsAtLine e.lists.actuators (nb_actuator_rows e) actuator_lines;
                        in_equalities = λ _.
                            subst (λ m. IsAtLine e.lists.equality 0 0 m (nb_equality_rows e))
                              (omega arith)
                              (first-IsAtLine e.lists.equality (nb_equality_rows e) equality_lines);
                      }))
                    λ s w. (
                      _,
                      refl,
                      record { rows = w.fits.0; columns = w.fits.1; linear = linear; same = refl },
                    )
    where
      low : energy_dim e actuators_only ≤ e.system.dim
      low =
          if_elim (λ n. n ≤ e.system.dim) actuators_only (nb_actuator_rows e) e.system.dim
            (λ _. omega (arith, sized)) (λ _. omega arith)
