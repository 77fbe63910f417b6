-- ===== src/Impl/Contacts/Start.antt =====
-- init: the forces that the first step starts from.
use soft_robots_inverse.Prelude.{
  All, List, Returns, Returns-bind, for_range-Returns, get_elem?, get_elem?-replicate,
  get_elem?-set_ne, if_elim, if◌then◌else◌, length-replicate, length-set, refl, some, ℕ, ◌+◌, ◌<◌,
  ◌==◌, ◌∙◌, ◌≡◌, ◌≤◌, arith, length, ltb, tests, write, lt→ltb,
}
use soft_robots_inverse.Problem.{BaseConstraint, Problem, nb_actuator_rows}
use soft_robots_inverse.Double.{Double, nought}
use soft_robots_inverse.Impl.Contacts.{InitCursor, init_lambda, init_step}
use soft_robots_inverse.Impl.Lines.{IsAtLine, first-IsAtLine, next-IsAtLine}
use soft_robots_inverse.ConstraintHandler.Ready.{total_lines}

module _ {F : Type 0} ⦃R : Double F⦄ (e : Problem F)
    (actuator_lines : total_lines e.lists.actuators ≡ nb_actuator_rows e)
    (positive : All (λ c. 0 < c.nb_lines) e.lists.actuators) where
  -- Before variable `k`: nothing behind the actuators has been written.
  record IsStarting (k : ℕ) (s : InitCursor F) : Type 0 where
    pub size : length s.lambda ≡ e.system.dim
    pub walk :
        k ≤ nb_actuator_rows e
        → IsAtLine e.lists.actuators s.actuators_id s.actuator_line k (nb_actuator_rows e)
    pub rest :
        (j : ℕ) → nb_actuator_rows e ≤ j → j < e.system.dim → get_elem? s.lambda j ≡ some nought

  stored_lambda :
      (k : ℕ) (s : InitCursor F) (ac : BaseConstraint F)
      → IsStarting k s
      → k < e.system.dim
      → k < nb_actuator_rows e
      → Returns
          (λ lambda.
            (length lambda ≡ e.system.dim)
            × ((j : ℕ)
                → nb_actuator_rows e ≤ j
                → j < e.system.dim
                → get_elem? lambda j ≡ some nought))
          (if ac.has_lambda_init
            then write s.lambda k (ac.lambda_init s.actuator_line)
            else some s.lambda)
  stored_lambda k s ac v hk h =
      if_elim (Returns _) ac.has_lambda_init _ _
        (λ _. rw (lt→ltb k (length s.lambda) (omega (arith, v.size))) (
          _,
          refl,
          (
            length-set s.lambda k (ac.lambda_init s.actuator_line) ∙ v.size,
            λ j lo hi.
                get_elem?-set_ne s.lambda k j (ac.lambda_init s.actuator_line) (λ same. omega arith)
                ∙ v.rest j lo hi,
          ),
        ))
        (λ _. (_, refl, (v.size, v.rest)))

  init_step-IsStarting :
      (k : ℕ) (s : InitCursor F)
      → IsStarting k s
      → k < e.system.dim
      → Returns (IsStarting (k + 1)) (init_step e k s)
  unfolding init_step
  init_step-IsStarting k s v hk =
      if_elim (Returns (IsStarting (k + 1))) (ltb k (nb_actuator_rows e)) _ _
        (λ low.
          let (ac, at, last, more) =
            next-IsAtLine e.lists.actuators s.actuators_id s.actuator_line k (nb_actuator_rows e)
              positive (v.walk (omega tests)) (omega tests) in
          rw at (
            Returns-bind _ (IsStarting (k + 1)) _ _ (stored_lambda k s ac v hk (omega tests))
              λ lambda (size, rest). (
                _,
                refl,
                if_elim (IsStarting (k + 1)) (s.actuator_line + 1 == ac.nb_lines) _ _
                    (λ same. record {
                      size = size;
                      walk = λ _. last (ground (arith, same));
                      rest = rest;
                    })
                    (λ apart. record {
                      size = size;
                      walk = λ _. more (λ same. ground (arith, same, apart));
                      rest = rest;
                    }),
              )))
        (λ high.
          (_, refl, record { size = v.size; walk = λ room. absurd (omega tests); rest = v.rest }))

  -- As many forces as variables, those behind the actuators zero.
  abbrev pub IsStart : List F → Type 0
  IsStart lambda =
      (length lambda ≡ e.system.dim)
      × ((j : ℕ) → nb_actuator_rows e ≤ j → j < e.system.dim → get_elem? lambda j ≡ some nought)

  pub init_lambda-IsStart : Returns IsStart (init_lambda e)
  unfolding init_lambda
  init_lambda-IsStart =
      Returns-bind (IsStarting e.system.dim) IsStart _ _
        (for_range-Returns IsStarting (init_step e) e.system.dim 0 e.system.dim _ (omega arith)
          (λ k s lo hi v. init_step-IsStarting k s v hi)
          (record {
            size = length-replicate e.system.dim nought;
            walk = λ _. first-IsAtLine e.lists.actuators (nb_actuator_rows e) actuator_lines;
            rest = λ j lo hi. get_elem?-replicate e.system.dim nought j hi;
          }))
        λ s v. (_, refl, (v.size, v.rest))
