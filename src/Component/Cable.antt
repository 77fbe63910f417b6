-- ===== src/Component/Cable.antt =====
-- constraint/CableActuator.inl: the limits of a cable, and the results that it is told.
-- A Data that may be unset is an option where the code asks isSet. `red` is the colour of the cable.
use soft_robots_inverse.Prelude.{
  Bool, List, Option, false, get_elem?, if_elim, if◌then◌else◌, none, some, true, ℕ, ◌&&◌, ◌>>=◌,
  ◌≡◌, ◌∙◌, ap, Returns, Returns-bind, refl, ◌≤◌, length, subst, sym,
}
use soft_robots_inverse.Double.{Double, ◌≺◌, ◌≼◌, ◌⊖◌, negate, nought, rabs, slack}
use soft_robots_inverse.Component.Actuator.{
  actuator_store_results, IsApplied, actuator_store_results-IsApplied,
}
use soft_robots_inverse.Component.Window.{Window, init_window, open_high, open_low, update_window}
use soft_robots_inverse.Component.Window.Renewal.{
  init_window-init_window, update_window-init_window, open_twice,
}

pub record Cable (F : Type 0) : Type 0 where
  pub displacement : F
  pub force : F
  pub init_force : F
  pub init_force_set : Bool
  pub constrain_at_time : F
  pub max_disp_variation : Option F
  pub max_positive_displacement : Option F
  pub max_negative_displacement : Option F
  pub max_force : Option F
  pub min_force : Option F
  pub delta : Window F
  pub lambda : Window F
  pub has_lambda_init : Bool
  pub lambda_init : F
  pub display_limit : Bool
  pub apply_force : Bool
  pub red : Bool
  pub nb_lines : ℕ

module _ {F : Type 0} ⦃R : Double F⦄ where
  pub cable_init_datas : Cable F → Cable F
  cable_init_datas c =
      let fresh : Cable F = record c { displacement = nought; force = c.init_force } in
      if c.init_force_set
      then record fresh { has_lambda_init = true; lambda_init = c.init_force }
      else fresh

  -- The least displacement, -maxNegativeDisplacement where that is given.
  abbrev pub least : Cable F → Option F
  least c = elim c.max_negative_displacement [ none ↦ none | some m ↦ some (negate m) ]

  pub cable_init_limit : F → Cable F → Cable F
  cable_init_limit time c = if time ≺ c.constrain_at_time then c else record c {
    delta =
        init_window c.displacement (least c) c.max_positive_displacement c.max_disp_variation
          c.delta;
    lambda = open_low c.min_force (open_high c.max_force c.lambda);
  }

  pub cable_update_limit : F → Cable F → Cable F
  cable_update_limit time c =
      if time ≺ c.constrain_at_time
      then c
      else if (c.constrain_at_time ≼ time) && (time ≼ c.constrain_at_time)
      then cable_init_limit time c
      else record c {
        delta =
            update_window c.displacement (least c) c.max_positive_displacement c.max_disp_variation
              c.delta;
      }

  -- Red at a limit: the one on the force has the last word.
  pub cable_update_visualization : Cable F → Cable F
  cable_update_visualization c = record c {
    red = elim c.max_force [
      | some m ↦ rabs (c.force ⊖ m) ≺ slack
      | none ↦ elim c.max_positive_displacement [
        | some m ↦ rabs (c.displacement ⊖ m) ≺ slack
        | none ↦ c.red
      ]
    ];
  }

  pub cable_store_results : F → Cable F → List F → List F → Option (Cable F × List F)
  cable_store_results time c lambda delta = do
    force ← get_elem? lambda 0
    displacement ← get_elem? delta 0
    let limited = cable_update_limit time (record c { force = force; displacement = displacement })
    answer ← actuator_store_results c.apply_force c.nb_lines lambda
    some (if c.display_limit then cable_update_visualization limited else limited, answer)

  -- Where a cable is once it has been told its force and displacement.
  abbrev pub moved : F → F → Cable F → Cable F
  moved force displacement c = record c { force = force; displacement = displacement }

  -- Once the cable is constrained, the limits after each update are those that a fresh start would give
  -- with the displacement of the moment: nothing is left of the limits of earlier steps.
  pub cable_update_limit-cable_init_limit :
      (before now force displacement : F) (c : Cable F)
      → (before ≺ c.constrain_at_time) ≡ false
      → (now ≺ c.constrain_at_time) ≡ false
      → cable_update_limit now (moved force displacement (cable_init_limit before c))
        ≡ cable_init_limit now (moved force displacement c)
  unfolding cable_update_limit cable_init_limit
  cable_update_limit-cable_init_limit before now force displacement c h h' =
      rw (h, h')
        (if_elim (λ t. t ≡ limited fresh opened)
          ((c.constrain_at_time ≼ now) && (now ≼ c.constrain_at_time)) _ _
          (λ same.
            ap (λ d. limited d (open_low c.min_force (open_high c.max_force opened)))
              (init_window-init_window displacement c.displacement (least c)
                c.max_positive_displacement c.max_disp_variation c.delta)
            ∙ ap (limited fresh) (open_twice c.min_force c.max_force c.lambda))
          (λ apart.
            ap (λ d. limited d opened)
              (update_window-init_window displacement c.displacement (least c)
                c.max_positive_displacement c.max_disp_variation c.delta)))
    where
      limited : Window F → Window F → Cable F
      limited d l = record (moved force displacement c) { delta = d; lambda = l }

      fresh : Window F
      fresh =
          init_window displacement (least c) c.max_positive_displacement c.max_disp_variation
            c.delta

      opened : Window F
      opened = open_low c.min_force (open_high c.max_force c.lambda)

  -- initLimit changes the limits alone.
  cable_init_limit-same :
      (time : F) (c : Cable F)
      → cable_init_limit time c ≡ record c {
        delta = (cable_init_limit time c).delta;
        lambda = (cable_init_limit time c).lambda;
      }
  unfolding cable_init_limit
  cable_init_limit-same time c =
      if_elim (λ t. t ≡ record c { delta = t.delta; lambda = t.lambda })
        (time ≺ c.constrain_at_time) _ _ (λ _. refl) (λ _. refl)

  -- For a cable that was set up, and is told results, not before constrainAtTime, with a force for
  -- each of its lines, storeResults leaves the cable, but for its colour, as a fresh start at the
  -- new force and displacement would: nothing is left of the limits of earlier steps. The forces it
  -- gives back are those that it was told, or zero where it is not to apply its force.
  pub cable_store_results-cable_init_limit :
      (before now : F) (c : Cable F) (lambda delta : List F) (force displacement : F)
      → (before ≺ c.constrain_at_time) ≡ false
      → (now ≺ c.constrain_at_time) ≡ false
      → get_elem? lambda 0 ≡ some force
      → get_elem? delta 0 ≡ some displacement
      → c.nb_lines ≤ length lambda
      → Returns
          (λ (c', answer).
            (c' ≡ record (cable_init_limit now (moved force displacement c)) { red = c'.red })
            × IsApplied c.apply_force c.nb_lines lambda answer)
          (cable_store_results now (cable_init_limit before c) lambda delta)
  unfolding cable_store_results cable_update_visualization
  cable_store_results-cable_init_limit before now c lambda delta force displacement h h' first
        moved_by room =
      let same = cable_update_limit-cable_init_limit before now force displacement c h h' in
      let limits = cable_init_limit-same before c in
      let told : Cable F =
        cable_update_limit now (moved force displacement (cable_init_limit before c)) in
      rw (first, moved_by)
        (Returns-bind (IsApplied c.apply_force c.nb_lines lambda) _ _ _
          (subst
            (λ (q : Cable F).
              Returns (IsApplied c.apply_force c.nb_lines lambda)
                (actuator_store_results q.apply_force q.nb_lines lambda))
            (sym limits) (actuator_store_results-IsApplied c.apply_force c.nb_lines lambda room))
          λ answer applied. (
            _,
            refl,
            (
              if_elim
                  (λ t.
                    t ≡ record (cable_init_limit now (moved force displacement c)) { red = t.red })
                  (cable_init_limit before c).display_limit _ _
                  (λ _.
                    ap (λ (q : Cable F). record q { red = (cable_update_visualization told).red })
                      same)
                  (λ _. ap (λ (q : Cable F). record q { red = told.red }) same),
              applied,
            ),
          ))
