-- ===== src/ConstraintHandler/Inequality/Totality.antt =====
-- buildInequalityConstraintMatrices as a whole: it ends, reads and writes no vector out of its bounds,
-- and A, bu, bl and constraintsId come out in step.
use soft_robots_inverse.Prelude.{
  List, Returns, if_elim, true, ℕ, ◌+◌, ◌-◌, ◌<◌, ◌≡◌, length, ltb, Returns-bind, Returns-mono,
  false, inl, inr, refl, suc, while-Returns, ◌≤◌, arith, tests,
}
use soft_robots_inverse.Problem.{Problem, nb_actuator_rows, nb_equality_rows}
use soft_robots_inverse.Double.{Double}
use soft_robots_inverse.ConstraintHandler.Sides.{any_two_sides, any_two_sides-get_elem?}
use soft_robots_inverse.ConstraintHandler.Shape.{IsShaped, Names}
use soft_robots_inverse.ConstraintHandler.Inequality.{
  Cursor, inequality_step, actuator_inequalities, actuator_step, contact_inequalities, contact_step,
  equality_step, inequality_rows,
}
use soft_robots_inverse.ConstraintHandler.Ready.{
  IsAligned, IsReady, Place, actuator-Place, contact-Place, start-Place, equality-Place,
  first_equality,
}
use soft_robots_inverse.ConstraintHandler.Rows.{Inequalities}
use soft_robots_inverse.ConstraintHandler.Inequality.Contacts.{contact_inequalities-Shaped}
use soft_robots_inverse.ConstraintHandler.Inequality.Lines.{actuator_inequalities-Shaped}

module _ {F : Type 0} ⦃R : Double F⦄ (e : Problem F) (stride : ℕ) (result : List F)
    (ready : IsReady e stride result) (aligned : IsAligned e) (base : Names)
    (sided : any_two_sides e.lists.actuators ≡ true
      → e.system.has_both_side_inequality_constraint ≡ true) where
  open ready use {sized}

  abbrev IsGood : Cursor F → Type 0
  IsGood s = Place e stride s.i s.actuators_id × IsShaped e base s.built

  abbrev measure : Cursor F → ℕ
  measure s = (e.system.dim - s.i) + (length e.lists.actuators - s.actuators_id)

  abbrev Next : Cursor F → Cursor F → Type 0
  Next s t = IsGood t × (measure t < measure s)

  -- The three kinds of rounds.
  actuator_round :
      (s : Cursor F) → IsGood s → s.i < nb_actuator_rows e → Returns (Next s) (actuator_step e s)
  unfolding actuator_step
  actuator_round s (place, v) h =
      let (ac, at, fits, place', lt) =
        actuator-Place e stride result ready s.i s.actuators_id place h in
      rw at (
        Returns-bind (IsShaped e base) (Next s) (actuator_inequalities e ac s.i s.built) _
          (actuator_inequalities-Shaped e stride result ready base ac s.i s.built fits
            (λ two. sided (any_two_sides-get_elem? e.lists.actuators s.actuators_id ac at two)) v)
          λ n w. (_, refl, ((place', w), omega (arith, sized))))

  equality_round :
      (s : Cursor F)
      → IsGood s
      → nb_actuator_rows e ≤ s.i
      → s.i < nb_actuator_rows e + nb_equality_rows e
      → Returns (Next s) (equality_step e s)
  unfolding equality_step
  equality_round s (place, v) h h' =
      let (m, p) = equality-Place e stride result ready s.i s.actuators_id place h h' in
      let (ec, at, lines) = first_equality e stride result ready (omega arith) in
      rw at (
        _,
        refl,
        (
          (inr (inl (m, omega (arith, lines, p.1))), v),
          omega (arith, lines, ready.some_line, sized),
        ),
      )

  contact_round :
      (s : Cursor F)
      → IsGood s
      → nb_actuator_rows e + nb_equality_rows e ≤ s.i
      → s.i < e.system.dim
      → Returns (Next s) (contact_step e result s)
  unfolding contact_step
  contact_round s (place, v) h h' =
      let (m, p) = contact-Place e stride result ready s.i s.actuators_id place h h' in
      Returns-bind (IsShaped e base) (Next s) (contact_inequalities e result s.i s.built) _
        (contact_inequalities-Shaped e stride result ready base s.i (suc m) s.built h p.1 h' aligned
          v)
        λ n w. (_, refl, ((inr (inr (m, omega (arith, p.1))), w), grind (arith, p.1)))

  inequality_step-IsGood :
      (s : Cursor F) → IsGood s → s.i < e.system.dim → Returns (Next s) (inequality_step e result s)
  unfolding inequality_step
  inequality_step-IsGood s good h =
      if_elim (Returns (Next s)) (ltb s.i (nb_actuator_rows e)) _ _
        (λ a. actuator_round s good (omega tests))
        λ na.
          if_elim (Returns (Next s)) (ltb s.i (nb_actuator_rows e + nb_equality_rows e)) _ _
            (λ b. equality_round s good (omega tests) (omega tests))
            (λ nb. contact_round s good (omega tests) h)

  pub inequality_rows-IsShaped :
      (n : Inequalities F)
      → IsShaped e base n
      → Returns (λ s. IsShaped e base s.built) (inequality_rows e result n)
  unfolding inequality_rows
  inequality_rows-IsShaped n v =
      Returns-mono (λ s. IsGood s × (ltb s.i e.system.dim ≡ false)) (λ s. IsShaped e base s.built) _
        (λ s p. p.0.1)
        (while-Returns IsGood measure (λ s. ltb s.i e.system.dim) (inequality_step e result)
          (λ s good more. inequality_step-IsGood s good (omega tests))
          (e.system.dim + length e.lists.actuators + 1) _ (omega arith)
          (start-Place e stride result ready, v))
