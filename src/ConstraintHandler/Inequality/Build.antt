-- ===== src/ConstraintHandler/Inequality/Build.antt =====
-- buildInequalityConstraintMatrices, from the consistency check to the stored matrices.
use soft_robots_inverse.Prelude.{
  All, List, Returns, false, if◌then◌else◌, ℕ, ◌&&◌, ◌+◌, ◌||◌, ◌≡◌, length, arith, Returns-bind,
  if_elim, refl, true, All-Unit, Bool, Returns-mono,
}
use soft_robots_inverse.Problem.{Problem}
use soft_robots_inverse.Double.{Double}
use soft_robots_inverse.ConstraintHandler.Sides.{any_two_sides, mark_actuators, mark_limits}
use soft_robots_inverse.ConstraintHandler.Shape.{IsShaped, IsWide, IsVariable, Names}
use soft_robots_inverse.ConstraintHandler.Inequality.{
  build_inequality_constraint_matrices, cleared, limited, inequality_rows,
}
use soft_robots_inverse.ConstraintHandler.Ready.{IsAligned, IsReady}
use soft_robots_inverse.ConstraintHandler.Rows.{check_clists_consistency}
use soft_robots_inverse.ConstraintHandler.Inequality.Totality.{inequality_rows-IsShaped}
use soft_robots_inverse.ConstraintHandler.Limits.Totality.{add_contact_limits-IsShaped}

module _ {F : Type 0} ⦃R : Double F⦄ where
  mark-IsReady :
      (e : Problem F) (stride : ℕ) (result : List F)
      → IsReady e stride result
      → IsReady (mark_limits (mark_actuators e)) stride result
  unfolding mark_limits mark_actuators
  mark-IsReady e stride result r = record {
    sized = r.sized;
    actuator_lines = r.actuator_lines;
    equality_lines = r.equality_lines;
    contact_lines = r.contact_lines;
    uniform = r.uniform;
    some_line = r.some_line;
    result_size = r.result_size;
    previous_size = r.previous_size;
  }

  -- The matrices of `e'` have a bound for each row, from above and, where some constraint has two
  -- sides, from below; constraintsId has grown by one number for each row; the rows are as wide as the
  -- problem.
  pub record IsBalanced (e e' : Problem F) : Type 0 where
    pub uppers : length e'.system.bu ≡ length e'.system.a
    pub lowers :
        length e'.system.bl
        ≡ (if e'.system.has_both_side_inequality_constraint then length e'.system.a else 0)
    pub names :
        length e'.params.constraints_id ≡ length e.params.constraints_id + length e'.system.a
    pub widths : All (IsWide e) e'.system.a
    pub sides : e'.system.has_both_side_inequality_constraint ≡ (
        (e.system.has_both_side_inequality_constraint || any_two_sides e.lists.actuators)
        || (e.params.has_min_contact_forces && e.params.has_max_contact_forces))
    pub same : e' ≡ record e {
      params = record (e.params) { constraints_id = e'.params.constraints_id };
      system = record (e.system) {
        a = e'.system.a;
        bu = e'.system.bu;
        bl = e'.system.bl;
        has_both_side_inequality_constraint = e'.system.has_both_side_inequality_constraint;
      };
    }

  -- The same, and the numbers in constraintsId are those of variables, if they were before.
  abbrev pub IsNamed : Bool → Problem F → Problem F → Type 0
  IsNamed strict e e' = IsBalanced e e' × All (IsVariable e strict) e'.params.constraints_id

  module _ (e : Problem F) (stride : ℕ) (result : List F) (ready : IsReady e stride result)
      (aligned : IsAligned e) (strict : Bool)
      (known : All (IsVariable e strict) e.params.constraints_id) where
    marked : Problem F
    marked = mark_limits (mark_actuators e)

    base : Names
    base = record { count = length e.params.constraints_id; strict = strict }

    sided :
        any_two_sides (marked.lists.actuators) ≡ true
        → marked.system.has_both_side_inequality_constraint ≡ true
    unfolding marked mark_limits mark_actuators
    sided two = ground arith

    cleared-IsShaped : IsShaped marked base (cleared e)
    unfolding base marked mark_limits mark_actuators
    cleared-IsShaped = record {
      uppers = refl;
      lowers =
          if_elim (λ n. 0 ≡ n) marked.system.has_both_side_inequality_constraint _ _ (λ _. refl)
            (λ _. refl);
      names = omega arith;
      known = known;
      widths = tt;
    }

    limited-IsShaped : Returns (IsShaped marked base) (limited e)
    unfolding limited marked mark_actuators
    limited-IsShaped =
        if_elim (Returns (IsShaped marked base))
          (e.params.has_min_contact_forces || e.params.has_max_contact_forces) _ _
          (λ _.
            add_contact_limits-IsShaped (mark_actuators e) ready.sized ready.contact_lines base
              (cleared e) cleared-IsShaped)
          (λ _. (_, refl, cleared-IsShaped))

    pub build_inequality_constraint_matrices-IsNamed :
        check_clists_consistency e ≡ false
        → Returns (IsNamed strict e) (build_inequality_constraint_matrices e result)
    unfolding build_inequality_constraint_matrices base marked mark_limits mark_actuators
    build_inequality_constraint_matrices-IsNamed consistent =
        if_elim (Returns (IsNamed strict e)) (check_clists_consistency e) _ _
          (λ wrong. ground (arith, wrong))
          λ _.
            Returns-bind (IsShaped marked base) (IsNamed strict e) (limited e) _ limited-IsShaped
              λ n v.
                Returns-bind (λ s. IsShaped marked base s.built) (IsNamed strict e)
                  (inequality_rows marked result n) _
                  (inequality_rows-IsShaped marked stride result
                    (mark-IsReady e stride result ready) aligned base sided n v)
                  λ s w. (
                    _,
                    refl,
                    (
                      record {
                        uppers = w.uppers;
                        lowers = w.lowers;
                        names = w.names;
                        widths = w.widths;
                        sides = refl;
                        same = refl;
                      },
                      w.known,
                    ),
                  )

  -- For a problem whose lists have the sizes that the collection gives them and pass the
  -- consistency check, equalities of equal line counts, results with an entry for each variable
  -- where there are contacts, and with friction, no equality or no contact,
  -- buildInequalityConstraintMatrices faults nowhere. It leaves one entry of bu and one new number
  -- in constraintsId for each row of A, one entry of bl for each row or none at all, according to
  -- the flag, and rows as wide as the problem; the flag is raised if it was before or for two-sided
  -- bounds; and nothing else of the problem changes.
  pub build_inequality_constraint_matrices-IsBalanced :
      (e : Problem F) (stride : ℕ) (result : List F)
      → IsReady e stride result
      → IsAligned e
      → check_clists_consistency e ≡ false
      → Returns (IsBalanced e) (build_inequality_constraint_matrices e result)
  build_inequality_constraint_matrices-IsBalanced e stride result ready aligned consistent =
      Returns-mono (IsNamed false e) (IsBalanced e) _ (λ e' w. w.0)
        (build_inequality_constraint_matrices-IsNamed e stride result ready aligned false
          (All-Unit e.params.constraints_id) consistent)
