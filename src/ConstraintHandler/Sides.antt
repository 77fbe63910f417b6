-- ===== src/ConstraintHandler/Sides.antt =====
-- ConstraintHandler.cpp: where buildInequalityConstraintMatrices raises hasBothSideInequalityConstraint.
use soft_robots_inverse.Prelude.{
  Bool, List, [], false, ◌&&◌, ◌||◌, ◌∷◌, get_elem?, some, suc, true, zero, ℕ, ◌≡◌, subst, sym,
  some-injective, arith,
}
use soft_robots_inverse.Problem.{BaseConstraint, Problem}

module _ {F : Type 0} where
  -- Whether an actuator has two bounds on its displacement, or two on its force.
  abbrev pub has_two_sides : BaseConstraint F → Bool
  has_two_sides ac =
      (ac.has_delta_max && ac.has_delta_min) || (ac.has_lambda_max && ac.has_lambda_min)

  unfoldable pub any_two_sides : List (BaseConstraint F) → Bool
  any_two_sides [] = false
  any_two_sides (ac ∷ rest) = has_two_sides ac || any_two_sides rest

  pub any_two_sides-get_elem? :
      (cs : List (BaseConstraint F)) (i : ℕ) (c : BaseConstraint F)
      → get_elem? cs i ≡ some c
      → has_two_sides c ≡ true
      → any_two_sides cs ≡ true
  unfolding any_two_sides
  any_two_sides-get_elem? [] i c at two = cc
  any_two_sides-get_elem? (d ∷ cs) zero c at two =
      let same : has_two_sides d ≡ true =
        subst (λ x. has_two_sides x ≡ true) (sym (some-injective _ _ at)) two in
      rw same
  any_two_sides-get_elem? (d ∷ cs) (suc i) c at two =
      ground (arith, any_two_sides-get_elem? cs i c at two)

  -- The problem with A, bu and bl empty, and the flag raised if an actuator has two sides.
  unfoldable pub mark_actuators : Problem F → Problem F
  mark_actuators e = record e {
    system = record (e.system) {
      has_both_side_inequality_constraint =
          e.system.has_both_side_inequality_constraint || any_two_sides e.lists.actuators;
    };
  }

  -- The flag raised if the sum of the contact forces is bounded on both sides.
  unfoldable pub mark_limits : Problem F → Problem F
  mark_limits e = record e {
    system = record (e.system) {
      has_both_side_inequality_constraint =
          e.system.has_both_side_inequality_constraint
          || (e.params.has_min_contact_forces && e.params.has_max_contact_forces);
    };
  }
