-- ===== src/Double.antt =====
-- The arithmetic that the sources do on `double`: its operations and tests are a parameter, since a
-- double is neither an integer nor a real. No law of rounding is assumed; a theorem that needs one
-- names it as a hypothesis. `rabs` is sofa::helper::rabs.
use soft_robots_inverse.Prelude.{Bool}

pub record Double (F : Type 0) : Type 0 where
  pub zero_f : F
  pub one_f : F
  pub two_f : F
  pub plus : F → F → F
  pub minus : F → F → F
  pub times : F → F → F
  pub divided : F → F → F
  pub negate : F → F
  pub rabs : F → F
  -- `a < b` and `a <= b`; `a > b` is `b < a`.
  pub lt : F → F → Bool
  pub le : F → F → Bool
  -- The literals 1e-14, 1e-13, 1e-5 and 1e99.
  pub tiny : F
  pub small : F
  pub slack : F
  pub huge : F

module _ {F : Type 0} ⦃R : Double F⦄ where
  infixl 65 ◌⊕◌ ◌⊖◌
  infixl 70 ◌⊗◌ ◌⊘◌
  abbrev pub ◌⊕◌ : F → F → F
  a ⊕ b = R.plus a b

  abbrev pub ◌⊖◌ : F → F → F
  a ⊖ b = R.minus a b

  abbrev pub ◌⊗◌ : F → F → F
  a ⊗ b = R.times a b

  abbrev pub ◌⊘◌ : F → F → F
  a ⊘ b = R.divided a b

  infix 50 ◌≺◌ ◌≼◌
  abbrev pub ◌≺◌ : F → F → Bool
  a ≺ b = R.lt a b

  abbrev pub ◌≼◌ : F → F → Bool
  a ≼ b = R.le a b

  abbrev pub negate : F → F
  negate = R.negate

  abbrev pub rabs : F → F
  rabs = R.rabs

  abbrev pub nought : F
  nought = R.zero_f

  abbrev pub one : F
  one = R.one_f

  abbrev pub two : F
  two = R.two_f

  abbrev pub tiny : F
  tiny = R.tiny

  abbrev pub small : F
  small = R.small

  abbrev pub slack : F
  slack = R.slack

  abbrev pub huge : F
  huge = R.huge
