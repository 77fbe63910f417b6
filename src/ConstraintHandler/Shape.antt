-- ===== src/ConstraintHandler/Shape.antt =====
-- The shape of [bl <= A <= bu] as ConstraintHandler.cpp builds it: as many bounds as rows, bl in use
-- only where some constraint has two sides, and one number in constraintsId for each row.
use soft_robots_inverse.Double.{Double, negate, huge}
use soft_robots_inverse.Problem.{Problem}
use soft_robots_inverse.Prelude.{
  ℕ, List, length, ◌≡◌, false, if◌then◌else◌, true, ◌+◌, All, arith, length-push, All-push,
  Bool-cases, Bool, ◌<◌,
}
use soft_robots_inverse.ConstraintHandler.Rows.{
  Inequalities, push_unbounded, push_upper, push_lower, push_row,
}

abbrev pub IsWide : {F : Type 0} → Problem F → List F → Type 0
IsWide e row = length row ≡ e.system.dim

-- What is known of constraintsId before: its length, and whether every number in it is a variable's.
pub record Names : Type 0 where
  pub count : ℕ
  pub strict : Bool

abbrev pub IsVariable : {F : Type 0} → Problem F → Bool → ℕ → Type 0
IsVariable e true i = i < e.system.dim
IsVariable e false i = Unit

pub IsVariable-lt :
    {F : Type 0} (e : Problem F) (strict : Bool) (i : ℕ) → i < e.system.dim → IsVariable e strict i
IsVariable-lt e true i h = h
IsVariable-lt e false i h = tt

module _ {F : Type 0} ⦃R : Double F⦄ (e : Problem F) (base : Names) where
  pub record IsShaped (n : Inequalities F) : Type 0 where
    pub uppers : length n.bu ≡ length n.a
    pub lowers :
        length n.bl ≡ (if e.system.has_both_side_inequality_constraint then length n.a else 0)
    pub names : length n.ids ≡ base.count + length n.a
    pub known : All (IsVariable e base.strict) n.ids
    pub widths : All (IsWide e) n.a

  module _ (row : List F) (i : ℕ) (x : F) (n : Inequalities F) (v : IsShaped n)
      (wide : IsWide e row) (inside : i < e.system.dim) where
    pub push_lower-IsShaped :
        (y : F)
        → e.system.has_both_side_inequality_constraint ≡ true
        → IsShaped (push_lower y (push_upper x (push_row row i n)))
    push_lower-IsShaped y both = ground (
      arith,
      length-push n.bl y,
      length-push n.a row,
      length-push n.bu x,
      length-push n.ids i,
      All-push (IsWide e) n.a row v.widths wide,
      All-push (IsVariable e base.strict) n.ids i v.known (IsVariable-lt e base.strict i inside),
    )

    pub push_upper-IsShaped :
        e.system.has_both_side_inequality_constraint ≡ false
        → IsShaped (push_upper x (push_row row i n))
    push_upper-IsShaped one_sided = ground (
      arith,
      length-push n.a row,
      length-push n.bu x,
      length-push n.ids i,
      All-push (IsWide e) n.a row v.widths wide,
      All-push (IsVariable e base.strict) n.ids i v.known (IsVariable-lt e base.strict i inside),
    )

    -- A row with one side: bl is filled up where it is in use.
    pub push_unbounded-IsShaped : IsShaped (push_unbounded e (push_upper x (push_row row i n)))
    push_unbounded-IsShaped = ground (
      arith,
      push_lower-IsShaped (negate huge),
      push_upper-IsShaped,
      Bool-cases e.system.has_both_side_inequality_constraint,
    )
