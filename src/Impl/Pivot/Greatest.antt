-- ===== src/Impl/Pivot/Greatest.antt =====
-- checkAndUpdatePivot with friction, as a whole, where numbers are ordered.
use soft_robots_inverse.Prelude.{
  Bool, Bool-cases, List, Returns, Returns-mono, false, inl, inr, true, ◌≡◌, ◌⊎◌, ap,
}
use soft_robots_inverse.Double.{Double, ◌≺◌}
use soft_robots_inverse.Impl.Pivot.{check_and_update_pivot}
use soft_robots_inverse.Impl.State.{Solver}
use soft_robots_inverse.Impl.Pivot.Choice.{Climb, IsBeaten, here, up}
use soft_robots_inverse.Impl.Pivot.Step.{IsPivotable, IsUpdate, check_and_update_pivot-IsBeaten}

module _ {F : Type 0} ⦃R : Double F⦄ (irreflexive : (a : F) → (a ≺ a) ≡ false)
    (transitive : (a b c : F) → (a ≺ b) ≡ true → (b ≺ c) ≡ true → (a ≺ c) ≡ true) where
  Climb-lt : {low top : F} (x : F) → Climb low top → (top ≺ x) ≡ true → (low ≺ x) ≡ true
  Climb-lt x here less = less
  Climb-lt x (up {high} {top} way more) less = Climb-lt x way (transitive high top x more less)

  -- `top` is not below `x`.
  abbrev pub IsNotBelow : F → F → Type 0
  IsNotBelow top x = (top ≺ x) ≡ false

  IsBeaten-IsNotBelow : (top x : F) → IsBeaten top x → IsNotBelow top x
  IsBeaten-IsNotBelow top x (low, way, passed) = elim (Bool-cases (top ≺ x)) [
    | inl less ↦ absurd (clash passed (Climb-lt x way less))
    | inr done ↦ done
  ]
    where
      clash : (low ≡ x) ⊎ ((low ≺ x) ≡ false) → (low ≺ x) ≡ true → ⊥
      clash (inl same) less =
          let self = irreflexive x in let e : (low ≺ x) ≡ (x ≺ x) = ap (λ y. y ≺ x) same in cc
      clash (inr apart) less = cc

  module _ (s : Solver F) (result dual : List F) (p : IsPivotable s result dual) where
    IsUpdate-IsNotBelow :
        (r : Bool × Solver F)
        → IsUpdate IsBeaten s result dual p r
        → IsUpdate IsNotBelow s result dual p r
    IsUpdate-IsNotBelow (true, s') v = v
    IsUpdate-IsNotBelow (false, s') (c, found, (searched, (best, v))) =
        let (i, x, good, beaten) = v.chosen in
        (
          c,
          found,
          (
            searched,
            (
              best,
              record {
                chosen = (i, x, good, λ j k y h can. IsBeaten-IsNotBelow x y (beaten j k y h can));
                moved = v.moved;
                spent = v.spent;
                kept = v.kept;
                options = v.options;
                states = v.states;
              },
            ),
          ),
        )

    -- With friction, lists of the sizes that the collection gives them, all contacts in a state
    -- with friction, numbers in constraintsId that belong to actuators or contacts, and an order <
    -- that is irreflexive and transitive, checkAndUpdatePivot faults nowhere. A contact row is a
    -- candidate exactly if its contact, with its own displacements and forces, has reached its
    -- boundary by that row: a tangent, both tangents or the normal, as hasReachedBoundary tells. A
    -- row of constraintsId may give a pivot if its contact row is a candidate that isCycling does
    -- not forbid. The call stops, and changes nothing, only if no row may; else the pivot is such a
    -- row, and no such row has a greater dual value. The contact of that row, and no other, moves,
    -- to the state that its handler gives for its own displacements and forces, by one of the moves
    -- of the contact states, and isCycling forbids the pivot from then on.
    pub check_and_update_pivot-IsUpdate :
        Returns (IsUpdate IsNotBelow s result dual p) (check_and_update_pivot s result dual)
    check_and_update_pivot-IsUpdate =
        Returns-mono (IsUpdate IsBeaten s result dual p) (IsUpdate IsNotBelow s result dual p) _
          IsUpdate-IsNotBelow (check_and_update_pivot-IsBeaten s result dual p)
