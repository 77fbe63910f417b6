-- ===== src/Impl/Cycling.antt =====
-- QPInverseProblemImpl.cpp: isIn and isCycling, and the update of the sequences of pivots in
-- checkAndUpdatePivot, which keep the pivoting from going round in circles.
pub mod Repetition
use soft_robots_inverse.Prelude.{
  Bool, List, [], false, if◌then◌else◌, true, ℕ, ◌&&◌, ◌++◌, ◌==◌, ◌||◌, ◌∷◌,
}
use soft_robots_inverse.Impl.State.{Solver}

unfoldable pub is_in : List ℕ → ℕ → Bool
is_in [] elem = false
is_in (x ∷ xs) elem = (x == elem) || is_in xs elem

-- vector::operator==
unfoldable pub same_sequence : List ℕ → List ℕ → Bool
same_sequence [] [] = true
same_sequence [] (y ∷ ys) = false
same_sequence (x ∷ xs) [] = false
same_sequence (x ∷ xs) (y ∷ ys) = (x == y) && same_sequence xs ys

-- Whether the vector's last, or first, entry is there and is `pivot`.
unfoldable pub ends_with : List ℕ → ℕ → Bool
ends_with [] pivot = false
ends_with (x ∷ []) pivot = x == pivot
ends_with (x ∷ y ∷ ys) pivot = ends_with (y ∷ ys) pivot

unfoldable pub starts_with : List ℕ → ℕ → Bool
starts_with [] pivot = false
starts_with (x ∷ xs) pivot = x == pivot

module _ {F : Type 0} where
  unfoldable pub is_cycling : Solver F → ℕ → Bool
  is_cycling s pivot =
      (is_in s.current_sequence pivot && ends_with s.current_sequence pivot)
      || ((starts_with s.previous_sequence pivot && starts_with s.sequence pivot)
          || (same_sequence (s.current_sequence ++ (pivot ∷ [])) s.sequence
              || same_sequence (s.current_sequence ++ (pivot ∷ [])) s.previous_sequence))

  -- A pivot that is in the current sequence already closes it and begins the next.
  unfoldable pub record_pivot : ℕ → Solver F → Solver F
  record_pivot pivot s =
      if is_in s.current_sequence pivot
      then record s {
        previous_sequence = s.sequence;
        sequence = s.current_sequence;
        current_sequence = pivot ∷ [];
      }
      else record s { current_sequence = s.current_sequence ++ (pivot ∷ []) }
