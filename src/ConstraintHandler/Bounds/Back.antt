-- ===== src/ConstraintHandler/Bounds/Back.antt =====
-- getConstraintOnLambda: the former sign of a tangential force.
use soft_robots_inverse.Prelude.{
  Bool, Bool-cases, List, Returns, false, get_elem?-lt, if_elim, inl, inr, refl, some, true, ℕ,
  ◌&&◌, ◌<◌, ◌≡◌, ◌⊎◌, ltb, length, arith,
}
use soft_robots_inverse.Problem.{Problem, nb_contact_rows}
use soft_robots_inverse.Double.{Double, ◌≺◌, nought}
use soft_robots_inverse.ConstraintHandler.Ready.{IsReady}
use soft_robots_inverse.ConstraintHandler.Bounds.{pushes_back, rabs, small}
use soft_robots_inverse.ConstraintHandler.Bounds.Filled.{IsBack}

module _ {F : Type 0} ⦃R : Double F⦄ (e : Problem F) (stride : ℕ) (result : List F)
    (ready : IsReady e stride result) (some_row : 0 < nb_contact_rows e) where
  pub pushes_back-IsBack :
      (j : ℕ) → j < e.system.dim → Returns (IsBack e result j) (pushes_back e result j)
  unfolding pushes_back
  pushes_back-IsBack j h =
      let (x, ex) = get_elem?-lt result j (omega (arith, ready.result_size some_row)) in
      rw ex (
        if_elim (Returns (IsBack e result j)) (x ≺ nought) (some true) _
          (λ negative. (true, refl, (x, ex, inl negative)))
          λ not_negative.
            if_elim (Returns (IsBack e result j))
              ((rabs x ≺ small) && ltb 0 (length e.system.previous_result)) _ (some false)
              (λ before.
                let tiny_force : (rabs x ≺ small) ≡ true = ground arith in
                let (y, ey) =
                  get_elem?-lt e.system.previous_result j
                    (room (rabs x ≺ small) before (ready.previous_size some_row)) in
                rw ey (
                  y ≺ nought,
                  refl,
                  elim (Bool-cases (y ≺ nought)) [
                    | inl back ↦ rw back (x, ex, inr (tiny_force, (y, ey, back)))
                    | inr forth ↦ rw forth (x, ex, not_negative, inr (inr (y, ey, forth)))
                  ],
                ))
              (λ none_before. (
                false,
                refl,
                (
                  x,
                  ex,
                  not_negative,
                  elim (Bool-cases (rabs x ≺ small)) [
                    | inl tiny_force ↦ inr (inl (ground arith))
                    | inr large ↦ inl large
                  ],
                ),
              )))
    where
      room :
          (b : Bool)
          → (b && ltb 0 (length e.system.previous_result)) ≡ true
          → (length e.system.previous_result ≡ 0) ⊎ (length e.system.previous_result ≡ e.system.dim)
          → j < length e.system.previous_result
      room true before (inl none_before) = absurd (ground arith)
      room true before (inr same) = omega arith
      room false before c = cc
