-- ===== src/ConstraintHandler/Bounds/Contacts.antt =====
-- getConstraintOnLambda: the bounds of one contact, in each of its states.
use soft_robots_inverse.Prelude.{
  List, Option, Returns, Returns-bind, Returns-mono, false, for_range, for_range-Returns, get_elem?,
  if_elim, if◌then◌else◌, inl, inr, refl, some, suc, true, zero, ℕ, ◌*◌, ◌+◌, ◌-◌, ◌<◌, ◌==◌, ◌>>=◌,
  ◌||◌, ◌≡◌, ◌≤◌, ◌⊎◌, arith, subst,
}
use soft_robots_inverse.Contact.{ContactState, active, inactive, sliding, stick}
use soft_robots_inverse.Problem.{Problem, nb_actuator_rows, nb_contact_rows, nb_equality_rows}
use soft_robots_inverse.Double.{Double, nought}
use soft_robots_inverse.ConstraintHandler.Ready.{IsFrictional, IsFrictionless, IsReady}
use soft_robots_inverse.ConstraintHandler.Bounds.{
  bound, BoundCursor, friction_bounds, frictionless_bounds, pushes_back, sliding_bound, stick_bound,
  huge, negate,
}
use soft_robots_inverse.ConstraintHandler.Bounds.Filled.{
  IsBack, IsBound, IsFrictionPair, IsWritten, bound-IsWritten, of_friction, of_normal,
}
use soft_robots_inverse.ConstraintHandler.Bounds.Back.{pushes_back-IsBack}

module _ {F : Type 0} ⦃R : Double F⦄ (e : Problem F) (stride : ℕ) (result : List F)
    (ready : IsReady e stride result) (some_row : 0 < nb_contact_rows e) where
  module _ (s : BoundCursor F) (i c : ℕ) (f : IsFrictional e.lists e.params)
      (at_contact : i ≡ nb_actuator_rows e + nb_equality_rows e + c * 3) where
    -- The pair of line `k` of contact `c`.
    line-IsBound :
        (state : ContactState) (k : ℕ) (low high : F)
        → get_elem? e.params.contact_states c ≡ some state
        → k < 3
        → IsFrictionPair e result state k (i + k) low high
        → IsBound e result (i + k) low high
    line-IsBound state k low high at h pair = of_friction f.rubs state c k at h (omega arith) pair

    normal-IsBound :
        (state : ContactState) (low high : F)
        → get_elem? e.params.contact_states c ≡ some state
        → IsFrictionPair e result state 0 i low high
        → IsBound e result i low high
    normal-IsBound state low high at pair =
        of_friction f.rubs state c 0 at (omega arith) (omega arith) pair

    sliding_bound-IsWritten :
        get_elem? e.params.contact_states c ≡ some sliding
        → (k : ℕ) (t : BoundCursor F) → 1 ≤ k
        → k < 3
        → i + k < e.system.dim
        → IsWritten e result s (i + k) t
        → Returns (IsWritten e result s (i + k + 1)) (sliding_bound e result i k t)
    unfolding sliding_bound
    sliding_bound-IsWritten at zero t few more h w = absurd (omega arith)
    sliding_bound-IsWritten at (suc k) t few more h w =
        let P = IsWritten e result s (i + suc k + 1) in
        if_elim (Returns P)
          ((suc k == e.params.sliding_dir_id1) || (suc k == e.params.sliding_dir_id2)) _ _
          (λ _.
            Returns-bind (IsBack e result (i + suc k)) P (pushes_back e result (i + suc k)) _
              (pushes_back-IsBack e stride result ready some_row (i + suc k) h)
              λ back seen.
                elim back
                    as (λ b.
                      IsBack e result (i + suc k) b
                      → Returns P (
                          if b
                          then bound (i + suc k) (negate huge) nought t
                          else bound (i + suc k) nought huge t)) [
                            | true ↦ λ seen.
                                bound-IsWritten e result s t (i + suc k) _ _ h
                                  (line-IsBound sliding (suc k) _ _ at more
                                    (inl (seen, refl, refl)))
                                  w
                            | false ↦ λ seen.
                                bound-IsWritten e result s t (i + suc k) _ _ h
                                  (line-IsBound sliding (suc k) _ _ at more
                                    (inr (seen, refl, refl)))
                                  w
                          ]
                  seen)
          (λ other. let first = f.first_dir in let second = f.second_dir in absurd (ground arith))

    stick_bound-IsWritten :
        (state : ContactState)
        → get_elem? e.params.contact_states c ≡ some state
        → (state ≡ stick) ⊎ (state ≡ active)
        → (k : ℕ) (t : BoundCursor F) → 1 ≤ k
        → k < 3
        → i + k < e.system.dim
        → IsWritten e result s (i + k) t
        → Returns (IsWritten e result s (i + k + 1)) (stick_bound e i k t)
    unfolding stick_bound
    stick_bound-IsWritten state at kind zero t few more h w = absurd (omega arith)
    stick_bound-IsWritten state at kind (suc k) t few more h w =
        if_elim (Returns (IsWritten e result s (i + suc k + 1))) ((suc k == 1) || (suc k == 2)) _ _
          (λ _.
            bound-IsWritten e result s t (i + suc k) _ _ h
              (line-IsBound state (suc k) _ _ at more (free state kind)) w)
          (λ other. absurd (ground arith))
      where
        free :
            (state : ContactState)
            → (state ≡ stick) ⊎ (state ≡ active)
            → IsFrictionPair e result state (suc k) (i + suc k) (negate huge) huge
        free stick kind = (refl, refl)
        free active kind = (refl, refl)
        free sliding (inl same) = cc
        free sliding (inr same) = cc
        free inactive (inl same) = cc
        free inactive (inr same) = cc

    -- The tangents of a contact, after its normal.
    tangents-IsWritten :
        (body : ℕ → BoundCursor F → Option (BoundCursor F)) (t : BoundCursor F)
        → e.params.contact_nb_lines ≡ 3
        → i + 2 < e.system.dim
        → ((k : ℕ) (t : BoundCursor F)
            → 1 ≤ k
            → k < 3
            → i + k < e.system.dim
            → IsWritten e result s (i + k) t
            → Returns (IsWritten e result s (i + k + 1)) (body k t))
        → IsWritten e result s (i + 1) t
        → Returns
            (IsWritten e result s (i + 3))
            (for_range (e.params.contact_nb_lines - 1) 1 body t)
    tangents-IsWritten body t three room each w =
        for_range-Returns (λ k. IsWritten e result s (i + k)) body (e.params.contact_nb_lines - 1) 1
          3 t (omega arith)
          (λ k t' lo hi w'.
            Returns-mono (IsWritten e result s (i + k + 1)) (IsWritten e result s (i + (k + 1))) _
              (λ t'' w''. subst (λ m. IsWritten e result s m t'') (omega arith) w'')
              (each k t' lo hi (omega arith) w'))
          w

    normal-IsWritten :
        (body : ℕ → BoundCursor F → Option (BoundCursor F)) (t : BoundCursor F)
        → e.params.contact_nb_lines ≡ 3
        → i + 2 < e.system.dim
        → ((k : ℕ) (t : BoundCursor F)
            → 1 ≤ k
            → k < 3
            → i + k < e.system.dim
            → IsWritten e result s (i + k) t
            → Returns (IsWritten e result s (i + k + 1)) (body k t))
        → IsBound e result i nought huge
        → IsWritten e result s i t
        → Returns
            (IsWritten e result s (i + 3))
            (bound i nought huge t >>= λ t'. for_range (e.params.contact_nb_lines - 1) 1 body t')
    normal-IsWritten body t three room each ok w =
        Returns-bind (IsWritten e result s (i + 1)) (IsWritten e result s (i + 3))
          (bound i nought huge t) _ (bound-IsWritten e result s t i _ _ (omega arith) ok w)
          λ t' w'. tangents-IsWritten body t' three room each w'

    pub friction_bounds-IsWritten :
        (state : ContactState) (t : BoundCursor F)
        → get_elem? e.params.contact_states c ≡ some state
        → e.params.contact_nb_lines ≡ 3
        → i + 2 < e.system.dim
        → IsWritten e result s i t
        → Returns (IsWritten e result s (i + 3)) (friction_bounds e state result i t)
    unfolding friction_bounds
    friction_bounds-IsWritten sliding t at three room w =
        normal-IsWritten (sliding_bound e result i) t three room (sliding_bound-IsWritten at)
          (normal-IsBound sliding _ _ at (refl, refl)) w
    friction_bounds-IsWritten active t at three room w =
        normal-IsWritten (stick_bound e i) t three room (stick_bound-IsWritten active at (inr refl))
          (normal-IsBound active _ _ at (refl, refl)) w
    friction_bounds-IsWritten stick t at three room w =
        normal-IsWritten (stick_bound e i) t three room (stick_bound-IsWritten stick at (inl refl))
          (normal-IsBound stick _ _ at (refl, refl)) w
    friction_bounds-IsWritten inactive t at three room w =
        Returns-bind (IsWritten e result s (i + 1)) (IsWritten e result s (i + 3))
          (bound i nought nought t) _
          (bound-IsWritten e result s t i _ _ (omega arith)
            (normal-IsBound inactive _ _ at (refl, refl)) w)
          λ t1 w1.
            Returns-bind (IsWritten e result s (i + 1 + 1)) (IsWritten e result s (i + 3))
              (bound (i + 1) nought nought t1) _
              (bound-IsWritten e result s t1 (i + 1) _ _ (omega arith)
                (line-IsBound inactive 1 _ _ at (omega arith) (refl, refl)) w1)
              λ t2 w2.
                Returns-mono (IsWritten e result s (i + 2 + 1)) (IsWritten e result s (i + 3)) _
                  (λ t3 w3. subst (λ m. IsWritten e result s m t3) (omega arith) w3)
                  (bound-IsWritten e result s t2 (i + 2) _ _ (omega arith)
                    (line-IsBound inactive 2 _ _ at (omega arith) (refl, refl))
                    (subst (λ m. IsWritten e result s m t2) (omega arith) w2))

  pub frictionless_bounds-IsWritten :
      (s : BoundCursor F) (i c : ℕ) (state : ContactState) (t : BoundCursor F)
      → IsFrictionless e.lists e.params
      → i ≡ nb_actuator_rows e + nb_equality_rows e + c
      → get_elem? e.params.contact_states c ≡ some state
      → i < e.system.dim
      → IsWritten e result s i t
      → Returns (IsWritten e result s (i + 1)) (frictionless_bounds e state i t)
  unfolding frictionless_bounds
  frictionless_bounds-IsWritten s i c active t f place at h w =
      bound-IsWritten e result s t i _ _ h (of_normal f.slips active c at place (refl, refl)) w
  frictionless_bounds-IsWritten s i c inactive t f place at h w =
      bound-IsWritten e result s t i _ _ h (of_normal f.slips inactive c at place (refl, refl)) w
  frictionless_bounds-IsWritten s i c stick t f place at h w =
      bound-IsWritten e result s t i _ _ h (of_normal f.slips stick c at place (refl, refl)) w
  frictionless_bounds-IsWritten s i c sliding t f place at h w =
      bound-IsWritten e result s t i _ _ h (of_normal f.slips sliding c at place (refl, refl)) w
