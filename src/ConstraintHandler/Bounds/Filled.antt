-- ===== src/ConstraintHandler/Bounds/Filled.antt =====
-- getConstraintOnLambda: the bounds of one component or contact, written without a gap.
use soft_robots_inverse.Prelude.{
  ℕ, Bool-cases, List, Returns, Returns-mono, for_range, for_range-Returns, get_elem?,
  get_elem?-set_ne, get_elem?-set_self, inl, inr, length-set, refl, some, ◌+◌, ◌<◌, ◌==◌, ◌∙◌, ◌≡◌,
  ◌≢◌, ◌≤◌, length, set, arith, lt→ltb, ap, subst, [], suc, zero, ◌∷◌, Bool, false, true, ◌*◌, ◌⊎◌,
  sym,
}
use soft_robots_inverse.Problem.{BaseConstraint, Problem, nb_actuator_rows, nb_equality_rows}
use soft_robots_inverse.Double.{Double, nought, ◌≺◌}
use soft_robots_inverse.ConstraintHandler.Bounds.{
  BoundCursor, bound, huge, negate, resize, rabs, small,
}
use soft_robots_inverse.Contact.{ContactState, active, inactive, sliding, stick}
use soft_robots_inverse.ConstraintHandler.Ready.{lines_from}

module _ {F : Type 0} ⦃R : Double F⦄ where
  -- The value where it is given, and else `open_end`.
  abbrev pub IsLimit : Bool → F → F → F → Type 0
  IsLimit given value open_end x = (given ≡ true → x ≡ value) × (given ≡ false → x ≡ open_end)

module _ {F : Type 0} ⦃R : Double F⦄ (e : Problem F) (result : List F) where
  -- Whether the former force of variable `j` pulls back: it is negative, or it is small and that of the
  -- step before, which is there, is negative.
  abbrev pub IsBack : ℕ → Bool → Type 0
  IsBack j true =
      (x : F) × (get_elem? result j ≡ some x)
      × (((x ≺ nought) ≡ true)
          ⊎ (((rabs x ≺ small) ≡ true)
              × ((y : F) × (get_elem? e.system.previous_result j ≡ some y)
                  × ((y ≺ nought) ≡ true))))
  IsBack j false =
      (x : F) × (get_elem? result j ≡ some x)
      × ((x ≺ nought) ≡ false)
      × (((rabs x ≺ small) ≡ false)
          ⊎ ((length e.system.previous_result ≡ 0)
              ⊎ ((y : F) × (get_elem? e.system.previous_result j ≡ some y)
                  × ((y ≺ nought) ≡ false))))

  -- The bounds of line `k` of a contact with friction in each state, for variable `j`.
  abbrev pub IsFrictionPair : ContactState → ℕ → ℕ → F → F → Type 0
  IsFrictionPair inactive k j low high = (low ≡ nought) × (high ≡ nought)
  IsFrictionPair active zero j low high = (low ≡ nought) × (high ≡ huge)
  IsFrictionPair stick zero j low high = (low ≡ nought) × (high ≡ huge)
  IsFrictionPair sliding zero j low high = (low ≡ nought) × (high ≡ huge)
  IsFrictionPair active (suc k) j low high = (low ≡ negate huge) × (high ≡ huge)
  IsFrictionPair stick (suc k) j low high = (low ≡ negate huge) × (high ≡ huge)
  IsFrictionPair sliding (suc k) j low high =
      (IsBack j true × (low ≡ negate huge) × (high ≡ nought))
      ⊎ (IsBack j false × (low ≡ nought) × (high ≡ huge))

  -- The bounds of a contact without friction.
  abbrev pub IsNormalPair : ContactState → F → F → Type 0
  IsNormalPair active low high = (low ≡ nought) × (high ≡ huge)
  IsNormalPair inactive low high = (low ≡ nought) × (high ≡ nought)
  IsNormalPair stick low high = (low ≡ nought) × (high ≡ nought)
  IsNormalPair sliding low high = (low ≡ nought) × (high ≡ nought)

  -- The pair of bounds of variable `j`: of the line of an actuator or equality that stands at row `j`, or of
  -- the line of a contact, by the contact's state.
  pub data IsBound (j : ℕ) (low high : F) : Type 0 where
    of_actuator :
        (ac : BaseConstraint F) (id k : ℕ)
        → get_elem? e.lists.actuators id ≡ some ac
        → k < ac.nb_lines
        → j + lines_from e.lists.actuators id ≡ nb_actuator_rows e + k
        → IsLimit ac.has_lambda_min (ac.lambda_min k) (negate huge) low
        → IsLimit ac.has_lambda_max (ac.lambda_max k) huge high
        → IsBound j low high
    of_equality :
        (ec : BaseConstraint F) (id k : ℕ)
        → get_elem? e.lists.equality id ≡ some ec
        → k < ec.nb_lines
        → j + lines_from e.lists.equality id ≡ nb_actuator_rows e + nb_equality_rows e + k
        → IsLimit ec.has_lambda_equal (ec.lambda_equal k) (negate huge) low
        → IsLimit ec.has_lambda_equal (ec.lambda_equal k) huge high
        → IsBound j low high
    of_friction :
        (nought ≺ e.params.mu) ≡ true
        → (state : ContactState) (c k : ℕ) → get_elem? e.params.contact_states c ≡ some state
        → k < 3
        → j ≡ nb_actuator_rows e + nb_equality_rows e + c * 3 + k
        → IsFrictionPair state k j low high
        → IsBound j low high
    of_normal :
        (nought ≺ e.params.mu) ≡ false
        → (state : ContactState) (c : ℕ) → get_elem? e.params.contact_states c ≡ some state
        → j ≡ nb_actuator_rows e + nb_equality_rows e + c
        → IsNormalPair state low high
        → IsBound j low high

  -- Every variable before `n` has got its pair of bounds.
  pub record IsFilled (l u : List F) (n : ℕ) : Type 0 where
    pub lows : length l ≡ e.system.dim
    pub highs : length u ≡ e.system.dim
    pub pairs :
        (j : ℕ)
        → j < n
        → (low : F) × (high : F) × (get_elem? l j ≡ some low)
          × (get_elem? u j ≡ some high)
          × IsBound j low high

  -- `t` comes from `s` by writes to the two vectors alone, which are filled up to `n`.
  abbrev pub IsWritten : BoundCursor F → ℕ → BoundCursor F → Type 0
  IsWritten s n t =
      (t.i ≡ s.i)
      × (t.actuators_id ≡ s.actuators_id)
      × (t.equality_id ≡ s.equality_id)
      × IsFilled t.l t.u n

  set-IsFilled :
      (l u : List F) (j : ℕ) (low high : F)
      → j < e.system.dim
      → IsBound j low high
      → IsFilled l u j
      → IsFilled (set l j low) (set u j high) (j + 1)
  set-IsFilled l u j low high h ok v = record {
    lows = length-set l j low ∙ v.lows;
    highs = length-set u j high ∙ v.highs;
    pairs = λ k hk. elim (Bool-cases (k == j)) [
      | inl same ↦
          let eq : k ≡ j = ground arith in
          (
            low,
            high,
            ap (get_elem? (set l j low)) eq ∙ get_elem?-set_self l j low (omega (arith, v.lows)),
            ap (get_elem? (set u j high)) eq ∙ get_elem?-set_self u j high (omega (arith, v.highs)),
            subst (λ v. IsBound v low high) (sym eq) ok,
          )
      | inr apart ↦
          let ne : j ≢ k = λ eq. ground arith in
          let (a, b, ea, eb, p) = v.pairs k (ground arith) in
          (a, b, get_elem?-set_ne l j k low ne ∙ ea, get_elem?-set_ne u j k high ne ∙ eb, p)
    ];
  }

  pub bound-IsWritten :
      (s t : BoundCursor F) (j : ℕ) (low high : F)
      → j < e.system.dim
      → IsBound j low high
      → IsWritten s j t
      → Returns (IsWritten s (j + 1)) (bound j low high t)
  unfolding bound
  bound-IsWritten s t j low high h ok (ei, ea, eq, v) =
      rw
        (
          lt→ltb j (length t.u) (omega (arith, v.highs)),
          lt→ltb j (length t.l) (omega (arith, v.lows)),
        )
        (_, refl, (ei, ea, eq, set-IsFilled t.l t.u j low high h ok v))

  -- `n` lines from `i` on, each with a pair of its own.
  pub lines-IsWritten :
      (s : BoundCursor F) (i n : ℕ) (low high : ℕ → F)
      → i + n ≤ e.system.dim
      → ((k : ℕ) → k < n → IsBound (i + k) (low k) (high k))
      → IsFilled s.l s.u i
      → Returns (IsWritten s (i + n)) (for_range n 0 (λ k. bound (i + k) (low k) (high k)) s)
  lines-IsWritten s i n low high fits ok v =
      for_range-Returns (λ k. IsWritten s (i + k)) _ n 0 n s (omega arith)
        (λ k t lo hi w.
          Returns-mono (IsWritten s (i + k + 1)) (IsWritten s (i + (k + 1))) _
            (λ t' w'. subst (λ m. IsWritten s m t') (omega arith) w')
            (bound-IsWritten s t (i + k) (low k) (high k) (omega arith) (ok k hi) w))
        (refl, refl, refl, subst (IsFilled s.l s.u) (omega arith) v)

module _ {F : Type 0} ⦃R : Double F⦄ where
  pub length-resize : (n : ℕ) (xs : List F) → length (resize n xs) ≡ n
  unfolding resize
  length-resize zero xs = refl
  length-resize (suc n) [] = ap suc (length-resize n [])
  length-resize (suc n) (x ∷ xs) = ap suc (length-resize n xs)
