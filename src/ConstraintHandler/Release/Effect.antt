-- ===== src/ConstraintHandler/Release/Effect.antt =====
-- checkAndUpdateActuatorConstraints: which bounds it opens, and that it leaves the rest.
use soft_robots_inverse.Prelude.{
  ℕ, All, All-get_elem?, Bool, Bool-cases, List, Returns, Returns-bind, false, for_range-Returns,
  get_elem?, get_elem?-bound, get_elem?-lt, get_elem?-replicate, if_elim, inl, inr,
  length-replicate, length-set, refl, some, suc, true, zero, ◌+◌, ◌<◌, ◌==◌, ◌∙◌, ◌≡◌, ◌≤◌, length,
  replicate, arith, write, ltb, set, sym, lt→ltb, Returns-made, get_elem?-set, some-injective, ◌≢◌,
  subst, tests, ap,
}
use soft_robots_inverse.Problem.{Problem}
use soft_robots_inverse.Double.{Double, ◌⊕◌, ◌⊗◌, nought}
use soft_robots_inverse.ConstraintHandler.Release.{
  dot_from, get_infeasible_constraints, infeasible_step, row_violated,
}

module _ {F : Type 0} ⦃R : Double F⦄ where
  -- The sizes that the function relies on.
  pub record IsReleasable (e : Problem F) (x : List F) : Type 0 where
    pub named : length e.system.a ≤ length e.params.constraints_id
    pub bounded : All (λ id. id < e.system.dim) e.params.constraints_id
    pub columns : All (λ row. e.system.dim ≤ length row) e.system.a
    pub x_size : length x ≡ e.system.dim
    pub bu_size : length e.system.bu ≡ length e.system.a
    pub bl_size :
        e.system.has_both_side_inequality_constraint ≡ true → length e.system.bl ≡ length e.system.a
    pub l_size : length e.system.l ≡ e.system.dim
    pub u_size : length e.system.u ≡ e.system.dim

  pub dot_from-Returns :
      (n i : ℕ) (row x : List F) (sum : F)
      → i + n ≤ length row
      → i + n ≤ length x
      → Returns (λ _. Unit {0}) (dot_from n i row x sum)
  unfolding dot_from
  dot_from-Returns zero i row x sum h h' = (sum, refl, tt)
  dot_from-Returns (suc n) i row x sum h h' =
      let (a, ea) = get_elem?-lt row i (omega arith) in
      let (b, eb) = get_elem?-lt x i (omega arith) in
      rw (ea, eb) (dot_from-Returns n (i + 1) row x (sum ⊕ a ⊗ b) (omega arith) (omega arith))

  module _ (e : Problem F) (x : List F) (v : IsReleasable e x) where
    pub row_violated-Returns :
        (i : ℕ) → i < length e.system.a → Returns (λ _. Unit {0}) (row_violated e x i)
    unfolding row_violated
    row_violated-Returns i h =
        let (row, er) = get_elem?-lt e.system.a i h in
        let wide : e.system.dim ≤ length row =
          All-get_elem? (λ r. e.system.dim ≤ length r) e.system.a i row v.columns er in
        let (high, eh) = get_elem?-lt e.system.bu i (omega (arith, v.bu_size)) in
        rw er (
          Returns-bind (λ _. Unit {0}) (λ _. Unit {0}) _ _
            (dot_from-Returns e.system.dim 0 row x nought (omega arith) (omega (arith, v.x_size)))
            λ ax _. rw eh (
              if_elim (Returns (λ _. Unit {0})) e.system.has_both_side_inequality_constraint _ _
                (λ used.
                  let (low, el) = get_elem?-lt e.system.bl i (omega (arith, v.bl_size used)) in
                  rw el (_, refl, tt))
                (λ _. (_, refl, tt))))

    -- Row `j` of A is to be released: its number in constraintsId is below the count of actuators, and it is
    -- violated.
    abbrev pub IsCondemned : ℕ → Type 0
    IsCondemned j =
        (id : ℕ) × (get_elem? e.params.constraints_id j ≡ some id)
        × (id < length e.lists.actuators)
        × (row_violated e x j ≡ some true)

    -- A mark for each row of A and Aeq; of the rows before `n` those that are to be released are marked, and
    -- no others.
    abbrev pub IsMarks : ℕ → List Bool → Type 0
    IsMarks n marks =
        (length marks ≡ length e.system.a + length e.system.aeq)
        × ((j : ℕ) → get_elem? marks j ≡ some true → (j < n) × IsCondemned j)
        × ((j : ℕ) → j < n → IsCondemned j → get_elem? marks j ≡ some true)

    mark-IsMarks :
        (marks : List Bool) (i : ℕ)
        → i < length e.system.a
        → IsCondemned i
        → IsMarks i marks
        → Returns (IsMarks (i + 1)) (write marks i true)
    mark-IsMarks marks i h bad (len, few, all) =
        let room : i < length marks = omega (arith, len) in
        rw (lt→ltb i (length marks) room) (
          set marks i true,
          refl,
          (
            length-set marks i true ∙ len,
            λ j there. elim (get_elem?-set marks i j true room) [
              | inl (same, now) ↦ (omega arith, subst IsCondemned same bad)
              | inr (apart, old) ↦ let (lo, was) = few j (sym old ∙ there) in (omega arith, was)
            ],
            λ j hj was. elim (get_elem?-set marks i j true room) [
              | inl (same, now) ↦ now
              | inr (apart, old) ↦ old ∙ all j (omega arith) was
            ],
          ),
        )

    pass-IsMarks :
        (marks : List Bool) (i : ℕ) → (IsCondemned i → ⊥) → IsMarks i marks → IsMarks (i + 1) marks
    pass-IsMarks marks i fine (len, few, all) = (
      len,
      λ j there. let (lo, was) = few j there in (omega arith, was),
      λ j hj was. elim (Bool-cases (j == i)) [
        | inl same ↦ let e' : j ≡ i = ground arith in absurd (fine (subst IsCondemned e' was))
        | inr apart ↦ all j (let ne : j ≢ i = (λ e'. ground arith) in omega arith) was
      ],
    )

    infeasible_step-IsMarks :
        (i : ℕ) (marks : List Bool)
        → i < length e.system.a
        → IsMarks i marks
        → Returns (IsMarks (i + 1)) (infeasible_step e x i marks)
    unfolding infeasible_step
    infeasible_step-IsMarks i marks hi w =
        let (id, at) = get_elem?-lt e.params.constraints_id i (omega (arith, v.named)) in
        rw at (
          if_elim (Returns (IsMarks (i + 1))) (ltb id (length e.lists.actuators)) _ _
            (λ low.
              Returns-bind (λ bad. (row_violated e x i ≡ some bad) × Unit {0}) (IsMarks (i + 1)) _ _
                (Returns-made (row_violated-Returns i hi))
                λ bad (seen, _).
                  if_elim (Returns (IsMarks (i + 1))) bad _ _
                    (λ violated.
                      mark-IsMarks marks i hi (id, at, omega tests, seen ∙ ap some violated) w)
                    (λ holds. (
                      marks,
                      refl,
                      pass-IsMarks marks i
                          (λ (id', at', low', seen').
                            let same : bad ≡ true = some-injective _ _ (sym seen ∙ seen') in cc)
                          w,
                    )))
            (λ high. (
              marks,
              refl,
              pass-IsMarks marks i
                  (λ (id', at', low', seen').
                    let same : id ≡ id' = some-injective _ _ (sym at ∙ at') in omega tests)
                  w,
            )))

    pub get_infeasible_constraints-IsMarks :
        Returns (IsMarks (length e.system.a)) (get_infeasible_constraints e x)
    unfolding get_infeasible_constraints
    get_infeasible_constraints-IsMarks =
        for_range-Returns IsMarks (infeasible_step e x) (length e.system.a) 0 (length e.system.a) _
          (omega arith) (λ i marks lo hi w. infeasible_step-IsMarks i marks hi w)
          (length-replicate _ false, unmarked, λ j h. absurd (omega arith))
      where
        unmarked :
            (j : ℕ)
            → get_elem? (replicate (length e.system.a + length e.system.aeq) false) j ≡ some true
            → (j < 0) × IsCondemned j
        unmarked j there =
            let in_range =
              get_elem?-bound (replicate (length e.system.a + length e.system.aeq) false) j true
                there in
            let clear =
              get_elem?-replicate (length e.system.a + length e.system.aeq) false j
                (omega (arith, length-replicate (length e.system.a + length e.system.aeq) false)) in
            absurd (cc)
