-- ===== src/Impl/Pivot/Choice.antt =====
-- checkAndUpdatePivot: the candidate that is chosen.
use soft_robots_inverse.Prelude.{
  All, All-get_elem?, Bool, Bool-cases, List, Returns, false, for_range-Returns, get_elem?,
  get_elem?-lt, if_elim, inl, inr, refl, some, some-injective, true, ℕ, ◌&&◌, ◌+◌, ◌-◌, ◌<◌, ◌==◌,
  ◌||◌, ◌∙◌, ◌≡◌, ◌≢◌, ◌≤◌, ◌⊎◌, arith, length, not, ltb, subst, sym, ap, tests,
}
use soft_robots_inverse.Problem.{nb_actuator_rows, nb_contact_rows}
use soft_robots_inverse.Double.{Double, ◌≺◌}
use soft_robots_inverse.Impl.Pivot.{BestCursor, best_candidate, best_step}
use soft_robots_inverse.Impl.Cycling.{is_cycling}
use soft_robots_inverse.Impl.State.{Solver}

module _ {F : Type 0} ⦃R : Double F⦄ where
  -- Numbers that rise, each below the next, from `low` to the last.
  pub data Climb (low : F) : F → Type 0 where
    here : Climb low low
    up : {high top : F} → Climb low high → (high ≺ top) ≡ true → Climb low top

  -- `x` is passed on the way up to `top`, or is not above a number on that way.
  abbrev pub IsBeaten : F → F → Type 0
  IsBeaten top x = (low : F) × Climb low top × ((low ≡ x) ⊎ ((low ≺ x) ≡ false))

  IsBeaten-up : (top x above : F) → IsBeaten top x → (top ≺ above) ≡ true → IsBeaten above x
  IsBeaten-up top x above (low, way, w) more = (low, up way more, w)

module _ {F : Type 0} ⦃R : Double F⦄ (s : Solver F) (marks : List Bool) (dual : List F) where
  -- Row `i` of [A; Aeq] may give the pivot `k`: its number in constraintsId is that of contact row `k`, which
  -- is a candidate and no cycle. The row's dual value is `x`.
  abbrev pub IsEligible : ℕ → ℕ → F → Type 0
  IsEligible i k x =
      (get_elem? s.problem.params.constraints_id i ≡ some (nb_actuator_rows s.problem + k))
      × (get_elem? marks k ≡ some true)
      × (get_elem? dual i ≡ some x)
      × (is_cycling s k ≡ false)

  -- After the rows before `n`: the pivot comes from an eligible row, whose dual value beats those of all
  -- eligible rows, or no row is eligible.
  pub record IsChosen (n : ℕ) (b : BestCursor F) : Type 0 where
    pub pivot :
        b.do_pivot ≡ true
        → (b.best < nb_contact_rows s.problem)
          × (i : ℕ) × IsEligible i b.best b.greatest
          × ((j k : ℕ) (x : F) → j < n → IsEligible j k x → IsBeaten b.greatest x)
    pub no_pivot : b.do_pivot ≡ false → (j k : ℕ) (x : F) → j < n → IsEligible j k x → ⊥

  IsChosen-keep :
      (i : ℕ) (b : BestCursor F)
      → IsChosen i b
      → ((k : ℕ) (x : F) → IsEligible i k x → (b.do_pivot ≡ true) × ((b.greatest ≺ x) ≡ false))
      → IsChosen (i + 1) b
  IsChosen-keep i b v beaten = record {
    pivot = λ on.
        let (low, i', good, best) = v.pivot on in
        (
          low,
          i',
          good,
          λ j k x h can. elim (Bool-cases (j == i)) [
            | inl same ↦
                let e : j ≡ i = ground arith in
                (b.greatest, here, inr (beaten k x (subst (λ r. IsEligible r k x) e can)).1)
            | inr apart ↦ best j k x (let ne : j ≢ i = (λ e. ground arith) in omega arith) can
          ],
        );
    no_pivot = λ none_yet j k x h can. elim (Bool-cases (j == i)) [
      | inl same ↦
          let e : j ≡ i = ground arith in
          let made = (beaten k x (subst (λ r. IsEligible r k x) e can)).0 in cc
      | inr apart ↦
          v.no_pivot none_yet j k x (let ne : j ≢ i = (λ e. ground arith) in omega arith) can
    ];
  }

  IsChosen-take :
      (i k : ℕ) (x : F) (b : BestCursor F)
      → k < nb_contact_rows s.problem
      → IsChosen i b
      → IsEligible i k x
      → ((b.greatest ≺ x) || not b.do_pivot) ≡ true
      → IsChosen (i + 1) (record { greatest = x; do_pivot = true; best = k })
  IsChosen-take i k x b low v good greater = record {
    pivot = λ _. (
      low,
      i,
      good,
      λ j k' x' h can. elim (Bool-cases (j == i)) [
        | inl same ↦
            let e : j ≡ i = ground arith in
            (x, here, inl (some-injective x x' (sym good.2 ∙ ap (get_elem? dual) (sym e) ∙ can.2)))
        | inr apart ↦ former j k' x' (let ne : j ≢ i = (λ e. ground arith) in omega arith) can
      ],
    );
    no_pivot = λ no. absurd (cc);
  }
    where
      former : (j k' : ℕ) (x' : F) → j < i → IsEligible j k' x' → IsBeaten x x'
      former j k' x' h can = elim (Bool-cases b.do_pivot) [
        | inl some_pivot ↦
            let (low', i', good', best) = v.pivot some_pivot in
            IsBeaten-up b.greatest x' x (best j k' x' h can) (ground (arith, greater, some_pivot))
        | inr no_pivot ↦ absurd (v.no_pivot no_pivot j k' x' h can)
      ]

  best_step-IsChosen :
      (i id : ℕ) (b : BestCursor F)
      → length marks ≡ nb_contact_rows s.problem
      → i < length dual
      → get_elem? s.problem.params.constraints_id i ≡ some id
      → id < nb_actuator_rows s.problem + nb_contact_rows s.problem
      → IsChosen i b
      → Returns (IsChosen (i + 1)) (best_step s marks dual i b)
  unfolding best_step
  best_step-IsChosen i id b len h at bound v = rw at (
      if_elim (Returns (IsChosen (i + 1))) (ltb id (nb_actuator_rows s.problem)) _ _
        (λ front. (
          b,
          refl,
          IsChosen-keep i b v (λ k x can.
              let e : id ≡ nb_actuator_rows s.problem + k = some-injective _ _ (sym at ∙ can.0) in
              absurd (omega tests)),
        ))
        λ behind.
          let k = id - nb_actuator_rows s.problem in
          let low : k < nb_contact_rows s.problem = omega tests in
          let number : id ≡ nb_actuator_rows s.problem + k = omega tests in
          let (marked, em) = get_elem?-lt marks k (omega arith) in
          let (x, ex) = get_elem?-lt dual i h in
          rw (em, ex)
            (
              _,
              refl,
              if_elim (IsChosen (i + 1))
                  ((marked && ((b.greatest ≺ x) || not b.do_pivot)) && not (is_cycling s k)) _ _
                  (λ taken.
                    let (m, greater, free) = all_of _ _ _ taken in
                    IsChosen-take i k x b low v (at ∙ ap some number, em ∙ ap some m, ex, free)
                      greater)
                  (λ left. IsChosen-keep i b v (λ k' x' can.
                    let e : k ≡ k' =
                      (let e' : id ≡ nb_actuator_rows s.problem + k' =
                          some-injective _ _ (sym at ∙ can.0) in
                        omega arith) in
                    let m : marked ≡ true =
                      some-injective _ _ (sym em ∙ ap (get_elem? marks) e ∙ can.1) in
                    let free : is_cycling s k ≡ false = ap (is_cycling s) e ∙ can.3 in
                    let same : x ≡ x' = some-injective _ _ (sym ex ∙ can.2) in
                    let (on, few) = not_all _ _ _ _ left m free in
                    (on, subst (λ y. (b.greatest ≺ y) ≡ false) same few))),
            ))
    where
      all_of : (a c d : Bool) → ((a && c) && not d) ≡ true → (a ≡ true) × (c ≡ true) × (d ≡ false)
      all_of true true false e = (refl, refl, refl)
      all_of true true true e = absurd (cc)
      all_of true false d e = absurd (cc)
      all_of false c d e = absurd (cc)

      not_all :
          (a c d f : Bool)
          → ((a && (c || not d)) && not f) ≡ false
          → a ≡ true
          → f ≡ false
          → (d ≡ true) × (c ≡ false)
      not_all a c d f e m free = ground (arith, e, m, free)

  pub best_candidate-IsChosen :
      length marks ≡ nb_contact_rows s.problem
      → length dual ≤ length s.problem.params.constraints_id
      → All
          (λ id. id < nb_actuator_rows s.problem + nb_contact_rows s.problem)
          s.problem.params.constraints_id
      → Returns (IsChosen (length dual)) (best_candidate s marks dual)
  unfolding best_candidate
  best_candidate-IsChosen len enough bounded =
      for_range-Returns IsChosen (best_step s marks dual) (length dual) 0 (length dual) _
        (omega arith)
        (λ i b lo hi v.
          let (id, at) = get_elem?-lt s.problem.params.constraints_id i (omega arith) in
          best_step-IsChosen i id b len hi at
            (All-get_elem? _ s.problem.params.constraints_id i id bounded at) v)
        (record { pivot = λ never. absurd (cc); no_pivot = λ _ j k x h. absurd (omega arith) })
