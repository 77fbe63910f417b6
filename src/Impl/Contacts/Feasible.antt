-- ===== src/Impl/Contacts/Feasible.antt =====
-- isFeasible of QPInverseProblemImpl.cpp: lemmas on what its answer says of the rows of A and Aeq.
use soft_robots_inverse.Prelude.{
  All-get_elem?, Bool, Bool-cases, List, Option, Returns, Returns-bind, Returns-mono, false,
  get_elem?-lt, inl, inr, refl, some, suc, true, zero, ℕ, ◌+◌, ◌<◌, ◌==◌, ◌>>=◌, ◌∙◌, ◌≡◌, ◌≢◌, ◌≤◌,
  ◌⊎◌, arith, length, ap, not,
}
use soft_robots_inverse.Problem.{Problem}
use soft_robots_inverse.Double.{Double, nought}
use soft_robots_inverse.Impl.Contacts.{any_from, equality_violated, is_feasible}
use soft_robots_inverse.Impl.Rounds.Parts.{EqualitiesFit}
use soft_robots_inverse.ConstraintHandler.Release.{row_violated}
use soft_robots_inverse.ConstraintHandler.Release.Effect.{
  IsReleasable, dot_from-Returns, row_violated-Returns,
}

-- A test holds, or none does.
abbrev IsSearched : ℕ → ℕ → (ℕ → Option Bool) → Bool → Type 0
IsSearched n i test true = (k : ℕ) × (i ≤ k) × (k < i + n) × (test k ≡ some true)
IsSearched n i test false = (k : ℕ) → i ≤ k → k < i + n → test k ≡ some false

-- One test that fails, before the others.
IsSearched-suc :
    (n i : ℕ) (test : ℕ → Option Bool) (b : Bool)
    → test i ≡ some false
    → IsSearched n (i + 1) test b
    → IsSearched (suc n) i test b
IsSearched-suc n i test true made (k, lo, hi, holds) = (k, omega arith, omega arith, holds)
IsSearched-suc n i test false made fail = λ k lo hi. elim (Bool-cases (k == i)) [
  | inl same ↦ ap test (let e : k ≡ i = ground arith in e) ∙ made
  | inr apart ↦ fail k (let ne : k ≢ i = (λ e. ground arith) in omega arith) (omega arith)
]

first-IsSearched :
    (n i : ℕ) (test : ℕ → Option Bool) (found : Bool)
    → test i ≡ some found
    → Returns (IsSearched n (i + 1) test) (any_from n (i + 1) test)
    → Returns
        (IsSearched (suc n) i test)
        (elim found [ true ↦ some true | false ↦ any_from n (i + 1) test ])
first-IsSearched n i test true made rest = (true, refl, (i, omega arith, omega arith, made))
first-IsSearched n i test false made rest =
    Returns-mono (IsSearched n (i + 1) test) (IsSearched (suc n) i test) _
      (λ b v. IsSearched-suc n i test b made v) rest

any_from-IsSearched :
    (n i : ℕ) (test : ℕ → Option Bool)
    → ((k : ℕ) → i ≤ k → k < i + n → Returns (λ _. Unit {0}) (test k))
    → Returns (IsSearched n i test) (any_from n i test)
unfolding any_from
any_from-IsSearched zero i test all = (false, refl, λ k lo hi. absurd (omega arith))
any_from-IsSearched (suc n) i test all =
    let (found, made, _) = all i (omega arith) (omega arith) in
    rw made (
      first-IsSearched n i test found made
        (any_from-IsSearched n (i + 1) test (λ k lo hi. all k (omega arith) (omega arith))))

module _ {F : Type 0} ⦃R : Double F⦄ (e : Problem F) (x : List F) where
  -- Feasible: no row of A and none of Aeq is violated. Not feasible: one of them is.
  abbrev pub IsJudged : Bool → Type 0
  IsJudged true =
      ((i : ℕ) → i < length e.system.a → row_violated e x i ≡ some false)
      × ((i : ℕ) → i < length e.system.aeq → equality_violated e x i ≡ some false)
  IsJudged false =
      ((i : ℕ) × (i < length e.system.a) × (row_violated e x i ≡ some true))
      ⊎ ((i : ℕ) × (i < length e.system.aeq) × (equality_violated e x i ≡ some true))

  module _ (v : IsReleasable e x) (fit : EqualitiesFit e) where
    equality_violated-Returns :
        (i : ℕ) → i < length e.system.aeq → Returns (λ _. Unit {0}) (equality_violated e x i)
    unfolding equality_violated
    equality_violated-Returns i h =
        let (row, er) = get_elem?-lt e.system.aeq i h in
        let wide : e.system.dim ≤ length row =
          All-get_elem? (λ r. e.system.dim ≤ length r) e.system.aeq i row fit.0 er in
        let (target, et) = get_elem?-lt e.system.beq i (omega (arith, fit.1)) in
        rw er (
          Returns-bind (λ _. Unit {0}) (λ _. Unit {0}) _ _
            (dot_from-Returns e.system.dim 0 row x nought (omega arith) (omega (arith, v.x_size)))
            λ ax _. rw et (_, refl, tt))

    -- For matrices, bounds and a solution of the sizes that the builders leave, isFeasible faults
    -- nowhere; if it says yes, the test of no row of A and of none of Aeq finds it violated, and if
    -- it says no, the test of one of them does.
    pub is_feasible-IsJudged : Returns IsJudged (is_feasible e x)
    unfolding is_feasible
    is_feasible-IsJudged =
        Returns-bind (IsSearched (length e.system.a) 0 (row_violated e x)) IsJudged _ _
          (any_from-IsSearched (length e.system.a) 0 (row_violated e x)
            (λ k lo hi. row_violated-Returns e x v k (omega arith)))
          unequal_rows
      where
        equal_rows :
            ((i : ℕ) → 0 ≤ i → i < 0 + length e.system.a → row_violated e x i ≡ some false)
            → (bad : Bool) → IsSearched (length e.system.aeq) 0 (equality_violated e x) bad
            → IsJudged (not bad)
        equal_rows fine true (i, lo, hi, bad) = inr (i, omega arith, bad)
        equal_rows fine false good =
            (λ i h. fine i (omega arith) (omega arith), λ i h. good i (omega arith) (omega arith))

        unequal_rows :
            (unequal : Bool)
            → IsSearched (length e.system.a) 0 (row_violated e x) unequal
            → Returns IsJudged (elim unequal [
              | true ↦ some false
              | false ↦
                  any_from (length e.system.aeq) 0 (equality_violated e x) >>= λ bad. some (not bad)
            ])
        unequal_rows true (i, lo, hi, bad) = (false, refl, inl (i, omega arith, bad))
        unequal_rows false fine =
            Returns-bind (IsSearched (length e.system.aeq) 0 (equality_violated e x)) IsJudged _ _
              (any_from-IsSearched (length e.system.aeq) 0 (equality_violated e x)
                (λ k lo hi. equality_violated-Returns k (omega arith)))
              λ bad w. (not bad, refl, equal_rows fine bad w)
