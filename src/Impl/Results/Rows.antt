-- ===== src/Impl/Results/Rows.antt =====
-- storeResults: writes to the rows of a list, of which no two are the same.
use soft_robots_inverse.Prelude.{
  All, All-get_elem?, List, Option, Returns, for_range, for_range-Returns, get_elem?,
  get_elem?-append_left, get_elem?-append_right, get_elem?-bound, get_elem?-lt, get_elem?-set, inl,
  inr, length-set, refl, some, some-injective, ℕ, ◌++◌, ◌+◌, ◌<◌, ◌>>=◌, ◌∙◌, ◌≡◌, ◌≢◌, length,
  arith, set, write, ap, lt→ltb, sym, Bool-cases, ◌-◌, ltb, tests, [], suc, zero, ◌∷◌,
}

module _ {ℓ} {A : Type ℓ} where
  -- No entry stands twice in the list.
  abbrev pub IsDistinct : List A → Type ℓ
  IsDistinct xs = (i j : ℕ) (a : A) → get_elem? xs i ≡ some a → get_elem? xs j ≡ some a → i ≡ j

  -- The list does not hold the entry.
  abbrev pub IsAway : A → List A → Type ℓ
  IsAway a xs = (i : ℕ) → get_elem? xs i ≢ some a

  pub IsAway-append : (a : A) (xs ys : List A) → IsAway a (xs ++ ys) → IsAway a xs × IsAway a ys
  IsAway-append a xs ys away = (
    λ i h. away i (get_elem?-append_left xs ys i (get_elem?-bound xs i a h) ∙ h),
    λ i h. away (i + length xs) (get_elem?-append_right xs ys (i + length xs) i (omega arith) ∙ h),
  )

  pub IsAway-join : (a : A) (xs ys : List A) → IsAway a xs → IsAway a ys → IsAway a (xs ++ ys)
  IsAway-join a xs ys p q i h = elim (Bool-cases (ltb i (length xs))) [
    | inl low ↦ p i (sym (get_elem?-append_left xs ys i (omega tests)) ∙ h)
    | inr high ↦
        q (i - length xs) (sym (get_elem?-append_right xs ys i (i - length xs) (omega tests)) ∙ h)
  ]

  -- The two lists have no entry in common.
  abbrev pub AreDisjoint : List A → List A → Type ℓ
  AreDisjoint xs ys = (i j : ℕ) (a : A) → get_elem? xs i ≡ some a → get_elem? ys j ≡ some a → ⊥

  pub IsDistinct-append :
      (xs ys : List A) → IsDistinct (xs ++ ys) → IsDistinct xs × IsDistinct ys × AreDisjoint xs ys
  IsDistinct-append xs ys d = (
    λ i j a hi hj. d i j a (left i a hi) (left j a hj),
    λ i j a hi hj.
        let same = d (i + length xs) (j + length xs) a (right i a hi) (right j a hj) in omega arith,
    λ i j a hi hj.
        let same = d i (j + length xs) a (left i a hi) (right j a hj) in
        omega (arith, get_elem?-bound xs i a hi),
  )
    where
      left : (i : ℕ) (a : A) → get_elem? xs i ≡ some a → get_elem? (xs ++ ys) i ≡ some a
      left i a h = get_elem?-append_left xs ys i (get_elem?-bound xs i a h) ∙ h

      right :
          (i : ℕ) (a : A) → get_elem? ys i ≡ some a → get_elem? (xs ++ ys) (i + length xs) ≡ some a
      right i a h = get_elem?-append_right xs ys (i + length xs) i (omega arith) ∙ h

  pub AreDisjoint-append :
      (xs ys zs : List A) → AreDisjoint xs (ys ++ zs) → AreDisjoint xs ys × AreDisjoint xs zs
  AreDisjoint-append xs ys zs d = (
    λ i j a hi hj. d i j a hi (get_elem?-append_left ys zs j (get_elem?-bound ys j a hj) ∙ hj),
    λ i j a hi hj.
        d i (j + length ys) a hi
          (get_elem?-append_right ys zs (j + length ys) j (omega arith) ∙ hj),
  )

-- Numbers that differ from all those behind them.
unfoldable pub AllApart : List ℕ → Type 0
AllApart [] = Unit {0}
AllApart (x ∷ xs) = All (λ y. x ≢ y) xs × AllApart xs

pub AllApart-IsDistinct : (xs : List ℕ) → AllApart xs → IsDistinct xs
unfolding AllApart
AllApart-IsDistinct [] apart i j a hi hj = cc
AllApart-IsDistinct (x ∷ xs) (first, rest) zero zero a hi hj = refl
AllApart-IsDistinct (x ∷ xs) (first, rest) zero (suc j) a hi hj =
    absurd (All-get_elem? (λ y. x ≢ y) xs j a first hj (some-injective _ _ hi))
AllApart-IsDistinct (x ∷ xs) (first, rest) (suc i) zero a hi hj =
    absurd (All-get_elem? (λ y. x ≢ y) xs i a first hi (some-injective _ _ hj))
AllApart-IsDistinct (x ∷ xs) (first, rest) (suc i) (suc j) a hi hj =
    ap suc (AllApart-IsDistinct xs rest i j a hi hj)

module _ {F : Type 0} (ids : List ℕ) (value : ℕ → Option F) (v : List F) where
  -- Row number `i` holds value number `i`, for the first `k` rows, and all other rows are as in `v`.
  pub record AreWritten (k : ℕ) (v' : List F) : Type 0 where
    pub size : length v' ≡ length v
    pub there : (i row : ℕ) → i < k → get_elem? ids i ≡ some row → get_elem? v' row ≡ value i
    pub elsewhere : (row : ℕ) → IsAway row ids → get_elem? v' row ≡ get_elem? v row

  module _ (distinct : IsDistinct ids) (inside : All (λ row. row < length v) ids)
      (given : (i : ℕ) → i < length ids → Returns (λ _. Unit {0}) (value i)) where
    write-AreWritten :
        (k row : ℕ) (a : F) (v' : List F)
        → get_elem? ids k ≡ some row
        → value k ≡ some a
        → AreWritten k v'
        → AreWritten (k + 1) (set v' row a)
    write-AreWritten k row a v' at made w =
        let room : row < length v' =
          omega (arith, w.size, All-get_elem? (λ r. r < length v) ids k row inside at) in
        record {
          size = length-set v' row a ∙ w.size;
          there = λ i r h at'. elim (get_elem?-set v' row r a room) [
            | inl (same, now) ↦
                let same_place : i ≡ k = distinct i k row (at' ∙ ap some (sym same)) at in
                now ∙ sym made ∙ ap value (sym same_place)
            | inr (apart, old) ↦
                old
                ∙ w.there i r
                    (let other : i ≢ k = λ e.
                        apart (some-injective _ _ (sym at ∙ ap (get_elem? ids) (sym e) ∙ at')) in
                      omega arith)
                    at'
          ];
          elsewhere = λ r away. elim (get_elem?-set v' row r a room) [
            | inl (same, now) ↦ absurd (away k (at ∙ ap some same))
            | inr (apart, old) ↦ old ∙ w.elsewhere r away
          ];
        }

    pub writes-AreWritten : Returns (AreWritten (length ids)) (
        for_range
          (length ids)
          0
          (λ i t. get_elem? ids i >>= λ row. value i >>= λ a. write t row a)
          v)
    writes-AreWritten =
        for_range-Returns AreWritten _ (length ids) 0 (length ids) v (omega arith)
          (λ k v' lo hi w.
            let (row, at) = get_elem?-lt ids k hi in
            let (a, made, _) = given k hi in
            let room : row < length v' =
              omega (arith, w.size, All-get_elem? (λ r. r < length v) ids k row inside at) in
            rw (at, made, lt→ltb row (length v') room)
              (_, refl, write-AreWritten k row a v' at made w))
          (record {
            size = refl;
            there = λ i row h. absurd (omega arith);
            elsewhere = λ row away. refl;
          })
