-- ===== src/Impl/Oases/Arrays.antt =====
-- QPInverseProblemImpl.cpp: what updateOASESMatrices puts where in the flat arrays.
use soft_robots_inverse.Prelude.{
  ℕ, All, IsTable, List, Returns, Returns-bind, Returns-mono, [], get_elem?, get_elem?-append_left,
  get_elem?-append_right, get_elem?-lt, length-append, refl, some, some-injective, suc,
  tabulate-IsTable, zero, ◌*◌, ◌++◌, ◌+◌, ◌<◌, ◌∙◌, ◌∷◌, ◌≡◌, ◌≤◌, length, ap, arith, sym,
}
use soft_robots_inverse.Impl.Oases.{entries, flat}

module _ {ℓ} {A : Type ℓ} where
  -- The first `n` entries, as they are.
  pub entries-Returns :
      (n : ℕ) (xs : List A)
      → n ≤ length xs
      → Returns
          (λ ys. (length ys ≡ n) × ((i : ℕ) → i < n → get_elem? ys i ≡ get_elem? xs i))
          (entries n xs)
  unfolding entries
  entries-Returns n xs h =
      Returns-mono (IsTable n 0 (get_elem? xs)) _ _
        (λ ys t. (t.0, λ i hi. t.1 i hi ∙ ap (get_elem? xs) (omega arith)))
        (tabulate-IsTable n 0 (get_elem? xs)
          λ k lo hi. let (x, e) = get_elem?-lt xs k (omega arith) in (x, e, tt))

  -- Entry `j` of row `i` is entry `i * n + j` of the flat array.
  abbrev pub IsFlat : ℕ → List (List A) → List A → Type ℓ
  IsFlat n rows xs =
      (length xs ≡ length rows * n)
      × ((i j : ℕ) (row : List A)
          → get_elem? rows i ≡ some row
          → j < n
          → get_elem? xs (i * n + j) ≡ get_elem? row j)

  IsFlat-append :
      (n : ℕ) (row ys rest : List A) (rows : List (List A))
      → (length ys ≡ n) × ((i : ℕ) → i < n → get_elem? ys i ≡ get_elem? row i)
      → IsFlat n rows rest
      → IsFlat n (row ∷ rows) (ys ++ rest)
  IsFlat-append n row ys rest rows (len, same) (total, place) =
      (grind (arith, length-append ys rest, len, total), at)
    where
      at :
          (i j : ℕ) (r : List A)
          → get_elem? (row ∷ rows) i ≡ some r
          → j < n
          → get_elem? (ys ++ rest) (i * n + j) ≡ get_elem? r j
      at zero j r e h =
          ap (get_elem? (ys ++ rest)) (let first : 0 * n + j ≡ j = omega arith in first)
          ∙ get_elem?-append_left ys rest j (omega (arith, len))
          ∙ same j h
          ∙ ap (λ q. get_elem? q j) (some-injective _ _ e)
      at (suc i) j r e h =
          get_elem?-append_right ys rest (suc i * n + j) (i * n + j) (grind (arith, len))
          ∙ place i j r e h

  pub flat-IsFlat :
      (n : ℕ) (rows : List (List A))
      → All (λ row. n ≤ length row) rows
      → Returns (IsFlat n rows) (flat n rows)
  unfolding flat
  flat-IsFlat n [] all = ([], refl, (omega arith, λ i j row e. cc))
  flat-IsFlat n (row ∷ rows) (wide, all) =
      Returns-bind _ (IsFlat n (row ∷ rows)) _ _ (entries-Returns n row wide) λ ys copied.
        Returns-bind (IsFlat n rows) (IsFlat n (row ∷ rows)) _ _ (flat-IsFlat n rows all)
          λ rest v. (_, refl, IsFlat-append n row ys rest rows copied v)

  list_ext :
      (xs ys : List A)
      → length xs ≡ length ys
      → ((i : ℕ) → i < length ys → get_elem? xs i ≡ get_elem? ys i)
      → xs ≡ ys
  list_ext [] [] len same = refl
  list_ext [] (y ∷ ys) len same = absurd (omega arith)
  list_ext (x ∷ xs) [] len same = absurd (omega arith)
  list_ext (x ∷ xs) (y ∷ ys) len same =
      let first : x ≡ y = some-injective _ _ (same 0 (omega arith)) in
      let rest : xs ≡ ys = list_ext xs ys (omega arith) (λ i h. same (suc i) (omega arith)) in
      ap (λ z. z ∷ xs) first ∙ ap (◌∷◌ y) rest

  -- All entries of a vector are the vector.
  pub entries-all : (n : ℕ) (xs : List A) → length xs ≡ n → entries n xs ≡ some xs
  entries-all n xs len =
      let (ys, e, (size, same)) = entries-Returns n xs (omega arith) in
      e ∙ ap some (list_ext ys xs (size ∙ sym len) (λ i h. same i (omega arith)))
