-- ===== src/Component/Point/Lines.antt =====
-- ForcePointActuator.inl: lemmas on the lines of buildConstraintMatrix and their violation.
use soft_robots_inverse.Prelude.{
  List, get_elem?, refl, some, suc, zero, ℕ, ◌+◌, ◌<◌, ◌∙◌, ◌≡◌, length, Bool-cases, inl, inr,
  length-replicate, ap, arith, Returns, for_range-Returns, get_elem?-set, length-set, ◌-◌, ◌≤◌, ◌⊎◌,
  write, lt→ltb, subst, [], ◌∷◌,
}
use soft_robots_inverse.Double.{Double, nought}
use soft_robots_inverse.Component.Point.{
  unit_lines, Point, is_free, point_build_constraint_matrix, point_columns, point_init_datas,
  unit_direction, point_nb_lines, point_violation,
}

module _ {F : Type 0} ⦃R : Double F⦄ (norm : List F → F) (total_size : ℕ) where
  -- Line `k` of those that are written has number `c + k`.
  abbrev pub IsNumbered : ℕ → List (ℕ × List (ℕ × List F)) → Type 0
  IsNumbered c lines =
      (k : ℕ)
      → k < length lines
      → (columns : List (ℕ × List F)) × (get_elem? lines k ≡ some (c + k, columns))

  next_line :
      (n j c size : ℕ) (is : List ℕ)
      → ((k : ℕ)
          → k < n
          → (columns : List (ℕ × List F)) × (get_elem?
                (unit_lines norm total_size n (j + 1) c size is)
                k
              ≡ some (c + (j + 1) + k, columns)))
      → (k : ℕ) → k < suc n
      → (columns : List (ℕ × List F)) × (get_elem?
            (unit_lines norm total_size (suc n) j c size is)
            k
          ≡ some (c + j + k, columns))
  unfolding unit_lines
  next_line n j c size is rest zero h = (
    _,
    ap (λ m. some (m, point_columns size is (unit_direction norm total_size j))) (omega arith),
  )
  next_line n j c size is rest (suc k) h =
      let (columns, at) = rest k (omega arith) in
      (columns, at ∙ ap (λ m. some (m, columns)) (omega arith))

  unit_lines-IsNumbered :
      (n j c size : ℕ) (is : List ℕ)
      → (length (unit_lines norm total_size n j c size is) ≡ n)
        × ((k : ℕ)
            → k < n
            → (columns : List (ℕ × List F)) × (get_elem?
                  (unit_lines norm total_size n j c size is)
                  k
                ≡ some (c + j + k, columns)))
  unfolding unit_lines
  unit_lines-IsNumbered zero j c size is = (refl, λ k h. elim h [ ])
  unit_lines-IsNumbered (suc n) j c size is =
      let (len, at) = unit_lines-IsNumbered n (j + 1) c size is in
      (ap suc len, next_line n j c size is at)

  line-IsNumbered : (c : ℕ) (columns : List (ℕ × List F)) → IsNumbered c ((c, columns) ∷ [])
  line-IsNumbered c columns zero h = (columns, ap (λ m. some (m, columns)) (omega arith))
  line-IsNumbered c columns (suc k) h = absurd (omega arith)

  -- The lines have the numbers from `c` on, as many as the point has lines and forces.
  abbrev pub IsBuilt : ℕ → Point F → Point F × List (ℕ × List (ℕ × List F)) × ℕ → Type 0
  IsBuilt c p (p', lines, next) =
      (p'.constraint_id ≡ c)
      × (next ≡ c + p'.nb_lines)
      × (length lines ≡ p'.nb_lines)
      × (length (point_init_datas norm total_size p).force ≡ p'.nb_lines)
      × IsNumbered c lines

  -- For every force on points, buildConstraintMatrix writes lines with the numbers from cIndex on
  -- and moves cIndex behind them; there are as many as the point then has lines, which is the
  -- number of forces that initDatas sets up for it.
  pub point_build_constraint_matrix-IsBuilt :
      (size c : ℕ) (p : Point F)
      → IsBuilt c p (point_build_constraint_matrix norm total_size size c p)
  unfolding point_build_constraint_matrix point_init_datas
  point_build_constraint_matrix-IsBuilt size c p = elim (Bool-cases (is_free norm total_size p)) [
    | inl free ↦ rw free (
      refl,
      omega arith,
      (unit_lines-IsNumbered total_size 0 c size p.indices).0 ∙ (omega arith),
      length-replicate total_size p.init_force ∙ (omega arith),
      λ k h.
          let (len, each) = unit_lines-IsNumbered total_size 0 c size p.indices in
          let (columns, at) = each k (omega (arith, len)) in
          (columns, at ∙ ap (λ m. some (m + k, columns)) (omega arith)),
    )
    | inr fixed ↦ rw fixed (refl, omega arith, omega arith, omega arith, line-IsNumbered c _)
  ]

  -- The first `k` lines of the point have violation zero, and all else is what it was.
  abbrev pub IsCleared : ℕ → List F → ℕ → List F → Type 0
  IsCleared c res k v =
      (length v ≡ length res)
      × ((i : ℕ) → c ≤ i → i < c + k → get_elem? v i ≡ some nought)
      × ((i : ℕ) → (i < c) ⊎ (c + k ≤ i) → get_elem? v i ≡ get_elem? res i)

  clear_one :
      (c : ℕ) (res : List F) (k : ℕ) (v : List F)
      → c + k < length res
      → IsCleared c res k v
      → Returns (IsCleared c res (k + 1)) (write v (c + k) nought)
  clear_one c res k v h (len, zeroed, kept) = rw (lt→ltb (c + k) (length v) (omega (arith, len))) (
    _,
    refl,
    (
      length-set v (c + k) nought ∙ len,
      λ i lo hi. elim (get_elem?-set v (c + k) i nought (omega (arith, len))) [
        | inl (same, new) ↦ new
        | inr (apart, old) ↦ old ∙ zeroed i lo (omega arith)
      ],
      λ i out. elim (get_elem?-set v (c + k) i nought (omega (arith, len))) [
        | inl (same, new) ↦ absurd (omega arith)
        | inr (apart, old) ↦
            old ∙ kept i (elim out [ inl lo ↦ inl lo | inr hi ↦ inr (omega arith) ])
      ],
    ),
  )

  IsCleared-zero : (c : ℕ) (res : List F) → IsCleared c res 0 res
  IsCleared-zero c res = (refl, λ i lo hi. absurd (omega arith), λ i out. refl)

  -- After its lines were built from cIndex on, and with room for them in the violations, a force on
  -- points faults nowhere when it writes its violation: zero on each of its lines, and nothing
  -- else.
  pub point_violation-IsCleared :
      (size c : ℕ) (p : Point F) (res : List F)
      → c + point_nb_lines norm total_size p ≤ length res
      → Returns
          (IsCleared c res (point_build_constraint_matrix norm total_size size c p).0.nb_lines)
          (point_violation norm total_size
            (point_build_constraint_matrix norm total_size size c p).0
            res)
  unfolding point_build_constraint_matrix point_violation point_nb_lines
  point_violation-IsCleared size c p res room = elim (Bool-cases (is_free norm total_size p)) [
    | inl free ↦
        let fits : c + total_size ≤ length res = ground arith in
        let lines : c + total_size - c ≡ total_size = omega arith in
        rw (free, lines)
          (for_range-Returns (IsCleared c res) (λ j v. write v (c + j) nought) total_size 0
            total_size res (omega arith) (λ k v lo hi w. clear_one c res k v (omega arith) w)
            (IsCleared-zero c res))
    | inr fixed ↦
        let fits : c + 1 ≤ length res = ground arith in
        let line : c + 1 - c ≡ 1 = omega arith in
        rw (fixed, line)
          (let here : c + 0 ≡ c = omega arith in
            subst (λ i. Returns (IsCleared c res 1) (write res i nought)) here
              (clear_one c res 0 res (omega arith) (IsCleared-zero c res)))
  ]
