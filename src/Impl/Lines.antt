-- ===== src/Impl/Lines.antt =====
-- A walk over the lines of a list of components, one line at a time: which component comes next, and how
-- many of its lines have passed.
use soft_robots_inverse.Prelude.{
  All, All-get_elem?, List, get_elem?, inl, inr, refl, some, some-injective, suc, ℕ, ◌+◌, ◌<◌, ◌∙◌,
  ◌≡◌, ◌≢◌, ◌⊎◌, arith, ap, sym,
}
use soft_robots_inverse.Problem.{BaseConstraint}
use soft_robots_inverse.ConstraintHandler.Ready.{lines_from, lines_from-pos, total_lines}

module _ {F : Type 0} where
  -- Line `k` of `total` is line `l` of component `id`.
  pub record IsAtLine (cs : List (BaseConstraint F)) (id l k total : ℕ) : Type 0 where
    pub sum : k + lines_from cs id ≡ total + l
    pub inside : (l ≡ 0) ⊎ ((c : BaseConstraint F) × (get_elem? cs id ≡ some c) × (l < c.nb_lines))

  pub first-IsAtLine :
      (cs : List (BaseConstraint F)) (total : ℕ) → total_lines cs ≡ total → IsAtLine cs 0 0 0 total
  unfolding lines_from
  first-IsAtLine cs total all = record { sum = omega arith; inside = inl refl }

  -- The next line belongs to the same component, or it is the first of the next one.
  pub next-IsAtLine :
      (cs : List (BaseConstraint F)) (id l k total : ℕ)
      → All (λ c. 0 < c.nb_lines) cs
      → IsAtLine cs id l k total
      → k < total
      → (c : BaseConstraint F) × (get_elem? cs id ≡ some c)
        × (l + 1 ≡ c.nb_lines → IsAtLine cs (id + 1) 0 (k + 1) total)
        × (l + 1 ≢ c.nb_lines → IsAtLine cs id (l + 1) (k + 1) total)
  next-IsAtLine cs id l k total positive v h =
      let (c, at, split, lt) = lines_from-pos cs id (omega (arith, v.sum)) in
      let next : lines_from cs (id + 1) ≡ lines_from cs (suc id) =
        ap (lines_from cs) (omega arith) in
      let some_line : 0 < c.nb_lines = All-get_elem? (λ d. 0 < d.nb_lines) cs id c positive at in
      (
        c,
        at,
        λ last. record { sum = omega (arith, v.sum); inside = inl refl },
        λ more. record {
          sum = omega (arith, v.sum);
          inside = inr (c, at, room c at some_line more v.inside);
        },
      )
    where
      room :
          (c : BaseConstraint F)
          → get_elem? cs id ≡ some c
          → 0 < c.nb_lines
          → l + 1 ≢ c.nb_lines
          → (l ≡ 0) ⊎ ((d : BaseConstraint F) × (get_elem? cs id ≡ some d) × (l < d.nb_lines))
          → l + 1 < c.nb_lines
      room c at some_line more (inl first) = omega arith
      room c at some_line more (inr (d, at', lt)) =
          let same : d.nb_lines ≡ c.nb_lines =
            ap (λ x. x.nb_lines) (some-injective d c (sym at' ∙ at)) in
          omega arith
