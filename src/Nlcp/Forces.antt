-- ===== src/Nlcp/Forces.antt =====
-- NLCPSolver.cpp: what the iteration keeps of the forces, and what its result means.
use soft_robots_inverse.Prelude.{
  ℕ, Bool, Bool-cases, List, Returns, false, get_elem?, get_elem?-replicate, get_elem?-set_ne,
  get_elem?-set_self, if_elim, inl, inr, length-set, refl, some, ◌*◌, ◌+◌, ◌/◌, ◌<◌, ◌==◌, ◌∙◌, ◌≡◌,
  ◌⊎◌, length, arith, replicate, set, write, ap, lt→ltb,
}
use soft_robots_inverse.Nlcp.{Block, Contact3, gs_friction, gs_state, set_three}
use soft_robots_inverse.Double.{Double, ◌≺◌, ◌⊕◌, ◌⊖◌, ◌⊗◌, ◌⊘◌, nought}

module _ {F : Type 0} where
  -- `g` differs from `f` in the three entries of contact `c` at most.
  abbrev pub IsElsewhere : ℕ → List F → List F → Type 0
  IsElsewhere c f g =
      (length g ≡ length f)
      × ((k : ℕ) → (k < 3 * c) ⊎ (3 * c + 2 < k) → get_elem? g k ≡ get_elem? f k)

  write-set : (xs : List F) (i : ℕ) (v : F) → i < length xs → write xs i v ≡ some (set xs i v)
  write-set xs i v h = rw (lt→ltb i (length xs) h) refl

module _ {F : Type 0} ⦃R : Double F⦄ where
  pub set_three-IsElsewhere :
      (f : List F) (c : ℕ) (x y z : F)
      → 3 * c + 2 < length f
      → Returns (λ g. IsElsewhere c f g × (get_elem? g (3 * c) ≡ some x)) (set_three f c x y z)
  unfolding set_three
  set_three-IsElsewhere f c x y z h =
      let f1 = set f (3 * c) x in
      let f2 = set f1 (3 * c + 1) y in
      let n1 = length-set f (3 * c) x in
      let n2 = length-set f1 (3 * c + 1) y in
      let n3 = length-set f2 (3 * c + 2) z in
      rw
        (
          write-set f (3 * c) x (omega arith),
          write-set f1 (3 * c + 1) y (omega (arith, n1)),
          write-set f2 (3 * c + 2) z (omega (arith, n1, n2)),
        )
        (
          set f2 (3 * c + 2) z,
          refl,
          (
            (
              omega (arith, n1, n2, n3),
              λ k away.
                  get_elem?-set_ne f2 (3 * c + 2) k z (λ e. omega arith)
                  ∙ get_elem?-set_ne f1 (3 * c + 1) k y (λ e. omega arith)
                  ∙ get_elem?-set_ne f (3 * c) k x (λ e. omega arith),
            ),
            get_elem?-set_ne f2 (3 * c + 2) (3 * c) z (λ e. omega arith)
                ∙ get_elem?-set_ne f1 (3 * c + 1) (3 * c) y (λ e. omega arith)
                ∙ get_elem?-set_self f (3 * c) x (omega arith),
          ),
        )

  -- No contact pulls: the normal forces of the first `n` contacts are not negative.
  abbrev pub IsPushing : ℕ → List F → Type 0
  IsPushing n f = (c : ℕ) → c < n → Returns (λ x. (x ≺ nought) ≡ false) (get_elem? f (3 * c))

  -- GSState never gives a negative normal force.
  pub gs_state-fn :
      (nought {F = F} ≺ nought) ≡ false
      → (b : Block F) (mu : F) (allow : Bool) (c : Contact3 F)
      → ((gs_state b mu allow c).fn ≺ nought) ≡ false
  unfolding gs_state gs_friction
  gs_state-fn irreflexive b mu allow c =
      let d0 = b.w0 ⊗ c.fn ⊕ b.w1 ⊗ c.ft ⊕ b.w2 ⊗ c.fs ⊕ c.dn in
      let fn = c.fn ⊖ d0 ⊘ b.w0 in
      if_elim (λ k. (k.fn ≺ nought) ≡ false) (fn ≺ nought)
        (record c { fn = nought; ft = nought; fs = nought })
        (gs_friction b mu allow (record c { fn = fn })) (λ _. irreflexive) (λ e. e)

  -- Writing a contact whose normal force is not negative keeps the others'.
  pub IsPushing-keep :
      (n c : ℕ) (f g : List F) (x : F)
      → IsPushing n f
      → IsElsewhere c f g
      → get_elem? g (3 * c) ≡ some x
      → (x ≺ nought) ≡ false
      → IsPushing n g
  IsPushing-keep n c f g x push away at ok k h = elim (Bool-cases (k == c)) [
    | inl e ↦ let same : k ≡ c = ground arith in (x, ap (λ j. get_elem? g (3 * j)) same ∙ at, ok)
    | inr ne ↦ let (y, e, p) = push k h in (y, away.1 (3 * k) (elsewhere ne) ∙ e, p)
  ]
    where
      elsewhere : (k == c) ≡ false → (3 * k < 3 * c) ⊎ (3 * c + 2 < 3 * k)
      elsewhere ne = ground arith

  pub replicate-IsPushing :
      (nought {F = F} ≺ nought) ≡ false → (dim : ℕ) → IsPushing (dim / 3) (replicate dim nought)
  replicate-IsPushing irreflexive dim c h =
      (nought, get_elem?-replicate dim nought (3 * c) (omega arith), irreflexive)
