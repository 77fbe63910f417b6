-- ===== src/Nlcp/Iterations.antt =====
-- NLCPSolver.cpp: the iterations end with no fault, within their bound, and when they stop.
use soft_robots_inverse.Prelude.{
  Bool, Bool-cases, List, Option, Returns, Returns-bind, Returns-mono, false, if◌then◌else◌, inl,
  inr, length-replicate, none, refl, some, suc, true, zero, ℕ, ◌%◌, ◌+◌, ◌/◌, ◌==◌, ◌≡◌, ◌≤◌,
  length, arith, replicate,
}
use soft_robots_inverse.Nlcp.{Block, Outcome, Sweep, iterate, solve, sweep}
use soft_robots_inverse.Double.{Double, ◌≺◌, ◌⊗◌, nought}
use soft_robots_inverse.Nlcp.Forces.{IsPushing, replicate-IsPushing}
use soft_robots_inverse.Nlcp.Sweeps.{IsRunning, Runs, sweep-Runs}

module _ {F : Type 0} ⦃R : Double F⦄ (abs_error : F → F → F → F → F → F → F) (dim : ℕ)
    (d_free : ℕ → F) (w : ℕ → ℕ → F) (mu : F) (allow_sliding : Bool)
    (irreflexive : (nought {F = F} ≺ nought) ≡ false) where
  -- `n` sweeps from these forces and blocks, none of them with an error below `limit`, end with `forces'`
  -- and `blocks'`.
  abbrev pub IsPassed :
      F → ℕ → List F → List (Option (Block F)) → List F → List (Option (Block F)) → Type 0
  IsPassed limit zero forces blocks forces' blocks' = (forces' ≡ forces) × (blocks' ≡ blocks)
  IsPassed limit (suc n) forces blocks forces' blocks' =
      Returns
        (λ s. ((s.error ≺ limit) ≡ false) × IsPassed limit n s.forces s.blocks forces' blocks')
        (sweep abs_error dim d_free w mu allow_sliding forces blocks)

  -- The result of the iterations that start, after `it` of them, from these forces and blocks: as many
  -- forces as there are, and no contact pulls. Not converged: all `most` were made, and none had an error
  -- below `limit`. Converged: the last had one, and none before it.
  pub record IsSettled (it most : ℕ) (limit : F) (forces : List F)
      (blocks : List (Option (Block F))) (o : Outcome F) : Type 0 where
    pub size : length o.forces ≡ dim
    pub push : IsPushing (dim / 3) o.forces
    pub bound : o.iterations ≤ most
    pub exhausted :
        o.converged ≡ false
        → (n : ℕ) × (b : List (Option (Block F))) × (o.iterations ≡ most)
          × (it + n ≡ most)
          × IsPassed limit n forces blocks o.forces b
    pub settled :
        o.converged ≡ true
        → (n : ℕ) × (f : List F) × (b : List (Option (Block F))) × (it + n + 1 ≡ o.iterations)
          × IsPassed limit n forces blocks f b
          × Returns
              (λ s. (s.forces ≡ o.forces) × ((s.error ≺ limit) ≡ true))
              (sweep abs_error dim d_free w mu allow_sliding f b)

  -- One more sweep before.
  IsSettled-sweep :
      (it most : ℕ) (limit : F) (forces : List F) (blocks : List (Option (Block F))) (s : Sweep F)
      (o : Outcome F)
      → sweep abs_error dim d_free w mu allow_sliding forces blocks ≡ some s
      → (s.error ≺ limit) ≡ false
      → IsSettled (it + 1) most limit s.forces s.blocks o
      → IsSettled it most limit forces blocks o
  IsSettled-sweep it most limit forces blocks s o done large v = record {
    size = v.size;
    push = v.push;
    bound = v.bound;
    exhausted = λ no.
        let (n, b, all, count, passed) = v.exhausted no in
        (suc n, b, all, omega arith, (s, done, (large, passed)));
    settled = λ yes'.
        let (n, f, b, count, passed, last) = v.settled yes' in
        (suc n, f, b, omega arith, (s, done, (large, passed)), last);
  }

  iterate-IsSettled :
      (left it most : ℕ) (limit : F) (forces : List F) (blocks : List (Option (Block F)))
      → it + left ≡ most
      → IsRunning abs_error dim d_free w mu allow_sliding irreflexive forces blocks
      → Returns
          (IsSettled it most limit forces blocks)
          (iterate abs_error dim d_free w mu allow_sliding left it limit forces blocks)
  unfolding iterate
  iterate-IsSettled zero it most limit forces blocks e v = (
    _,
    refl,
    record {
      size = v.size;
      push = v.push;
      bound = omega arith;
      exhausted = λ _. (0, blocks, omega arith, omega arith, (refl, refl));
      settled = λ no. cc;
    },
  )
  iterate-IsSettled (suc left) it most limit forces blocks e v =
      Returns-bind
        (λ s.
          Runs abs_error dim d_free w mu allow_sliding irreflexive s
          × (sweep abs_error dim d_free w mu allow_sliding forces blocks ≡ some s))
        (IsSettled it most limit forces blocks) _ _
        (let (s, done, good) =
            sweep-Runs abs_error dim d_free w mu allow_sliding irreflexive forces blocks v in
          (s, done, (good, done)))
        λ s (good, done). elim (Bool-cases (s.error ≺ limit)) [
          | inl small ↦ rw small (
            _,
            refl,
            record {
              size = good.size;
              push = good.push;
              bound = omega arith;
              exhausted = λ no. cc;
              settled =
                  λ _. (0, forces, blocks, omega arith, (refl, refl), (s, done, (refl, small)));
            },
          )
          | inr large ↦ rw large (
              Returns-mono (IsSettled (it + 1) most limit s.forces s.blocks)
                (IsSettled it most limit forces blocks) _
                (λ o v'. IsSettled-sweep it most limit forces blocks s o done large v')
                (iterate-IsSettled left (it + 1) most limit s.forces s.blocks (omega arith) good))
        ]

  -- With a dimension that three divides, and, where the initial forces are used, as many of them
  -- with no contact pulling, the Gauss-Seidel solver ends with no fault after at most
  -- nbIterationMax iterations, and no contact pulls. If it reports convergence, the iterations from
  -- the start were sweeps of which the last, and none before it, had an error below tol *
  -- (nbContacts + 1); otherwise all nbIterationMax sweeps were made and none had such an error. The
  -- forces are those of the last sweep, or those of the start if there was none. Zero is assumed
  -- not to be below itself.
  pub solve-IsSettled :
      (to_double : ℕ → F) (tol : F) (most : ℕ) (use_initial : Bool) (initial : List F)
      → dim % 3 ≡ 0
      → (use_initial ≡ true → (length initial ≡ dim) × IsPushing (dim / 3) initial)
      → Returns
          (IsSettled 0 most
            (tol ⊗ to_double (dim / 3 + 1))
            (if use_initial then initial else replicate dim nought)
            (replicate (dim / 3) none))
          (solve abs_error dim d_free w mu allow_sliding to_double tol most use_initial initial)
  unfolding solve
  solve-IsSettled to_double tol most use_initial initial thirds given =
      let test : (dim % 3 == 0) ≡ true = rw thirds refl in
      rw test (iterate-IsSettled most 0 most _ _ _ (omega arith) (start use_initial given))
    where
      start :
          (warm : Bool)
          → (warm ≡ true → (length initial ≡ dim) × IsPushing (dim / 3) initial)
          → IsRunning abs_error dim d_free w mu allow_sliding irreflexive
              (if warm then initial else replicate dim nought)
              (replicate (dim / 3) none)
      start true given =
          let (l, p) = given refl in
          record { size = l; room = length-replicate (dim / 3) none; push = p }
      start false given = record {
        size = length-replicate dim nought;
        room = length-replicate (dim / 3) none;
        push = replicate-IsPushing irreflexive dim;
      }
