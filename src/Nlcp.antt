-- ===== src/Nlcp.antt =====
-- component/solver/modules/NLCPSolver.cpp: the Gauss-Seidel iteration for contacts with friction.
-- `abs_error` is sofa::helper::absError, whose code is not part of the repository.
pub mod Forces
pub mod Sweeps
pub mod Iterations
use soft_robots_inverse.Prelude.{
  Bool, List, Option, false, for_range, get_elem?, if◌then◌else◌, none, some, suc, true, zero, ℕ,
  ◌%◌, ◌&&◌, ◌*◌, ◌+◌, ◌/◌, ◌==◌, ◌>>=◌, replicate, write,
}
use soft_robots_inverse.Double.{Double, ◌≺◌, ◌⊕◌, ◌⊖◌, ◌⊗◌, ◌⊘◌, nought, rabs, two}

-- NLCPSolverMatrix33::m_w, the upper triangle of the block of W of one contact.
pub record Block (F : Type 0) : Type 0 where
  pub w0 : F
  pub w1 : F
  pub w2 : F
  pub w3 : F
  pub w4 : F
  pub w5 : F

-- The violations d and the forces f of one contact, which GSState updates.
pub record Contact3 (F : Type 0) : Type 0 where
  pub dn : F
  pub dt : F
  pub ds : F
  pub fn : F
  pub ft : F
  pub fs : F

-- What the iteration carries: the forces, the blocks that are stored, and the error so far.
pub record Sweep (F : Type 0) : Type 0 where
  pub forces : List F
  pub blocks : List (Option (Block F))
  pub error : F

-- `converged` is the returned 1.
pub record Outcome (F : Type 0) : Type 0 where
  pub forces : List F
  pub converged : Bool
  pub iterations : ℕ

module _ {F : Type 0} ⦃R : Double F⦄ where
  -- The friction forces scaled back onto the cone, where sliding is allowed.
  pub scale_back : F → Bool → F → F → F → F × F
  scale_back mu allow fn ft fs =
      let norm = rabs ft ⊕ rabs fs in
      if allow && (mu ⊗ fn ≺ norm) then (ft ⊗ (mu ⊗ fn ⊘ norm), fs ⊗ (mu ⊗ fn ⊘ norm)) else (ft, fs)

  -- GSState after the new normal force `fn`, where that is not negative.
  pub gs_friction : Block F → F → Bool → Contact3 F → Contact3 F
  gs_friction b mu allow c =
      let d1 = b.w1 ⊗ c.fn ⊕ b.w3 ⊗ c.ft ⊕ b.w4 ⊗ c.fs ⊕ c.dt in
      let d2 = b.w2 ⊗ c.fn ⊕ b.w4 ⊗ c.ft ⊕ b.w5 ⊗ c.fs ⊕ c.ds in
      let ft = c.ft ⊖ two ⊗ d1 ⊘ (b.w3 ⊕ b.w5) in
      let fs = c.fs ⊖ two ⊗ d2 ⊘ (b.w3 ⊕ b.w5) in
      let (ft', fs') = scale_back mu allow c.fn ft fs in
      record {
        dn = c.dn ⊕ (b.w0 ⊗ c.fn ⊕ b.w1 ⊗ ft' ⊕ b.w2 ⊗ fs');
        dt = c.dt ⊕ (b.w1 ⊗ c.fn ⊕ b.w3 ⊗ ft' ⊕ b.w4 ⊗ fs');
        ds = c.ds ⊕ (b.w2 ⊗ c.fn ⊕ b.w4 ⊗ ft' ⊕ b.w5 ⊗ fs');
        fn = c.fn;
        ft = ft';
        fs = fs';
      }

  pub gs_state : Block F → F → Bool → Contact3 F → Contact3 F
  gs_state b mu allow c =
      let d0 = b.w0 ⊗ c.fn ⊕ b.w1 ⊗ c.ft ⊕ b.w2 ⊗ c.fs ⊕ c.dn in
      let fn = c.fn ⊖ d0 ⊘ b.w0 in
      if fn ≺ nought
      then record c { fn = nought; ft = nought; fs = nought }
      else gs_friction b mu allow (record c { fn = fn })

  -- sofa::helper::set3Dof: f[3*c] = x; f[3*c+1] = y; f[3*c+2] = z.
  pub set_three : List F → ℕ → F → F → F → Option (List F)
  set_three f c x y z = do
    f1 ← write f (3 * c) x
    f2 ← write f1 (3 * c + 1) y
    write f2 (3 * c + 2) z

module _ {F : Type 0} ⦃R : Double F⦄ (abs_error : F → F → F → F → F → F → F) (dim : ℕ)
    (d_free : ℕ → F) (w : ℕ → ℕ → F) (mu : F) (allow_sliding : Bool) where
  -- d + W[r] * forces
  pub violation : List F → ℕ → F → Option F
  violation forces r d = for_range dim 0 (λ i d. get_elem? forces i >>= λ x. some (d ⊕ w r i ⊗ x)) d

  pub block_of : ℕ → Block F
  block_of c = record {
    w0 = w (3 * c) (3 * c);
    w1 = w (3 * c) (3 * c + 1);
    w2 = w (3 * c) (3 * c + 2);
    w3 = w (3 * c + 1) (3 * c + 1);
    w4 = w (3 * c + 1) (3 * c + 2);
    w5 = w (3 * c + 2) (3 * c + 2);
  }

  -- d_prev of row r: the violation with the contact's former forces put back.
  abbrev pub with_former : ℕ → ℕ → F → F → F → F → F
  with_former c r d x y z = d ⊕ w r (3 * c) ⊗ x ⊕ w r (3 * c + 1) ⊗ y ⊕ w r (3 * c + 2) ⊗ z

  -- The block of a contact, which storeW fills in if it is not stored yet.
  pub fill_block :
      ℕ → List (Option (Block F)) → Option (Block F) → Option (Block F × List (Option (Block F)))
  fill_block c blocks (some b) = some (b, blocks)
  fill_block c blocks none = do
    blocks' ← write blocks c (some (block_of c))
    some (block_of c, blocks')

  pub stored_block : ℕ → List (Option (Block F)) → Option (Block F × List (Option (Block F)))
  stored_block c blocks = get_elem? blocks c >>= fill_block c blocks

  -- One contact of one iteration.
  pub visit : ℕ → Sweep F → Option (Sweep F)
  visit c s = do
    x ← get_elem? s.forces (3 * c)
    y ← get_elem? s.forces (3 * c + 1)
    z ← get_elem? s.forces (3 * c + 2)
    zeroed ← set_three s.forces c nought nought nought
    dn ← violation zeroed (3 * c) (d_free (3 * c))
    dt ← violation zeroed (3 * c + 1) (d_free (3 * c + 1))
    ds ← violation zeroed (3 * c + 2) (d_free (3 * c + 2))
    (block, blocks) ← stored_block c s.blocks
    let contact : Contact3 F =
        gs_state block mu allow_sliding
          (record { dn = dn; dt = dt; ds = ds; fn = x; ft = y; fs = z })
    forces ← set_three zeroed c contact.fn contact.ft contact.fs
    some (record {
      forces = forces;
      blocks = blocks;
      error =
          s.error
          ⊕ abs_error contact.dn contact.dt contact.ds (with_former c (3 * c) dn x y z)
              (with_former c (3 * c + 1) dt x y z) (with_former c (3 * c + 2) ds x y z);
    })

  -- One iteration over all contacts.
  pub sweep : List F → List (Option (Block F)) → Option (Sweep F)
  sweep forces blocks =
      for_range (dim / 3) 0 visit (record { forces = forces; blocks = blocks; error = nought })

  -- The iterations that are left, after `it` of them. The bound is tol * (nbContacts + 1).
  pub iterate : ℕ → ℕ → F → List F → List (Option (Block F)) → Option (Outcome F)
  iterate zero it limit forces blocks =
      some (record { forces = forces; converged = false; iterations = it })
  iterate (suc left) it limit forces blocks = sweep forces blocks >>= λ s. elim (s.error ≺ limit) [
    | true ↦ some (record { forces = s.forces; converged = true; iterations = it + 1 })
    | false ↦ iterate left (it + 1) limit s.forces s.blocks
  ]

  -- NLCPSolver::solve with neither residuals nor violations asked for. `to_double` is the conversion
  -- of an integer.
  pub solve : (ℕ → F) → F → ℕ → Bool → List F → Option (Outcome F)
  solve to_double tol nb_iteration_max use_initial result =
      if dim % 3 == 0
      then iterate nb_iteration_max 0 (tol ⊗ to_double (dim / 3 + 1))
          (if use_initial then result else replicate dim nought) (replicate (dim / 3) none)
      else some (record { forces = result; converged = false; iterations = 0 })
