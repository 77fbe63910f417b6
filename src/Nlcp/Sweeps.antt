-- ===== src/Nlcp/Sweeps.antt =====
-- NLCPSolver.cpp: one iteration over the contacts ends with no fault, and no contact pulls after it.
use soft_robots_inverse.Prelude.{
  Bool, List, Option, Returns, Returns-bind, false, for_range-Returns, get_elem?, get_elem?-lt,
  none, refl, some, write-Returns, ℕ, ◌*◌, ◌+◌, ◌/◌, ◌<◌, ◌∙◌, ◌≡◌, length, arith, write,
}
use soft_robots_inverse.Nlcp.{
  Block, Contact3, Sweep, block_of, fill_block, gs_state, stored_block, sweep, violation, visit,
}
use soft_robots_inverse.Double.{Double, ◌≺◌, nought}
use soft_robots_inverse.Nlcp.Forces.{
  IsElsewhere, IsPushing, IsPushing-keep, gs_state-fn, set_three-IsElsewhere,
}

module _ {F : Type 0} ⦃R : Double F⦄ (abs_error : F → F → F → F → F → F → F) (dim : ℕ)
    (d_free : ℕ → F) (w : ℕ → ℕ → F) (mu : F) (allow_sliding : Bool)
    (irreflexive : (nought {F = F} ≺ nought) ≡ false) where
  -- What every sweep starts from and ends with.
  pub record IsRunning (forces : List F) (blocks : List (Option (Block F))) : Type 0 where
    pub size : length forces ≡ dim
    pub room : length blocks ≡ dim / 3
    pub push : IsPushing (dim / 3) forces

  abbrev pub Runs : Sweep F → Type 0
  Runs s = IsRunning s.forces s.blocks

  violation-Returns :
      (forces : List F) (r : ℕ) (d : F)
      → length forces ≡ dim
      → Returns (λ _. Unit {0}) (violation abs_error dim d_free w mu allow_sliding forces r d)
  unfolding violation
  violation-Returns forces r d len =
      for_range-Returns (λ _ _. Unit {0}) _ dim 0 dim d (omega arith)
        (λ k t lo hi _. let (x, e) = get_elem?-lt forces k (omega arith) in rw e (_, refl, tt)) tt

  fill_block-Returns :
      (c : ℕ) (blocks : List (Option (Block F))) (entry : Option (Block F))
      → c < length blocks
      → Returns
          (λ p. length p.1 ≡ length blocks)
          (fill_block abs_error dim d_free w mu allow_sliding c blocks entry)
  unfolding fill_block
  fill_block-Returns c blocks (some b) h = (_, refl, refl)
  fill_block-Returns c blocks none h =
      Returns-bind (λ bs. length bs ≡ length blocks) (λ p. length p.1 ≡ length blocks)
        (write blocks c (some (block_of abs_error dim d_free w mu allow_sliding c))) _
        (write-Returns blocks c _ h) (λ bs l. (_, refl, l))

  stored_block-Returns :
      (c : ℕ) (blocks : List (Option (Block F)))
      → c < length blocks
      → Returns
          (λ p. length p.1 ≡ length blocks)
          (stored_block abs_error dim d_free w mu allow_sliding c blocks)
  unfolding stored_block
  stored_block-Returns c blocks h =
      let (entry, e) = get_elem?-lt blocks c h in rw e (fill_block-Returns c blocks entry h)

  visit-Runs :
      (c : ℕ) (s : Sweep F)
      → c < dim / 3
      → Runs s
      → Returns Runs (visit abs_error dim d_free w mu allow_sliding c s)
  unfolding visit
  visit-Runs c s h v =
      let len = v.size in
      let room = v.room in
      let (x, ex) = get_elem?-lt s.forces (3 * c) (omega arith) in
      let (y, ey) = get_elem?-lt s.forces (3 * c + 1) (omega arith) in
      let (z, ez) = get_elem?-lt s.forces (3 * c + 2) (omega arith) in
      rw (ex, ey, ez)
        (Returns-bind (λ g. IsElsewhere c s.forces g × (get_elem? g (3 * c) ≡ some nought)) Runs _ _
          (set_three-IsElsewhere s.forces c nought nought nought (omega arith))
          λ zeroed k.
            let zlen : length zeroed ≡ dim = k.0.0 ∙ len in
            Returns-bind (λ _. Unit {0}) Runs _ _ (violation-Returns zeroed (3 * c) _ zlen)
              λ dn _.
                Returns-bind (λ _. Unit {0}) Runs _ _ (violation-Returns zeroed (3 * c + 1) _ zlen)
                  λ dt _.
                    Returns-bind (λ _. Unit {0}) Runs _ _
                      (violation-Returns zeroed (3 * c + 2) _ zlen)
                      λ ds _.
                        Returns-bind (λ p. length p.1 ≡ length s.blocks) Runs _ _
                          (stored_block-Returns c s.blocks (omega arith))
                          λ p bl.
                            let new : Contact3 F =
                              gs_state p.0 mu allow_sliding
                                (record { dn = dn; dt = dt; ds = ds; fn = x; ft = y; fs = z }) in
                            Returns-bind
                              (λ g. IsElsewhere c zeroed g × (get_elem? g (3 * c) ≡ some new.fn))
                              Runs _ _
                              (set_three-IsElsewhere zeroed c new.fn new.ft new.fs (omega arith))
                              λ g k'. (
                                _,
                                refl,
                                record {
                                  size = k'.0.0 ∙ zlen;
                                  room = bl ∙ room;
                                  push =
                                      IsPushing-keep (dim / 3) c zeroed g new.fn
                                        (IsPushing-keep (dim / 3) c s.forces zeroed nought v.push
                                          k.0 k.1 irreflexive)
                                        k'.0 k'.1 (gs_state-fn irreflexive p.0 mu allow_sliding _);
                                },
                              ))

  pub sweep-Runs :
      (forces : List F) (blocks : List (Option (Block F)))
      → IsRunning forces blocks
      → Returns Runs (sweep abs_error dim d_free w mu allow_sliding forces blocks)
  unfolding sweep
  sweep-Runs forces blocks v =
      for_range-Returns (λ _. Runs) (visit abs_error dim d_free w mu allow_sliding) (dim / 3) 0
        (dim / 3) _ (omega arith) (λ c s lo hi good. visit-Runs c s hi good) v
