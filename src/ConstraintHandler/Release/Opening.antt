-- ===== src/ConstraintHandler/Release/Opening.antt =====
-- checkAndUpdateActuatorConstraints as a whole.
use soft_robots_inverse.Prelude.{
  All-get_elem?, Bool, List, Returns, Returns-bind, Returns-mono, false, for_range-Returns,
  get_elem?, get_elem?-lt, if_elim, if◌then◌else◌, inl, inr, length-set, refl, some, true, ℕ, ◌+◌,
  ◌<◌, ◌∙◌, ◌≡◌, ◌≢◌, length, ap, arith, lt→ltb, sym,
}
use soft_robots_inverse.Problem.{Problem}
use soft_robots_inverse.Double.{Double}
use soft_robots_inverse.ConstraintHandler.Release.Effect.{
  IsMarks, IsReleasable, get_infeasible_constraints-IsMarks,
}
use soft_robots_inverse.ConstraintHandler.Release.{
  check_and_update_actuator_constraints, get_infeasible_constraints, release_step, release, negate,
  huge,
}
use soft_robots_inverse.ConstraintHandler.Release.Opened.{IsLowered, IsOpened, IsOpened-next}

module _ {F : Type 0} ⦃R : Double F⦄ (e : Problem F) (x : List F) (v : IsReleasable e x) where
  module _ (marks : List Bool) (few : IsMarks e x v (length e.system.a) marks) (i : ℕ)
      (t : Problem F) (o : IsOpened e x v marks i t) (marked : get_elem? marks i ≡ some true)
      (index : ℕ) (at : get_elem? e.params.constraints_id i ≡ some index) where
    release-IsOpened : Returns (IsOpened e x v marks (i + 1)) (release i t)
    unfolding release
    release-IsOpened =
        let ids : get_elem? t.params.constraints_id i ≡ some index =
          ap (λ q. get_elem? q.params.constraints_id i) o.same ∙ at in
        let flag : t.system.has_both_side_inequality_constraint
            ≡ e.system.has_both_side_inequality_constraint =
          ap (λ q. q.system.has_both_side_inequality_constraint) o.same in
        let low : index < e.system.dim =
          All-get_elem? (λ id. id < e.system.dim) e.params.constraints_id i index v.bounded at in
        rw
          (
            ids,
            lt→ltb index (length t.system.l) (omega (arith, v.l_size, o.l_size)),
            lt→ltb index (length t.system.u) (omega (arith, v.u_size, o.u_size)),
          )
          (Returns-bind (IsLowered e x v i t.system.bl) (IsOpened e x v marks (i + 1)) _ _
            (if_elim (Returns (IsLowered e x v i t.system.bl))
              t.system.has_both_side_inequality_constraint _ _
              (λ used.
                let size : length e.system.bl ≡ length e.system.a = v.bl_size (sym flag ∙ used) in
                let room : i < length t.system.bl =
                  omega (arith, (few.1 i marked).0, size, o.bl_size) in
                rw (lt→ltb i (length t.system.bl) room) (
                  _,
                  refl,
                  (
                    length-set t.system.bl i (negate huge),
                    λ _. (room, refl),
                    λ unused. absurd (cc),
                  ),
                ))
              (λ unused. (t.system.bl, refl, (refl, λ used. absurd (cc), λ _. refl))))
            λ bl size.
              rw
                (lt→ltb i (length t.system.bu)
                  (omega (arith, (few.1 i marked).0, v.bu_size, o.bu_size)))
                (_, refl, IsOpened-next e x v marks few i t o marked index at bl size))

  release_step-IsOpened :
      (marks : List Bool) (i : ℕ) (t : Problem F)
      → IsMarks e x v (length e.system.a) marks
      → i < length marks
      → IsOpened e x v marks i t
      → Returns (IsOpened e x v marks (i + 1)) (release_step marks i t)
  unfolding release_step
  release_step-IsOpened marks i t few h o =
      let (b, eb) = get_elem?-lt marks i h in rw eb (at_mark b eb)
    where
      unmarked : get_elem? marks i ≡ some false → IsOpened e x v marks (i + 1) t
      unmarked clear = record {
        same = o.same;
        l_size = o.l_size;
        u_size = o.u_size;
        bl_size = o.bl_size;
        bu_size = o.bu_size;
        opened = λ k hk m. o.opened k (below k hk m) m;
        kept = λ k out. o.kept k (elim out [ inl hk ↦ inl (omega arith) | inr m ↦ inr m ]);
        held = λ k id hk m there. o.held k id (below k hk m) m there;
        lowered = λ k hk m used. o.lowered k (below k hk m) m used;
        low_kept = λ k out. o.low_kept k (elim out [ inl hk ↦ inl (omega arith) | inr m ↦ inr m ]);
        free_kept = λ id no. o.free_kept id (λ k hk m there. no k (omega arith) m there);
      }
        where
          below : (k : ℕ) → k < i + 1 → get_elem? marks k ≡ some true → k < i
          below k hk m =
              let apart : k ≢ i = λ same. (let m' = ap (get_elem? marks) same in cc) in omega arith

      at_mark :
          (b : Bool)
          → get_elem? marks i ≡ some b
          → Returns (IsOpened e x v marks (i + 1)) (if b then release i t else some t)
      at_mark true m =
          let (index, at) =
            get_elem?-lt e.params.constraints_id i (omega (arith, (few.1 i m).0, v.named)) in
          release-IsOpened marks few i t o m index at
      at_mark false m = (t, refl, unmarked m)

  -- What the call leaves, for the marks that getInfeasibleConstraints gives.
  abbrev pub IsEased : Problem F → Type 0
  IsEased e' =
      Returns
        (λ marks. IsMarks e x v (length e.system.a) marks × IsOpened e x v marks (length marks) e')
        (get_infeasible_constraints e x)

  -- For matrices, bounds and numbers of the sizes that the builders leave,
  -- checkAndUpdateActuatorConstraints faults nowhere. It releases the rows of A that are violated
  -- and whose number in constraintsId is below the count of actuators, and no others: such a row
  -- gets the open upper bound, and the open lower bound where lower bounds are in use, and the
  -- variable of its number is held at zero. The bounds of all other rows stay, and so do those of
  -- all other variables, and nothing but l, u, bl and bu changes.
  pub check_and_update_actuator_constraints-IsEased :
      Returns IsEased (check_and_update_actuator_constraints e x)
  unfolding check_and_update_actuator_constraints
  check_and_update_actuator_constraints-IsEased =
      Returns-bind
        (λ marks.
          (get_infeasible_constraints e x ≡ some marks) × IsMarks e x v (length e.system.a) marks)
        IsEased _ _
        (let (marks, found, few) = get_infeasible_constraints-IsMarks e x v in
          (marks, found, (found, few)))
        λ marks (found, few).
          (Returns-mono (IsOpened e x v marks (length marks)) IsEased _
            (λ e' o. (marks, found, (few, o)))
            (for_range-Returns (IsOpened e x v marks) (release_step marks) (length marks) 0
              (length marks) e (omega arith)
              (λ i t lo hi o. release_step-IsOpened marks i t few hi o)
              (record {
                same = refl;
                l_size = refl;
                u_size = refl;
                bl_size = refl;
                bu_size = refl;
                opened = λ i h. absurd (omega arith);
                kept = λ i out. refl;
                held = λ i id h. absurd (omega arith);
                lowered = λ i h. absurd (omega arith);
                low_kept = λ i out. refl;
                free_kept = λ id no. (refl, refl);
              })))
