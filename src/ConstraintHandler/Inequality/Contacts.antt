-- ===== src/ConstraintHandler/Inequality/Contacts.antt =====
-- One contact in buildInequalityConstraintMatrices: no vector is read or written out of its bounds, and
-- the shape of A, bu and bl is kept.
use soft_robots_inverse.Prelude.{
  All, All-push, List, Returns, Returns-bind, Returns-mono, for_range-Returns, if_elim,
  if◌then◌else◌, length-push, refl, suc, ℕ, ◌+◌, ◌-◌, ◌<◌, ◌≡◌, arith, length, get_elem?,
  get_elem?-lt, some, ◌&&◌, ◌*◌, ◌==◌, ◌>>=◌, ◌||◌, ◌≤◌, subst, ltb, inl, inr, ◌/◌, sym,
}
use soft_robots_inverse.Problem.{
  Problem, contact_offset, nb_contact_rows, nb_actuator_rows, nb_equality_rows,
}
use soft_robots_inverse.Double.{Double, ◌⊗◌, nought, one, ◌≺◌}
use soft_robots_inverse.ConstraintHandler.Shape.{
  IsShaped, IsWide, push_unbounded-IsShaped, IsVariable, IsVariable-lt, Names,
}
use soft_robots_inverse.ConstraintHandler.Inequality.{
  cone_face, cone_inequalities, separation_inequality, sliding_line, sliding_sign, negate, huge,
  friction_inequalities, frictionless_inequalities, rabs, small, contact_inequalities,
}
use soft_robots_inverse.ConstraintHandler.Ready.{
  IsReady, IsFrictional, HasContacts, IsAligned, IsFrictionless,
}
use soft_robots_inverse.ConstraintHandler.Rows.{
  Inequalities, contact_row_id, push_row, push_unbounded, push_upper,
}
use soft_robots_inverse.ConstraintHandler.Rows.Entries.{friction_row-Returns}
use soft_robots_inverse.ConstraintHandler.Inequality.Lines.{row_of_w}
use soft_robots_inverse.Contact.{ContactState, active, inactive, sliding, stick}

third_lt : (n c s : ℕ) → c ≡ 3 → n < s * 3 → n / c < s
third_lt n c s e h = subst (λ d. n / d < s) (sym e) (omega arith)

module _ {F : Type 0} ⦃R : Double F⦄ (e : Problem F) (stride : ℕ) (result : List F)
    (ready : IsReady e stride result) (base : Names) where
  open ready use {sized}

  abbrev Shaped : Inequalities F → Type 0
  Shaped = IsShaped e base

  -- The shape with `k` bounds still to push.
  record IsOwing (k : ℕ) (n : Inequalities F) : Type 0 where
    uppers : length n.bu + k ≡ length n.a
    lowers :
        length n.bl + (if e.system.has_both_side_inequality_constraint then k else 0)
        ≡ (if e.system.has_both_side_inequality_constraint then length n.a else 0)
    names : length n.ids ≡ base.count + length n.a
    known : All (IsVariable e base.strict) n.ids
    widths : All (IsWide e) n.a

  separation_inequality-Shaped :
      (i : ℕ) (n : Inequalities F)
      → contact_offset e i < nb_contact_rows e
      → Shaped n
      → Returns Shaped (separation_inequality e i n)
  unfolding separation_inequality contact_row_id
  separation_inequality-Shaped i n h v =
      row_of_w e stride result ready base negate e.lists.contact_row_ids (contact_offset e i + 0) _
        (omega arith)
        λ r row wide.
          (_, refl, push_unbounded-IsShaped e base row i _ n v wide (omega (arith, sized)))

  cone_face-IsOwing :
      (i k : ℕ) (x y : F) (n : Inequalities F)
      → i + 2 < e.system.dim
      → IsOwing k n
      → Returns (IsOwing (k + 1)) (cone_face e i x y n)
  unfolding cone_face
  cone_face-IsOwing i k x y n h v =
      Returns-bind (IsWide e) (IsOwing (k + 1)) _ _
        (friction_row-Returns e i 1 2 (negate e.params.mu) x y (omega arith) h)
        λ row wide. (_, refl, owing row wide)
    where
      owing : (row : List F) → IsWide e row → IsOwing (k + 1) (push_row row (i + 1) n)
      owing row wide = ground (
        arith,
        length-push n.a row,
        length-push n.ids (i + 1),
        All-push (IsWide e) n.a row v.widths wide,
        All-push (IsVariable e base.strict) n.ids (i + 1) v.known
            (IsVariable-lt e base.strict (i + 1) (omega arith)),
      )

  pay_bound :
      (k : ℕ) (n : Inequalities F)
      → IsOwing (suc k) n
      → IsOwing k (push_unbounded e (push_upper nought n))
  pay_bound k n v = ground (arith, length-push n.bu nought, length-push n.bl (negate huge))

  round :
      (k : ℕ) (n : Inequalities F)
      → k < 4
      → IsOwing (4 - k) n
      → IsOwing (4 - (k + 1)) (push_unbounded e (push_upper nought n))
  round k n h v =
      let left : 4 - k ≡ suc (4 - (k + 1)) = omega arith in
      pay_bound (4 - (k + 1)) n (subst (λ j. IsOwing j n) left v)

  cone_inequalities-Shaped :
      (i : ℕ) (n : Inequalities F)
      → i + 2 < e.system.dim
      → Shaped n
      → Returns Shaped (cone_inequalities e i n)
  unfolding cone_inequalities
  cone_inequalities-Shaped i n h v =
      Returns-bind (IsOwing 1) Shaped _ _ (cone_face-IsOwing i 0 one one n h (ground arith))
        λ n1 v1. Returns-bind (IsOwing 2) Shaped _ _ (cone_face-IsOwing i 1 _ _ n1 h v1) λ n2 v2.
          Returns-bind (IsOwing 3) Shaped _ _ (cone_face-IsOwing i 2 _ _ n2 h v2) λ n3 v3.
            Returns-bind (IsOwing 4) Shaped _ _ (cone_face-IsOwing i 3 _ _ n3 h v3) λ n4 v4.
              Returns-mono (IsOwing 0) Shaped _ (λ m w. ground arith)
                (for_range-Returns (λ k. IsOwing (4 - k)) _ 4 0 4 n4 refl
                  (λ k m _ hi w. (_, refl, round k m hi w)) v4)

  sliding_sign-Returns :
      (j : ℕ)
      → 0 < nb_contact_rows e
      → j < e.system.dim
      → Returns (λ _. Unit {0}) (sliding_sign e result j)
  unfolding sliding_sign
  sliding_sign-Returns j some_row h =
      Returns-bind (λ _. Unit {0}) (λ _. Unit {0}) (get_elem? result j) _
        (let (x, at) = get_elem?-lt result j (omega (arith, ready.result_size some_row)) in
          (x, at, tt))
        λ x _.
          if_elim (Returns {A = F} (λ _. Unit {0})) (nought ≺ x) _ _ (λ _. (negate one, refl, tt))
            λ _.
              if_elim (Returns {A = F} (λ _. Unit {0}))
                ((rabs x ≺ small) && ltb 0 (length e.system.previous_result)) _ _
                (λ near. last_force (ground arith)) (λ _. (one, refl, tt))
    where
      last_force :
          0 < length e.system.previous_result
          → Returns {A = F}
              (λ _. Unit {0})
              (get_elem? e.system.previous_result j >>= λ y.
                some (if nought ≺ y then negate one else one))
      last_force h' =
          let (y, at) =
            get_elem?-lt e.system.previous_result j (omega (arith, ready.previous_size some_row)) in
          Returns-bind {A = F} (λ _. Unit {0}) (λ _. Unit {0})
            (get_elem? e.system.previous_result j)
            (λ y. some (if nought ≺ y then negate one else one)) (y, at, tt) (λ y _. (_, refl, tt))

  sliding_line-Shaped :
      (i k : ℕ) (n : Inequalities F)
      → i + k < e.system.dim
      → contact_offset e i + k < nb_contact_rows e
      → Shaped n
      → Returns Shaped (sliding_line e result i k n)
  unfolding sliding_line contact_row_id
  sliding_line-Shaped i k n h hk v =
      if_elim (Returns Shaped) ((k == e.params.sliding_dir_id1) || (k == e.params.sliding_dir_id2))
        _ _
        (λ _.
          Returns-bind (λ _. Unit {0}) Shaped _ _ (sliding_sign-Returns (i + k) (omega arith) h)
            λ sign _.
              row_of_w e stride result ready base (λ x. negate x ⊗ sign) e.lists.contact_row_ids
                (contact_offset e i + k) _ hk
                λ r row wide. (_, refl, push_unbounded-IsShaped e base row (i + k) _ n v wide h))
        (λ _. (n, refl, v))

  friction_inequalities-Shaped :
      (state : ContactState) (i : ℕ) (n : Inequalities F)
      → IsFrictional e.lists e.params
      → contact_offset e i + 2 < nb_contact_rows e
      → i + 2 < e.system.dim
      → Shaped n
      → Returns Shaped (friction_inequalities e state result i n)
  unfolding friction_inequalities
  friction_inequalities-Shaped active i n f h h' v = (n, refl, v)
  friction_inequalities-Shaped inactive i n f h h' v =
      separation_inequality-Shaped i n (omega arith) v
  friction_inequalities-Shaped stick i n f h h' v =
      if_elim (Returns Shaped) e.params.allow_sliding _ _ (λ _. cone_inequalities-Shaped i n h' v)
        (λ _. (n, refl, v))
  friction_inequalities-Shaped sliding i n f h h' v =
      for_range-Returns (λ _. Shaped) (sliding_line e result i) (e.params.contact_nb_lines - 1) 1 3
        n (omega (arith, f.three_lines))
        (λ k m lo hi w. sliding_line-Shaped i k m (omega arith) (omega arith) w) v

  frictionless_inequalities-Shaped :
      (state : ContactState) (i : ℕ) (n : Inequalities F)
      → contact_offset e i < nb_contact_rows e
      → Shaped n
      → Returns Shaped (frictionless_inequalities e state i n)
  unfolding frictionless_inequalities
  frictionless_inequalities-Shaped inactive i n h v = separation_inequality-Shaped i n h v
  frictionless_inequalities-Shaped _ i n h v = (n, refl, v)

  -- The contact that starts at variable `i`, the `m`-th from the end. Without friction the state is
  -- looked up past the equality rows, so there may be none.
  pub contact_inequalities-Shaped :
      (i m : ℕ) (n : Inequalities F)
      → nb_actuator_rows e + nb_equality_rows e ≤ i
      → i + m * e.params.contact_nb_lines ≡ e.system.dim
      → i < e.system.dim
      → IsAligned e
      → Shaped n
      → Returns Shaped (contact_inequalities e result i n)
  unfolding contact_inequalities
  contact_inequalities-Shaped i m n after left h aligned v = at_contact ready.contact_lines aligned
    where
      -- With friction.
      rubbing : IsFrictional e.lists e.params → Returns Shaped (contact_inequalities e result i n)
      rubbing f =
          let left' : i + m * 3 ≡ e.system.dim =
            subst (λ c. i + m * c ≡ e.system.dim) f.three_lines left in
          if_elim (Returns Shaped) (nought ≺ e.params.mu) _ _
            (λ _.
              Returns-bind (λ _. Unit {0}) Shaped (get_elem? e.params.contact_states _) _
                (let (state, at) =
                    get_elem?-lt e.params.contact_states
                      (contact_offset e i / e.params.contact_nb_lines)
                      (third_lt _ _ _ f.three_lines (omega (arith, sized, f.rows))) in
                  (state, at, tt))
                λ state _.
                  friction_inequalities-Shaped state i n f (omega (arith, sized, f.rows))
                    (omega (arith, sized, f.rows)) v)
            (λ slips. ground (arith, f.rubs))

      slipping :
          IsFrictionless e.lists e.params
          → nb_equality_rows e ≡ 0
          → Returns Shaped (contact_inequalities e result i n)
      slipping f none_equal =
          if_elim (Returns Shaped) (nought ≺ e.params.mu) _ _ (λ rubs. ground (arith, f.slips))
            λ _.
              Returns-bind (λ _. Unit {0}) Shaped (get_elem? e.params.contact_states _) _
                (let (state, at) =
                    get_elem?-lt e.params.contact_states (i - nb_actuator_rows e)
                      (omega (arith, sized, f.rows)) in
                  (state, at, tt))
                λ state _. frictionless_inequalities-Shaped state i n (omega (arith, sized)) v

      at_contact : HasContacts e → IsAligned e → Returns Shaped (contact_inequalities e result i n)
      at_contact (inl no_contact) a = absurd (omega (arith, sized))
      at_contact (inr (inl f)) a = rubbing f
      at_contact (inr (inr f)) (inl rubs) = ground (arith, f.slips)
      at_contact (inr (inr f)) (inr (inl no_equality)) = slipping f no_equality
      at_contact (inr (inr f)) (inr (inr no_contact)) = absurd (omega (arith, sized))
