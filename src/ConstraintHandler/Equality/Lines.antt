-- ===== src/ConstraintHandler/Equality/Lines.antt =====
-- One component, or one contact, in buildEqualityConstraintMatrices: no vector is read or written out of
-- its bounds, and Aeq, beq and constraintsId stay in step.
use soft_robots_inverse.Prelude.{
  All, All-push, List, Returns, Returns-bind, for_range-Returns, get_elem?, get_elem?-Returns,
  get_elem?-lt, if_elim, if◌then◌else◌, length-push, length-replicate, refl, some, write-Returns, ℕ,
  ◌&&◌, ◌+◌, ◌-◌, ◌<◌, ◌>>=◌, ◌∙◌, ◌≡◌, ◌≤◌, arith, length, replicate, write, ltb,
}
use soft_robots_inverse.Contact.{ContactState, active, inactive, sliding, stick}
use soft_robots_inverse.Problem.{BaseConstraint, Problem, contact_offset, nb_contact_rows}
use soft_robots_inverse.Double.{Double, ◌≺◌, nought, one}
use soft_robots_inverse.ConstraintHandler.Shape.{IsWide, IsVariable, IsVariable-lt, Names}
use soft_robots_inverse.ConstraintHandler.Equality.{
  Equalities, component_equalities, cone_equality, cone_sign, contact_line, delta_equal_line,
  friction_equalities, frictionless_equalities, lambda_equal_line, push_equality, negate, rabs,
  small,
}
use soft_robots_inverse.ConstraintHandler.Ready.{IsFrictional, IsReady}
use soft_robots_inverse.ConstraintHandler.Rows.{compliance_row, contact_row_id}
use soft_robots_inverse.ConstraintHandler.Rows.Entries.{
  IsComplianceRow, compliance_row-Returns, friction_row-Returns,
}

module _ {F : Type 0} ⦃R : Double F⦄ (e : Problem F) (stride : ℕ) (result : List F)
    (ready : IsReady e stride result) (base : Names) where
  open ready use {sized}

  pub record IsEven (n : Equalities F) : Type 0 where
    pub sides : length n.beq ≡ length n.aeq
    pub names : length n.ids ≡ base.count + length n.aeq
    pub known : All (IsVariable e base.strict) n.ids
    pub widths : All (IsWide e) n.aeq

  push_equality-IsEven :
      (row : List F) (i : ℕ) (x : F) (n : Equalities F)
      → IsEven n
      → IsWide e row
      → i < e.system.dim
      → IsEven (push_equality row i x n)
  push_equality-IsEven row i x n v wide inside = ground (
    arith,
    length-push n.aeq row,
    length-push n.beq x,
    length-push n.ids i,
    All-push (IsWide e) n.aeq row v.widths wide,
    All-push (IsVariable e base.strict) n.ids i v.known (IsVariable-lt e base.strict i inside),
  )

  lambda_equal_line-IsEven :
      (c : BaseConstraint F) (i k : ℕ) (n : Equalities F)
      → i + k < e.system.dim
      → IsEven n
      → Returns IsEven (lambda_equal_line e c i k n)
  unfolding lambda_equal_line
  lambda_equal_line-IsEven c i k n h v =
      let zeros : List F = replicate e.system.dim nought in
      let wide : length zeros ≡ e.system.dim = length-replicate e.system.dim nought in
      Returns-bind (λ row. length row ≡ length zeros) IsEven (write zeros (i + k) one) _
        (write-Returns zeros (i + k) one (omega (arith, wide)))
        λ row len.
          (_, refl, push_equality-IsEven row i (c.lambda_equal k) n v (len ∙ wide) (omega arith))

  row_of_w :
      (scale : F → F) (ids : List ℕ) (j i : ℕ) (x : ℕ → F) (n : Equalities F)
      → j < length ids
      → i < e.system.dim
      → IsEven n
      → Returns IsEven (
          get_elem? ids j >>= λ r.
          compliance_row e scale r >>= λ row. some (push_equality row i (x r) n))
  row_of_w scale ids j i x n h inside v =
      Returns-bind (λ r. get_elem? ids j ≡ some r) IsEven (get_elem? ids j) _
        (get_elem?-Returns ids j h)
        λ r _.
          Returns-bind (IsComplianceRow e scale r) IsEven (compliance_row e scale r) _
            (compliance_row-Returns e sized scale r)
            (λ row t. (_, refl, push_equality-IsEven row i (x r) n v t.0 inside))

  -- A component whose variables begin at `i`, of the kind whose variables begin at `first`.
  pub component_equalities-IsEven :
      (ids : List ℕ) (first : ℕ) (c : BaseConstraint F) (i : ℕ) (n : Equalities F)
      → first ≤ i
      → i + c.nb_lines ≤ first + length ids
      → first + length ids ≤ e.system.dim
      → IsEven n
      → Returns IsEven (component_equalities e ids first c i n)
  unfolding component_equalities delta_equal_line
  component_equalities-IsEven ids first c i n lo hi fits v =
      Returns-bind IsEven IsEven _ _
        (if_elim (Returns IsEven) c.has_lambda_equal _ _
          (λ _.
            for_range-Returns (λ _. IsEven) _ c.nb_lines 0 c.nb_lines n (omega arith)
              (λ k m _ lt w. lambda_equal_line-IsEven c i k m (omega arith) w) v)
          (λ _. (n, refl, v)))
        λ m w.
          if_elim (Returns IsEven) c.has_delta_equal _ _
            (λ _.
              for_range-Returns (λ _. IsEven) (delta_equal_line e ids first c i) c.nb_lines 0
                c.nb_lines m (omega arith)
                (λ k t _ lt u.
                  row_of_w (λ x. x) ids (i + k - first) i _ t (omega arith) (omega arith) u)
                w)
            (λ _. (m, refl, w))

  contact_line-IsEven :
      (i k : ℕ) (n : Equalities F)
      → contact_offset e i + k < nb_contact_rows e
      → IsEven n
      → Returns IsEven (contact_line e i k n)
  unfolding contact_line contact_row_id
  contact_line-IsEven i k n h v =
      row_of_w negate e.lists.contact_row_ids (contact_offset e i + k) (i + k) _ n h
        (omega (arith, sized)) v

  cone_sign-Returns :
      (j : ℕ)
      → 0 < nb_contact_rows e
      → j < e.system.dim
      → Returns (λ _. Unit {0}) (cone_sign e result j)
  unfolding cone_sign
  cone_sign-Returns j some_row h =
      Returns-bind (λ _. Unit {0}) (λ _. Unit {0}) (get_elem? result j) _
        (let (x, at) = get_elem?-lt result j (omega (arith, ready.result_size some_row)) in
          (x, at, tt))
        λ x _.
          if_elim (Returns {A = F} (λ _. Unit {0})) (x ≺ nought) _ _ (λ _. (negate one, refl, tt))
            λ _.
              if_elim (Returns {A = F} (λ _. Unit {0}))
                ((rabs x ≺ small) && ltb 0 (length e.system.previous_result)) _ _
                (λ near. last_force (ground arith)) (λ _. (one, refl, tt))
    where
      last_force :
          0 < length e.system.previous_result
          → Returns {A = F}
              (λ _. Unit {0})
              (get_elem? e.system.previous_result j >>= λ y.
                some (if y ≺ nought then negate one else one))
      last_force h' =
          let (y, at) =
            get_elem?-lt e.system.previous_result j (omega (arith, ready.previous_size some_row)) in
          Returns-bind {A = F} (λ _. Unit {0}) (λ _. Unit {0})
            (get_elem? e.system.previous_result j)
            (λ y. some (if y ≺ nought then negate one else one)) (y, at, tt) (λ y _. (_, refl, tt))

  cone_equality-IsEven :
      (i : ℕ) (n : Equalities F)
      → IsFrictional e.lists e.params
      → 0 < nb_contact_rows e
      → i + 2 < e.system.dim
      → IsEven n
      → Returns IsEven (cone_equality e result i n)
  unfolding cone_equality
  cone_equality-IsEven i n f some_row h v =
      Returns-bind (λ _. Unit {0}) IsEven _ _
        (cone_sign-Returns (i + e.params.sliding_dir_id1) some_row (omega (arith, f.first_dir)))
        λ x _.
          Returns-bind (λ _. Unit {0}) IsEven _ _
            (cone_sign-Returns (i + e.params.sliding_dir_id2) some_row
              (omega (arith, f.second_dir)))
            λ y _.
              Returns-bind (IsWide e) IsEven _ _
                (friction_row-Returns e i _ _ _ x y (omega (arith, f.first_dir))
                  (omega (arith, f.second_dir)))
                λ row wide.
                  (_, refl, push_equality-IsEven row (i + 1) nought n v wide (omega arith))

  pub friction_equalities-IsEven :
      (state : ContactState) (i : ℕ) (n : Equalities F)
      → IsFrictional e.lists e.params
      → contact_offset e i + 2 < nb_contact_rows e
      → i + 2 < e.system.dim
      → IsEven n
      → Returns IsEven (friction_equalities e state result i n)
  unfolding friction_equalities
  friction_equalities-IsEven inactive i n f h h' v = (n, refl, v)
  friction_equalities-IsEven active i n f h h' v = contact_line-IsEven i 0 n (omega arith) v
  friction_equalities-IsEven stick i n f h h' v =
      Returns-bind IsEven IsEven _ _ (contact_line-IsEven i 0 n (omega arith) v) λ m w.
        for_range-Returns (λ _. IsEven) (contact_line e i) 2 1 3 m refl
          (λ k t _ lt u. contact_line-IsEven i k t (omega arith) u) w
  friction_equalities-IsEven sliding i n f h h' v =
      Returns-bind IsEven IsEven _ _ (contact_line-IsEven i 0 n (omega arith) v)
        λ m w. cone_equality-IsEven i m f (omega arith) h' w

  pub frictionless_equalities-IsEven :
      (state : ContactState) (i : ℕ) (n : Equalities F)
      → contact_offset e i < nb_contact_rows e
      → IsEven n
      → Returns IsEven (frictionless_equalities e state i n)
  unfolding frictionless_equalities
  frictionless_equalities-IsEven active i n h v = contact_line-IsEven i 0 n (omega arith) v
  frictionless_equalities-IsEven _ i n h v = (n, refl, v)
