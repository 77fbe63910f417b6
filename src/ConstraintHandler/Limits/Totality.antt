-- ===== src/ConstraintHandler/Limits/Totality.antt =====
-- addContactLimits reads and writes no vector out of its bounds, and keeps the shape of A, bu and bl.
use soft_robots_inverse.Prelude.{
  List, Returns, Returns-bind, Returns-mono, false, get_elem?, get_elem?-lt, if_elim, inl, inr,
  length-replicate, refl, while-Returns, write-Returns, ℕ, ◌*◌, ◌+◌, ◌-◌, ◌/◌, ◌<◌, ◌≡◌, ◌⊎◌, arith,
  length, ltb, subst, sym, tests, write, All-push, length-push,
}
use soft_robots_inverse.Contact.{ContactState, inactive}
use soft_robots_inverse.Problem.{Problem, nb_actuator_rows, nb_contact_rows}
use soft_robots_inverse.Double.{Double, nought, huge}
use soft_robots_inverse.ConstraintHandler.Limits.{
  LimitCursor, add_contact_limits, limit_entry, limit_row, limit_step, push_limit, negate,
}
use soft_robots_inverse.ConstraintHandler.Sides.{mark_limits}
use soft_robots_inverse.ConstraintHandler.Shape.{IsShaped, IsWide, IsVariable, IsVariable-lt, Names}
use soft_robots_inverse.ConstraintHandler.Ready.{HasContacts}
use soft_robots_inverse.ConstraintHandler.Rows.{Inequalities}
use soft_robots_inverse.ConstraintHandler.Rows.Entries.{IsSized}

third_le : (n c s : ℕ) → (c ≡ 3) × (n < s * 3) ⊎ (c ≡ 1) × (n < s) → n / c < s
third_le n c s (inl (e, h)) = subst (λ d. n / d < s) (sym e) (omega arith)
third_le n c s (inr (e, h)) = subst (λ d. n / d < s) (sym e) (omega arith)

module _ {F : Type 0} ⦃R : Double F⦄ (e : Problem F) (sized : IsSized e)
    (contacts : HasContacts e) where
  -- The row is as wide as the problem, and names a contact only if there is a variable.
  abbrev IsCounted : LimitCursor F → Type 0
  IsCounted s = IsWide e s.row × ((s.nb_active ≡ 0) ⊎ (0 < e.system.dim))

  limit_entry-IsWide :
      (state : ContactState) (value : F) (s : LimitCursor F)
      → IsCounted s
      → s.i < nb_contact_rows e
      → Returns (λ t. IsCounted t × (t.i ≡ s.i)) (limit_entry e state value s)
  unfolding limit_entry
  limit_entry-IsWide inactive value s wide h = (s, refl, (wide, refl))
  limit_entry-IsWide _ value s wide h =
      Returns-bind (λ row. length row ≡ length s.row) (λ t. IsCounted t × (t.i ≡ s.i))
        (write s.row (nb_actuator_rows e + s.i) value) _
        (write-Returns s.row (nb_actuator_rows e + s.i) value (omega (arith, sized, wide.0)))
        λ row len. (_, refl, ((omega (arith, wide.0), inr (omega (arith, sized))), refl))

  -- Where there is a contact, its lines are 1 or 3, and its state is in the list.
  contact_lines :
      (i : ℕ)
      → i < nb_contact_rows e
      → (0 < e.params.contact_nb_lines)
        × (i / e.params.contact_nb_lines < length e.params.contact_states)
  contact_lines i h = go contacts
    where
      go :
          HasContacts e
          → (0 < e.params.contact_nb_lines)
            × (i / e.params.contact_nb_lines < length e.params.contact_states)
      go (inl no_contact) = absurd (omega arith)
      go (inr (inl f)) = (
        omega (arith, f.three_lines),
        third_le _ _ _ (inl (f.three_lines, omega (arith, f.rows))),
      )
      go (inr (inr f)) =
          (omega (arith, f.one_line), third_le _ _ _ (inr (f.one_line, omega (arith, f.rows))))

  limit_step-IsWide :
      (value : F) (s : LimitCursor F)
      → IsCounted s
      → s.i < nb_contact_rows e
      → Returns
          (λ t. IsCounted t × (nb_contact_rows e - t.i < nb_contact_rows e - s.i))
          (limit_step e value s)
  unfolding limit_step
  limit_step-IsWide value s wide h =
      Returns-bind (λ _. Unit {0})
        (λ t. IsCounted t × (nb_contact_rows e - t.i < nb_contact_rows e - s.i))
        (get_elem? e.params.contact_states (s.i / e.params.contact_nb_lines)) _
        (let (state, at) = get_elem?-lt e.params.contact_states _ (contact_lines s.i h).1 in
          (state, at, tt))
        λ state _.
          Returns-bind (λ t. IsCounted t × (t.i ≡ s.i))
            (λ t. IsCounted t × (nb_contact_rows e - t.i < nb_contact_rows e - s.i))
            (limit_entry e state value s) _ (limit_entry-IsWide state value s wide h)
            λ t w. (_, refl, (w.0, omega (arith, contact_lines s.i h, w.1)))

  limit_row-IsWide : (value : F) → Returns IsCounted (limit_row e value)
  unfolding limit_row
  limit_row-IsWide value =
      Returns-mono (λ t. IsCounted t × (ltb t.i (nb_contact_rows e) ≡ false)) IsCounted _
        (λ t p. p.0)
        (while-Returns IsCounted (λ s. nb_contact_rows e - s.i) (λ s. ltb s.i (nb_contact_rows e))
          (limit_step e value) (λ s wide more. limit_step-IsWide value s wide (omega tests))
          (nb_contact_rows e + 1) _ (omega arith) (length-replicate e.system.dim nought, inl refl))

  push_limit-IsShaped :
      (base : Names) (row : List F) (n : Inequalities F)
      → IsWide e row
      → 0 < e.system.dim
      → IsShaped (mark_limits e) base n
      → IsShaped (mark_limits e) base (push_limit e row n)
  unfolding push_limit mark_limits
  push_limit-IsShaped base row n wide some_variable v = ground (
    arith,
    length-push n.a row,
    length-push n.ids 0,
    length-push n.bu e.params.max_contact_forces,
    length-push n.bu (negate e.params.min_contact_forces),
    length-push n.bl e.params.min_contact_forces,
    length-push n.bl (negate huge),
    All-push (IsWide (mark_limits e)) n.a row v.widths wide,
    All-push (IsVariable (mark_limits e) base.strict) n.ids 0 v.known
        (IsVariable-lt (mark_limits e) base.strict 0 some_variable),
  )

  pub add_contact_limits-IsShaped :
      (base : Names) (n : Inequalities F)
      → IsShaped (mark_limits e) base n
      → Returns (IsShaped (mark_limits e) base) (add_contact_limits e n)
  unfolding add_contact_limits
  add_contact_limits-IsShaped base n v =
      Returns-bind IsCounted (IsShaped (mark_limits e) base) _ _ (limit_row-IsWide _) λ s wide. (
        _,
        refl,
        if_elim (IsShaped (mark_limits e) base) (ltb s.nb_active 2) _ _ (λ _. v)
            (λ few. push_limit-IsShaped base s.row n wide.0 (omega (tests, wide.1)) v),
      )
