-- ===== src/Component/Point/Told.antt =====
-- ForcePointActuator.inl: lemmas on storeResults and the limits after it.
use soft_robots_inverse.Prelude.{
  Bool-cases, List, Option, Returns, Returns-bind, for_range-Returns, get_elem?, get_elem?-lt,
  get_elem?-set, inl, inr, length-set, none, refl, some, ℕ, ◌+◌, ◌<◌, ◌>>=◌, ◌∙◌, ◌≡◌, ◌≤◌, length,
  arith, lt→ltb, sym, ap,
}
use soft_robots_inverse.Double.{Double}
use soft_robots_inverse.Component.Window.{
  Window, init_window, open_high, open_low, place_high, place_low, update_window,
}
use soft_robots_inverse.Component.Window.Renewal.{
  init_window-open_low, update_window-init_window, update_window-place_low,
}
use soft_robots_inverse.Component.Actuator.{IsApplied, actuator_store_results-IsApplied}
use soft_robots_inverse.Component.Point.{
  Point, is_free, point_init_limit, point_nb_lines, point_store_results, point_take_forces,
  point_update_limit, point_window, take_force,
}

module _ {F : Type 0} ⦃R : Double F⦄ where
  -- The forces after the first `k` were taken over.
  abbrev pub IsTaken : List F → List F → ℕ → List F → Type 0
  IsTaken lambda force k v =
      (length v ≡ length force)
      × ((i : ℕ) → i < k → get_elem? v i ≡ get_elem? lambda i)
      × ((i : ℕ) → k ≤ i → get_elem? v i ≡ get_elem? force i)

  take_force-IsTaken :
      (lambda force : List F) (k : ℕ) (v : List F)
      → k < length force
      → k < length lambda
      → IsTaken lambda force k v
      → Returns (IsTaken lambda force (k + 1)) (take_force lambda k v)
  take_force-IsTaken lambda force k v h h' (len, taken, kept) =
      let (x, at) = get_elem?-lt lambda k h' in
      rw (at, lt→ltb k (length v) (omega (arith, len)))
        (
          _,
          refl,
          (
            length-set v k x ∙ len,
            λ i hi. elim (get_elem?-set v k i x (omega (arith, len))) [
              | inl (same, new) ↦ new ∙ sym at ∙ ap (get_elem? lambda) same
              | inr (apart, old) ↦ old ∙ taken i (omega arith)
            ],
            λ i hi. elim (get_elem?-set v k i x (omega (arith, len))) [
              | inl (same, new) ↦ absurd (omega arith)
              | inr (apart, old) ↦ old ∙ kept i (omega arith)
            ],
          ),
        )

  init_window-point_window :
      (min max variation : Option F) (force : List F) (w : Window F) (now : F)
      → get_elem? force 0 ≡ some now
      → point_window variation force
          (λ n. init_window n min max variation w)
          (open_low min (open_high max w))
        ≡ some (init_window now min max variation w)
  unfolding point_window
  init_window-point_window min max none force w now at =
      rw (init_window-open_low now min max w) refl
  init_window-point_window min max (some v) force w now at = rw at refl

  update_window-point_window :
      (min max variation : Option F) (force : List F) (w : Window F) (now : F)
      → get_elem? force 0 ≡ some now
      → point_window variation force
          (λ n. update_window n min max variation w)
          (place_low min (place_high max w))
        ≡ some (update_window now min max variation w)
  unfolding point_window
  update_window-point_window min max none force w now at =
      rw (update_window-place_low now min max w) refl
  update_window-point_window min max (some v) force w now at = rw at refl

  -- The limits at the force of the moment.
  abbrev limited : F → Point F → Point F
  limited now p = record p {
    lambda = init_window now p.min_force p.max_force p.max_force_variation p.lambda;
  }

  point_init_limit-limited :
      (p : Point F) (now : F)
      → get_elem? p.force 0 ≡ some now
      → point_init_limit p ≡ some (limited now p)
  unfolding point_init_limit
  point_init_limit-limited p now at =
      rw
        (init_window-point_window p.min_force p.max_force p.max_force_variation p.force p.lambda now
          at)
        refl

  point_update_limit-limited :
      (p : Point F) (before now : F) (displacement : F) (force : List F)
      → get_elem? force 0 ≡ some now
      → point_update_limit
          (record (limited before p) { displacement = displacement; force = force })
        ≡ some (limited now (record p { displacement = displacement; force = force }))
  unfolding point_update_limit
  point_update_limit-limited p before now displacement force at =
      rw
        (
          update_window-point_window p.min_force p.max_force p.max_force_variation force
              (limited before p).lambda now at,
          update_window-init_window now before p.min_force p.max_force p.max_force_variation
              p.lambda,
        )
        refl

module _ {F : Type 0} ⦃R : Double F⦄ (norm : List F → F) (total_size : ℕ) where
  point_take_forces-IsTaken :
      (p : Point F) (lambda : List F)
      → point_nb_lines norm total_size p ≤ length p.force
      → point_nb_lines norm total_size p ≤ length lambda
      → Returns
          (IsTaken lambda p.force (point_nb_lines norm total_size p))
          (point_take_forces norm total_size p lambda)
  unfolding point_take_forces point_nb_lines
  point_take_forces-IsTaken p lambda h h' = elim (Bool-cases (is_free norm total_size p)) [
    | inl free ↦
        let room : total_size ≤ length p.force = ground arith in
        let room' : total_size ≤ length lambda = ground arith in
        rw free (
          for_range-Returns (IsTaken lambda p.force) (take_force lambda) total_size 0 total_size
            p.force (omega arith)
            (λ k v lo hi w. take_force-IsTaken lambda p.force k v (omega arith) (omega arith) w)
            (refl, λ i hi. absurd (omega arith), λ i hi. refl))
    | inr fixed ↦
        let room : 1 ≤ length p.force = ground arith in
        let room' : 1 ≤ length lambda = ground arith in
        rw fixed (
          take_force-IsTaken lambda p.force 0 p.force (omega arith) (omega arith)
            (refl, λ i hi. absurd (omega arith), λ i hi. refl))
  ]

  -- The point after storeResults is what a fresh start at its new forces and displacement gives.
  abbrev pub IsTold : Point F → List F → F → Point F × List F → Type 0
  IsTold p lambda displacement (p', answer) =
      (p'.displacement ≡ displacement)
      × IsTaken lambda p.force (point_nb_lines norm total_size p) p'.force
      × (point_init_limit (record p { force = p'.force; displacement = displacement }) ≡ some p')
      × IsApplied p.apply_force p.nb_lines lambda answer

  -- For a force on points with some force set, as many forces as lines at least, a force of the
  -- solver for each of its lines, and a displacement, initLimit and then storeResults fault
  -- nowhere. The displacement and the force of each line are those of the solver, other forces are
  -- kept; the point is what a fresh initLimit at these gives, so nothing is left of the limits
  -- before; and the forces it gives back are those that it was told, or zero where it is not to
  -- apply its force.
  pub point_store_results-IsTold :
      (p : Point F) (lambda delta : List F) (displacement : F)
      → 0 < length p.force
      → point_nb_lines norm total_size p ≤ length p.force
      → point_nb_lines norm total_size p ≤ length lambda
      → p.nb_lines ≤ length lambda
      → get_elem? delta 0 ≡ some displacement
      → Returns
          (IsTold p lambda displacement)
          (point_init_limit p >>= λ q. point_store_results norm total_size q lambda delta)
  unfolding point_store_results point_nb_lines
  point_store_results-IsTold p lambda delta displacement some_force h h' room moved_by =
      let (before, was) = get_elem?-lt p.force 0 some_force in
      rw (point_init_limit-limited p before was, moved_by)
        (Returns-bind (IsTaken lambda p.force (point_nb_lines norm total_size p)) _ _ _
          (point_take_forces-IsTaken (limited before p) lambda h h')
          λ force taken.
            let (now, at) = get_elem?-lt force 0 (omega (arith, taken.0)) in
            rw (point_update_limit-limited p before now displacement force at) (
              Returns-bind (IsApplied p.apply_force p.nb_lines lambda) _ _ _
                (actuator_store_results-IsApplied p.apply_force p.nb_lines lambda room)
                λ answer applied. (
                  _,
                  refl,
                  (
                    refl,
                    taken,
                    point_init_limit-limited
                        (record p { force = force; displacement = displacement }) now at,
                    applied,
                  ),
                )))
