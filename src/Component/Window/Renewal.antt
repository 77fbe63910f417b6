-- ===== src/Component/Window/Renewal.antt =====
-- Updating the limits is the same as starting with the current value.
use soft_robots_inverse.Prelude.{
  Bool-cases, Option, false, inl, inr, none, refl, some, ◌||◌, ◌≡◌, ◌⊎◌, arith,
}
use soft_robots_inverse.Double.{Double, ◌≼◌, ◌⊕◌, ◌⊖◌}
use soft_robots_inverse.Component.Window.{
  Window, init_window, is_set, open_both, open_high, open_low, place_high, place_low, update_window,
  vary, rabs,
}

module _ {F : Type 0} where
  pub open_twice :
      (min max : Option F) (w : Window F)
      → open_low min (open_high max (open_low min (open_high max w)))
        ≡ open_low min (open_high max w)
  unfolding open_low open_high
  open_twice none none w = refl
  open_twice none (some b) w = refl
  open_twice (some a) none w = refl
  open_twice (some a) (some b) w = refl

module _ {F : Type 0} ⦃R : Double F⦄ where
  pub update_window-init_window :
      (now before : F) (min max variation : Option F) (w : Window F)
      → update_window now min max variation (init_window before min max variation w)
        ≡ init_window now min max variation w
  unfolding update_window init_window vary open_both open_low open_high place_low place_high
  update_window-init_window now before none none none w = refl
  update_window-init_window now before none none (some v) w = ground arith
  update_window-init_window now before none (some b) none w = refl
  update_window-init_window now before none (some b) (some v) w = ground arith
  update_window-init_window now before (some a) none none w = refl
  update_window-init_window now before (some a) none (some v) w = ground arith
  update_window-init_window now before (some a) (some b) none w = refl
  update_window-init_window now before (some a) (some b) (some v) w = refl

  -- Without a variation the current value plays no part.
  pub init_window-open_low :
      (now : F) (min max : Option F) (w : Window F)
      → init_window now min max none w ≡ open_low min (open_high max w)
  unfolding init_window vary open_both
  init_window-open_low now min max w = refl

  pub update_window-place_low :
      (now : F) (min max : Option F) (w : Window F)
      → update_window now min max none w ≡ place_low min (place_high max w)
  unfolding update_window vary
  update_window-place_low now min max w = refl

  -- Starting anew forgets where the limits started before.
  pub init_window-init_window :
      (now before : F) (min max variation : Option F) (w : Window F)
      → init_window now min max variation (init_window before min max variation w)
        ≡ init_window now min max variation w
  unfolding init_window vary open_both open_low open_high
  init_window-init_window now before none none none w = refl
  init_window-init_window now before none none (some v) w = ground arith
  init_window-init_window now before none (some b) none w = refl
  init_window-init_window now before none (some b) (some v) w = ground arith
  init_window-init_window now before (some a) none none w = refl
  init_window-init_window now before (some a) none (some v) w = ground arith
  init_window-init_window now before (some a) (some b) none w = refl
  init_window-init_window now before (some a) (some b) (some v) w = refl

  -- The bounds that the start announces are those that are given, and both where there is a variation.
  pub init_window-flags :
      (now : F) (min max variation : Option F) (w : Window F)
      → ((init_window now min max variation w).has_low
          ≡ (w.has_low || (is_set min || is_set variation)))
        × ((init_window now min max variation w).has_high
            ≡ (w.has_high || (is_set max || is_set variation)))
  unfolding init_window vary open_both open_low open_high
  init_window-flags now none none none w = ground arith
  init_window-flags now none none (some v) w = ground arith
  init_window-flags now none (some b) none w = ground arith
  init_window-flags now none (some b) (some v) w = ground arith
  init_window-flags now (some a) none none w = ground arith
  init_window-flags now (some a) none (some v) w = ground arith
  init_window-flags now (some a) (some b) none w = ground arith
  init_window-flags now (some a) (some b) (some v) w = ground arith

  -- Each bound is drawn to the current value by the variation, or it is the one that is given, and nearer
  -- than the variation.
  abbrev pub IsNear : F → Option F → Option F → F → Window F → Type 0
  IsNear now min max v w =
      let t = update_window now min max (some v) w in
      ((t.low ≡ now ⊖ v)
        ⊎ ((a : F) × (min ≡ some a) × (t.low ≡ a) × ((v ≼ rabs (a ⊖ now)) ≡ false)))
      × ((t.high ≡ now ⊕ v)
          ⊎ ((b : F) × (max ≡ some b) × (t.high ≡ b) × ((v ≼ rabs (b ⊖ now)) ≡ false)))

  -- Where a variation is given, each limit is after an update the current value less or plus the
  -- variation, or it is the limit that is given, and that is nearer to the current value than the
  -- variation.
  pub update_window-IsNear :
      (now : F) (min max : Option F) (v : F) (w : Window F) → IsNear now min max v w
  unfolding update_window vary place_low place_high
  update_window-IsNear now min max v w = (low_near min max, high_near min max)
    where
      low_near :
          (min max : Option F)
          → ((update_window now min max (some v) w).low ≡ now ⊖ v)
            ⊎ ((a : F) × (min ≡ some a)
                × ((update_window now min max (some v) w).low ≡ a)
                × ((v ≼ rabs (a ⊖ now)) ≡ false))
      low_near none max = inl (ground arith)
      low_near (some a) max = elim (Bool-cases (v ≼ rabs (a ⊖ now))) [
        | inl far ↦ inl (ground arith)
        | inr close ↦ inr (a, refl, ground arith, close)
      ]

      high_near :
          (min max : Option F)
          → ((update_window now min max (some v) w).high ≡ now ⊕ v)
            ⊎ ((b : F) × (max ≡ some b)
                × ((update_window now min max (some v) w).high ≡ b)
                × ((v ≼ rabs (b ⊖ now)) ≡ false))
      high_near min none = inl (ground arith)
      high_near min (some b) = elim (Bool-cases (v ≼ rabs (b ⊖ now))) [
        | inl far ↦ inl (ground arith)
        | inr close ↦ inr (b, refl, ground arith, close)
      ]
