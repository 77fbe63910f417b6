-- ===== src/Component/Window.antt =====
-- The limits of a quantity that actuators share: a lower and an upper bound, which may narrow to a window
-- around the current value (initLimit and updateLimit of JointActuator.inl, CableActuator.inl and
-- ForcePointActuator.inl).
pub mod Renewal
-- m_hasDeltaMin, m_hasDeltaMax, m_deltaMin[0] and m_deltaMax[0], or those of lambda.
use soft_robots_inverse.Prelude.{Bool, Option, false, if◌then◌else◌, none, some, true, ◌||◌, not}
use soft_robots_inverse.Double.{Double, ◌≼◌, ◌⊕◌, ◌⊖◌, rabs}

pub record Window (F : Type 0) : Type 0 where
  pub has_low : Bool
  pub has_high : Bool
  pub low : F
  pub high : F

-- Data::isSet
abbrev pub is_set {ℓ} : {A : Type ℓ} → Option A → Bool
is_set none = false
is_set (some a) = true

module _ {F : Type 0} where
  -- At the start the bounds that are given are also announced.
  pub open_low : Option F → Window F → Window F
  open_low none w = w
  open_low (some m) w = record w { has_low = true; low = m }

  pub open_high : Option F → Window F → Window F
  open_high none w = w
  open_high (some m) w = record w { has_high = true; high = m }

  pub open_both : Option F → Window F → Window F
  open_both none w = w
  open_both (some v) w = record w { has_low = true; has_high = true }

  -- Later only their values are set again.
  unfoldable pub place_low : Option F → Window F → Window F
  place_low none w = w
  place_low (some m) w = record w { low = m }

  unfoldable pub place_high : Option F → Window F → Window F
  place_high none w = w
  place_high (some m) w = record w { high = m }

module _ {F : Type 0} ⦃R : Double F⦄ where
  -- A bound that is not given, or not nearer than the variation, is drawn to the current value.
  abbrev pub near_low : F → Option F → F → F → F
  near_low current min v low =
      if (v ≼ rabs (low ⊖ current)) || not (is_set min) then current ⊖ v else low

  abbrev pub near_high : F → Option F → F → F → F
  near_high current max v high =
      if (v ≼ rabs (high ⊖ current)) || not (is_set max) then current ⊕ v else high

  pub vary : F → Option F → Option F → Option F → Window F → Window F
  vary current min max none w = w
  vary current min max (some v) w = record w {
    low = near_low current min v w.low;
    high = near_high current max v w.high;
  }

  pub init_window : F → Option F → Option F → Option F → Window F → Window F
  init_window current min max variation w =
      vary current min max variation (open_both variation (open_low min (open_high max w)))

  pub update_window : F → Option F → Option F → Option F → Window F → Window F
  update_window current min max variation w =
      vary current min max variation (place_low min (place_high max w))
