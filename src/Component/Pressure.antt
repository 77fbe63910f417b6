-- ===== src/Component/Pressure.antt =====
-- constraint/SurfacePressureActuator.inl: the limits of a cavity under pressure, and its results.
use soft_robots_inverse.Prelude.{
  Bool, List, Option, false, get_elem?, if◌then◌else◌, none, some, true, ℕ, ◌>>=◌, ◌||◌, ◌≡◌, not,
  ◌⊎◌,
}
use soft_robots_inverse.Double.{Double, ◌≼◌, ◌⊕◌, ◌⊖◌, nought, rabs, negate}
use soft_robots_inverse.Component.Actuator.{actuator_store_results}
use soft_robots_inverse.Component.Window.{
  Window, is_set, near_high, open_both, open_high, open_low, place_high, place_low,
}

pub record Cavity (F : Type 0) : Type 0 where
  pub volume_growth : F
  pub pressure : F
  pub init_pressure : F
  pub init_pressure_set : Bool
  pub max_volume_growth_variation : Option F
  pub max_volume_growth : Option F
  pub min_volume_growth : Option F
  pub max_pressure : Option F
  pub min_pressure : Option F
  pub delta : Window F
  pub lambda : Window F
  pub has_lambda_init : Bool
  pub lambda_init : F
  pub apply_force : Bool
  pub nb_lines : ℕ

module _ {F : Type 0} ⦃R : Double F⦄ where
  pub pressure_init_datas : Cavity F → Cavity F
  pressure_init_datas c =
      let fresh : Cavity F = record c { volume_growth = nought; pressure = c.init_pressure } in
      if c.init_pressure_set
      then record fresh { has_lambda_init = true; lambda_init = c.init_pressure }
      else fresh

  -- The start takes the growth for zero.
  pub vary_from_rest : Option F → Option F → Option F → Window F → Window F
  vary_from_rest min max none w = w
  vary_from_rest min max (some v) w = record w {
    high = if (v ≼ w.high) || not (is_set max) then v else w.high;
    low = if (w.low ≼ negate v) || not (is_set min) then negate v else w.low;
  }

  pub pressure_init_limits : Cavity F → Cavity F
  pressure_init_limits c = record c {
    lambda = open_low c.min_pressure (open_high c.max_pressure c.lambda);
    delta = vary_from_rest c.min_volume_growth c.max_volume_growth c.max_volume_growth_variation (
        open_both c.max_volume_growth_variation
          (open_low c.min_volume_growth (open_high c.max_volume_growth c.delta)));
  }

  -- The lower bound is tested with the growth added, against the negated variation.
  pub vary_growth : F → Option F → Option F → Option F → Window F → Window F
  vary_growth growth min max none w = w
  vary_growth growth min max (some v) w = record w {
    high = near_high growth max v w.high;
    low = if (rabs (w.low ⊕ growth) ≼ negate v) || not (is_set min) then growth ⊖ v else w.low;
  }

  pub pressure_update_limits : Cavity F → Cavity F
  pressure_update_limits c = record c {
    delta =
        vary_growth c.volume_growth c.min_volume_growth c.max_volume_growth
          c.max_volume_growth_variation
          (place_low c.min_volume_growth (place_high c.max_volume_growth c.delta));
  }

  pub pressure_store_results : Cavity F → List F → List F → Option (Cavity F × List F)
  pressure_store_results c lambda delta = do
    pressure ← get_elem? lambda 0
    growth ← get_elem? delta 0
    answer ← actuator_store_results c.apply_force c.nb_lines lambda
    some (pressure_update_limits (record c { pressure = pressure; volume_growth = growth }), answer)

  -- The lower limit after an update: the least growth where one is given, whatever the variation.
  abbrev pub low_after : Option F → Option F → F → F → F
  low_after (some least) variation growth before = least
  low_after none (some v) growth before = growth ⊖ v
  low_after none none growth before = before

  -- The upper limit: drawn to the growth by the variation, or the one that is given, and nearer than that.
  abbrev pub IsHigh : Option F → Option F → F → F → F → Type 0
  IsHigh max (some v) growth before high =
      (high ≡ growth ⊕ v)
      ⊎ ((b : F) × (max ≡ some b) × (high ≡ b) × ((v ≼ rabs (b ⊖ growth)) ≡ false))
  IsHigh (some most) none growth before high = high ≡ most
  IsHigh none none growth before high = high ≡ before

  abbrev pub IsGrown : Cavity F → F → Window F → Type 0
  IsGrown c growth d =
      (d.low ≡ low_after c.min_volume_growth c.max_volume_growth_variation growth c.delta.low)
      × IsHigh c.max_volume_growth c.max_volume_growth_variation growth c.delta.high d.high
      × (d.has_low ≡ c.delta.has_low)
      × (d.has_high ≡ c.delta.has_high)
