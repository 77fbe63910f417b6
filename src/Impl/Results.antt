-- ===== src/Impl/Results.antt =====
-- QPInverseProblem.cpp: storeResults and sendResults, which hand the solution to the components. `forces`
-- is the vector of the enclosing framework that getF() points to.
pub mod Rows
pub mod Placed
pub mod Gathered
pub mod Sent
pub mod Stored
use soft_robots_inverse.Prelude.{
  ℕ, List, Option, [], for_range, get_elem?, some, ◌++◌, ◌+◌, ◌>>=◌, ◌∷◌, length, tabulate, write,
}
use soft_robots_inverse.Problem.{BaseConstraint, ConstraintLists, Problem}
use soft_robots_inverse.Double.{Double, ◌⊕◌, ◌⊗◌, nought}

-- A call of a component's storeResults: the component and the forces after it. It is a virtual method.
abbrev pub StoreResults : Type 0 → Type 0
StoreResults F = BaseConstraint F → List F → List F → BaseConstraint F × List F

-- The loop over the components: the components so far, the next of their rows, and the forces.
pub record SendCursor (F : Type 0) : Type 0 where
  pub sent : List (BaseConstraint F)
  pub line : ℕ
  pub forces : List F

module _ {F : Type 0} where
  -- v[ids[i]] = x[offset + i] for i = 0, ..., |ids| - 1
  unfoldable pub scatter : List ℕ → List F → ℕ → List F → Option (List F)
  scatter ids x offset forces =
      for_range (length ids) 0
        (λ i v. do row ← get_elem? ids i; a ← get_elem? x (offset + i); write v row a) forces

  unfoldable pub scatter_one : List ℕ → F → List F → Option (List F)
  scatter_one ids a forces =
      for_range (length ids) 0 (λ i v. get_elem? ids i >>= λ row. write v row a) forces

  -- (v[ids[line]], ..., v[ids[line + n - 1]])
  pub gather : List ℕ → List F → ℕ → ℕ → Option (List F)
  gather ids v line n = tabulate n line (λ i. get_elem? ids i >>= λ row. get_elem? v row)

  -- One component, and its own forces written back.
  pub send_step :
      StoreResults F → List ℕ → List F → BaseConstraint F → SendCursor F → Option (SendCursor F)
  send_step store ids delta c s = do
    local_lambda ← gather ids s.forces s.line c.nb_lines
    local_delta ← gather ids delta s.line c.nb_lines
    let (c', answer) = store c local_lambda local_delta
    forces ←
        for_range c.nb_lines 0
          (λ j v. do row ← get_elem? ids (s.line + j); a ← get_elem? answer j; write v row a)
          s.forces
    some (record { sent = s.sent ++ (c' ∷ []); line = s.line + c.nb_lines; forces = forces })

  unfoldable pub send_all :
      StoreResults F
      → List ℕ
      → List F
      → List (BaseConstraint F)
      → SendCursor F
      → Option (SendCursor F)
  send_all store ids delta [] s = some s
  send_all store ids delta (c ∷ cs) s =
      send_step store ids delta c s >>= send_all store ids delta cs

  -- The violations of effectors and sensors are handed over alone.
  pub report_step :
      (BaseConstraint F → List F → BaseConstraint F)
      → List ℕ
      → List F
      → BaseConstraint F
      → SendCursor F
      → Option (SendCursor F)
  report_step store ids delta c s = do
    local_delta ← gather ids delta s.line c.nb_lines
    some (record s { sent = s.sent ++ (store c local_delta ∷ []); line = s.line + c.nb_lines })

  unfoldable pub report_all :
      (BaseConstraint F → List F → BaseConstraint F)
      → List ℕ
      → List F
      → List (BaseConstraint F)
      → SendCursor F
      → Option (SendCursor F)
  report_all store ids delta [] s = some s
  report_all store ids delta (c ∷ cs) s =
      report_step store ids delta c s >>= report_all store ids delta cs

module _ {F : Type 0} ⦃R : Double F⦄ where
  -- The forces of all rows: nothing at effectors and sensors, else the entries of `x`.
  unfoldable pub place_forces : ConstraintLists F → List F → List F → Option (List F)
  place_forces l x forces = do
    v1 ← scatter_one l.effector_row_ids nought forces
    v2 ← scatter l.actuator_row_ids x 0 v1
    v3 ← scatter l.equality_row_ids x (length l.actuator_row_ids) v2
    v4 ← scatter_one l.sensor_row_ids nought v3
    scatter l.contact_row_ids x (length l.actuator_row_ids + length l.equality_row_ids) v4

  abbrev pub nb_rows : ConstraintLists F → ℕ
  nb_rows l =
      length l.effector_row_ids
      + length l.actuator_row_ids
      + length l.contact_row_ids
      + length l.sensor_row_ids
      + length l.equality_row_ids

  -- delta[i] = dfree[i] + w[i] * forces
  pub delta_entry : Problem F → List F → ℕ → Option F
  delta_entry e forces i =
      for_range (nb_rows e.lists) 0
        (λ j sum. get_elem? forces j >>= λ x. some (sum ⊕ x ⊗ e.system.w i j)) (e.system.d_free i)

  module _ (store : StoreResults F)
      (store_effector store_sensor : BaseConstraint F → List F → BaseConstraint F) where
    -- sendResults: actuators and equalities may change their forces.
    pub send_results : Problem F → List F → Option (Problem F × List F)
    send_results e forces = do
      s1 ←
          send_all store e.lists.actuator_row_ids e.system.delta e.lists.actuators
            (record { sent = []; line = 0; forces = forces })
      s2 ←
          send_all store e.lists.equality_row_ids e.system.delta e.lists.equality
            (record { sent = []; line = 0; forces = s1.forces })
      s3 ←
          report_all store_effector e.lists.effector_row_ids e.system.delta e.lists.effectors
            (record { sent = []; line = 0; forces = s2.forces })
      s4 ←
          report_all store_sensor e.lists.sensor_row_ids e.system.delta e.lists.sensors
            (record { sent = []; line = 0; forces = s3.forces })
      some (
        record e {
          lists = record (e.lists) {
            actuators = s1.sent;
            equality = s2.sent;
            effectors = s3.sent;
            sensors = s4.sent;
          };
        },
        s4.forces,
      )

    -- storeResults
    pub store_results : Problem F → List F → List F → Option (Problem F × List F)
    store_results e x forces = do
      placed ← place_forces e.lists x forces
      delta ← tabulate (nb_rows e.lists) 0 (delta_entry e placed)
      send_results (record e { system = record (e.system) { delta = delta } }) placed
