-- ===== src/Impl/Results/Stored.antt =====
-- storeResults as a whole.
use soft_robots_inverse.Prelude.{
  All, All-mono, All-split, List, Returns, Returns-bind, [], refl, ℕ, ◌++◌, ◌<◌, ◌∙◌, ◌≡◌, ◌≤◌,
  length, arith, subst, sym, IsTable, for_range-Returns, get_elem?, get_elem?-lt, some,
  tabulate-IsTable, ◌+◌, tabulate, Returns-mono, ap,
}
use soft_robots_inverse.Problem.{BaseConstraint, ConstraintLists, Problem}
use soft_robots_inverse.Double.{Double, nought}
use soft_robots_inverse.Impl.Results.{
  SendCursor, StoreResults, send_results, delta_entry, nb_rows, store_results,
}
use soft_robots_inverse.Impl.Results.Placed.{written_rows, IsPlaced, place_forces-IsPlaced}
use soft_robots_inverse.Impl.Results.Sent.{
  IsAnswering, IsConfined, IsConfined-trans, IsReporting, IsSending, report_all-IsReporting,
  send_all-IsSending,
}
use soft_robots_inverse.ConstraintHandler.Ready.{total_lines}
use soft_robots_inverse.Impl.Results.Rows.{
  AreDisjoint-append, IsAway, IsAway-join, IsDistinct, IsDistinct-append, IsAway-append,
}

module _ {F : Type 0} where
  -- The components of each list have as many lines as the list has rows.
  pub record IsCountedOut (l : ConstraintLists F) : Type 0 where
    pub actuators : total_lines l.actuators ≡ length l.actuator_row_ids
    pub equality : total_lines l.equality ≡ length l.equality_row_ids
    pub effectors : total_lines l.effectors ≡ length l.effector_row_ids
    pub sensors : total_lines l.sensors ≡ length l.sensor_row_ids

module _ {F : Type 0} ⦃R : Double F⦄ where
  -- As many components as before, with the same rows; and forces that differ in the rows of actuators and
  -- equalities at most.
  pub record IsSent (e : Problem F) (forces : List F) (r : Problem F × List F) : Type 0 where
    pub same : r.0 ≡ record e {
      lists = record (e.lists) {
        actuators = r.0.lists.actuators;
        equality = r.0.lists.equality;
        effectors = r.0.lists.effectors;
        sensors = r.0.lists.sensors;
      };
    }
    pub counts :
        (length r.0.lists.actuators ≡ length e.lists.actuators)
        × (length r.0.lists.equality ≡ length e.lists.equality)
        × (length r.0.lists.effectors ≡ length e.lists.effectors)
        × (length r.0.lists.sensors ≡ length e.lists.sensors)
    pub forces_kept : IsConfined (e.lists.actuator_row_ids ++ e.lists.equality_row_ids) forces r.1

  module _ (store : StoreResults F)
      (store_effector store_sensor : BaseConstraint F → List F → BaseConstraint F)
      (answering : IsAnswering store) where
    known_parts :
        (l : ConstraintLists F) (n : ℕ)
        → All (λ row. row < n) (written_rows l)
        → All (λ row. row < n) l.effector_row_ids
          × All (λ row. row < n) l.actuator_row_ids
          × All (λ row. row < n) l.equality_row_ids
          × All (λ row. row < n) l.sensor_row_ids
    known_parts l n all =
        let P : ℕ → Type 0 = λ row. row < n in
        let (eff, r1) = All-split P l.effector_row_ids _ all in
        let (act, r2) = All-split P l.actuator_row_ids _ r1 in
        let (equ, r3) = All-split P l.equality_row_ids _ r2 in
        let (sen, r4) = All-split P l.sensor_row_ids l.contact_row_ids r3 in (eff, act, equ, sen)

    send_results-IsSent :
        (e : Problem F) (forces : List F)
        → IsCountedOut e.lists
        → All (λ row. row < length e.system.delta) (written_rows e.lists)
        → length e.system.delta ≤ length forces
        → Returns (IsSent e forces) (send_results store store_effector store_sensor e forces)
    unfolding send_results
    send_results-IsSent e forces counted known wide =
        let l = e.lists in
        let delta = e.system.delta in
        let (eff, act, equ, sen) = known_parts l (length delta) known in
        let start : List F → SendCursor F = λ v. record { sent = []; line = 0; forces = v } in
        Returns-bind
          (IsSending store answering l.actuator_row_ids delta act l.actuators (start forces))
          (IsSent e forces) _ _
          (send_all-IsSending store answering l.actuator_row_ids delta act l.actuators
            (start forces) (omega (arith, counted.actuators))
            (All-mono (λ row. row < length delta) _ l.actuator_row_ids (λ row h. omega arith) act))
          λ s1 w1.
            Returns-bind
              (IsSending store answering l.equality_row_ids delta equ l.equality (start s1.forces))
              (IsSent e forces) _ _
              (send_all-IsSending store answering l.equality_row_ids delta equ l.equality
                (start s1.forces) (omega (arith, counted.equality))
                (All-mono (λ row. row < length delta) _ l.equality_row_ids
                  (λ row h. omega (arith, w1.forces.size)) equ))
              λ s2 w2.
                Returns-bind (IsReporting l.effectors (start s2.forces)) (IsSent e forces) _ _
                  (report_all-IsReporting store_effector l.effector_row_ids delta l.effectors
                    (start s2.forces) eff (omega (arith, counted.effectors)))
                  λ s3 w3.
                    Returns-bind (IsReporting l.sensors (start s3.forces)) (IsSent e forces) _ _
                      (report_all-IsReporting store_sensor l.sensor_row_ids delta l.sensors
                        (start s3.forces) sen (omega (arith, counted.sensors)))
                      λ s4 w4. (
                        _,
                        refl,
                        record {
                          same = refl;
                          counts = (
                            omega (arith, w1.count),
                            omega (arith, w2.count),
                            omega (arith, w3.0),
                            omega (arith, w4.0),
                          );
                          forces_kept =
                              subst (IsConfined (l.actuator_row_ids ++ l.equality_row_ids) forces)
                                (sym (w4.2 ∙ w3.2))
                                (IsConfined-trans l.actuator_row_ids l.equality_row_ids forces
                                  s1.forces s2.forces w1.forces w2.forces);
                        },
                      )

    -- What storeResults leaves: the contacts have their forces from `x`, effectors and sensors none, rows
    -- that are in no list those from before; as many components as before; and the violation of each row is
    -- dFree + W * forces for the forces that were placed, before the components changed them.
    pub record IsStored (e : Problem F) (x forces : List F) (r : Problem F × List F) : Type 0 where
      pub size : length r.1 ≡ length forces
      pub contacts :
          (i row : ℕ)
          → get_elem? e.lists.contact_row_ids i ≡ some row
          → get_elem? r.1 row
            ≡ get_elem? x (length e.lists.actuator_row_ids + length e.lists.equality_row_ids + i)
      pub effectors :
          (i row : ℕ)
          → get_elem? e.lists.effector_row_ids i ≡ some row
          → get_elem? r.1 row ≡ some nought
      pub sensors :
          (i row : ℕ)
          → get_elem? e.lists.sensor_row_ids i ≡ some row
          → get_elem? r.1 row ≡ some nought
      pub elsewhere :
          (row : ℕ) → IsAway row (written_rows e.lists) → get_elem? r.1 row ≡ get_elem? forces row
      pub placed :
          (v : List F) × IsPlaced e.lists x forces v
          × IsTable (nb_rows e.lists) 0 (delta_entry e v) r.0.system.delta
      pub components : length r.0.lists.actuators ≡ length e.lists.actuators

    module _ (e : Problem F) (x forces : List F) (counted : IsCountedOut e.lists)
        (distinct : IsDistinct (written_rows e.lists))
        (known : All (λ row. row < nb_rows e.lists) (written_rows e.lists))
        (wide : nb_rows e.lists ≤ length forces)
        (room : length e.lists.actuator_row_ids
            + length e.lists.equality_row_ids
            + length e.lists.contact_row_ids
          ≤ length x) where
      -- A row of an effector, a sensor or a contact, or of no list, is none of an actuator or an equality.
      abbrev IsQuiet : ℕ → Type 0
      IsQuiet row = IsAway row (e.lists.actuator_row_ids ++ e.lists.equality_row_ids)

      IsQuiet-rows :
          ((i row : ℕ) → get_elem? e.lists.effector_row_ids i ≡ some row → IsQuiet row)
          × ((i row : ℕ) → get_elem? e.lists.sensor_row_ids i ≡ some row → IsQuiet row)
          × ((i row : ℕ) → get_elem? e.lists.contact_row_ids i ≡ some row → IsQuiet row)
      IsQuiet-rows =
          let l = e.lists in
          let (d1, r1, p1) = IsDistinct-append l.effector_row_ids _ distinct in
          let (d2, r2, p2) = IsDistinct-append l.actuator_row_ids _ r1 in
          let (d3, r3, p3) = IsDistinct-append l.equality_row_ids _ r2 in
          let (ea, e1) = AreDisjoint-append l.effector_row_ids l.actuator_row_ids _ p1 in
          let (eq, e2) = AreDisjoint-append l.effector_row_ids l.equality_row_ids _ e1 in
          let (aq, a1) = AreDisjoint-append l.actuator_row_ids l.equality_row_ids _ p2 in
          let (as', ac) = AreDisjoint-append l.actuator_row_ids l.sensor_row_ids _ a1 in
          let (qs, qc) = AreDisjoint-append l.equality_row_ids l.sensor_row_ids _ p3 in
          (
            λ i row at.
                IsAway-join row l.actuator_row_ids l.equality_row_ids (λ j h. ea i j row at h)
                  (λ j h. eq i j row at h),
            λ i row at.
                IsAway-join row l.actuator_row_ids l.equality_row_ids (λ j h. as' j i row h at)
                  (λ j h. qs j i row h at),
            λ i row at.
                IsAway-join row l.actuator_row_ids l.equality_row_ids (λ j h. ac j i row h at)
                  (λ j h. qc j i row h at),
          )

      violations :
          (v : List F)
          → length v ≡ length forces
          → Returns
              (IsTable (nb_rows e.lists) 0 (delta_entry e v))
              (tabulate (nb_rows e.lists) 0 (delta_entry e v))
      unfolding delta_entry
      violations v size = tabulate-IsTable (nb_rows e.lists) 0 (delta_entry e v) λ i lo hi.
          for_range-Returns (λ _ _. Unit {0}) _ (nb_rows e.lists) 0 (nb_rows e.lists) _
            (omega arith)
            (λ j sum lo' hi' _. let (a, at) = get_elem?-lt v j (omega arith) in rw at (_, refl, tt))
            tt

      collected :
          (v delta : List F) (r : Problem F × List F)
          → IsPlaced e.lists x forces v
          → IsTable (nb_rows e.lists) 0 (delta_entry e v) delta
          → IsSent (record e { system = record (e.system) { delta = delta } }) v r
          → IsStored e x forces r
      collected v delta r w t sent =
          let (eff, sen, con) = IsQuiet-rows in
          let same : r.0.system.delta ≡ delta = ap (λ q. q.system.delta) sent.same in
          record {
            size = sent.forces_kept.size ∙ w.size;
            contacts =
                λ i row at. sent.forces_kept.elsewhere row (con i row at) ∙ w.contacts i row at;
            effectors =
                λ i row at. sent.forces_kept.elsewhere row (eff i row at) ∙ w.effectors i row at;
            sensors =
                λ i row at. sent.forces_kept.elsewhere row (sen i row at) ∙ w.sensors i row at;
            elsewhere = λ row away.
                let (h1, r1) = IsAway-append row e.lists.effector_row_ids _ away in
                let (h2, r2) = IsAway-append row e.lists.actuator_row_ids _ r1 in
                let (h3, r3) = IsAway-append row e.lists.equality_row_ids _ r2 in
                sent.forces_kept.elsewhere row
                  (IsAway-join row e.lists.actuator_row_ids e.lists.equality_row_ids h2 h3)
                ∙ w.elsewhere row away;
            placed = (v, w, subst (IsTable (nb_rows e.lists) 0 (delta_entry e v)) (sym same) t);
            components = sent.counts.0;
          }

      -- For lists whose components have as many lines as rows, rows that are all different and
      -- below their number, a solution with a force for each row of actuators, equalities and
      -- contacts, and components that answer with as many forces as lines, storeResults ends with
      -- no fault. The contacts have their forces from the solution, effectors and sensors have
      -- none, and rows of no list keep theirs; the violation of each row is dFree + W * forces, for
      -- the forces that were placed; and there are as many actuators as before.
      pub store_results-IsStored :
          Returns (IsStored e x forces) (store_results store store_effector store_sensor e x forces)
      unfolding store_results
      store_results-IsStored =
          Returns-bind (IsPlaced e.lists x forces) (IsStored e x forces) _ _
            (place_forces-IsPlaced e.lists x forces distinct
              (All-mono (λ row. row < nb_rows e.lists) _ (written_rows e.lists)
                (λ row h. omega arith) known)
              room)
            λ v w.
              Returns-bind (IsTable (nb_rows e.lists) 0 (delta_entry e v)) (IsStored e x forces) _ _
                (violations v w.size)
                λ delta t.
                  let e' : Problem F = record e { system = record (e.system) { delta = delta } } in
                  Returns-mono (IsSent e' v) (IsStored e x forces) _
                    (λ r sent. collected v delta r w t sent)
                    (send_results-IsSent e' v counted
                      (subst (λ n. All (λ row. row < n) (written_rows e.lists)) (sym t.0) known)
                      (omega (arith, t.0, w.size)))
