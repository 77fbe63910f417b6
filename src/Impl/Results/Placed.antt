-- ===== src/Impl/Results/Placed.antt =====
-- storeResults: each row gets its own force.
use soft_robots_inverse.Prelude.{
  All, All-split, List, Option, Returns, Returns-mono, get_elem?, get_elem?-lt, refl, some, ℕ, ◌++◌,
  ◌+◌, ◌<◌, ◌≡◌, ◌≤◌, length, subst, arith, sym, Returns-bind, get_elem?-bound, ◌∙◌, ap,
}
use soft_robots_inverse.Problem.{ConstraintLists}
use soft_robots_inverse.Double.{Double, nought}
use soft_robots_inverse.Impl.Results.{scatter_one, scatter, place_forces}
use soft_robots_inverse.Impl.Results.Rows.{
  AreDisjoint, AreWritten, IsDistinct, IsDistinct-append, writes-AreWritten, AreDisjoint-append,
  IsAway, IsAway-append,
}

module _ {F : Type 0} where
  -- The rows that storeResults writes, in its order.
  abbrev pub written_rows : ConstraintLists F → List ℕ
  written_rows l =
      l.effector_row_ids
      ++ (l.actuator_row_ids ++ (l.equality_row_ids ++ (l.sensor_row_ids ++ l.contact_row_ids)))

module _ {F : Type 0} ⦃R : Double F⦄ where
  -- Actuators, equalities and contacts have their forces from `x`, in this order, effectors and sensors
  -- have none, and the forces of other rows are those of `v`.
  pub record IsPlaced (l : ConstraintLists F) (x v v' : List F) : Type 0 where
    pub size : length v' ≡ length v
    pub effectors :
        (i row : ℕ) → get_elem? l.effector_row_ids i ≡ some row → get_elem? v' row ≡ some nought
    pub actuators :
        (i row : ℕ) → get_elem? l.actuator_row_ids i ≡ some row → get_elem? v' row ≡ get_elem? x i
    pub equalities :
        (i row : ℕ)
        → get_elem? l.equality_row_ids i ≡ some row
        → get_elem? v' row ≡ get_elem? x (length l.actuator_row_ids + i)
    pub sensors :
        (i row : ℕ) → get_elem? l.sensor_row_ids i ≡ some row → get_elem? v' row ≡ some nought
    pub contacts :
        (i row : ℕ)
        → get_elem? l.contact_row_ids i ≡ some row
        → get_elem? v' row ≡ get_elem? x (length l.actuator_row_ids + length l.equality_row_ids + i)
    pub elsewhere : (row : ℕ) → IsAway row (written_rows l) → get_elem? v' row ≡ get_elem? v row

  -- One of the five loops.
  module _ (ids rest : List ℕ) (v : List F) (distinct : IsDistinct (ids ++ rest))
      (inside : All (λ row. row < length v) (ids ++ rest)) where
    -- After the loop, the rows that are left are still distinct and inside.
    abbrev pub AfterLoop : (ℕ → Option F) → List F → Type 0
    AfterLoop value v' =
        AreWritten ids value v (length ids) v'
        × IsDistinct rest
        × All (λ row. row < length v') rest
        × AreDisjoint ids rest

    after_loop :
        (value : ℕ → Option F) (v' : List F)
        → AreWritten ids value v (length ids) v'
        → AfterLoop value v'
    after_loop value v' w =
        let (d, d', apart) = IsDistinct-append ids rest distinct in
        (
          w,
          d',
          subst (λ n. All (λ row. row < n) rest) (sym w.size)
              (All-split (λ row. row < length v) ids rest inside).1,
          apart,
        )

    pub scatter-AfterLoop :
        (x : List F) (offset : ℕ)
        → offset + length ids ≤ length x
        → Returns (AfterLoop (λ i. get_elem? x (offset + i))) (scatter ids x offset v)
    unfolding scatter
    scatter-AfterLoop x offset room =
        Returns-mono (AreWritten ids (λ i. get_elem? x (offset + i)) v (length ids)) _ _
          (λ v' w. after_loop (λ i. get_elem? x (offset + i)) v' w)
          (writes-AreWritten ids (λ i. get_elem? x (offset + i)) v
            (IsDistinct-append ids rest distinct).0
            (All-split (λ row. row < length v) ids rest inside).0
            (λ i h. let (a, at) = get_elem?-lt x (offset + i) (omega arith) in (a, at, tt)))

    pub scatter_one-AfterLoop : (a : F) → Returns (AfterLoop (λ i. some a)) (scatter_one ids a v)
    unfolding scatter_one
    scatter_one-AfterLoop a =
        Returns-mono (AreWritten ids (λ i. some a) v (length ids)) _ _
          (λ v' w. after_loop (λ i. some a) v' w)
          (writes-AreWritten ids (λ i. some a) v (IsDistinct-append ids rest distinct).0
            (All-split (λ row. row < length v) ids rest inside).0 (λ i h. (a, refl, tt)))

  -- What stands in a row of `ids` outlives a loop over rows that are apart from it.
  outlive :
      (ids later : List ℕ) (value : ℕ → Option F) (v v' : List F) (i row : ℕ)
      → AreDisjoint ids later
      → AreWritten later value v (length later) v'
      → get_elem? ids i ≡ some row
      → get_elem? v' row ≡ get_elem? v row
  outlive ids later value v v' i row apart w at = w.elsewhere row (λ j at'. apart i j row at at')

  module _ (l : ConstraintLists F) (x v : List F) (distinct : IsDistinct (written_rows l))
      (inside : All (λ row. row < length v) (written_rows l))
      (room : length l.actuator_row_ids + length l.equality_row_ids + length l.contact_row_ids
        ≤ length x) where
    contacts_last :
        (v4 : List F)
        → IsDistinct l.contact_row_ids
        → All (λ row. row < length v4) l.contact_row_ids
        → Returns
            (AreWritten l.contact_row_ids
              (λ i. get_elem? x (length l.actuator_row_ids + length l.equality_row_ids + i))
              v4
              (length l.contact_row_ids))
            (scatter l.contact_row_ids x (length l.actuator_row_ids + length l.equality_row_ids) v4)
    unfolding scatter
    contacts_last v4 d in4 = writes-AreWritten l.contact_row_ids _ v4 d in4 (λ i h.
        let (a, at) =
          get_elem?-lt x (length l.actuator_row_ids + length l.equality_row_ids + i)
            (omega arith) in
        (a, at, tt))

    pub place_forces-IsPlaced : Returns (IsPlaced l x v) (place_forces l x v)
    unfolding place_forces
    place_forces-IsPlaced =
        let sc = l.sensor_row_ids ++ l.contact_row_ids in
        let qsc = l.equality_row_ids ++ sc in
        let aqsc = l.actuator_row_ids ++ qsc in
        Returns-bind _ (IsPlaced l x v) _ _
          (scatter_one-AfterLoop l.effector_row_ids aqsc v distinct inside nought)
          λ v1 (w1, d1, in1, apart1).
            Returns-bind _ (IsPlaced l x v) _ _
              (scatter-AfterLoop l.actuator_row_ids qsc v1 d1 in1 x 0 (omega arith))
              λ v2 (w2, d2, in2, apart2).
                Returns-bind _ (IsPlaced l x v) _ _
                  (scatter-AfterLoop l.equality_row_ids sc v2 d2 in2 x (length l.actuator_row_ids)
                    (omega arith))
                  λ v3 (w3, d3, in3, apart3).
                    Returns-bind _ (IsPlaced l x v) _ _
                      (scatter_one-AfterLoop l.sensor_row_ids l.contact_row_ids v3 d3 in3 nought)
                      λ v4 (w4, d4, in4, apart4).
                        Returns-mono _ (IsPlaced l x v) _
                          (λ v5 w5.
                            placed v1 v2 v3 v4 v5 w1 w2 w3 w4 w5 apart1 apart2 apart3 apart4)
                          (contacts_last v4 d4 in4)
      where
        placed :
            (v1 v2 v3 v4 v5 : List F)
            → AreWritten l.effector_row_ids (λ i. some nought) v (length l.effector_row_ids) v1
            → AreWritten l.actuator_row_ids
                (λ i. get_elem? x (0 + i))
                v1
                (length l.actuator_row_ids)
                v2
            → AreWritten l.equality_row_ids
                (λ i. get_elem? x (length l.actuator_row_ids + i))
                v2
                (length l.equality_row_ids)
                v3
            → AreWritten l.sensor_row_ids (λ i. some nought) v3 (length l.sensor_row_ids) v4
            → AreWritten l.contact_row_ids
                (λ i. get_elem? x (length l.actuator_row_ids + length l.equality_row_ids + i))
                v4
                (length l.contact_row_ids)
                v5
            → AreDisjoint l.effector_row_ids (
                l.actuator_row_ids
                ++ (l.equality_row_ids ++ (l.sensor_row_ids ++ l.contact_row_ids)))
            → AreDisjoint l.actuator_row_ids
                (l.equality_row_ids ++ (l.sensor_row_ids ++ l.contact_row_ids))
            → AreDisjoint l.equality_row_ids (l.sensor_row_ids ++ l.contact_row_ids)
            → AreDisjoint l.sensor_row_ids l.contact_row_ids
            → IsPlaced l x v v5
        placed v1 v2 v3 v4 v5 w1 w2 w3 w4 w5 p1 p2 p3 p4 =
            let (ea, e1) = AreDisjoint-append l.effector_row_ids l.actuator_row_ids _ p1 in
            let (eq, e2) = AreDisjoint-append l.effector_row_ids l.equality_row_ids _ e1 in
            let (es, ec) = AreDisjoint-append l.effector_row_ids l.sensor_row_ids _ e2 in
            let (aq, a1) = AreDisjoint-append l.actuator_row_ids l.equality_row_ids _ p2 in
            let (as', ac) = AreDisjoint-append l.actuator_row_ids l.sensor_row_ids _ a1 in
            let (qs, qc) = AreDisjoint-append l.equality_row_ids l.sensor_row_ids _ p3 in
            record {
              size = w5.size ∙ w4.size ∙ w3.size ∙ w2.size ∙ w1.size;
              effectors = λ i row at.
                  outlive _ _ _ v4 v5 i row ec w5 at
                  ∙ outlive _ _ _ v3 v4 i row es w4 at
                  ∙ outlive _ _ _ v2 v3 i row eq w3 at
                  ∙ outlive _ _ _ v1 v2 i row ea w2 at
                  ∙ w1.there i row (get_elem?-bound l.effector_row_ids i row at) at;
              actuators = λ i row at.
                  outlive _ _ _ v4 v5 i row ac w5 at
                  ∙ outlive _ _ _ v3 v4 i row as' w4 at
                  ∙ outlive _ _ _ v2 v3 i row aq w3 at
                  ∙ w2.there i row (get_elem?-bound l.actuator_row_ids i row at) at
                  ∙ ap (get_elem? x) (omega arith);
              equalities = λ i row at.
                  outlive _ _ _ v4 v5 i row qc w5 at
                  ∙ outlive _ _ _ v3 v4 i row qs w4 at
                  ∙ w3.there i row (get_elem?-bound l.equality_row_ids i row at) at;
              sensors = λ i row at.
                  outlive _ _ _ v4 v5 i row p4 w5 at
                  ∙ w4.there i row (get_elem?-bound l.sensor_row_ids i row at) at;
              contacts = λ i row at. w5.there i row (get_elem?-bound l.contact_row_ids i row at) at;
              elsewhere = λ row away.
                  let (h1, r1) = IsAway-append row l.effector_row_ids _ away in
                  let (h2, r2) = IsAway-append row l.actuator_row_ids _ r1 in
                  let (h3, r3) = IsAway-append row l.equality_row_ids _ r2 in
                  let (h4, h5) = IsAway-append row l.sensor_row_ids _ r3 in
                  w5.elsewhere row h5
                  ∙ w4.elsewhere row h4
                  ∙ w3.elsewhere row h3
                  ∙ w2.elsewhere row h2
                  ∙ w1.elsewhere row h1;
            }
