-- ===== src/Collect/Partition.antt =====
-- What QPMechanicalSetConstraint.cpp leaves in the lists: each row once, and as many rows of each kind as
-- its components have lines.

use mathlib.Core.List.{
  Perm, append_assoc, perm-append_left_iff, perm-append_right_iff, append-nil, perm_append_comm,
  append-nil,
}
use mathlib.Core.List.Perm
use soft_robots_inverse.Prelude.{
  List, refl, suc, zero, ℕ, ◌++◌, ◌+◌, ◌≡◌, length, ap, All, [], ◌∙◌, ◌∷◌, arith, subst,
  length-append, sym,
}
use soft_robots_inverse.Collect.{
  other, Found, fwd_constraint_set, rows_from, actuator, effector, equality, contact, sensor,
  collect, empty_lists,
}
use soft_robots_inverse.Problem.{ConstraintLists, BaseConstraint}
use soft_robots_inverse.ConstraintHandler.Ready.{total_lines}

rows_from-append :
    (index m n : ℕ) → rows_from index m ++ rows_from (index + m) n ≡ rows_from index (m + n)
unfolding rows_from
rows_from-append index zero n =
    ap (λ m. rows_from m n) (omega arith) ∙ ap (rows_from index) (omega arith)
rows_from-append index (suc m) n =
    ap (◌∷◌ index) (
      ap (λ k. rows_from (index + 1) m ++ rows_from k n) (omega arith)
      ∙ rows_from-append (index + 1) m n)
    ∙ ap (rows_from index) (let e : suc (m + n) ≡ suc m + n = omega arith in e)

pub length-rows_from : (index n : ℕ) → length (rows_from index n) ≡ n
unfolding rows_from
length-rows_from index zero = refl
length-rows_from index (suc n) = ap suc (length-rows_from (index + 1) n)

-- New rows at the end of the first list are new rows at the end of all.
perm_grow : (xs ys zs : List ℕ) → Perm ((xs ++ ys) ++ zs) ((xs ++ zs) ++ ys)
perm_grow xs ys zs = simp append_assoc ((perm-append_left_iff xs).1 (perm_append_comm ys zs))

perm_under :
    (xs : List ℕ) (ys zs ws : List ℕ) → Perm ys (zs ++ ws) → Perm (xs ++ ys) ((xs ++ zs) ++ ws)
perm_under xs ys zs ws h = rw (append_assoc xs zs ws) ((perm-append_left_iff xs).1 h)

module _ {F : Type 0} where
  -- The rows of all lists.
  abbrev pub all_row_ids : ConstraintLists F → List ℕ
  all_row_ids l =
      l.actuator_row_ids
      ++ (l.equality_row_ids ++ (l.contact_row_ids ++ (l.effector_row_ids ++ l.sensor_row_ids)))

  total_lines-push :
      (cs : List (BaseConstraint F)) (c : BaseConstraint F)
      → total_lines (cs ++ (c ∷ [])) ≡ total_lines cs + c.nb_lines
  unfolding total_lines
  total_lines-push [] c = omega arith
  total_lines-push (d ∷ cs) c = omega (arith, total_lines-push cs c)

  grown_lines :
      (cs : List (BaseConstraint F)) (c : BaseConstraint F) (ids : List ℕ) (index n : ℕ)
      → n ≡ c.nb_lines
      → total_lines cs ≡ length ids
      → total_lines (cs ++ (c ∷ [])) ≡ length (ids ++ rows_from index n)
  grown_lines cs c ids index n h v = omega (
    arith,
    total_lines-push cs c,
    length-append ids (rows_from index n),
    length-rows_from index n,
  )

  abbrev pub IsKept : Found F × ℕ → Type 0
  IsKept (actuator c, n) = Unit
  IsKept (effector c, n) = Unit
  IsKept (sensor c, n) = Unit
  IsKept (equality c, n) = Unit
  IsKept (contact k, n) = Unit
  IsKept (other, n) = n ≡ 0

  fwd_constraint_set-Perm :
      (c : Found F × ℕ) (l : ConstraintLists F) (index : ℕ)
      → IsKept c
      → let (l', index') = fwd_constraint_set c (l, index) in
        Perm (all_row_ids l') (all_row_ids l ++ rows_from index c.1) × (index' ≡ index + c.1)
  unfolding fwd_constraint_set rows_from
  fwd_constraint_set-Perm (actuator c, n) l index k =
      (perm_grow l.actuator_row_ids (rows_from index n) _, refl)
  fwd_constraint_set-Perm (equality c, n) l index k = (
    perm_under l.actuator_row_ids _ _ _ (perm_grow l.equality_row_ids (rows_from index n) _),
    refl,
  )
  fwd_constraint_set-Perm (contact c, n) l index k = (
    perm_under l.actuator_row_ids _ _ _
        (perm_under l.equality_row_ids _ _ _ (perm_grow l.contact_row_ids (rows_from index n) _)),
    refl,
  )
  fwd_constraint_set-Perm (effector c, n) l index k = (
    perm_under l.actuator_row_ids _ _ _ (
        perm_under l.equality_row_ids _ _ _ (
          perm_under l.contact_row_ids _ _ _ (perm_grow l.effector_row_ids (rows_from index n) _))),
    refl,
  )
  fwd_constraint_set-Perm (sensor c, n) l index k = (
    perm_under l.actuator_row_ids _ _ _ (
        perm_under l.equality_row_ids _ _ _ (
          perm_under l.contact_row_ids _ _ _ (
            perm_under l.effector_row_ids _ _ _
              (Perm.refl (l.sensor_row_ids ++ rows_from index n))))),
    refl,
  )
  fwd_constraint_set-Perm (other, n) l index k =
      let nothing : Perm (all_row_ids l) (all_row_ids l ++ rows_from index 0) =
        rw (append-nil (all_row_ids l)) (Perm.refl (all_row_ids l)) in
      (subst (λ m. Perm (all_row_ids l) (all_row_ids l ++ rows_from index m)) (sym k) nothing, refl)

  collect_more-Perm :
      (cs : List (Found F × ℕ)) (l : ConstraintLists F) (index : ℕ)
      → All IsKept cs
      → let (l', index') = collect cs (l, index) in
        (n : ℕ) × (index' ≡ index + n) × Perm (all_row_ids l') (all_row_ids l ++ rows_from index n)
  unfolding collect rows_from
  collect_more-Perm [] l index k =
      (0, omega arith, rw (append-nil (all_row_ids l)) (Perm.refl (all_row_ids l)))
  collect_more-Perm (c ∷ cs) l index (k, ks) =
      let (l', index') = fwd_constraint_set c (l, index) in
      let (grown, e) = fwd_constraint_set-Perm c l index k in
      let (n, e', all) = collect_more-Perm cs l' index' ks in
      (c.1 + n, omega (arith, e), joined l' index' n grown e all)
    where
      joined :
          (l' : ConstraintLists F) (index' n : ℕ)
          → Perm (all_row_ids l') (all_row_ids l ++ rows_from index c.1)
          → index' ≡ index + c.1
          → Perm
              (all_row_ids (collect cs (fwd_constraint_set c (l, index))).0)
              (all_row_ids l' ++ rows_from index' n)
          → Perm
              (all_row_ids (collect cs (fwd_constraint_set c (l, index))).0)
              (all_row_ids l ++ rows_from index (c.1 + n))
      joined l' index' n grown e all =
          let split : all_row_ids l ++ rows_from index c.1 ++ rows_from index' n
              ≡ all_row_ids l ++ rows_from index (c.1 + n) =
            append_assoc (all_row_ids l) (rows_from index c.1) (rows_from index' n)
            ∙ ap (λ k. all_row_ids l ++ (rows_from index c.1 ++ rows_from k n)) e
            ∙ ap (◌++◌ (all_row_ids l)) (rows_from-append index c.1 n) in
          subst (Perm (all_row_ids (collect cs (fwd_constraint_set c (l, index))).0)) split
            (Perm.trans all ((perm-append_right_iff (rows_from index' n)).1 grown))

  -- A visit gives each row to exactly one of the lists, if what is neither a SoftRobots constraint nor a
  -- contact adds no lines: from empty lists, the rows of all lists together are the numbers below the
  -- count of lines, each once, in some order.
  pub collect-Perm :
      (cs : List (Found F × ℕ))
      → All IsKept cs
      → let (l, count) = collect cs (empty_lists, 0) in Perm (all_row_ids l) (rows_from 0 count)
  unfolding empty_lists
  collect-Perm cs ks =
      let (n, e, all) = collect_more-Perm cs empty_lists 0 ks in
      let same : n ≡ (collect cs (empty_lists, 0)).1 = omega arith in
      subst (λ m. Perm (all_row_ids (collect cs (empty_lists, 0)).0) (rows_from 0 m)) same all

  -- Whether the lines that a component has added are those that it reports.
  abbrev pub IsHonest : Found F × ℕ → Type 0
  IsHonest (actuator c, n) = n ≡ c.nb_lines
  IsHonest (equality c, n) = n ≡ c.nb_lines
  IsHonest (effector c, n) = n ≡ c.nb_lines
  IsHonest (sensor c, n) = n ≡ c.nb_lines
  IsHonest (contact k, n) = Unit
  IsHonest (other, n) = Unit

  -- As many rows as the components of a kind have lines.
  pub record IsCounted (l : ConstraintLists F) : Type 0 where
    pub actuators : total_lines l.actuators ≡ length l.actuator_row_ids
    pub equalities : total_lines l.equality ≡ length l.equality_row_ids
    pub effectors : total_lines l.effectors ≡ length l.effector_row_ids
    pub sensors : total_lines l.sensors ≡ length l.sensor_row_ids

  fwd_constraint_set-IsCounted :
      (c : Found F × ℕ) (l : ConstraintLists F) (index : ℕ)
      → IsHonest c
      → IsCounted l
      → IsCounted (fwd_constraint_set c (l, index)).0
  unfolding fwd_constraint_set
  fwd_constraint_set-IsCounted (actuator c, n) l index h v = record {
    actuators = grown_lines l.actuators c l.actuator_row_ids index n h v.actuators;
    equalities = v.equalities;
    effectors = v.effectors;
    sensors = v.sensors;
  }
  fwd_constraint_set-IsCounted (equality c, n) l index h v = record {
    actuators = v.actuators;
    equalities = grown_lines l.equality c l.equality_row_ids index n h v.equalities;
    effectors = v.effectors;
    sensors = v.sensors;
  }
  fwd_constraint_set-IsCounted (effector c, n) l index h v = record {
    actuators = v.actuators;
    equalities = v.equalities;
    effectors = grown_lines l.effectors c l.effector_row_ids index n h v.effectors;
    sensors = v.sensors;
  }
  fwd_constraint_set-IsCounted (sensor c, n) l index h v = record {
    actuators = v.actuators;
    equalities = v.equalities;
    effectors = v.effectors;
    sensors = grown_lines l.sensors c l.sensor_row_ids index n h v.sensors;
  }
  fwd_constraint_set-IsCounted (contact k, n) l index h v = record {
    actuators = v.actuators;
    equalities = v.equalities;
    effectors = v.effectors;
    sensors = v.sensors;
  }
  fwd_constraint_set-IsCounted (other, n) l index h v = v

  collect_more-IsCounted :
      (cs : List (Found F × ℕ)) (l : ConstraintLists F) (index : ℕ)
      → All IsHonest cs
      → IsCounted l
      → IsCounted (collect cs (l, index)).0
  unfolding collect
  collect_more-IsCounted [] l index h v = v
  collect_more-IsCounted (c ∷ cs) l index (h, hs) v =
      let (l', index') = fwd_constraint_set c (l, index) in
      collect_more-IsCounted cs l' index' hs (fwd_constraint_set-IsCounted c l index h v)

  -- If each component adds the lines that it reports, the lists of rows of the actuators,
  -- equalities, effectors and sensors are each as long as the lines of their components add up to.
  pub collect-IsCounted :
      (cs : List (Found F × ℕ)) → All IsHonest cs → IsCounted (collect cs (empty_lists, 0)).0
  unfolding empty_lists total_lines
  collect-IsCounted cs hs =
      collect_more-IsCounted cs empty_lists 0 hs
        (record { actuators = refl; equalities = refl; effectors = refl; sensors = refl })
