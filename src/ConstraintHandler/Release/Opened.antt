-- ===== src/ConstraintHandler/Release/Opened.antt =====
-- checkAndUpdateActuatorConstraints: what the release of one row adds.
use soft_robots_inverse.Prelude.{
  All-get_elem?, Bool, Bool-cases, List, false, get_elem?, get_elem?-set, inl, inr, length-set,
  some, some-injective, true, ℕ, ◌+◌, ◌<◌, ◌∙◌, ◌≡◌, ◌≢◌, ◌≤◌, ◌⊎◌, length, set, arith, ap, sym,
}
use soft_robots_inverse.Problem.{Problem}
use soft_robots_inverse.Double.{Double, huge, negate, nought}
use soft_robots_inverse.ConstraintHandler.Release.Effect.{IsMarks, IsReleasable}

module _ {F : Type 0} ⦃R : Double F⦄ (e : Problem F) (x : List F) (v : IsReleasable e x) where
  -- After the rows before `n`: a marked row has no upper bound, and no lower one where lower bounds are in
  -- use, and the variable of its number is held at zero; the bounds of the other rows are as before, and so
  -- are those of the variables that no marked row has the number of; nothing but l, u, bl and bu has changed.
  pub record IsOpened (marks : List Bool) (n : ℕ) (t : Problem F) : Type 0 where
    pub same : t ≡ record e {
      system = record (e.system) {
        l = t.system.l;
        u = t.system.u;
        bl = t.system.bl;
        bu = t.system.bu;
      };
    }
    pub l_size : length t.system.l ≡ length e.system.l
    pub u_size : length t.system.u ≡ length e.system.u
    pub bl_size : length t.system.bl ≡ length e.system.bl
    pub bu_size : length t.system.bu ≡ length e.system.bu
    pub opened :
        (i : ℕ) → i < n → get_elem? marks i ≡ some true → get_elem? t.system.bu i ≡ some huge
    pub kept :
        (i : ℕ)
        → (n ≤ i) ⊎ (get_elem? marks i ≡ some false)
        → get_elem? t.system.bu i ≡ get_elem? e.system.bu i
    pub held :
        (i id : ℕ)
        → i < n
        → get_elem? marks i ≡ some true
        → get_elem? e.params.constraints_id i ≡ some id
        → (get_elem? t.system.l id ≡ some nought) × (get_elem? t.system.u id ≡ some nought)
    pub lowered :
        (i : ℕ)
        → i < n
        → get_elem? marks i ≡ some true
        → e.system.has_both_side_inequality_constraint ≡ true
        → get_elem? t.system.bl i ≡ some (negate huge)
    pub low_kept :
        (i : ℕ)
        → (n ≤ i)
          ⊎ ((get_elem? marks i ≡ some false)
              ⊎ (e.system.has_both_side_inequality_constraint ≡ false))
        → get_elem? t.system.bl i ≡ get_elem? e.system.bl i
    pub free_kept :
        (id : ℕ)
        → ((i : ℕ)
            → i < n
            → get_elem? marks i ≡ some true
            → get_elem? e.params.constraints_id i ≡ some id
            → ⊥)
        → (get_elem? t.system.l id ≡ get_elem? e.system.l id)
          × (get_elem? t.system.u id ≡ get_elem? e.system.u id)

  -- The lower bounds after row `i` was released.
  abbrev pub IsLowered : ℕ → List F → List F → Type 0
  IsLowered i before bl =
      (length bl ≡ length before)
      × (e.system.has_both_side_inequality_constraint ≡ true
          → (i < length before) × (bl ≡ set before i (negate huge)))
      × (e.system.has_both_side_inequality_constraint ≡ false → bl ≡ before)

  module _ (marks : List Bool) (few : IsMarks e x v (length e.system.a) marks) (i : ℕ)
      (t : Problem F) (o : IsOpened marks i t) (marked : get_elem? marks i ≡ some true) (index : ℕ)
      (at : get_elem? e.params.constraints_id i ≡ some index) where
    pub IsOpened-next :
        (bl : List F)
        → IsLowered i t.system.bl bl
        → IsOpened marks (i + 1) (record t {
          system = record (t.system) {
            l = set t.system.l index nought;
            u = set t.system.u index nought;
            bl = bl;
            bu = set t.system.bu i huge;
          };
        })
    IsOpened-next bl (size, used_low, unused_low) =
        let in_bu : i < length t.system.bu =
          omega (arith, (few.1 i marked).0, v.bu_size, o.bu_size) in
        let low : index < e.system.dim =
          All-get_elem? (λ id. id < e.system.dim) e.params.constraints_id i index v.bounded at in
        let in_l : index < length t.system.l = omega (arith, v.l_size, o.l_size) in
        let in_u : index < length t.system.u = omega (arith, v.u_size, o.u_size) in
        record {
          same =
              ap {B = Problem F}
                (λ (q : Problem F). record q {
                  system = record (q.system) {
                    l = set t.system.l index nought;
                    u = set t.system.u index nought;
                    bl = bl;
                    bu = set t.system.bu i huge;
                  };
                })
                o.same;
          l_size = length-set t.system.l index nought ∙ o.l_size;
          u_size = length-set t.system.u index nought ∙ o.u_size;
          bl_size = size ∙ o.bl_size;
          bu_size = length-set t.system.bu i huge ∙ o.bu_size;
          opened = λ k h m. elim (get_elem?-set t.system.bu i k huge in_bu) [
            | inl (same, there) ↦ there
            | inr (apart, there) ↦ there ∙ o.opened k (before k h apart) m
          ];
          kept = λ k out. elim (get_elem?-set t.system.bu i k huge in_bu) [
            | inl (same, there) ↦ absurd (clash k same out)
            | inr (apart, there) ↦ there ∙ o.kept k (outside k out)
          ];
          held = λ k id h m there. (
            at_zero t.system.l in_l k id h m there (λ hk. (o.held k id hk m there).0),
            at_zero t.system.u in_u k id h m there (λ hk. (o.held k id hk m there).1),
          );
          lowered = λ k h m used.
              let (in_bl, made) = used_low used in
              ap (λ xs. get_elem? xs k) made
              ∙ elim (get_elem?-set t.system.bl i k (negate huge) in_bl) [
                | inl (same, there) ↦ there
                | inr (apart, there) ↦ there ∙ o.lowered k (before k h apart) m used
              ];
          low_kept = λ k out. elim (Bool-cases e.system.has_both_side_inequality_constraint) [
            | inl used ↦
                let (in_bl, made) = used_low used in
                ap (λ xs. get_elem? xs k) made
                ∙ elim (get_elem?-set t.system.bl i k (negate huge) in_bl) [
                  | inl (same, there) ↦ absurd (clash k same (in_use k used out))
                  | inr (apart, there) ↦
                      there
                      ∙ o.low_kept k (elim (outside k (in_use k used out)) [
                        | inl h ↦ inl h
                        | inr m ↦ inr (inl m)
                      ])
                ]
            | inr unused ↦
                ap (λ xs. get_elem? xs k) (unused_low unused) ∙ o.low_kept k (inr (inr unused))
          ];
          free_kept = λ id no.
              let apart : index ≡ id → ⊥ = λ same. no i (omega arith) marked (at ∙ ap some same) in
              let (l_same, u_same) = o.free_kept id (λ k hk m there. no k (omega arith) m there) in
              (
                elim (get_elem?-set t.system.l index id nought in_l) [
                  | inl (same, there) ↦ absurd (apart same)
                  | inr (other, there) ↦ there ∙ l_same
                ],
                elim (get_elem?-set t.system.u index id nought in_u) [
                  | inl (same, there) ↦ absurd (apart same)
                  | inr (other, there) ↦ there ∙ u_same
                ],
              );
        }
      where
        before : (k : ℕ) → k < i + 1 → i ≢ k → k < i
        before k h apart = omega arith

        outside :
            (k : ℕ)
            → (i + 1 ≤ k) ⊎ (get_elem? marks k ≡ some false)
            → (i ≤ k) ⊎ (get_elem? marks k ≡ some false)
        outside k (inl h) = inl (omega arith)
        outside k (inr m) = inr m

        in_use :
            (k : ℕ)
            → e.system.has_both_side_inequality_constraint ≡ true
            → (i + 1 ≤ k)
              ⊎ ((get_elem? marks k ≡ some false)
                  ⊎ (e.system.has_both_side_inequality_constraint ≡ false))
            → (i + 1 ≤ k) ⊎ (get_elem? marks k ≡ some false)
        in_use k used (inl h) = inl h
        in_use k used (inr (inl m)) = inr m
        in_use k used (inr (inr unused)) = absurd (cc)

        clash : (k : ℕ) → i ≡ k → (i + 1 ≤ k) ⊎ (get_elem? marks k ≡ some false) → ⊥
        clash k same (inl h) = omega arith
        clash k same (inr m) = let m' = ap (get_elem? marks) same in cc

        at_zero :
            (xs : List F)
            → index < length xs
            → (k id : ℕ) → k < i + 1
            → get_elem? marks k ≡ some true
            → get_elem? e.params.constraints_id k ≡ some id
            → (k < i → get_elem? xs id ≡ some nought)
            → get_elem? (set xs index nought) id ≡ some nought
        at_zero xs room k id h m there former = elim (get_elem?-set xs index id nought room) [
          | inl (same, zeroed) ↦ zeroed
          | inr (apart, old) ↦
              old
              ∙ former (
                  before k h (λ same. apart (
                    some-injective _ _
                      (sym at ∙ ap (get_elem? e.params.constraints_id) same ∙ there))))
        ]
