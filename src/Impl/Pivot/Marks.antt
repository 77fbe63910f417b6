-- ===== src/Impl/Pivot/Marks.antt =====
-- checkAndUpdatePivot with friction: the marks of one contact.
use soft_robots_inverse.Prelude.{
  Bool, Bool-cases, List, Returns, Returns-bind, false, for_range, for_range-Returns, get_elem?,
  get_elem?-set, if◌then◌else◌, inl, inr, length-set, refl, some, true, ℕ, ◌&&◌, ◌+◌, ◌<◌, ◌==◌,
  ◌||◌, ◌∙◌, ◌≡◌, ◌≢◌, length, ltb, arith, write, lt→ltb, subst, set, ap, sym,
}
use soft_robots_inverse.Problem.{Problem}
use soft_robots_inverse.Double.{Double}
use soft_robots_inverse.Impl.Pivot.{mark_candidates}
use soft_robots_inverse.ConstraintHandler.Ready.{IsFrictional}

module _ {F : Type 0} ⦃R : Double F⦄ (e : Problem F) (f : IsFrictional e.lists e.params)
    (allow : Bool) where
  -- After work on the contact that begins at row `i`: its three marks are those of `g`, the marks before them
  -- are as they were, and so is the number of marks.
  abbrev pub IsWrittenOver : List Bool → ℕ → ℕ → (ℕ → Bool) → List Bool → Type 0
  IsWrittenOver before i n g marks =
      (length marks ≡ length before)
      × ((j : ℕ) → j < i → get_elem? marks j ≡ get_elem? before j)
      × ((k : ℕ) → k < n → get_elem? marks (i + k) ≡ some (g k))

  write-IsWrittenOver :
      (before : List Bool) (i n k : ℕ) (g h : ℕ → Bool) (b : Bool) (marks : List Bool)
      → i + k < length before
      → IsWrittenOver before i n g marks
      → ((m : ℕ) → m < n → m ≢ k → h m ≡ g m)
      → h k ≡ b
      → Returns (IsWrittenOver before i n h) (write marks (i + k) b)
  write-IsWrittenOver before i n k g h b marks low (len, same, done) others this =
      let room : i + k < length marks = omega (arith, len) in
      rw (lt→ltb (i + k) (length marks) room) (
        set marks (i + k) b,
        refl,
        (
          length-set marks (i + k) b ∙ len,
          λ j hj. elim (get_elem?-set marks (i + k) j b room) [
            | inl (eq, now) ↦ absurd (omega arith)
            | inr (ne, old) ↦ old ∙ same j hj
          ],
          λ m hm. elim (get_elem?-set marks (i + k) (i + m) b room) [
            | inl (eq, now) ↦
                let e' : m ≡ k = omega arith in now ∙ ap some (sym this ∙ ap h (sym e'))
            | inr (ne, old) ↦
                old ∙ done m hm ∙ ap some (sym (others m hm (λ eq. ne (ap (λ t. i + t) (sym eq)))))
          ],
        ),
      )

  -- Which of a contact's rows are candidates: none if it has not reached its boundary; else, where
  -- `candidate` tells how it has, both
  -- tangents for a number above 2, else the row of that number; the normal alone where nothing may slide.
  abbrev pub is_candidate : Bool → ℕ → ℕ → Bool
  is_candidate reached candidate k =
      reached
      && (if allow
          then (if ltb 2 candidate then (k == 1) || (k == 2) else k == candidate)
          else k == 0)

  pub clear-IsWrittenOver :
      (before : List Bool) (i : ℕ)
      → i + 2 < length before
      → Returns
          (IsWrittenOver before i 3 (λ k. false))
          (for_range e.params.contact_nb_lines 0 (λ k marks. write marks (i + k) false) before)
  clear-IsWrittenOver before i room =
      for_range-Returns (λ n. IsWrittenOver before i n (λ k. false)) _ e.params.contact_nb_lines 0 3
        before (omega (arith, f.three_lines))
        (λ n marks lo hi (len, same, done).
          let room' : i + n < length marks = omega (arith, len) in
          rw (lt→ltb (i + n) (length marks) room') (
            set marks (i + n) false,
            refl,
            (
              length-set marks (i + n) false ∙ len,
              λ j hj. elim (get_elem?-set marks (i + n) j false room') [
                | inl (eq, now) ↦ absurd (omega arith)
                | inr (ne, old) ↦ old ∙ same j hj
              ],
              λ k hk. elim (get_elem?-set marks (i + n) (i + k) false room') [
                | inl (eq, now) ↦ now
                | inr (ne, old) ↦
                    old ∙ done k (let ne' : k ≢ n = (λ eq. ne (omega arith)) in omega arith)
              ],
            ),
          ))
        (refl, λ j hj. refl, λ k hk. absurd (omega arith))

  pub mark_candidates-IsWrittenOver :
      (before : List Bool) (i candidate : ℕ) (marks : List Bool)
      → i + 2 < length before
      → IsWrittenOver before i 3 (λ k. false) marks
      → Returns
          (IsWrittenOver before i 3 (is_candidate true candidate))
          (mark_candidates e allow i candidate marks)
  unfolding mark_candidates
  mark_candidates-IsWrittenOver before i candidate marks room w = elim (Bool-cases allow) [
    | inl slides ↦ elim (Bool-cases (ltb 2 candidate)) [
      | inl both ↦
          rw (slides, both, f.first_dir, f.second_dir)
            (Returns-bind (IsWrittenOver before i 3 (λ k. k == 1)) _ _ _
              (write-IsWrittenOver before i 3 1 (λ k. false) (λ k. k == 1) true marks (omega arith)
                w (λ m hm ne. ground arith) refl)
              λ marks' w'.
                write-IsWrittenOver before i 3 2 (λ k. k == 1) _ true marks' (omega arith) w'
                  (λ m hm ne. ground arith) refl)
      | inr single ↦
          let few : candidate < 3 = ground arith in
          rw (slides, single)
            (write-IsWrittenOver before i 3 candidate (λ k. false) _ true marks (omega arith) w
              (λ m hm ne. ground arith) (ground arith))
    ]
    | inr sticks ↦ rw sticks (
        let at_normal : i + 0 ≡ i = omega arith in
        subst (λ r. Returns (IsWrittenOver before i 3 (λ k. k == 0)) (write marks r true)) at_normal
          (write-IsWrittenOver before i 3 0 (λ k. false) (λ k. k == 0) true marks (omega arith) w
            (λ m hm ne. ground arith) refl))
  ]
