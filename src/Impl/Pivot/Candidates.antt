-- ===== src/Impl/Pivot/Candidates.antt =====
-- checkAndUpdatePivot with friction: the search for candidates ends, with a mark for each row of a contact
-- that tells whether the contact has reached its boundary by it.
use soft_robots_inverse.Prelude.{
  Bool, Bool-cases, List, Returns, Returns-bind, Returns-made, Returns-mono, false, get_elem?,
  get_elem?-lt, if◌then◌else◌, inl, inr, length-replicate, refl, some, some-injective, suc, true,
  while-Returns, zero, ℕ, ◌*◌, ◌+◌, ◌-◌, ◌/◌, ◌<◌, ◌||◌, ◌∙◌, ◌≡◌, ◌≤◌, ◌⊎◌, length, ap, arith, ltb,
  subst, sym, tests,
}
use soft_robots_inverse.Problem.{Problem, nb_contact_rows}
use soft_robots_inverse.Double.{Double, ◌≺◌, nought}
use soft_robots_inverse.Contact.{ContactState, Triple, has_reached_boundary_friction}
use soft_robots_inverse.Impl.Pivot.{
  CandidateCursor, any_of_three, contact_deltas, contact_forces, find_candidates,
  friction_candidate_step, mark_candidates,
}
use soft_robots_inverse.Impl.Pivot.Marks.{
  IsWrittenOver, clear-IsWrittenOver, is_candidate, mark_candidates-IsWrittenOver,
}
use soft_robots_inverse.Impl.Pivot.Reads.{contact_deltas-IsRead, contact_forces-IsRead}
use soft_robots_inverse.ConstraintHandler.Ready.{IsFrictional, one_left}
use soft_robots_inverse.ConstraintHandler.Rows.Entries.{IsSized}

module _ {F : Type 0} ⦃R : Double F⦄ (e : Problem F) (result : List F) (mu : F) (allow : Bool)
    (f : IsFrictional e.lists e.params) where
  -- Whether contact row `j` is a candidate: it is a line of a contact, which has reached its boundary by that
  -- line with the displacements and forces that belong to it.
  pub record IsCandidateRow (j : ℕ) (b : Bool) : Type 0 where
    pub contact : ℕ
    pub line : ℕ
    pub place : j ≡ contact * 3 + line
    pub few : line < 3
    pub state : ContactState
    pub at_contact : get_elem? e.params.contact_states contact ≡ some state
    pub deltas : Triple F
    pub forces : Triple F
    pub deltas_read :
        contact_deltas e result (contact * 3) e.params.sliding_dir_id1 e.params.sliding_dir_id2
        ≡ some deltas
    pub forces_read :
        contact_forces e result (contact * 3) e.params.sliding_dir_id1 e.params.sliding_dir_id2
        ≡ some forces
    pub answer :
        let reach =
          has_reached_boundary_friction state (e.params.handler_sliding state) forces deltas mu 0 in
        b ≡ is_candidate e f allow reach.0 reach.1 line

  -- The marks of the rows before `n` tell which of them are candidates.
  abbrev pub IsMarked : ℕ → List Bool → Type 0
  IsMarked n marks =
      (length marks ≡ nb_contact_rows e)
      × ((j : ℕ) → j < n → (b : Bool) × (get_elem? marks j ≡ some b) × IsCandidateRow j b)

  -- Without a pivot there is no mark.
  abbrev pub IsSearched : ℕ → CandidateCursor → Type 0
  IsSearched n s =
      IsMarked n s.marks × (s.nb_pivot ≡ 0 → (j : ℕ) → j < n → get_elem? s.marks j ≡ some true → ⊥)

  module _ (sized : IsSized e) (result_size : length result ≡ e.system.dim) where
    -- So many contacts are left.
    abbrev IsGood : CandidateCursor → Type 0
    IsGood s = (m : ℕ) × (s.i + m * 3 ≡ nb_contact_rows e) × IsSearched s.i s

    abbrev Next : CandidateCursor → CandidateCursor → Type 0
    Next s t = IsGood t × (nb_contact_rows e - t.i < nb_contact_rows e - s.i)

    marked-IsWrittenOver :
        (before : List Bool) (i : ℕ) (reached : Bool) (candidate : ℕ) (cleared : List Bool)
        → i + 2 < length before
        → IsWrittenOver e f allow before i 3 (λ k. false) cleared
        → Returns
            (IsWrittenOver e f allow before i 3 (is_candidate e f allow reached candidate))
            (if reached then mark_candidates e allow i candidate cleared else some cleared)
    marked-IsWrittenOver before i true candidate cleared room w =
        mark_candidates-IsWrittenOver e f allow before i candidate cleared room w
    marked-IsWrittenOver before i false candidate cleared room w = (cleared, refl, w)

    any_of_three_lem :
        (before marks : List Bool) (i : ℕ) (g : ℕ → Bool)
        → IsWrittenOver e f allow before i 3 g marks
        → any_of_three e marks i ≡ some (g 0 || (g 1 || g 2))
    unfolding any_of_three
    any_of_three_lem before marks i g (len, same, done) =
        let first : get_elem? marks i ≡ some (g 0) =
          ap (get_elem? marks) (omega arith) ∙ done 0 (omega arith) in
        rw (first, done 1 (omega arith), done 2 (omega arith)) refl

    -- The marks of one more contact.
    IsSearched-next :
        (s : CandidateCursor) (marks : List Bool) (g : ℕ → Bool)
        → IsSearched s.i s
        → IsWrittenOver e f allow s.marks s.i 3 g marks
        → ((k : ℕ) → k < 3 → IsCandidateRow (s.i + k) (g k))
        → IsSearched (s.i + e.params.contact_nb_lines) (record {
          i = s.i + e.params.contact_nb_lines;
          marks = marks;
          nb_pivot = if g 0 || (g 1 || g 2) then s.nb_pivot + 1 else s.nb_pivot;
        })
    IsSearched-next s marks g ((size, told), unmarked) (len, same, done) rows = (
      (
        len ∙ size,
        λ j hj. elim (Bool-cases (ltb j s.i)) [
          | inl lo ↦ let (b, at, row) = told j (omega tests) in (b, same j (omega tests) ∙ at, row)
          | inr hi ↦
              let k = j - s.i in
              let few : k < 3 = omega (arith, f.three_lines) in
              let here : s.i + k ≡ j = omega tests in
              (
                g k,
                ap (get_elem? marks) (sym here) ∙ done k few,
                subst (λ r. IsCandidateRow r (g k)) here (rows k few),
              )
        ],
      ),
      λ no_pivot j hj there. elim (Bool-cases (ltb j s.i)) [
        | inl lo ↦
            unmarked (ground (arith, no_pivot)) j (omega tests) (sym (same j (omega tests)) ∙ there)
        | inr hi ↦
            let k = j - s.i in
            let few : k < 3 = omega (arith, f.three_lines) in
            let here : s.i + k ≡ j = omega tests in
            let mark : g k ≡ true =
              some-injective _ _ (sym (done k few) ∙ ap (get_elem? marks) here ∙ there) in
            none_of (g 0) (g 1) (g 2) s.nb_pivot no_pivot (each k few mark)
      ],
    )
      where
        each : (k : ℕ) → k < 3 → g k ≡ true → (g 0 ≡ true) ⊎ ((g 1 ≡ true) ⊎ (g 2 ≡ true))
        each zero h mark = inl mark
        each (suc zero) h mark = inr (inl mark)
        each (suc (suc zero)) h mark = inr (inr mark)
        each (suc (suc (suc k))) h mark = absurd (omega arith)

        none_of :
            (a b c : Bool) (n : ℕ)
            → (if a || (b || c) then n + 1 else n) ≡ 0
            → (a ≡ true) ⊎ ((b ≡ true) ⊎ (c ≡ true))
            → ⊥
        none_of true b c n e' some_mark = omega arith
        none_of false true c n e' some_mark = omega arith
        none_of false false true n e' some_mark = omega arith
        none_of false false false n e' (inl m) = cc
        none_of false false false n e' (inr (inl m)) = cc
        none_of false false false n e' (inr (inr m)) = cc

    friction_candidate_step-Next :
        (s : CandidateCursor) (m : ℕ)
        → s.i + suc m * 3 ≡ nb_contact_rows e
        → IsSearched s.i s
        → Returns (Next s) (friction_candidate_step e mu allow result s)
    unfolding friction_candidate_step
    friction_candidate_step-Next s m left v =
        let P = Next s in
        let d1 = e.params.sliding_dir_id1 in
        let d2 = e.params.sliding_dir_id2 in
        let room : s.i + 2 < length s.marks = omega (arith, v.0.0) in
        let c = s.i / e.params.contact_nb_lines in
        Returns-bind (λ deltas. (contact_deltas e result s.i d1 d2 ≡ some deltas) × Unit {0}) P _ _
          (Returns-made (
            contact_deltas-IsRead e result sized result_size s.i d1 d2 (omega (arith, f.first_dir))
              (omega (arith, f.second_dir))))
          λ deltas (read, _).
            Returns-bind (λ forces. (contact_forces e result s.i d1 d2 ≡ some forces) × Unit {0}) P
              _ _
              (Returns-made (
                contact_forces-IsRead e result sized result_size s.i d1 d2
                  (omega (arith, f.first_dir)) (omega (arith, f.second_dir))))
              λ forces (read', _).
                Returns-bind (IsWrittenOver e f allow s.marks s.i 3 (λ k. false)) P _ _
                  (clear-IsWrittenOver e f allow s.marks s.i room)
                  λ cleared w.
                    let (state, at) = get_elem?-lt e.params.contact_states c contact in
                    let reach =
                      has_reached_boundary_friction state (e.params.handler_sliding state) forces
                        deltas mu 0 in
                    let g = is_candidate e f allow reach.0 reach.1 in
                    rw at (
                      Returns-bind (IsWrittenOver e f allow s.marks s.i 3 g) P _ _
                        (marked-IsWrittenOver s.marks s.i reach.0 reach.1 cleared room w)
                        λ marks w'. rw (any_of_three_lem s.marks marks s.i g w') (
                          _,
                          refl,
                          (
                            (
                              m,
                              omega (arith, f.three_lines),
                              IsSearched-next s marks g v w' (λ k few. record {
                                contact = c;
                                line = k;
                                place = omega (arith, begins);
                                few = few;
                                state = state;
                                at_contact = at;
                                deltas = deltas;
                                forces = forces;
                                deltas_read =
                                    ap (λ r. contact_deltas e result r d1 d2) (sym begins) ∙ read;
                                forces_read =
                                    ap (λ r. contact_forces e result r d1 d2) (sym begins) ∙ read';
                                answer = refl;
                              }),
                            ),
                            omega (arith, f.three_lines),
                          ),
                        ))
      where
        contact : s.i / e.params.contact_nb_lines < length e.params.contact_states
        contact =
            subst (λ d. s.i / d < length e.params.contact_states) (sym f.three_lines)
              (omega (arith, f.rows))

        begins : s.i ≡ s.i / e.params.contact_nb_lines * 3
        begins = subst (λ d. s.i ≡ s.i / d * 3) (sym f.three_lines) (omega (arith, f.rows))

    pub find_candidates-IsSearched :
        (nought ≺ mu) ≡ true
        → Returns (IsSearched (nb_contact_rows e)) (find_candidates e mu allow result)
    unfolding find_candidates
    find_candidates-IsSearched rubs = rw rubs (
        Returns-mono (λ s. IsGood s × (ltb s.i (nb_contact_rows e) ≡ false))
          (IsSearched (nb_contact_rows e)) _
          (λ s w.
            let whole : nb_contact_rows e ≤ s.i = omega (tests, w.1) in
            (
              (w.0.2.0.0, λ j hj. w.0.2.0.1 j (omega arith)),
              λ no_pivot j hj. w.0.2.1 no_pivot j (omega arith),
            ))
          (while-Returns IsGood (λ s. nb_contact_rows e - s.i) (λ s. ltb s.i (nb_contact_rows e))
            (friction_candidate_step e mu allow result)
            (λ s good more.
              let (m, left) = one_left s.i good.0 3 _ good.1 (omega tests) in
              friction_candidate_step-Next s m left good.2)
            (nb_contact_rows e + 1) _ (omega arith)
            (
              length e.params.contact_states,
              omega (arith, f.rows),
              (
                (length-replicate (nb_contact_rows e) false, λ j h. absurd (omega arith)),
                λ no_pivot j h. absurd (omega arith),
              ),
            )))
