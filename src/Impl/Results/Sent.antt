-- ===== src/Impl/Results/Sent.antt =====
-- sendResults: the components are told their forces and violations, and only actuators and equalities may
-- change forces, each in its own rows.
use soft_robots_inverse.Prelude.{
  All, All-get_elem?, IsTable, List, Returns, Returns-bind, Returns-mono, [], for_range-Returns,
  get_elem?, get_elem?-lt, get_elem?-set_ne, length-push, length-set, refl, some, tabulate-IsTable,
  ℕ, ◌++◌, ◌+◌, ◌<◌, ◌>>=◌, ◌∙◌, ◌∷◌, ◌≡◌, ◌≤◌, length, set, ap, arith, lt→ltb, subst, sym,
}
use soft_robots_inverse.Problem.{BaseConstraint}
use soft_robots_inverse.Impl.Results.{
  SendCursor, StoreResults, send_all, send_step, gather, report_all, report_step,
}
use soft_robots_inverse.Impl.Results.Rows.{IsAway, IsAway-append}
use soft_robots_inverse.ConstraintHandler.Ready.{total_lines}

module _ {F : Type 0} where
  -- The forces `v'` differ from `v` in rows of `ids` at most.
  pub record IsConfined (ids : List ℕ) (v v' : List F) : Type 0 where
    pub size : length v' ≡ length v
    pub elsewhere : (row : ℕ) → IsAway row ids → get_elem? v' row ≡ get_elem? v row

  write-IsConfined :
      (ids : List ℕ) (v v' : List F) (i row : ℕ) (a : F)
      → get_elem? ids i ≡ some row
      → IsConfined ids v v'
      → IsConfined ids v (set v' row a)
  write-IsConfined ids v v' i row a at w = record {
    size = length-set v' row a ∙ w.size;
    elsewhere = λ r away.
        get_elem?-set_ne v' row r a (λ same. away i (at ∙ ap some same)) ∙ w.elsewhere r away;
  }

  pub IsConfined-trans :
      (ids ids' : List ℕ) (u v v' : List F)
      → IsConfined ids u v
      → IsConfined ids' v v'
      → IsConfined (ids ++ ids') u v'
  IsConfined-trans ids ids' u v v' w w' = record {
    size = w'.size ∙ w.size;
    elsewhere = λ row away.
        let (h, h') = IsAway-append row ids ids' away in w'.elsewhere row h' ∙ w.elsewhere row h;
  }

  pub gather-Returns :
      (ids : List ℕ) (v : List F) (line n : ℕ)
      → line + n ≤ length ids
      → All (λ row. row < length v) ids
      → Returns (λ xs. length xs ≡ n) (gather ids v line n)
  unfolding gather
  gather-Returns ids v line n room inside =
      Returns-mono (IsTable n line (λ i. get_elem? ids i >>= λ row. get_elem? v row)) _ _
        (λ xs t. t.0)
        (tabulate-IsTable n line _ λ k lo hi.
          let (row, at) = get_elem?-lt ids k (omega arith) in
          let (a, ea) =
            get_elem?-lt v row (All-get_elem? (λ r. r < length v) ids k row inside at) in
          rw (at, ea) (_, refl, tt))

  -- A component answers with as many forces as it has lines.
  abbrev pub IsAnswering : StoreResults F → Type 0
  IsAnswering store =
      (c : BaseConstraint F) (lambda delta : List F)
      → length lambda ≡ c.nb_lines
      → length (store c lambda delta).1 ≡ c.nb_lines

  module _ (store : StoreResults F) (answering : IsAnswering store) (ids : List ℕ) (delta : List F)
      (known : All (λ row. row < length delta) ids) where
    -- After some components: as many have been told, and the lines follow one another.
    pub record IsSending (cs : List (BaseConstraint F)) (s s' : SendCursor F) : Type 0 where
      pub count : length s'.sent ≡ length s.sent + length cs
      pub line : s'.line ≡ s.line + total_lines cs
      pub forces : IsConfined ids s.forces s'.forces

    send_step-IsSending :
        (c : BaseConstraint F) (s : SendCursor F)
        → s.line + c.nb_lines ≤ length ids
        → All (λ row. row < length s.forces) ids
        → Returns (IsSending (c ∷ []) s) (send_step store ids delta c s)
    unfolding send_step total_lines
    send_step-IsSending c s room inside =
        Returns-bind (λ xs. length xs ≡ c.nb_lines) (IsSending (c ∷ []) s) _ _
          (gather-Returns ids s.forces s.line c.nb_lines room inside)
          λ local_lambda len.
            Returns-bind (λ xs. length xs ≡ c.nb_lines) (IsSending (c ∷ []) s) _ _
              (gather-Returns ids delta s.line c.nb_lines room known)
              λ local_delta _.
                let c' : BaseConstraint F = (store c local_lambda local_delta).0 in
                let answer : List F = (store c local_lambda local_delta).1 in
                let full = answering c local_lambda local_delta len in
                Returns-bind (IsConfined ids s.forces) (IsSending (c ∷ []) s) _ _
                  (for_range-Returns (λ _. IsConfined ids s.forces) _ c.nb_lines 0 c.nb_lines
                    s.forces (omega arith)
                    (λ j v lo hi w.
                      let (row, at) = get_elem?-lt ids (s.line + j) (omega arith) in
                      let (a, ea) = get_elem?-lt answer j (omega (arith, full)) in
                      let in_range : row < length v = omega (
                        arith,
                        w.size,
                        All-get_elem? (λ r. r < length s.forces) ids (s.line + j) row inside at,
                      ) in
                      rw (at, ea, lt→ltb row (length v) in_range)
                        (_, refl, write-IsConfined ids s.forces v (s.line + j) row a at w))
                    (record { size = refl; elsewhere = λ row away. refl }))
                  λ forces w. (
                    _,
                    refl,
                    record {
                      count = length-push s.sent c' ∙ omega arith;
                      line = omega arith;
                      forces = w;
                    },
                  )

    pub send_all-IsSending :
        (cs : List (BaseConstraint F)) (s : SendCursor F)
        → s.line + total_lines cs ≤ length ids
        → All (λ row. row < length s.forces) ids
        → Returns (IsSending cs s) (send_all store ids delta cs s)
    unfolding send_all total_lines
    send_all-IsSending [] s room inside = (
      s,
      refl,
      record {
        count = omega arith;
        line = omega arith;
        forces = record { size = refl; elsewhere = λ row away. refl };
      },
    )
    send_all-IsSending (c ∷ cs) s room inside =
        Returns-bind (IsSending (c ∷ []) s) (IsSending (c ∷ cs) s) _ _
          (send_step-IsSending c s (omega arith) inside)
          λ t w.
            let line : t.line ≡ s.line + c.nb_lines = omega (arith, w.line) in
            Returns-mono (IsSending cs t) _ _
              (λ t' w'. record {
                count = omega (arith, w.count, w'.count);
                line = omega (arith, line, w'.line);
                forces = record {
                  size = w'.forces.size ∙ w.forces.size;
                  elsewhere =
                      λ row away. w'.forces.elsewhere row away ∙ w.forces.elsewhere row away;
                };
              })
              (send_all-IsSending cs t (omega (arith, line))
                (subst (λ n. All (λ row. row < n) ids) (sym w.forces.size) inside))

  -- Effectors and sensors change no force.
  abbrev pub IsReporting : List (BaseConstraint F) → SendCursor F → SendCursor F → Type 0
  IsReporting cs s s' =
      (length s'.sent ≡ length s.sent + length cs)
      × (s'.line ≡ s.line + total_lines cs)
      × (s'.forces ≡ s.forces)

  pub report_all-IsReporting :
      (store : BaseConstraint F → List F → BaseConstraint F) (ids : List ℕ) (delta : List F)
      (cs : List (BaseConstraint F)) (s : SendCursor F)
      → All (λ row. row < length delta) ids
      → s.line + total_lines cs ≤ length ids
      → Returns (IsReporting cs s) (report_all store ids delta cs s)
  unfolding report_all report_step total_lines
  report_all-IsReporting store ids delta [] s known room =
      (s, refl, (omega arith, omega arith, refl))
  report_all-IsReporting store ids delta (c ∷ cs) s known room =
      let (local_delta, made, len) =
        gather-Returns ids delta s.line c.nb_lines (omega arith) known in
      let told : BaseConstraint F = store c local_delta in
      rw made (
        Returns-mono
          (IsReporting cs (record s { sent = s.sent ++ (told ∷ []); line = s.line + c.nb_lines })) _
          _ (λ s' w. (omega (arith, w.0, length-push s.sent told), omega (arith, w.1), w.2))
          (report_all-IsReporting store ids delta cs
            (record s { sent = s.sent ++ (told ∷ []); line = s.line + c.nb_lines }) known
            (omega arith)))
