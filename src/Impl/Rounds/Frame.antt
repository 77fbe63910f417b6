-- ===== src/Impl/Rounds/Frame.antt =====
-- What the rounds of solveWithContact leave as it is, and what they rely on, which is kept with it.
use soft_robots_inverse.Prelude.{
  ℕ, All, List, false, true, ◌/◌, ◌==◌, ◌∙◌, ◌≡◌, ◌≤◌, ◌⊎◌, ap, length, arith, subst, sym, inl, inr,
}
use soft_robots_inverse.Problem.{Problem, nb_contact_rows, nb_equality_rows}
use soft_robots_inverse.Double.{Double, ◌≼◌, nought}
use soft_robots_inverse.Contact.{friction_states}
use soft_robots_inverse.Contact.Pivot.{IsFrictionState}
use soft_robots_inverse.ConstraintHandler.Ready.{IsFrictional, IsReady}
use soft_robots_inverse.ConstraintHandler.Rows.{check_clists_consistency}

module _ {F : Type 0} where
  -- `e` with what a round computes anew taken from `e'`.
  abbrev pub revise : Problem F → Problem F → Problem F
  revise e e' = record e {
    params = record (e.params) { constraints_id = e'.params.constraints_id };
    system = record (e.system) {
      a = e'.system.a;
      aeq = e'.system.aeq;
      bl = e'.system.bl;
      bu = e'.system.bu;
      beq = e'.system.beq;
      l = e'.system.l;
      u = e'.system.u;
      has_both_side_inequality_constraint = e'.system.has_both_side_inequality_constraint;
      previous_result = e'.system.previous_result;
    };
  }

  abbrev pub IsRevision : Problem F → Problem F → Type 0
  IsRevision e e' = e' ≡ revise e e'

  -- Revisions of a revision.
  pub IsRevision-trans : (e m e' : Problem F) → IsRevision e m → IsRevision m e' → IsRevision e e'
  IsRevision-trans e m e' first second =
      second ∙ ap {B = Problem F} (λ (q : Problem F). revise q e') first

  pub IsRevision-of : (e x e' : Problem F) → e' ≡ x → x ≡ revise e x → IsRevision e e'
  IsRevision-of e x e' same fixed =
      same ∙ fixed ∙ ap {B = Problem F} (λ (q : Problem F). revise e q) (sym same)

module _ {F : Type 0} ⦃R : Double F⦄ where
  -- What a round relies on, with friction and no equality constraints.
  pub record IsRunnable (e : Problem F) (stride : ℕ) (result : List F) : Type 0 where
    pub ready : IsReady e stride result
    pub kind : IsFrictional e.lists e.params
    pub above : (e.params.mu ≼ nought) ≡ false
    pub states : All IsFrictionState e.params.contact_states
    pub allowed : e.params.allowed_contact_states ≡ friction_states
    pub no_equality : nb_equality_rows e ≡ 0
    pub result_size : length result ≡ e.system.dim
    pub q_rows : length e.system.q ≡ e.system.dim
    pub q_columns : All (λ row. e.system.dim ≤ length row) e.system.q
    pub c_size : length e.system.c ≡ e.system.dim

  abbrev pub IsFormer : Problem F → Type 0
  IsFormer e =
      (length e.system.previous_result ≡ 0) ⊎ (length e.system.previous_result ≡ e.system.dim)

  -- The result may be replaced by one of the same length.
  pub IsRunnable-revise :
      (e e' : Problem F) (stride : ℕ) (result result' : List F)
      → IsRunnable e stride result
      → IsRevision e e'
      → IsFormer e'
      → length result' ≡ e.system.dim
      → IsRunnable e' stride result'
  IsRunnable-revise e e' stride result result' v same former size =
      subst (λ q. IsRunnable q stride result') (sym same)
        (record {
          ready = record {
            sized = v.ready.sized;
            actuator_lines = v.ready.actuator_lines;
            equality_lines = v.ready.equality_lines;
            contact_lines = inr (inl kind');
            uniform = v.ready.uniform;
            some_line = v.ready.some_line;
            result_size = λ _. size;
            previous_size = λ _. former';
          };
          kind = kind';
          above = v.above;
          states = v.states;
          allowed = v.allowed;
          no_equality = v.no_equality;
          result_size = size;
          q_rows = v.q_rows;
          q_columns = v.q_columns;
          c_size = v.c_size;
        })
    where
      kind' : IsFrictional e.lists (revise e e').params
      kind' = record {
        rubs = v.kind.rubs;
        three_lines = v.kind.three_lines;
        first_dir = v.kind.first_dir;
        second_dir = v.kind.second_dir;
        rows = v.kind.rows;
      }

      former' :
          (length e'.system.previous_result ≡ 0) ⊎ (length e'.system.previous_result ≡ e.system.dim)
      former' =
          let dims : e'.system.dim ≡ e.system.dim = ap (λ q. q.system.dim) same in
          omega (arith, former)

  -- The consistency check passes.
  pub runnable_consistent :
      (e : Problem F) (stride : ℕ) (result : List F)
      → IsRunnable e stride result
      → check_clists_consistency e ≡ false
  unfolding check_clists_consistency
  runnable_consistent e stride result v =
      let third : nb_contact_rows e / e.params.contact_nb_lines ≡ length e.params.contact_states =
        subst (λ d. nb_contact_rows e / d ≡ length e.params.contact_states) (sym v.kind.three_lines)
          (omega (arith, v.kind.rows)) in
      let match : (length e.params.contact_states == nb_contact_rows e / e.params.contact_nb_lines)
          ≡ true =
        ground (arith, third) in
      ground (arith, v.above, match)
