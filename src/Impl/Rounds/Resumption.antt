-- ===== src/Impl/Rounds/Resumption.antt =====
-- What the rounds of solveWithContact change altogether: what one round computes anew, the states of the
-- contacts, and lambda.
use soft_robots_inverse.Prelude.{All, List, inl, inr, refl, ℕ, ◌*◌, ◌∙◌, ◌≡◌, ap, length, sym}
use soft_robots_inverse.Problem.{Problem}
use soft_robots_inverse.Double.{Double}
use soft_robots_inverse.Contact.{ContactState}
use soft_robots_inverse.Contact.Pivot.{IsFrictionState}
use soft_robots_inverse.Impl.Oases.{OasesInput}
use soft_robots_inverse.Impl.Contacts.{with_lambda}
use soft_robots_inverse.Impl.Oases.Layout.{IsLaidOut}
use soft_robots_inverse.Impl.Rounds.Frame.{IsFormer, IsRunnable, IsRunnable-revise, revise}
use soft_robots_inverse.ConstraintHandler.Ready.{IsFrictional}

module _ {F : Type 0} where
  abbrev pub resume : Problem F → Problem F → Problem F
  resume e e' = record (revise e e') {
    params = record ((revise e e').params) { contact_states = e'.params.contact_states };
    system = record ((revise e e').system) { lambda = e'.system.lambda };
  }

  abbrev pub IsResumption : Problem F → Problem F → Type 0
  IsResumption e e' = e' ≡ resume e e'

  pub IsResumption-trans :
      (e m e' : Problem F) → IsResumption e m → IsResumption m e' → IsResumption e e'
  IsResumption-trans e m e' first second =
      second ∙ ap {B = Problem F} (λ (q : Problem F). resume q e') first

  pub IsResumption-of : (e x e' : Problem F) → e' ≡ x → x ≡ resume e x → IsResumption e e'
  IsResumption-of e x e' same fixed =
      same ∙ fixed ∙ ap {B = Problem F} (λ (q : Problem F). resume e q) (sym same)

  abbrev pub with_states : List ContactState → Problem F → Problem F
  with_states states e = record e { params = record (e.params) { contact_states = states } }

  pub IsLaidOut-with_lambda :
      ⦃R : Double F⦄
      → (e : Problem F) (lambda : List F) (input : OasesInput F) → IsLaidOut e.system input
      → IsLaidOut (with_lambda lambda e).system input
  IsLaidOut-with_lambda e lambda input v = record {
    size = v.size;
    quadratic = v.quadratic;
    linear = v.linear;
    inequalities = v.inequalities;
    equalities = v.equalities;
    matrix_size = v.matrix_size;
    uppers = v.uppers;
    lowers = v.lowers;
    box = v.box;
  }

module _ {F : Type 0} ⦃R : Double F⦄ where
  module _ (e : Problem F) (stride : ℕ) (result : List F) (v : IsRunnable e stride result) where
    pub IsRunnable-with_lambda : (lambda : List F) → IsRunnable (with_lambda lambda e) stride result
    IsRunnable-with_lambda lambda = record {
      ready = record {
        sized = v.ready.sized;
        actuator_lines = v.ready.actuator_lines;
        equality_lines = v.ready.equality_lines;
        contact_lines = v.ready.contact_lines;
        uniform = v.ready.uniform;
        some_line = v.ready.some_line;
        result_size = v.ready.result_size;
        previous_size = v.ready.previous_size;
      };
      kind = v.kind;
      above = v.above;
      states = v.states;
      allowed = v.allowed;
      no_equality = v.no_equality;
      result_size = v.result_size;
      q_rows = v.q_rows;
      q_columns = v.q_columns;
      c_size = v.c_size;
    }

    pub IsRunnable-with_states :
        (states : List ContactState)
        → All IsFrictionState states
        → length states ≡ length e.params.contact_states
        → IsRunnable (with_states states e) stride result
    IsRunnable-with_states states friction len = record {
      ready = record {
        sized = v.ready.sized;
        actuator_lines = v.ready.actuator_lines;
        equality_lines = v.ready.equality_lines;
        contact_lines = inr (inl kind');
        uniform = v.ready.uniform;
        some_line = v.ready.some_line;
        result_size = v.ready.result_size;
        previous_size = v.ready.previous_size;
      };
      kind = kind';
      above = v.above;
      states = friction;
      allowed = v.allowed;
      no_equality = v.no_equality;
      result_size = v.result_size;
      q_rows = v.q_rows;
      q_columns = v.q_columns;
      c_size = v.c_size;
    }
      where
        kind' : IsFrictional e.lists (with_states states e).params
        kind' = record {
          rubs = v.kind.rubs;
          three_lines = v.kind.three_lines;
          first_dir = v.kind.first_dir;
          second_dir = v.kind.second_dir;
          rows = v.kind.rows ∙ ap (λ n. n * 3) (sym len);
        }

  -- The numbers of constraintsId are set aside, or a new result is taken up.
  pub IsRunnable-renew :
      (e : Problem F) (stride : ℕ) (result result' : List F)
      → IsRunnable e stride result
      → IsFormer e
      → length result' ≡ e.system.dim
      → IsRunnable e stride result'
  IsRunnable-renew e stride result result' v former size =
      IsRunnable-revise e e stride result result' v refl former size
