-- ===== src/Impl/Oases.antt =====
-- QPInverseProblemImpl.cpp: updateOASESMatrices and solveInverseProblem, and LCPQPSolver.cpp: the arrays
-- that qpOASES is given. qpOASES itself is a third-party library: a function from its input to what it
-- reports.
pub mod Arrays
pub mod Layout
use soft_robots_inverse.Prelude.{
  Bool, List, Option, [], false, get_elem?, if◌then◌else◌, some, true, ℕ, ◌++◌, ◌+◌, ◌>>=◌, ◌||◌,
  ◌∷◌, length, ltb, not, tabulate, replicate,
}
use soft_robots_inverse.Problem.{Problem, QpSystem}
use soft_robots_inverse.Double.{Double, negate, huge, nought}
use soft_robots_inverse.ConstraintHandler.Release.{check_and_update_actuator_constraints}
use soft_robots_inverse.ConstraintHandler.Inequality.{build_inequality_constraint_matrices}
use soft_robots_inverse.ConstraintHandler.Bounds.{get_constraint_on_lambda}

-- QProblem::init(H, g, A, lb, ub, lbA, ubA, nWSR) for nv variables; the matrices are flat, row by row.
-- `indefinite` is setHessianType(HST_INDEF).
pub record OasesInput (F : Type 0) : Type 0 where
  pub nv : ℕ
  pub h : List F
  pub g : List F
  pub a : List F
  pub lb : List F
  pub ub : List F
  pub lb_a : List F
  pub ub_a : List F
  pub indefinite : Bool

-- isInfeasible, isSolved, getObjVal, and what getPrimalSolution and getDualSolution write to the arrays of
-- the caller.
pub record OasesOutput (F : Type 0) : Type 0 where
  pub infeasible : Bool
  pub solved : Bool
  pub primal : ℕ → F
  pub objective : F
  pub dual : ℕ → F

-- The first `n` entries of a vector.
unfoldable pub entries {ℓ} : {A : Type ℓ} → ℕ → List A → Option (List A)
entries n xs = tabulate n 0 (get_elem? xs)

-- The first `n` entries of each row, one row behind the other.
unfoldable pub flat {ℓ} : {A : Type ℓ} → ℕ → List (List A) → Option (List A)
unfolding entries
flat n [] = some []
flat n (row ∷ rows) = do xs ← entries n row; rest ← flat n rows; some (xs ++ rest)

module _ {F : Type 0} ⦃R : Double F⦄ where
  -- updateOASESMatrices: the rows of A, then those of Aeq, whose bounds are equal. Where no constraint
  -- has two sides there is no lower bound on the rows of A.
  unfoldable pub update_oases_matrices : Bool → QpSystem F → Option (OasesInput F)
  update_oases_matrices indefinite s = do
    rows ← entries s.dim s.q
    h ← flat s.dim rows
    g ← entries s.dim s.c
    a ← flat s.dim (s.a ++ s.aeq)
    bu ← entries (length s.a) s.bu
    bl ←
        (if s.has_both_side_inequality_constraint
          then entries (length s.a) s.bl
          else some (replicate (length s.a) (negate huge)))
    beq ← entries (length s.aeq) s.beq
    lb ← entries s.dim s.l
    ub ← entries s.dim s.u
    some (record {
      nv = s.dim;
      h = h;
      g = g;
      a = a;
      lb = lb;
      ub = ub;
      lb_a = bl ++ beq;
      ub_a = bu ++ beq;
      indefinite = indefinite;
    })

  -- LCPQPSolver::solve: minimise 1/2 x M x + q x under x >= 0 and M x >= -q.
  pub lcp_input : ℕ → (ℕ → F) → (ℕ → ℕ → F) → Option (OasesInput F)
  lcp_input dim q m = do
    rows ← tabulate dim 0 (λ i. tabulate dim 0 (λ j. some (m i j)))
    flat_m ← flat dim rows
    c ← tabulate dim 0 (λ i. some (q i))
    low ← tabulate dim 0 (λ i. some (negate (q i)))
    some (record {
      nv = dim;
      h = flat_m;
      g = c;
      a = flat_m;
      lb = replicate dim nought;
      ub = replicate dim huge;
      lb_a = low;
      ub_a = replicate dim huge;
      indefinite = false;
    })

  module _ (oases : OasesInput F → OasesOutput F) where
    pub lcp_solve : ℕ → (ℕ → F) → (ℕ → ℕ → F) → Option (List F)
    lcp_solve dim q m = do
      input ← lcp_input dim q m
      tabulate dim 0 (λ i. some ((oases input).primal i))

    -- The second attempt, after the bounds of actuators were released.
    unfoldable pub solve_released :
        Problem F → List F → OasesOutput F → Option (Problem F × OasesOutput F)
    solve_released e result out =
        if ltb 0 (length e.lists.contacts)
        then (do
          e' ← check_and_update_actuator_constraints e result
          input ← update_oases_matrices false e'.system
          some (e', oases input))
        else some (e, out)

    -- The third attempt, with all bounds restored and an indefinite Hessian.
    unfoldable pub solve_indefinite :
        Problem F → List F → OasesOutput F → Option (Problem F × OasesOutput F)
    solve_indefinite e result out =
        if out.infeasible || not out.solved
        then (do
          e1 ← build_inequality_constraint_matrices e result
          e2 ← get_constraint_on_lambda e1 result
          input ← update_oases_matrices true e2.system
          some (e2, oases input))
        else some (e, out)

    -- solveInverseProblem: the problem after the call, and what the last attempt reports.
    unfoldable pub attempt : Problem F → List F → Option (Problem F × OasesOutput F)
    attempt e result = do
      input ← update_oases_matrices false e.system
      let out = oases input
      if out.infeasible
          then (do (e1, out1) ← solve_released e result out; solve_indefinite e1 result out1)
          else some (e, out)

    -- The problem, the objective, the result and the dual variables of the rows of [A; Aeq].
    unfoldable pub solve_inverse_problem :
        Problem F → List F → Option (Problem F × F × List F × List F)
    solve_inverse_problem e result = do
      (e', out) ←
          attempt (record e { system = record (e.system) { previous_result = result } }) result
      lambda ← tabulate e.system.dim 0 (λ i. some (out.primal i))
      dual ←
          tabulate (length e.system.a + length e.system.aeq) e.system.dim (λ i. some (out.dual i))
      some (e', out.objective, lambda, dual)
