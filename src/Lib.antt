-- ===== src/Lib.antt =====
-- The resolution core of SoftRobots.Inverse: how the inverse problem of a deformable robot with contacts
-- becomes a quadratic program (QP), and how its contacts pivot between their states. The code stands in
-- src/SoftRobots.Inverse/component/solver/modules/, that of the actuators in
-- src/SoftRobots.Inverse/component/behavior/ and constraint/.
--
-- In each time step a visitor gives every line of every constraint a row of the compliance matrix W
-- (QPMechanicalSetConstraint.cpp, here Collect). QPInverseProblemImpl.cpp builds the cost from the rows of
-- the effectors (Impl/Matrices); ConstraintHandler.cpp builds the inequalities A, bl, bu, the equalities
-- Aeq, beq and the bounds l, u of the variables from actuators, equalities and contacts
-- (ConstraintHandler). The QP goes to qpOASES in flat arrays (Impl/Oases). From its result and its dual
-- variables checkAndUpdatePivot looks for the contact to move to another state (Impl/Pivot, with
-- ContactHandler.cpp in Contact), while isCycling keeps the pivots from going round in circles
-- (Impl/Cycling). NLCPSolver.cpp solves for the contacts alone, with friction (Nlcp), which gives the
-- states to start from. The solution goes back to the components (Impl/Results).
--
-- Files:
--   Double: the arithmetic on double, a parameter: an instance that gives the operations and tests. No law
--     of rounding is assumed.
--   Problem: QPSystem, QPConstraintLists, QPConstraintParams. A component of the other plugin is the
--     record of what the solver asks it. dFree and W are functions, as the source holds raw pointers.
--   Contact: the handlers as four states, where the source points to four handler objects.
--   ConstraintHandler/Rows, Sides, Limits, Inequality, Equality, Bounds, States, Release: the functions of
--     ConstraintHandler.cpp. Ready says what they rely on, Stages where a loop over the lines stands.
--   Impl/Matrices: buildQPMatrices, computeEnergyWeight. Impl/Oases: updateOASESMatrices,
--     solveInverseProblem and LCPQPSolver.cpp. Impl/Pivot: getDelta, checkAndUpdatePivot, in its children
--     the candidates (Marks, Candidates), the choice of one (Choice), its contact's move (Moved) and the call
--     as a whole (Step, Greatest). Impl/Cycling: isIn, isCycling. Impl/State: the members of QPInverseProblem and QPInverseProblemImpl.
--   Impl/Contacts: init, solveContacts, updateLambda, isFeasible. Impl/Rounds: the loop of
--     solveWithContact over the pivots, in its children what a round leaves as it is (Frame, Resumption),
--     the matrices it builds (Parts, Build), the attempts to solve them (Attempts), the answer (Answer) and
--     the loop as a whole (Pivots). Impl/Solve: solveWithContact and solve. Impl/Lines: a walk over the lines
--     of the components. Impl/Results: storeResults and sendResults of QPInverseProblem.cpp.
--   Nlcp: NLCPSolver::solve and GSState. Collect: fwdConstraintSet and clearProblem.
--   Component: Actuator.inl, CableActuator.inl, JointActuator.inl, SurfacePressureActuator.inl,
--     ForcePointActuator.inl, Effector.inl.
--     Window is what the limits of the actuators share. A Data that may be unset is an option.
--   Tests: the theorems at concrete inputs, over small signed numbers.
--
-- State is passed explicitly. A read or write of a vector out of its bounds, and a null pointer, are
-- `none`, as is a loop whose fuel runs out; `Returns P m` says that m is none of these and its result
-- satisfies P. The fuel of the loops over the lines is dim + actuators + equalities + 1, that of the loops
-- over the contacts their number of rows + 1; the theorems on these functions show that it is enough where
-- the lists have the sizes that the collection gives them. nbIterationMax bounds the loop of Nlcp, and
-- the loop over the pivots has m_maxNbPivot + 2 rounds, one more than its test allows.
-- Integers are natural numbers: the source only counts and indexes with them. Where it subtracts an
-- offset, the subtraction stops at 0.
--
-- Parameters: qpOASES (extlibs/), a function from its input to its report; the absolute error of the
-- framework, in Nlcp; how many lines a component adds, in Collect; what a component stores, in
-- Impl/Results; the norm and size of a direction, in Component/Point.
-- Not modelled: the framework's solver component, the other actuators, effectors, equalities and sensors,
-- the models of cables and cavities of the other plugin, timers, messages, and all display of matrices.
pub mod Prelude
pub mod Double
pub mod Contact
pub mod Problem
pub mod ConstraintHandler
pub mod Impl
pub mod Nlcp
pub mod Collect
pub mod Component
pub mod Tests
