-- ===== src/Tests/Delivery.antt =====
-- The results at a concrete input: the rows of the sample, and components that keep their forces.
use soft_robots_inverse.Prelude.{List, Returns, refl, replicate, arith}
use soft_robots_inverse.Problem.{BaseConstraint}
use soft_robots_inverse.Tests.Sample.{sample_result, sample, sample_lists}
use soft_robots_inverse.Tests.Numbers.{int_double, ℤ, pos}
use soft_robots_inverse.Impl.Results.{place_forces, store_results}
use soft_robots_inverse.Impl.Results.Stored.{IsCountedOut, IsStored, store_results-IsStored}
use soft_robots_inverse.Impl.Results.Placed.{written_rows}
use soft_robots_inverse.Impl.Results.Rows.{AllApart, AllApart-IsDistinct, IsDistinct}
use soft_robots_inverse.ConstraintHandler.Ready.{total_lines}
use soft_robots_inverse.Impl.Results.Gathered.{AreGathered, gather-place_forces}

abbrev keep : BaseConstraint ℤ → List ℤ → List ℤ → BaseConstraint ℤ × List ℤ
keep c lambda delta = (c, lambda)

abbrev told : BaseConstraint ℤ → List ℤ → BaseConstraint ℤ
told c delta = c

sample_rows : IsDistinct (written_rows sample_lists)
unfolding AllApart
sample_rows = AllApart-IsDistinct (written_rows sample_lists) (omega arith)

sample_counts : IsCountedOut sample_lists
unfolding total_lines
sample_counts = record { actuators = refl; equality = refl; effectors = refl; sensors = refl }

abbrev old_forces : List ℤ
old_forces = replicate 7 (pos 8)

stored_example :
    Returns
      (IsStored keep told told (λ c lambda delta h. h) sample sample_result old_forces)
      (store_results keep told told sample sample_result old_forces)
stored_example =
    store_results-IsStored keep told told (λ c lambda delta h. h) sample sample_result old_forces
      sample_counts sample_rows
      (omega arith, (omega arith, (omega arith, (omega arith, (omega arith, (omega arith, tt))))))
      (omega arith) (omega arith)

gathered_example :
    Returns
      (AreGathered sample_lists sample_result old_forces sample_rows
        (omega arith, (omega arith, (omega arith, (omega arith, (omega arith, (omega arith, tt))))))
        (omega arith))
      (place_forces sample_lists sample_result old_forces)
gathered_example =
    gather-place_forces sample_lists sample_result old_forces sample_rows
      (omega arith, (omega arith, (omega arith, (omega arith, (omega arith, (omega arith, tt))))))
      (omega arith)
