-- ===== src/Impl/Contacts/Storage.antt =====
-- updateLambda: the result is stored as it is.
use soft_robots_inverse.Prelude.{List, refl, some, ◌≡◌, length}
use soft_robots_inverse.Problem.{Problem}
use soft_robots_inverse.Double.{Double}
use soft_robots_inverse.Impl.Contacts.{update_lambda, with_lambda}
use soft_robots_inverse.Impl.Oases.Arrays.{entries-all}

module _ {F : Type 0} ⦃R : Double F⦄ where
  pub update_lambda_lem :
      (lambda : List F) (e : Problem F)
      → length lambda ≡ e.system.dim
      → update_lambda lambda e ≡ some (with_lambda lambda e)
  unfolding update_lambda
  update_lambda_lem lambda e size = rw (entries-all e.system.dim lambda size) refl
