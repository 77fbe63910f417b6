-- ===== src/Impl/Pivot/Reads.antt =====
-- checkAndUpdatePivot: what it reads of the problem and of the result is there.
use soft_robots_inverse.Prelude.{
  ℕ, List, Option, Returns, Returns-bind, for_range-Returns, get_elem?-lt, refl, ◌+◌, ◌<◌, ◌≡◌,
  length, arith,
}
use soft_robots_inverse.Problem.{Problem, nb_actuator_rows, nb_contact_rows}
use soft_robots_inverse.Double.{Double}
use soft_robots_inverse.Impl.Pivot.{contact_delta, contact_deltas, contact_forces, get_delta}
use soft_robots_inverse.ConstraintHandler.Rows.Entries.{IsSized}
use soft_robots_inverse.Impl.Matrices.Totality.{ac_ids-Returns}

module _ {F : Type 0} ⦃R : Double F⦄ (e : Problem F) (result : List F) (sized : IsSized e)
    (result_size : length result ≡ e.system.dim) where
  abbrev pub IsRead {ℓ} : {A : Type ℓ} → Option A → Type ℓ
  IsRead m = Returns (λ _. Unit {0}) m

  pub get_delta-IsRead : (index : ℕ) → IsRead (get_delta e result index)
  unfolding get_delta
  get_delta-IsRead index =
      Returns-bind (λ ids. length ids ≡ e.system.dim) (λ _. Unit {0}) _ _ (ac_ids-Returns e sized)
        λ ids len.
          for_range-Returns (λ _ _. Unit {0}) _ e.system.dim 0 e.system.dim _ (omega arith)
            (λ k t lo hi _.
              let (c, ec) = get_elem?-lt ids k (omega arith) in
              let (x, ex) = get_elem?-lt result k (omega arith) in rw (ec, ex) (_, refl, tt))
            tt

  pub contact_delta-IsRead : (k : ℕ) → k < nb_contact_rows e → IsRead (contact_delta e result k)
  unfolding contact_delta
  contact_delta-IsRead k h =
      let (r, er) = get_elem?-lt e.lists.contact_row_ids k h in rw er (get_delta-IsRead r)

  pub contact_deltas-IsRead :
      (i m n : ℕ)
      → i + m < nb_contact_rows e
      → i + n < nb_contact_rows e
      → IsRead (contact_deltas e result i m n)
  unfolding contact_deltas
  contact_deltas-IsRead i m n hm hn =
      Returns-bind (λ _. Unit {0}) (λ _. Unit {0}) _ _ (contact_delta-IsRead i (omega arith))
        λ x _.
          Returns-bind (λ _. Unit {0}) (λ _. Unit {0}) _ _ (contact_delta-IsRead (i + m) hm)
            λ y _.
              Returns-bind (λ _. Unit {0}) (λ _. Unit {0}) _ _ (contact_delta-IsRead (i + n) hn)
                λ z _. (_, refl, tt)

  pub contact_forces-IsRead :
      (i m n : ℕ)
      → i + m < nb_contact_rows e
      → i + n < nb_contact_rows e
      → IsRead (contact_forces e result i m n)
  unfolding contact_forces
  contact_forces-IsRead i m n hm hn =
      let (x, ex) = get_elem?-lt result (nb_actuator_rows e + i) (omega arith) in
      let (y, ey) = get_elem?-lt result (nb_actuator_rows e + i + m) (omega arith) in
      let (z, ez) = get_elem?-lt result (nb_actuator_rows e + i + n) (omega arith) in
      rw (ex, ey, ez) (_, refl, tt)
