-- ===== src/Impl/Cycling/Repetition.antt =====
-- QPInverseProblemImpl.cpp: that the sequences of pivots forbid what isCycling is to forbid.
use soft_robots_inverse.Prelude.{
  ℕ, Bool-cases, List, [], false, inl, inr, refl, true, ◌++◌, ◌==◌, ◌∷◌, ◌≡◌, ap, arith, ◌<◌, ◌≢◌,
  length,
}
use soft_robots_inverse.Impl.Cycling.{ends_with, is_cycling, is_in, record_pivot, same_sequence}
use soft_robots_inverse.Impl.State.{Solver}

==_refl : (n : ℕ) → (n == n) ≡ true
==_refl n = ground arith

is_in-append : (xs : List ℕ) (p : ℕ) → is_in (xs ++ (p ∷ [])) p ≡ true
unfolding is_in
is_in-append [] p = rw (==_refl p) refl
is_in-append (x ∷ xs) p = elim (Bool-cases (x == p)) [
  | inl same ↦ rw same refl
  | inr apart ↦ rw (apart, is_in-append xs p) refl
]

ends_with-append : (xs : List ℕ) (p : ℕ) → ends_with (xs ++ (p ∷ [])) p ≡ true
unfolding ends_with
ends_with-append [] p = ==_refl p
ends_with-append (x ∷ []) p = ==_refl p
ends_with-append (x ∷ y ∷ ys) p = ends_with-append (y ∷ ys) p

same_sequence_refl : (xs : List ℕ) → same_sequence xs xs ≡ true
unfolding same_sequence
same_sequence_refl [] = refl
same_sequence_refl (x ∷ xs) = rw (==_refl x, same_sequence_refl xs) refl

differ : (xs ys : List ℕ) → same_sequence xs ys ≡ false → xs ≢ ys
differ xs ys apart e =
    let same : same_sequence xs xs ≡ same_sequence xs ys = ap (same_sequence xs) e in
    let whole = same_sequence_refl xs in cc

-- A pivot that is in the sequence, and not the last of it, has another behind it.
not_single : (xs : List ℕ) (p : ℕ) → is_in xs p ≡ true → ends_with xs p ≡ false → length xs ≢ 1
unfolding is_in ends_with
not_single [] p there last e = cc
not_single (x ∷ []) p there last e = ground (arith, there, last)
not_single (x ∷ y ∷ ys) p there last e = omega arith

is_in-length : (xs : List ℕ) (p : ℕ) → is_in xs p ≡ true → 0 < length xs
unfolding is_in
is_in-length [] p there = absurd (cc)
is_in-length (x ∷ xs) p there = omega arith

-- No two entries of the list are the same.
abbrev pub HasNoRepetition : List ℕ → Type 0
HasNoRepetition [] = Unit
HasNoRepetition (x ∷ xs) = (is_in xs x ≡ false) × HasNoRepetition xs

is_in-push :
    (xs : List ℕ) (x p : ℕ)
    → is_in xs x ≡ false
    → (x == p) ≡ false
    → is_in (xs ++ (p ∷ [])) x ≡ false
unfolding is_in
is_in-push [] x p fresh apart = let turned : (p == x) ≡ false = ground arith in rw turned refl
is_in-push (y ∷ ys) x p fresh apart = elim (Bool-cases (y == x)) [
  | inl same ↦ ground (arith, same, fresh)
  | inr other ↦
      let rest : is_in ys x ≡ false = ground (arith, other, fresh) in
      rw (other, is_in-push ys x p rest apart) refl
]

HasNoRepetition-push :
    (xs : List ℕ) (p : ℕ)
    → is_in xs p ≡ false
    → HasNoRepetition xs
    → HasNoRepetition (xs ++ (p ∷ []))
unfolding is_in
HasNoRepetition-push [] p fresh v = (refl, tt)
HasNoRepetition-push (x ∷ xs) p fresh (new, v) = elim (Bool-cases (x == p)) [
  | inl same ↦ ground (arith, same, fresh)
  | inr apart ↦
      let rest : is_in xs p ≡ false = ground (arith, apart, fresh) in
      (is_in-push xs x p new apart, HasNoRepetition-push xs p rest v)
]

module _ {F : Type 0} where
  -- A pivot that has just been recorded counts as cycling: it is never taken twice in a row.
  pub is_cycling-record_pivot : (s : Solver F) (p : ℕ) → is_cycling (record_pivot p s) p ≡ true
  unfolding is_cycling record_pivot
  is_cycling-record_pivot s p = elim (Bool-cases (is_in s.current_sequence p)) [
    | inl again ↦ rw (again, is_in-append [] p, ends_with-append [] p) refl
    | inr new ↦
        rw (new, is_in-append s.current_sequence p, ends_with-append s.current_sequence p) refl
  ]

  -- The current sequence never holds a pivot twice, if it did not before.
  pub record_pivot-HasNoRepetition :
      (s : Solver F) (p : ℕ)
      → HasNoRepetition s.current_sequence
      → HasNoRepetition (record_pivot p s).current_sequence
  unfolding record_pivot is_in
  record_pivot-HasNoRepetition s p v = elim (Bool-cases (is_in s.current_sequence p)) [
    | inl again ↦ rw again (refl, tt)
    | inr new ↦ rw new (HasNoRepetition-push s.current_sequence p new v)
  ]

  -- The sequence that is being made differs from the last two, which differ from each other; and a
  -- sequence that was closed is no single pivot. Sequences that are still empty are left aside.
  pub record IsVaried (s : Solver F) : Type 0 where
    pub current_new : 0 < length s.current_sequence → s.current_sequence ≢ s.sequence
    pub current_newer : 0 < length s.current_sequence → s.current_sequence ≢ s.previous_sequence
    pub closed_new : 0 < length s.sequence → s.sequence ≢ s.previous_sequence
    pub long : length s.sequence ≢ 1
    pub long_before : length s.previous_sequence ≢ 1

  -- A pivot that isCycling does not forbid keeps the sequences of pivots varied: the current
  -- sequence differs from the two before it, these differ from each other, empty ones left aside,
  -- and none of the two is a single pivot.
  pub record_pivot-IsVaried :
      (s : Solver F) (p : ℕ) → is_cycling s p ≡ false → IsVaried s → IsVaried (record_pivot p s)
  unfolding record_pivot is_cycling
  record_pivot-IsVaried s p free v = elim (Bool-cases (is_in s.current_sequence p)) [
    | inl again ↦
        let other : ends_with s.current_sequence p ≡ false = ground (arith, again, free) in
        let many : length s.current_sequence ≢ 1 = not_single s.current_sequence p again other in
        let some_pivot : 0 < length s.current_sequence = is_in-length s.current_sequence p again in
        rw again (record {
          current_new = λ h e. let l = ap length e in omega arith;
          current_newer = λ h e. let l = ap length e in let n = v.long in omega arith;
          closed_new = λ h. v.current_new some_pivot;
          long = many;
          long_before = v.long;
        })
    | inr new ↦
        let apart : same_sequence (s.current_sequence ++ (p ∷ [])) s.sequence ≡ false =
          ground (arith, free) in
        let apart' : same_sequence (s.current_sequence ++ (p ∷ [])) s.previous_sequence ≡ false =
          ground (arith, free) in
        rw new (record {
          current_new = λ h. differ _ _ apart;
          current_newer = λ h. differ _ _ apart';
          closed_new = v.closed_new;
          long = v.long;
          long_before = v.long_before;
        })
  ]
