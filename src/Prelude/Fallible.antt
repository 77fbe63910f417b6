-- ===== src/Prelude/Fallible.antt =====
-- Code that may read or write a vector out of its bounds, or dereference a null pointer: `none` is
-- such a fault, or a loop whose fuel ran out. Counted loops, and rules to prove that none occurs.
use Prim.Native.Nat.{ℕ, zero, suc, ◌+◌, ◌<◌, ◌≤◌}
use mathlib.Core.Path.{◌≡◌, refl, sym, ap, subst, ◌∙◌}
use mathlib.Core.List.{List, [], ◌∷◌}
use mathlib.Core.Option.{Option, none, some, some-injective}
use native.Mathlib.Omega.{arith}
use mathlib.Core.Bool.{Bool, true, false}
use mathlib.Core.Logic.{inl, inr}
use soft_robots_inverse.Prelude.Tests.{ltb, if◌then◌else◌, lt→ltb, Bool-cases}
use soft_robots_inverse.Prelude.Lists.{length, All, get_elem?, set, get_elem?-lt, length-set}

infixl 5 ◌>>=◌
abbrev pub ◌>>=◌ {ℓ κ} : {A : Type ℓ} {B : Type κ} → Option A → (A → Option B) → Option B
none >>= f = none
some a >>= f = f a

-- v[i] = a, a fault out of bounds.
abbrev pub write {ℓ} : {A : Type ℓ} → List A → ℕ → A → Option (List A)
write xs i a = if ltb i (length xs) then some (set xs i a) else none

-- for (k = i; k < i + n; k++) s = body k s
pub for_range {ℓ} : {S : Type ℓ} → ℕ → ℕ → (ℕ → S → Option S) → S → Option S
for_range zero i body s = some s
for_range (suc n) i body s = body i s >>= for_range n (i + 1) body

-- The vector (f i, f (i + 1), ..., f (i + n - 1)), filled in this order.
pub tabulate {ℓ} : {A : Type ℓ} → ℕ → ℕ → (ℕ → Option A) → Option (List A)
tabulate zero i f = some []
tabulate (suc n) i f = f i >>= λ a. tabulate n (i + 1) f >>= λ rest. some (a ∷ rest)

-- No fault, and the result satisfies `P`.
abbrev pub Returns {ℓ κ} : {A : Type ℓ} → (A → Type κ) → Option A → Type (ℓ ⊔ κ)
Returns {A} P m = (a : A) × (m ≡ some a) × P a

-- What is returned, with the equation that it is.
pub Returns-made {ℓ κ} :
    {A : Type ℓ} {P : A → Type κ} {m : Option A} → Returns P m → Returns (λ a. (m ≡ some a) × P a) m
Returns-made (a, e, w) = (a, e, (e, w))

pub Returns-bind {ℓ κ μ ν} :
    {A : Type ℓ} {B : Type κ} (P : A → Type μ) (Q : B → Type ν) (m : Option A) (f : A → Option B)
    → Returns P m
    → ((a : A) → P a → Returns Q (f a))
    → Returns Q (m >>= f)
Returns-bind P Q m f (a, e, p) k = rw e (k a p)

-- Two steps in a row, and then a third.
pub Returns-bind_assoc {ℓ κ μ ν} :
    {A : Type ℓ} {B : Type κ} {C : Type μ} (Q : C → Type ν) (m : Option A) (f : A → Option B)
    (g : B → Option C)
    → Returns Q (m >>= f >>= g)
    → Returns Q (m >>= λ a. f a >>= g)
Returns-bind_assoc Q none f g r = r
Returns-bind_assoc Q (some a) f g r = r

pub Returns-mono {ℓ κ μ} :
    {A : Type ℓ} (P : A → Type κ) (Q : A → Type μ) (m : Option A)
    → ((a : A) → P a → Q a)
    → Returns P m
    → Returns Q m
Returns-mono P Q m k (a, e, p) = (a, e, k a p)

module _ {ℓ} {A : Type ℓ} where
  pub get_elem?-Returns :
      (xs : List A) (i : ℕ)
      → i < length xs
      → Returns (λ a. get_elem? xs i ≡ some a) (get_elem? xs i)
  get_elem?-Returns xs i h = let (a, e) = get_elem?-lt xs i h in (a, e, e)

  pub write-Returns :
      (xs : List A) (i : ℕ) (a : A)
      → i < length xs
      → Returns (λ ys. length ys ≡ length xs) (write xs i a)
  write-Returns xs i a h = (set xs i a, rw (lt→ltb i (length xs) h), length-set xs i a)

  pub All-of_each {κ} :
      (P : A → Type κ) (xs : List A)
      → ((i : ℕ) → i < length xs → Returns P (get_elem? xs i))
      → All P xs
  All-of_each P [] each = tt
  All-of_each P (x ∷ xs) each =
      let (y, at, p) = each 0 (omega arith) in
      (
        subst P (sym (some-injective x y at)) p,
        All-of_each P xs (λ i h. each (suc i) (omega arith)),
      )

  -- Every round may use what the rounds before established; `j` is the round after the last.
  pub for_range-Returns {κ} :
      (P : ℕ → A → Type κ) (body : ℕ → A → Option A) (n i j : ℕ) (s : A)
      → i + n ≡ j
      → ((k : ℕ) (t : A) → i ≤ k → k < j → P k t → Returns (P (k + 1)) (body k t))
      → P i s
      → Returns (P j) (for_range n i body s)
  unfolding for_range
  for_range-Returns P body zero i j s e keep p =
      (s, refl, let same : i ≡ j = omega arith in rw (← same) p)
  for_range-Returns P body (suc n) i j s e keep p =
      Returns-bind (P (i + 1)) (P j) (body i s) (for_range n (i + 1) body)
        (keep i s (omega arith) (omega arith) p)
        λ t q.
          for_range-Returns P body n (i + 1) j t (omega arith)
            (λ k u lo hi r. keep k u (omega arith) hi r) q

  -- Entry `k` of the result is what `f` gives at the k-th index.
  abbrev pub IsTable : ℕ → ℕ → (ℕ → Option A) → List A → Type ℓ
  IsTable n i f xs = (length xs ≡ n) × ((k : ℕ) → k < n → get_elem? xs k ≡ f (i + k))

  pub tabulate-IsTable :
      (n i : ℕ) (f : ℕ → Option A)
      → ((k : ℕ) → i ≤ k → k < i + n → Returns (λ _. Unit {0}) (f k))
      → Returns (IsTable n i f) (tabulate n i f)
  unfolding tabulate
  tabulate-IsTable zero i f all = ([], refl, (refl, λ k h. elim h [ ]))
  tabulate-IsTable (suc n) i f all =
      let (a, e, _) = all i (omega arith) (omega arith) in
      let (xs, e', (len, at)) =
        tabulate-IsTable n (i + 1) f (λ k lo hi. all k (omega arith) (omega arith)) in
      (a ∷ xs, rw (e, e'), (ap suc len, entries a xs e at))
    where
      entries :
          (a : A) (xs : List A)
          → f i ≡ some a
          → ((k : ℕ) → k < n → get_elem? xs k ≡ f (i + 1 + k))
          → (k : ℕ) → k < suc n
          → get_elem? (a ∷ xs) k ≡ f (i + k)
      entries a xs e at zero h = sym e ∙ ap f (omega arith)
      entries a xs e at (suc k) h = at k (omega arith) ∙ ap f (omega arith)

  pub tabulate_cong :
      (n i : ℕ) (f g : ℕ → Option A)
      → ((k : ℕ) → i ≤ k → k < i + n → f k ≡ g k)
      → tabulate n i f ≡ tabulate n i g
  unfolding tabulate
  tabulate_cong zero i f g same = refl
  tabulate_cong (suc n) i f g same =
      rw
        (
          same i (omega arith) (omega arith),
          tabulate_cong n (i + 1) f g (λ k lo hi. same k (omega arith) (omega arith)),
        )
        refl

  -- Every entry of the table satisfies what its index's value does.
  pub tabulate-All {κ} :
      (P : A → Type κ) (n i : ℕ) (f : ℕ → Option A)
      → ((k : ℕ) → i ≤ k → k < i + n → Returns P (f k))
      → Returns (λ xs. (length xs ≡ n) × All P xs) (tabulate n i f)
  unfolding tabulate
  tabulate-All P zero i f all = ([], refl, (refl, tt))
  tabulate-All P (suc n) i f all =
      let (a, e, p) = all i (omega arith) (omega arith) in
      let (xs, e', (len, ps)) =
        tabulate-All P n (i + 1) f (λ k lo hi. all k (omega arith) (omega arith)) in
      (a ∷ xs, rw (e, e'), (ap suc len, (p, ps)))

-- while (test s) s = body s, with fuel.
pub while {ℓ} : {S : Type ℓ} → ℕ → (S → Bool) → (S → Option S) → S → Option S
while zero test body s = none
while (suc fuel) test body s = elim (test s) [
  | true ↦ body s >>= while fuel test body
  | false ↦ some s
]

-- With a measure below the fuel the loop ends by its test with no fault, and the invariant holds.
pub while-Returns {ℓ κ} :
    {S : Type ℓ} (P : S → Type κ) (measure : S → ℕ) (test : S → Bool) (body : S → Option S)
    → ((s : S) → P s → test s ≡ true → Returns (λ t. P t × (measure t < measure s)) (body s))
    → (fuel : ℕ) (s : S) → measure s < fuel
    → P s
    → Returns (λ t. P t × (test t ≡ false)) (while fuel test body s)
unfolding while
while-Returns P measure test body keep zero s m h = absurd (omega arith)
while-Returns P measure test body keep (suc fuel) s m h = elim (Bool-cases (test s)) [
  | inr done ↦ rw (done, while) (s, refl, (h, done))
  | inl more ↦
      rw (more, while)
        (Returns-bind (λ t. P t × (measure t < measure s)) (λ t. P t × (test t ≡ false)) (body s)
          (while fuel test body) (keep s h more)
          λ t q. while-Returns P measure test body keep fuel t (omega arith) q.0)
]
