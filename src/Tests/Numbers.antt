-- ===== src/Tests/Numbers.antt =====
-- A concrete arithmetic for the tests: small signed numbers in the place of double.
use soft_robots_inverse.Prelude.{
  ℕ, zero, suc, ◌+◌, ◌-◌, ◌*◌, ◌/◌, ltb, leb, if◌then◌else◌, ◌∙◌, ◌≡◌, arith, ap, false, true,
}
use soft_robots_inverse.Double.{Double, ◌≺◌}

-- `negsuc n` is -(n + 1).
pub data ℤ : Type 0 where
  pos : ℕ → ℤ
  negsuc : ℕ → ℤ

abbrev pos_part : ℤ → ℕ
pos_part (pos n) = n
pos_part (negsuc n) = 0

abbrev neg_part : ℤ → ℕ
neg_part (pos n) = 0
neg_part (negsuc n) = suc n

-- a - b
abbrev sub_ℕ : ℕ → ℕ → ℤ
sub_ℕ a b = if leb b a then pos (a - b) else negsuc (b - a - 1)

abbrev size : ℤ → ℕ
size a = pos_part a + neg_part a

abbrev product : ℤ → ℤ → ℤ
product a b =
    sub_ℕ (pos_part a * pos_part b + neg_part a * neg_part b)
      (pos_part a * neg_part b + neg_part a * pos_part b)

-- Rounds to zero; zero for a zero divisor.
abbrev quotient : ℤ → ℤ → ℤ
quotient a (pos zero) = pos 0
quotient (pos n) (pos (suc m)) = pos (n / suc m)
quotient (pos n) (negsuc m) = sub_ℕ 0 (n / suc m)
quotient (negsuc n) (pos (suc m)) = sub_ℕ 0 (suc n / suc m)
quotient (negsuc n) (negsuc m) = pos (suc n / suc m)

instance abbrev pub int_double : Double ℤ
int_double = record {
  zero_f = pos 0;
  one_f = pos 1;
  two_f = pos 2;
  plus = λ a b. sub_ℕ (pos_part a + pos_part b) (neg_part a + neg_part b);
  minus = λ a b. sub_ℕ (pos_part a + neg_part b) (neg_part a + pos_part b);
  times = product;
  divided = quotient;
  negate = λ a. sub_ℕ (neg_part a) (pos_part a);
  rabs = λ a. pos (size a);
  lt = λ a b. ltb (pos_part a + neg_part b) (pos_part b + neg_part a);
  le = λ a b. leb (pos_part a + neg_part b) (pos_part b + neg_part a);
  tiny = pos 0;
  small = pos 1;
  slack = pos 1;
  huge = pos 1000;
}

pub product_comm : (a b : ℤ) → product a b ≡ product b a
product_comm a b =
    let same : pos_part a * pos_part b + neg_part a * neg_part b
        ≡ pos_part b * pos_part a + neg_part b * neg_part a =
      grind arith in
    let cross : pos_part a * neg_part b + neg_part a * pos_part b
        ≡ pos_part b * neg_part a + neg_part b * pos_part a =
      grind arith in
    ap (λ x. sub_ℕ x (pos_part a * neg_part b + neg_part a * pos_part b)) same
    ∙ ap (sub_ℕ (pos_part b * pos_part a + neg_part b * neg_part a)) cross

pub less_irreflexive : (a : ℤ) → (a ≺ a) ≡ false
less_irreflexive a = ground arith

pub less_transitive : (a b c : ℤ) → (a ≺ b) ≡ true → (b ≺ c) ≡ true → (a ≺ c) ≡ true
less_transitive a b c h h' = ground (arith, h, h')
