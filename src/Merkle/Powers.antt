-- ===== src/Merkle/Powers.antt =====
-- Powers of two, and the split point of a perfect tree.
use native.Mathlib.Nat.{pow-suc, one-le-pow, pow-le-pow_right}
use rallish.Prelude.{
  ℕ, zero, suc, ◌^◌, ◌≤◌, ◌<◌, ◌≡◌, ap, ◌∙◌, inl, inr, false, arith, ltb, Bool-cases,
}
use rallish.Merkle.Tree.{largest_power_of_two_less_than}
use rallish.Merkle.Split.{largest_power-IsSplit}

pub two_pow_pos : (n : ℕ) → 0 < 2 ^ n
two_pow_pos n = one-le-pow n 2 (omega arith)

pub lt_two_pow : (n : ℕ) → n < 2 ^ n
lt_two_pow zero = omega arith
lt_two_pow (suc n) = omega (arith, lt_two_pow n, pow-suc 2 n)

pub exponent-lt : (a b : ℕ) → 2 ^ a < 2 ^ b → a < b
exponent-lt a b h = elim (Bool-cases (ltb a b)) [
  | inl yes' ↦ ground arith
  | inr no' ↦ absurd (omega (arith, pow-le-pow_right {n = 2} (omega arith) (le no')))
]
  where
    le : ltb a b ≡ false → b ≤ a
    le e = ground arith

-- A perfect tree is split into two perfect trees.
pub largest_power-perfect : (e : ℕ) → largest_power_of_two_less_than (2 ^ suc e) ≡ 2 ^ e
largest_power-perfect e =
    let s = largest_power-IsSplit (2 ^ suc e) (omega (arith, two_pow_pos e, pow-suc 2 e)) in
    let x : ℕ = s.exponent in
    let above : x < suc e = exponent-lt x (suc e) (omega (arith, s.power, s.below)) in
    let under : e < suc x =
      exponent-lt e (suc x)
        (omega (arith, two_pow_pos e, pow-suc 2 e, pow-suc 2 x, s.power, s.covers)) in
    let same : x ≡ e = omega (arith, above, under) in s.power ∙ ap (λ (t : ℕ). 2 ^ t) same
