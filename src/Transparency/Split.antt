-- ===== src/Transparency/Split.antt =====
-- key-service/src/kt.rs, `split`: the largest power of two below the size of a tree.
use native.Mathlib.Nat.{pow-suc}
use construct_server.Base.{
  ℕ, zero, suc, ◌+◌, ◌*◌, ◌/◌, ◌^◌, ◌≤◌, ◌<◌, ◌≡◌, refl, arith, ltb, if◌then◌else◌, ◌∙◌, ltb→lt,
  inl, inr, Bool-cases,
}

-- `while k < n { k <<= 1; }` on fuel: `k` at least doubles from 1, so `n` rounds are enough.
double_to : ℕ → ℕ → ℕ → ℕ
double_to zero k n = k
double_to (suc fuel) k n = let rest = double_to fuel (k * 2) n in if ltb k n then rest else k

-- `debug_assert!(n >= 2)` is compiled out of a release build: `split` of 0 and of 1 is 0.
unfoldable pub split : ℕ → ℕ
unfolding double_to
split n = double_to n 1 n / 2

-- What the loop leaves: the first power of two that reaches `n`.
pub record Reaches (n k : ℕ) : Type 0 where
  pub exponent : ℕ
  pub is_power : k ≡ 2 ^ exponent
  pub enough : n ≤ k
  pub minimal : k < n * 2

double_to-Reaches :
    (fuel e n k : ℕ) → k ≡ 2 ^ e → 1 ≤ k → k < n * 2 → n ≤ fuel + k → Reaches n (double_to fuel k n)
unfolding double_to
double_to-Reaches zero e n k power one small enough = record {
  exponent = e;
  is_power = power;
  enough = omega arith;
  minimal = small;
}
double_to-Reaches (suc fuel) e n k power one small enough = elim (Bool-cases (ltb k n)) [
  | inl more ↦
      let lt : k < n = ltb→lt k n more in
      rw more (
        double_to-Reaches fuel (suc e) n (k * 2) (simp (power, pow-suc)) (omega arith) (omega arith)
          (omega arith))
  | inr done ↦
      rw done (record { exponent = e; is_power = power; enough = ground arith; minimal = small })
]

power_is_even : (e k : ℕ) → k ≡ 2 ^ e → 2 ≤ k → (j : ℕ) × (k / 2 ≡ 2 ^ j) × (k ≡ k / 2 * 2)
power_is_even zero k power two = absurd (omega arith)
power_is_even (suc e) k power two =
    let twice : k ≡ 2 ^ e * 2 = power ∙ pow-suc 2 e in (e, omega arith, omega arith)

-- `split n` is the largest power of two below `n`: it is one, it is below `n`, and twice it is not.
pub split-largest :
    (n : ℕ) → 2 ≤ n → ((j : ℕ) × (split n ≡ 2 ^ j)) × (split n < n) × (n ≤ split n * 2)
unfolding split
split-largest n two =
    let r = double_to-Reaches n 0 n 1 refl (omega arith) (omega arith) (omega arith) in
    let even = power_is_even r.exponent (double_to n 1 n) r.is_power (omega (arith, r.enough)) in
    ((even.0, even.1), omega (arith, r.minimal, even.2), omega (arith, r.enough, even.2))

-- So both halves of a tree are not empty, and smaller than the tree.
pub split_bounds : (n : ℕ) → 2 ≤ n → (0 < split n) × (split n < n)
split_bounds n two = omega (arith, split-largest n two)
