-- ===== src/Base/Bits.antt =====
-- A mask of ones is a remainder, for every width, and remainders in a window of one length differ.
use Prim.Native.Nat.{
  ℕ, zero, suc, ◌+◌, ◌-◌, ◌*◌, ◌/◌, ◌%◌, ◌^◌, ◌≤◌, ◌<◌, min, bit_and, digits, bit_and-bitwise,
}
use mathlib.Core.Path.{◌≡◌, sym, ap, ◌∙◌}
use mathlib.Core.Logic.{◌≢◌}
use native.Mathlib.Omega.{arith}
use native.Mathlib.Decide.{dec_lt}
use native.Mathlib.Nat.{
  mod-lt, mod-eq_of_lt, div-add-mod, add-mul-mod_self_left, pow-suc, mod-one, mul-le-mul_left,
}

pub pow_pos : (k : ℕ) → 0 < 2 ^ k
pow_pos zero = omega arith
pow_pos (suc k) = omega (arith, pow-suc 2 k, pow_pos k)

mod_double : (x p : ℕ) → 0 < p → x % (p * 2) ≡ ((x / 2) % p) * 2 + x % 2
mod_double x p h =
    let q : ℕ = (x / 2) / p in
    let r : ℕ = (x / 2) % p in
    let split : x ≡ (r * 2 + x % 2) + (p * 2) * q = grind (arith, div-add-mod (x / 2) p) in
    let small : r * 2 + x % 2 < p * 2 = omega (arith, mod-lt (x / 2) h) in
    ap (λ y. y % (p * 2)) split
    ∙ add-mul-mod_self_left (r * 2 + x % 2) (p * 2) q
    ∙ mod-eq_of_lt small

zero_mod : (k : ℕ) → 0 % 2 ^ k ≡ 0
zero_mod k = mod-eq_of_lt (pow_pos k)

-- The digits of `x` below a mask of `k` ones, in as many rounds as `rounds`.
low_digits : (rounds k x : ℕ) → x ≤ rounds → digits (λ b. zero) min rounds x (2 ^ k - 1) ≡ x % 2 ^ k
low_digits zero k zero enough = sym (zero_mod k)
low_digits zero k (suc x) enough = absurd (omega arith)
low_digits (suc rounds) k zero enough = sym (zero_mod k)
low_digits (suc rounds) zero (suc x) enough =
    let none_left = low_digits rounds zero (suc x / 2) (omega arith) in
    let whole = mod-one (suc x) in let half = mod-one (suc x / 2) in omega arith
low_digits (suc rounds) (suc k) (suc x) enough =
    let twice : 2 ^ suc k ≡ 2 ^ k * 2 = pow-suc 2 k in
    let some_left : 0 < 2 ^ k = pow_pos k in
    let odd : (2 ^ suc k - 1) % 2 ≡ 1 = omega arith in
    let half : (2 ^ suc k - 1) / 2 ≡ 2 ^ k - 1 = omega arith in
    let rest = low_digits rounds k (suc x / 2) (omega arith) in
    let parts = mod_double (suc x) (2 ^ k) some_left in rw (half, odd, rest, twice) (omega arith)

-- `seq & (2 ** k - 1)`
pub bit_and_mask : (k x : ℕ) → bit_and x (2 ^ k - 1) ≡ x % 2 ^ k
bit_and_mask k x = bit_and-bitwise x (2 ^ k - 1) ∙ low_digits x k x (omega arith)

pub mod_distinct : (n s t : ℕ) → s < t → t < s + n → s % n ≢ t % n
mod_distinct n s t h k e =
    let a = div-add-mod s n in
    let b = div-add-mod t n in
    elim (dec_lt (s / n) (t / n)) [
      | yes lt ↦ grind (arith, mul-le-mul_left {m = s / n + 1} {n = t / n} n (omega arith))
      | no ge ↦ grind (arith, mul-le-mul_left {m = t / n} {n = s / n} n (omega arith))
    ]
