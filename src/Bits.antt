-- ===== src/Bits.antt =====
-- `&` with a network mask, for every width: masking keeps what division by the mask's unit keeps.
use Prim.Native.Nat.{bit_and, bit_and-bitwise, digits}
use native.Mathlib.Nat.{pow-succ', one-le-pow, pow-le-pow_right, div-div-eq-div-mul}
use tap_tunnel.Prelude.{
  ℕ, zero, suc, ◌+◌, ◌-◌, ◌*◌, ◌/◌, ◌%◌, ◌^◌, ◌≤◌, ◌<◌, min, ◌≡◌, refl, sym, ap, ◌∙◌, arith,
}

-- The digit recursion behind `bit_and`, with its count of digits as fuel.
abbrev and_on : ℕ → ℕ → ℕ → ℕ
and_on k a m = digits (λ b. zero) min k a m

and_on_zero : (k m : ℕ) → and_on k 0 m ≡ 0
and_on_zero zero m = refl
and_on_zero (suc k) m = refl

-- Any two fuels that cover the first operand give the same digits.
and_on_enough : (a k l m : ℕ) → a ≤ k → a ≤ l → and_on k a m ≡ and_on l a m
and_on_enough (suc a) (suc k) (suc l) m p q =
    let rest = and_on_enough (suc a / 2) k l (m / 2) (omega arith) (omega arith) in
    omega (arith, rest)
and_on_enough (suc a) (suc k) zero m p q = elim q [ ]
and_on_enough (suc a) zero l m p q = elim p [ ]
and_on_enough zero k l m p q = and_on_zero k m ∙ sym (and_on_zero l m)

-- The last digit of the result, and the digits before it.
bit_and-halves : (a m : ℕ) → bit_and a m ≡ bit_and (a / 2) (m / 2) * 2 + min (a % 2) (m % 2)
bit_and-halves (suc a) m =
    let fuel = and_on_enough (suc a / 2) a (suc a / 2) (m / 2) (omega arith) (omega arith) in
    let digits_here = bit_and-bitwise (suc a) m in
    omega (arith, fuel, digits_here, bit_and-bitwise (suc a / 2) (m / 2))
bit_and-halves zero m =
    let none_left = bit_and-bitwise 0 (m / 2) in omega (arith, none_left, bit_and-bitwise 0 m)

-- A mask of `w` ones keeps every number of `w` bits.
bit_and-ones : (w a : ℕ) → a < 2 ^ w → bit_and a (2 ^ w - 1) ≡ a
bit_and-ones zero zero h = refl
bit_and-ones zero (suc a) h = absurd (omega arith)
bit_and-ones (suc w) a h = omega (
  arith,
  bit_and-halves a (2 ^ suc w - 1),
  ap (λ m. bit_and (a / 2) m) half,
  bit_and-ones w (a / 2) (omega arith),
)
  where
    half : (2 ^ suc w - 1) / 2 ≡ 2 ^ w - 1
    half = omega (arith, one-le-pow w 2 (omega arith))

halves_of_shift : (k a : ℕ) → a / 2 / 2 ^ k ≡ a / 2 ^ suc k
halves_of_shift k a = rw (div-div-eq-div-mul, ← pow-succ')

-- `mask w k`: `w` bits, the lowest `k` of them zero.
pub bit_and-mask : (k w a : ℕ) → k ≤ w → a < 2 ^ w → bit_and a (2 ^ w - 2 ^ k) ≡ a / 2 ^ k * 2 ^ k
bit_and-mask zero w a p h = omega (arith, bit_and-ones w a h)
bit_and-mask (suc k) zero a p h = elim p [ ]
bit_and-mask (suc k) (suc w) a p h = omega (
  arith,
  bit_and-halves a (2 ^ suc w - 2 ^ suc k),
  ap (λ m. bit_and (a / 2) m) half,
  bit_and-mask k w (a / 2) (omega arith) (omega arith),
  ap (λ q. q * 2 ^ k) (halves_of_shift k a),
  ap (λ (t : ℕ). a / 2 ^ suc k * t) (pow-succ' 2 k),
  pow-le-pow_right {n = 2} (omega arith) {i = k} {j = w} (omega arith),
)
  where
    half : (2 ^ suc w - 2 ^ suc k) / 2 ≡ 2 ^ w - 2 ^ k
    half = omega arith
