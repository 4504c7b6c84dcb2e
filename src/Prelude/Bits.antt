-- ===== src/Prelude/Bits.antt =====
-- Masks and disjunctions of numbers as arithmetic, and a number as a string of binary digits.
use Prim.Native.Nat.{max, bit_or, digits, bit_or-bitwise}
use Prim.Native.Nat.{ℕ, zero, suc, ◌+◌, ◌*◌, ◌/◌, ◌%◌, ◌^◌, ◌≤◌, ◌<◌}
use mathlib.Core.Path.{◌≡◌, refl, sym, ap, ap₂, ◌∙◌}
use mathlib.Core.List.{List, [], ◌∷◌, ◌++◌, append-nil, append_assoc}
use native.Mathlib.Omega.{arith}
use native.Mathlib.Nat.{
  pow-suc, pow-zero, pow-le-pow_right, add-zero, add-suc, div-add-mod', div-div-eq-div-mul,
  mul_comm, div-one,
}
use native.Mathlib.Numerals.{towards_suc}
use http_request_client.Prelude.Lists.{length, length-append}

abbrev or_digits : ℕ → ℕ → ℕ → ℕ
or_digits n a b = digits (λ b. b) max n a b

or_digits_fuel : (n m a b : ℕ) → a ≤ n → a ≤ m → or_digits n a b ≡ or_digits m a b
or_digits_fuel zero zero a b p q = refl
or_digits_fuel zero (suc m) zero b p q = refl
or_digits_fuel zero (suc m) (suc a) b p q = absurd (omega arith)
or_digits_fuel (suc n) zero zero b p q = refl
or_digits_fuel (suc n) zero (suc a) b p q = absurd (omega arith)
or_digits_fuel (suc n) (suc m) zero b p q = refl
or_digits_fuel (suc n) (suc m) (suc a) b p q =
    omega (arith, or_digits_fuel n m (suc a / 2) (b / 2) (omega arith) (omega arith))

zero-bit_or : (n : ℕ) → bit_or 0 n ≡ n
zero-bit_or n = bit_or-bitwise 0 n

-- The lowest digit of `|` stands for itself.
bit_or_step :
    (left right : ℕ)
    → bit_or left right ≡ max (left % 2) (right % 2) + bit_or (left / 2) (right / 2) * 2
bit_or_step zero right = omega (arith, zero-bit_or right, zero-bit_or (right / 2))
bit_or_step (suc left) right =
    let rest = suc left / 2 in
    omega (
      arith,
      or_digits_fuel left rest rest (right / 2) (omega arith) (omega arith),
      bit_or-bitwise rest (right / 2),
      bit_or-bitwise (suc left) right,
    )

bit_or_zero_fuel : (n a : ℕ) → a ≤ n → bit_or a 0 ≡ a
bit_or_zero_fuel n zero h = refl
bit_or_zero_fuel zero (suc a) h = absurd (omega arith)
bit_or_zero_fuel (suc n) (suc a) h =
    omega (arith, bit_or_step (suc a) 0, bit_or_zero_fuel n (suc a / 2) (omega arith))

-- Where the low digits of `a` are free, `|` is `+`.
pub bit_or-shifted : (k x c : ℕ) → c < 2 ^ k → bit_or (x * 2 ^ k) c ≡ x * 2 ^ k + c
bit_or-shifted zero x c h =
    let e : c ≡ 0 = omega arith in
    let f : x * 2 ^ 0 ≡ x = omega arith in
    rw (e, f) (omega (arith, bit_or_zero_fuel x x (omega arith)))
bit_or-shifted (suc k) x c h = omega (
  arith,
  bit_or_step (x * 2 ^ suc k) c,
  pow-suc 2 k,
  ap (λ (t : ℕ). x * t) (pow-suc 2 k),
  bit_or-shifted k x (c / 2) (omega (arith, pow-suc 2 k)),
  halved,
)
  where
    doubled : x * 2 ^ suc k ≡ x * 2 ^ k * 2
    doubled = rw pow-suc (omega arith)

    halved : bit_or (x * 2 ^ suc k / 2) (c / 2) ≡ bit_or (x * 2 ^ k) (c / 2)
    halved = ap (λ (t : ℕ). bit_or t (c / 2)) (omega (arith, doubled))

-- The `w` lowest binary digits of `n`, the highest of them first.
abbrev pub bits_of : ℕ → ℕ → List ℕ
bits_of zero n = []
bits_of (suc w) n = bits_of w (n / 2) ++ n % 2 ∷ []

pub length-bits_of : (w n : ℕ) → length (bits_of w n) ≡ w
length-bits_of zero n = refl
length-bits_of (suc w) n =
    omega (arith, length-append (bits_of w (n / 2)) (n % 2 ∷ []), length-bits_of w (n / 2))

-- The high digits come before the low ones.
pub bits_of_add : (a b n : ℕ) → bits_of (a + b) n ≡ bits_of a (n / 2 ^ b) ++ bits_of b n
bits_of_add a zero n = rw (add-zero, pow-zero, div-one, append-nil)
bits_of_add a (suc b) n = rw (add-suc) (
    ap (λ t. t ++ n % 2 ∷ [])
      (bits_of_add a b (n / 2) ∙ ap (λ t. bits_of a t ++ bits_of b (n / 2)) halves)
    ∙ append_assoc (bits_of a (n / 2 ^ suc b)) (bits_of b (n / 2)) (n % 2 ∷ []))
  where
    halves : n / 2 / 2 ^ b ≡ n / 2 ^ suc b
    halves =
        div-div-eq-div-mul n 2 (2 ^ b) ∙ ap (λ t. n / t) (mul_comm 2 (2 ^ b) ∙ sym (pow-suc 2 b))

doubled : (x k : ℕ) → x * 2 ^ suc k ≡ x * 2 ^ k * 2
doubled x k = rw pow-suc (omega arith)

-- Digits above the width do not show.
pub bits_of-shifted : (w q r : ℕ) → bits_of w (q * 2 ^ w + r) ≡ bits_of w r
bits_of-shifted zero q r = refl
bits_of-shifted (suc w) q r =
    ap₂ (λ t u. bits_of w t ++ u ∷ []) (omega (arith, doubled q w)) (omega (arith, doubled q w))
    ∙ ap (λ t. t ++ r % 2 ∷ []) (bits_of-shifted w q (r / 2))

pub bits_of_mod : (w n : ℕ) → bits_of w (n % 2 ^ w) ≡ bits_of w n
bits_of_mod w n =
    sym (bits_of-shifted w (n / 2 ^ w) (n % 2 ^ w)) ∙ ap (bits_of w) (div-add-mod' n (2 ^ w))

-- The weight of the next group of seven bits.
pub shift_seven : (shift : ℕ) → 2 ^ (shift + 7) ≡ 128 * 2 ^ shift
shift_seven shift = simp towards_suc (omega arith)

pub next_group : (k v : ℕ) → v < 2 ^ (k + 7) → v / 128 < 2 ^ k
next_group k v h = omega (arith, shift_seven k)

pub pow_add : (a b : ℕ) → 2 ^ (a + b) ≡ 2 ^ a * 2 ^ b
pow_add a zero = let e : a + 0 ≡ a = omega arith in rw e (omega arith)
pow_add a (suc b) =
    rw add-suc
      (omega (arith, pow-suc 2 (a + b), ap (λ (t : ℕ). t * 2) (pow_add a b), doubled (2 ^ a) b))

pub pow_positive : (k : ℕ) → 0 < 2 ^ k
pow_positive k = pow-le-pow_right {n = 2} (omega arith) {i = 0} (omega arith)
