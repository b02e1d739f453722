-- ===== src/Prelude/Bits.antt =====
-- Laws of `bit_xor` at variables, from its recursion on binary digits.
use Prim.Native.Nat.{
  ℕ, zero, suc, ◌+◌, ◌*◌, ◌/◌, ◌%◌, ◌^◌, ◌≤◌, ◌<◌, differ, digits, bit_xor, bit_xor-bitwise,
}
use mathlib.Core.Path.{◌≡◌, refl, sym, ap, ap₂, ◌∙◌, ◌≡⟨◌⟩◌, ◌∎}
use native.Mathlib.Nat.{pow-succ', div-div-eq-div-mul, mod-eq-sub-div-mul}
use native.Mathlib.Omega.{arith}
use Prim.Native.Nat.{◌-◌}

-- What `bitwise` recurses on, for `^`: spare fuel changes nothing.
xor_digits : ℕ → ℕ → ℕ → ℕ
xor_digits fuel x y = digits (λ k. k) differ fuel x y

one_more_digit : (fuel x y : ℕ) → x ≤ fuel → xor_digits (suc fuel) x y ≡ xor_digits fuel x y
unfolding xor_digits
one_more_digit zero zero y enough = refl
one_more_digit (suc fuel) zero y enough = refl
one_more_digit zero (suc x) y enough = absurd (omega arith)
one_more_digit (suc fuel) (suc x) y enough =
    ap (λ (t : ℕ). t * 2 + differ (suc x % 2) (y % 2))
      (one_more_digit fuel (suc x / 2) (y / 2) (omega arith))

spare_fuel :
    (spare more fuel x y : ℕ)
    → more ≡ spare + fuel
    → x ≤ fuel
    → xor_digits more x y ≡ xor_digits fuel x y
spare_fuel zero more fuel x y e enough = ap (λ (t : ℕ). xor_digits t x y) (omega (arith, e))
spare_fuel (suc spare) zero fuel x y e enough = absurd (omega arith)
spare_fuel (suc spare) (suc more) fuel x y e enough =
    one_more_digit more x y (omega arith) ∙ spare_fuel spare more fuel x y (omega arith) enough

-- one equation for the lowest digit
xor_digits_low :
    (x y : ℕ) → xor_digits x x y ≡ xor_digits (x / 2) (x / 2) (y / 2) * 2 + differ (x % 2) (y % 2)
unfolding xor_digits
xor_digits_low zero y = omega arith
xor_digits_low (suc x) y =
    ap (λ (t : ℕ). t * 2 + differ (suc x % 2) (y % 2))
      (spare_fuel (x - suc x / 2) x (suc x / 2) (suc x / 2) (y / 2) (omega arith) (omega arith))

differ_bits : (x y : ℕ) → x < 2 → y < 2 → differ x y ≡ (x + y) % 2
differ_bits zero y h k = omega arith
differ_bits (suc zero) zero h k = refl
differ_bits (suc zero) (suc zero) h k = refl
differ_bits (suc zero) (suc (suc y)) h k = absurd (omega arith)
differ_bits (suc (suc x)) y h k = absurd (omega arith)

bit_xor-differ : (a b : ℕ) → bit_xor a b ≡ bit_xor (a / 2) (b / 2) * 2 + differ (a % 2) (b % 2)
unfolding xor_digits
bit_xor-differ a b = simp bit_xor-bitwise (xor_digits_low a b)

pub bit_xor_step : (a b : ℕ) → bit_xor a b ≡ bit_xor (a / 2) (b / 2) * 2 + (a + b) % 2
bit_xor_step a b =
    omega (arith, bit_xor-differ a b, differ_bits (a % 2) (b % 2) (omega arith) (omega arith))

bit_xor_comm_fuel : (n a b : ℕ) → a ≤ n → b ≤ n → bit_xor a b ≡ bit_xor b a
bit_xor_comm_fuel zero zero zero h k = refl
bit_xor_comm_fuel zero zero (suc b) h k = absurd (omega arith)
bit_xor_comm_fuel zero (suc a) b h k = absurd (omega arith)
bit_xor_comm_fuel (suc n) a b h k = omega (
  arith,
  bit_xor_step a b,
  bit_xor_step b a,
  bit_xor_comm_fuel n (a / 2) (b / 2) (omega arith) (omega arith),
)

pub bit_xor_comm : (a b : ℕ) → bit_xor a b ≡ bit_xor b a
bit_xor_comm a b = bit_xor_comm_fuel (a + b) a b (omega arith) (omega arith)

bit_xor_cancel_fuel : (n a b c : ℕ) → a ≤ n → b ≤ n → bit_xor a c ≡ bit_xor b c → a ≡ b
bit_xor_cancel_fuel zero a b c h k e = omega arith
bit_xor_cancel_fuel (suc n) a b c h k e = omega (
  arith,
  bit_xor_step a c,
  bit_xor_step b c,
  bit_xor_cancel_fuel n (a / 2) (b / 2) (c / 2) (omega arith) (omega arith)
      (omega (arith, bit_xor_step a c, bit_xor_step b c)),
)

-- `^ c` loses nothing.
pub bit_xor_cancel : (a b c : ℕ) → bit_xor a c ≡ bit_xor b c → a ≡ b
bit_xor_cancel a b c e = bit_xor_cancel_fuel (a + b) a b c (omega arith) (omega arith) e

pub bit_xor-zero : (a : ℕ) → bit_xor a 0 ≡ a
bit_xor-zero a = bit_xor_comm a 0 ∙ bit_xor-bitwise 0 a

div_pow-suc : (k a : ℕ) → a / 2 ^ suc k ≡ a / 2 / 2 ^ k
div_pow-suc k a = ap (λ (t : ℕ). a / t) (pow-succ' 2 k) ∙ sym (div-div-eq-div-mul a 2 (2 ^ k))

-- Shifting right goes through `^`.
pub bit_xor-div_pow : (k a b : ℕ) → bit_xor a b / 2 ^ k ≡ bit_xor (a / 2 ^ k) (b / 2 ^ k)
bit_xor-div_pow zero a b = ground arith
bit_xor-div_pow (suc k) a b =
    bit_xor a b / 2 ^ suc k
    ≡⟨ div_pow-suc k (bit_xor a b) ⟩ bit_xor a b / 2 / 2 ^ k
    ≡⟨ ap (λ (t : ℕ). t / 2 ^ k) (omega (arith, bit_xor_step a b)) ⟩ bit_xor (a / 2) (b / 2) / 2 ^ k
    ≡⟨ bit_xor-div_pow k (a / 2) (b / 2) ⟩ bit_xor (a / 2 / 2 ^ k) (b / 2 / 2 ^ k)
    ≡⟨ ap₂ bit_xor (sym (div_pow-suc k a)) (sym (div_pow-suc k b)) ⟩
      bit_xor (a / 2 ^ suc k) (b / 2 ^ suc k) ∎

-- Words of 16 bits stay words.
pub bit_xor-lt_word : (a b : ℕ) → a < 65536 → b < 65536 → bit_xor a b < 65536
bit_xor-lt_word a b h k = ground (arith, bit_xor-div_pow 16 a b)

halve_mod : (m a : ℕ) → a % (2 * m) / 2 ≡ a / 2 % m
halve_mod m a = omega (
  arith,
  mod-eq-sub-div-mul a (2 * m),
  mod-eq-sub-div-mul (a / 2) m,
  ap (λ (q : ℕ). q * (2 * m)) (div-div-eq-div-mul a 2 m),
)

low_parity : (k a : ℕ) → (a + a % 2 ^ suc k) % 2 ≡ 0
low_parity k a =
    omega
      (arith, mod-eq-sub-div-mul a (2 ^ suc k), ap (λ (t : ℕ). a / 2 ^ suc k * t) (pow-succ' 2 k))

-- `^` with the low digits clears them.
pub bit_xor_low : (k a : ℕ) → bit_xor a (a % 2 ^ k) ≡ a / 2 ^ k * 2 ^ k
bit_xor_low zero a = ground (arith, bit_xor-zero a)
bit_xor_low (suc k) a =
    let low : a % 2 ^ suc k / 2 ≡ a / 2 % 2 ^ k =
      ap (λ (t : ℕ). a % t / 2) (pow-succ' 2 k) ∙ halve_mod (2 ^ k) a in
    let rest : bit_xor (a / 2) (a % 2 ^ suc k / 2) ≡ a / 2 / 2 ^ k * 2 ^ k =
      ap (bit_xor (a / 2)) low ∙ bit_xor_low k (a / 2) in
    let high : a / 2 ^ suc k * 2 ^ suc k ≡ a / 2 / 2 ^ k * (2 * 2 ^ k) =
      ap₂ ◌*◌ (div_pow-suc k a) (pow-succ' 2 k) in
    bit_xor a (a % 2 ^ suc k)
    ≡⟨ bit_xor_step a (a % 2 ^ suc k) ⟩
      bit_xor (a / 2) (a % 2 ^ suc k / 2) * 2 + (a + a % 2 ^ suc k) % 2
    ≡⟨ ap₂ (λ x y. x * 2 + y) rest (low_parity k a) ⟩ a / 2 / 2 ^ k * 2 ^ k * 2 + 0
    ≡⟨ omega arith ⟩ a / 2 / 2 ^ k * (2 * 2 ^ k)
    ≡⟨ sym high ⟩ a / 2 ^ suc k * 2 ^ suc k ∎
