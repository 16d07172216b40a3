-- ===== src/Hash/Xor.antt =====
-- The exclusive or of 32-bit numbers: its digits, its width, shifts and cancellation.
use Prim.Native.Nat.{differ, digits, bit_xor-bitwise}
use native.Mathlib.Nat.{le_refl, pow-suc, div-div-eq-div-mul, div-le_self}
use gcache.Common.{
  ℕ, zero, suc, ◌+◌, ◌*◌, ◌/◌, ◌%◌, ◌^◌, ◌≤◌, ◌<◌, ◌≡◌, refl, sym, ap, ◌∙◌, arith, bit_xor,
}

module _ (z : ℕ → ℕ) (f : ℕ → ℕ → ℕ) where
  enough_digits : (n m a b : ℕ) → a ≤ n → a ≤ m → digits z f n a b ≡ digits z f m a b
  enough_digits zero zero a b h k = refl
  enough_digits zero (suc m) zero b h k = refl
  enough_digits zero (suc m) (suc a) b h k = absurd (omega arith)
  enough_digits (suc n) zero zero b h k = refl
  enough_digits (suc n) zero (suc a) b h k = absurd (omega arith)
  enough_digits (suc n) (suc m) zero b h k = refl
  enough_digits (suc n) (suc m) (suc a) b h k =
      omega (arith, enough_digits n m (suc a / 2) (b / 2) (omega arith) (omega arith))

-- One digit, and the others.
pub bit_xor_digit : (a b : ℕ) → bit_xor a b ≡ bit_xor (a / 2) (b / 2) * 2 + differ (a % 2) (b % 2)
bit_xor_digit zero b = simp bit_xor-bitwise (omega arith)
bit_xor_digit (suc a) b = simp bit_xor-bitwise (
    omega (
      arith,
      enough_digits (λ y. y) differ a (suc a / 2) (suc a / 2) (b / 2) (omega arith) (le_refl _),
    ))

differ-lt : (x y : ℕ) → x < 2 → y < 2 → differ x y < 2
differ-lt zero y h k = k
differ-lt (suc zero) zero h k = omega arith
differ-lt (suc zero) (suc zero) h k = omega arith
differ-lt (suc zero) (suc (suc y)) h k = absurd (omega arith)
differ-lt (suc (suc x)) y h k = absurd (omega arith)

differ_cancel : (x y z : ℕ) → x < 2 → y < 2 → z < 2 → differ x z ≡ differ y z → x ≡ y
differ_cancel zero zero z h k l same = refl
differ_cancel (suc zero) (suc zero) z h k l same = refl
differ_cancel zero (suc zero) zero h k l same = same
differ_cancel zero (suc zero) (suc zero) h k l same = sym same
differ_cancel (suc zero) zero zero h k l same = same
differ_cancel (suc zero) zero (suc zero) h k l same = sym same
differ_cancel _ _ _ h k l same = absurd (omega arith)

pub bit_xor-lt : (w a b : ℕ) → a < 2 ^ w → b < 2 ^ w → bit_xor a b < 2 ^ w
bit_xor-lt zero a b h k =
    let p : a ≡ 0 = omega arith in let q : b ≡ 0 = omega arith in rw (p, q) (omega arith)
bit_xor-lt (suc w) a b h k = omega (
  arith,
  bit_xor_digit a b,
  pow-suc 2 w,
  differ-lt (a % 2) (b % 2) (omega arith) (omega arith),
  bit_xor-lt w (a / 2) (b / 2) (omega (arith, pow-suc 2 w)) (omega (arith, pow-suc 2 w)),
)

half_bit_xor : (a b : ℕ) → bit_xor a b / 2 ≡ bit_xor (a / 2) (b / 2)
half_bit_xor a b =
    omega (arith, bit_xor_digit a b, differ-lt (a % 2) (b % 2) (omega arith) (omega arith))

half_first : (a s : ℕ) → a / 2 ^ suc s ≡ a / 2 / 2 ^ s
half_first a s = ap (λ d. a / d) (omega (arith, pow-suc 2 s)) ∙ sym (div-div-eq-div-mul a 2 (2 ^ s))

-- A shift to the right.
shift-bit_xor : (s a b : ℕ) → bit_xor a b / 2 ^ s ≡ bit_xor (a / 2 ^ s) (b / 2 ^ s)
shift-bit_xor zero a b =
    let p : a / 2 ^ 0 ≡ a = omega arith in
    let q : b / 2 ^ 0 ≡ b = omega arith in rw (p, q) (omega arith)
shift-bit_xor (suc s) a b =
    half_first (bit_xor a b) s
    ∙ ap (λ n. n / 2 ^ s) (half_bit_xor a b)
    ∙ shift-bit_xor s (a / 2) (b / 2)
    ∙ ap (λ n. bit_xor n (b / 2 / 2 ^ s)) (sym (half_first a s))
    ∙ ap (λ n. bit_xor (a / 2 ^ suc s) n) (sym (half_first b s))

pub bit_xor_cancel : (w a b c : ℕ) → a < 2 ^ w → b < 2 ^ w → bit_xor a c ≡ bit_xor b c → a ≡ b
bit_xor_cancel zero a b c h k same = omega arith
bit_xor_cancel (suc w) a b c h k same =
    let u = differ-lt (a % 2) (c % 2) (omega arith) (omega arith) in
    let v = differ-lt (b % 2) (c % 2) (omega arith) (omega arith) in
    let x = bit_xor_digit a c in
    let y = bit_xor_digit b c in
    let halves =
      bit_xor_cancel w (a / 2) (b / 2) (c / 2) (omega (arith, pow-suc 2 w))
        (omega (arith, pow-suc 2 w)) (omega (arith, same, x, y, u, v)) in
    let digit =
      differ_cancel (a % 2) (b % 2) (c % 2) (omega arith) (omega arith) (omega arith)
        (omega (arith, same, x, y, u, v)) in
    omega (arith, halves, digit)

pub shifted-lt : (n s a : ℕ) → a < 2 ^ suc n → a / 2 ^ suc s < 2 ^ n
shifted-lt n s a h = omega (arith, half_first a s, div-le_self (a / 2) (2 ^ s), pow-suc 2 n)

-- `x ^= x >> s` loses nothing.
pub shift_cancel :
    (n s a b : ℕ)
    → a < 2 ^ n
    → b < 2 ^ n
    → bit_xor a (a / 2 ^ suc s) ≡ bit_xor b (b / 2 ^ suc s)
    → a ≡ b
shift_cancel zero s a b h k same = omega arith
shift_cancel (suc n) s a b h k same =
    let shifted =
      sym (shift-bit_xor (suc s) a (a / 2 ^ suc s))
      ∙ ap (λ x. x / 2 ^ suc s) same
      ∙ shift-bit_xor (suc s) b (b / 2 ^ suc s) in
    let upper =
      shift_cancel n s (a / 2 ^ suc s) (b / 2 ^ suc s) (shifted-lt n s a h) (shifted-lt n s b k)
        shifted in
    bit_xor_cancel (suc n) a b (b / 2 ^ suc s) h k (ap (bit_xor a) (sym upper) ∙ same)
