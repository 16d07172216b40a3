-- ===== src/Hash/Perfect.antt =====
-- The hash functions give 32-bit numbers, different ones for different keys.
use gcache.Common.{ℕ, suc, ◌*◌, ◌/◌, ◌%◌, ◌^◌, ◌<◌, ◌≡◌, sym, ap, ◌∙◌, arith, bit_xor}
use gcache.Hash.{xxhash_u32, murmurhash_u32}
use gcache.Hash.Xor.{bit_xor-lt, shift_cancel, shifted-lt}

-- A function on 32-bit numbers that loses nothing.
pub record Perfect (h : ℕ → ℕ) : Type 0 where
  pub bounded : (x : ℕ) → x < 2 ^ 32 → h x < 2 ^ 32
  pub injective : (x y : ℕ) → x < 2 ^ 32 → y < 2 ^ 32 → h x ≡ h y → x ≡ y

after : (f g : ℕ → ℕ) → Perfect f → Perfect g → Perfect (λ x. g (f x))
after f g p q = record {
  bounded = λ x h. q.bounded (f x) (p.bounded x h);
  injective = λ x y h k same.
      p.injective x y h k (q.injective (f x) (f y) (p.bounded x h) (p.bounded y k) same);
}

-- `x ^= x >> s`
shift-Perfect : (s : ℕ) → Perfect (λ x. bit_xor x (x / 2 ^ suc s))
shift-Perfect s = record {
  bounded = λ x h. bit_xor-lt 32 x (x / 2 ^ suc s) h (omega (arith, shifted-lt 31 s x h));
  injective = λ x y h k same. shift_cancel 32 s x y h k same;
}

-- `x *= c`, for a factor that has an inverse.
factor-Perfect :
    (c d : ℕ)
    → ((x : ℕ) → x < 2 ^ 32 → x * c % 2 ^ 32 * d % 2 ^ 32 ≡ x)
    → Perfect (λ x. x * c % 2 ^ 32)
factor-Perfect c d inverse = record {
  bounded = λ x h. omega arith;
  injective = λ x y h k same. sym (inverse x h) ∙ ap (λ n. n * d % 2 ^ 32) same ∙ inverse y k;
}

first_inverse : (x : ℕ) → x < 2 ^ 32 → x * 0x85EBCA77 % 2 ^ 32 * 3066638151 % 2 ^ 32 ≡ x
first_inverse x h = omega arith

second_inverse : (x : ℕ) → x < 2 ^ 32 → x * 0xC2B2AE3D % 2 ^ 32 * 2828982549 % 2 ^ 32 ≡ x
second_inverse x h = omega arith

third_inverse : (x : ℕ) → x < 2 ^ 32 → x * 0x85ebca6b % 2 ^ 32 * 2781581891 % 2 ^ 32 ≡ x
third_inverse x h = omega arith

fourth_inverse : (x : ℕ) → x < 2 ^ 32 → x * 0xc2b2ae35 % 2 ^ 32 * 2127672349 % 2 ^ 32 ≡ x
fourth_inverse x h = omega arith

-- Two factors between three shifts.
mixed :
    (s t u c d c' d' : ℕ)
    → ((x : ℕ) → x < 2 ^ 32 → x * c % 2 ^ 32 * d % 2 ^ 32 ≡ x)
    → ((x : ℕ) → x < 2 ^ 32 → x * c' % 2 ^ 32 * d' % 2 ^ 32 ≡ x)
    → Perfect (λ x.
      let x = bit_xor x (x / 2 ^ suc s) in
      let x = x * c % 2 ^ 32 in
      let x = bit_xor x (x / 2 ^ suc t) in let x = x * c' % 2 ^ 32 in bit_xor x (x / 2 ^ suc u))
mixed s t u c d c' d' inverse inverse' =
    after _ _
      (after _ _
        (after _ _ (after _ _ (shift-Perfect s) (factor-Perfect c d inverse)) (shift-Perfect t))
        (factor-Perfect c' d' inverse'))
      (shift-Perfect u)

-- `xxhash_u32` and `murmurhash_u32` take every 32-bit number to a 32-bit number, and no two to the
-- same one.
pub hashes-Perfect : Perfect xxhash_u32 × Perfect murmurhash_u32
unfolding xxhash_u32 murmurhash_u32
hashes-Perfect = (
  mixed 14 12 15 0x85EBCA77 3066638151 0xC2B2AE3D 2828982549 first_inverse second_inverse,
  mixed 15 12 15 0x85ebca6b 2781581891 0xc2b2ae35 2127672349 third_inverse fourth_inverse,
)
