-- ===== src/Base/Bits.antt =====
-- `&` and `|` at the masks that the code uses, as arithmetic.
use Prim.Native.Nat.{
  ℕ, zero, suc, ◌+◌, ◌-◌, ◌*◌, ◌/◌, ◌%◌, ◌^◌, ◌≤◌, ◌<◌, min, max, bit_and, bit_or, digits, bitwise,
  bit_and-bitwise, bit_or-bitwise, bit_xor-bitwise, differ, bit_xor,
}
use mathlib.Core.Path.{◌≡◌, refl, sym, ap, ◌∙◌}
use mathlib.Core.Bool.{Bool, true, ◌&&◌}
use native.Mathlib.Nat.{pow-suc, one-le-pow}
use native.Mathlib.Omega.{arith}
use oric2_golden_model.Base.Tests.{◌==◌, all_below, all_below_sound}
use oric2_golden_model.Base.Word.{word}

-- The native operations run over binary digits until their fuel is spent. Here `z` is what is left of
-- the second number when the first has no digits any more, which `whole` says digit by digit.
module _ (z : ℕ → ℕ) (f : ℕ → ℕ → ℕ) (whole : (y : ℕ) → z y ≡ z (y / 2) * 2 + f 0 (y % 2)) where
  no_digits : (fuel y : ℕ) → digits z f fuel 0 y ≡ z y
  no_digits zero y = refl
  no_digits (suc fuel) y = refl

  -- Any fuel that is not below the first number gives the same digits.
  settled : (bound fuel x y : ℕ) → fuel ≤ bound → x ≤ fuel → digits z f fuel x y ≡ bitwise z f x y
  settled bound fuel zero y within enough = no_digits fuel y
  settled bound zero (suc x) y within enough = absurd (omega arith)
  settled zero (suc fuel) (suc x) y within enough = absurd (omega arith)
  settled (suc bound) (suc fuel) (suc x) y within enough =
      let half = suc x / 2 in
      ap (λ high. high * 2 + f (suc x % 2) (y % 2))
        (settled bound fuel half (y / 2) (omega arith) (omega arith)
          ∙ sym (settled bound x half (y / 2) (omega arith) (omega arith)))

  lowest_digit : (x y : ℕ) → bitwise z f x y ≡ bitwise z f (x / 2) (y / 2) * 2 + f (x % 2) (y % 2)
  lowest_digit zero y = whole y
  lowest_digit (suc x) y =
      ap (λ high. high * 2 + f (suc x % 2) (y % 2))
        (settled x x (suc x / 2) (y / 2) (omega arith) (omega arith))

pub bit_and_step : (a b : ℕ) → bit_and a b ≡ bit_and (a / 2) (b / 2) * 2 + min (a % 2) (b % 2)
bit_and_step a b =
    bit_and-bitwise a b
    ∙ lowest_digit (λ _. 0) min (λ y. omega arith) a b
    ∙ ap (λ high. high * 2 + min (a % 2) (b % 2)) (sym (bit_and-bitwise (a / 2) (b / 2)))

pub bit_or_step : (a b : ℕ) → bit_or a b ≡ bit_or (a / 2) (b / 2) * 2 + max (a % 2) (b % 2)
bit_or_step a b =
    bit_or-bitwise a b
    ∙ lowest_digit (λ y. y) max (λ y. omega arith) a b
    ∙ ap (λ high. high * 2 + max (a % 2) (b % 2)) (sym (bit_or-bitwise (a / 2) (b / 2)))

-- No bit of `a & b` is set but those of both.
bit_and_bounds : (k a b : ℕ) → a ≤ k → (bit_and a b ≤ a) × (bit_and a b ≤ b)
bit_and_bounds k zero b h = omega (arith, bit_and-bitwise 0 b)
bit_and_bounds zero (suc a) b h = absurd (omega arith)
bit_and_bounds (suc k) (suc a) b h =
    omega (arith, bit_and_step (suc a) b, bit_and_bounds k (suc a / 2) (b / 2) (omega arith))

pub bit_and-le : (a b : ℕ) → (bit_and a b ≤ a) × (bit_and a b ≤ b)
bit_and-le a b = bit_and_bounds a a b (omega arith)

pub bit_and-zero : (a : ℕ) → bit_and a 0 ≡ 0
bit_and-zero a = omega (arith, bit_and-le a 0)

or_nothing : (k a : ℕ) → a ≤ k → bit_or a 0 ≡ a
or_nothing k zero within = refl
or_nothing zero (suc a) within = absurd (omega arith)
or_nothing (suc k) (suc a) within =
    let half = suc a / 2 in omega (arith, or_nothing k half (omega arith), bit_or_step (suc a) 0)

pub bit_or-zero : (a : ℕ) → bit_or a 0 ≡ a
bit_or-zero a = or_nothing a a (omega arith)

or_comm_upto : (k a b : ℕ) → a ≤ k → b ≤ k → bit_or a b ≡ bit_or b a
or_comm_upto zero zero zero p q = refl
or_comm_upto zero (suc a) b p q = absurd (omega arith)
or_comm_upto zero zero (suc b) p q = absurd (omega arith)
or_comm_upto (suc k) a b p q = omega (
  arith,
  or_comm_upto k (a / 2) (b / 2) (omega arith) (omega arith),
  bit_or_step a b,
  bit_or_step b a,
)

pub bit_or_comm : (a b : ℕ) → bit_or a b ≡ bit_or b a
bit_or_comm a b = or_comm_upto (a + b) a b (omega arith) (omega arith)

-- `(hi << k) | lo` is a sum when `lo` fits `k` bits.
pub bit_or_fields : (k hi lo : ℕ) → lo < 2 ^ k → bit_or (hi * 2 ^ k) lo ≡ hi * 2 ^ k + lo
bit_or_fields zero hi lo h = ground (arith, bit_or-zero hi)
bit_or_fields (suc k) hi lo h = ground (
  arith,
  bit_or_step (hi * 2 ^ suc k) lo,
  ap (λ (t : ℕ). hi * t) (pow-suc 2 k),
  pow-suc 2 k,
  bit_or_fields k hi (lo / 2) (omega (arith, pow-suc 2 k)),
)

pub word_lem : (lo hi : ℕ) → lo < 256 → hi < 256 → word lo hi ≡ hi * 256 + lo
unfolding word
word_lem lo hi p q = omega (arith, bit_or_fields 8 hi lo p)

-- The masks of one bit on a byte.
abbrev one_bit : ℕ → ℕ → Bool
one_bit k p =
    bit_and p (2 ^ k) == p / 2 ^ k % 2 * 2 ^ k
    && (bit_or p (2 ^ k) == p + (1 - p / 2 ^ k % 2) * 2 ^ k
        && bit_and p (255 - 2 ^ k) == p - p / 2 ^ k % 2 * 2 ^ k)

one_bit_table : all_below 8 (λ k. all_below 256 (one_bit k)) ≡ true
unfolding all_below
one_bit_table = refl

pub byte_bit :
    (k p : ℕ)
    → k < 8
    → p < 256
    → (bit_and p (2 ^ k) ≡ p / 2 ^ k % 2 * 2 ^ k)
      × (bit_or p (2 ^ k) ≡ p + (1 - p / 2 ^ k % 2) * 2 ^ k)
      × (bit_and p (255 - 2 ^ k) ≡ p - p / 2 ^ k % 2 * 2 ^ k)
byte_bit k p hk hp =
    let row = all_below_sound 8 (λ k. all_below 256 (one_bit k)) k one_bit_table hk in
    let cell = all_below_sound 256 (one_bit k) p row hp in ground (arith, cell)

-- A mask of the low `k` bits is the remainder by `2 ^ k`.
low_mask_fields : (k hi lo : ℕ) → lo < 2 ^ k → bit_and (hi * 2 ^ k + lo) (2 ^ k - 1) ≡ lo
low_mask_fields zero hi lo h = omega (arith, bit_and-zero (hi * 1 + lo))
low_mask_fields (suc k) hi lo h =
    let twice = pow-suc 2 k in
    let product : hi * 2 ^ suc k ≡ 2 * (hi * 2 ^ k) = omega (arith, ap (λ (t : ℕ). hi * t) twice) in
    ground (
      arith,
      twice,
      product,
      one-le-pow k 2,
      bit_and_step (hi * 2 ^ suc k + lo) (2 ^ suc k - 1),
      low_mask_fields k hi (lo / 2) (omega arith),
    )

pub bit_and_low_digit : (a : ℕ) → bit_and a 0x0f ≡ a % 16
bit_and_low_digit a =
    let parts : a ≡ a / 16 * 16 + a % 16 = omega arith in
    ap (λ t. bit_and t 0x0f) parts ∙ low_mask_fields 4 (a / 16) (a % 16) (omega arith)

pub bit_and_low_byte : (a : ℕ) → bit_and a 0xff ≡ a % 256
bit_and_low_byte a =
    let parts : a ≡ a / 256 * 256 + a % 256 = omega arith in
    ap (λ t. bit_and t 0xff) parts ∙ low_mask_fields 8 (a / 256) (a % 256) (omega arith)

pub bit_and_low_word : (a : ℕ) → bit_and a 0xffff ≡ a % 65536
bit_and_low_word a =
    let parts : a ≡ a / 65536 * 65536 + a % 65536 = omega arith in
    ap (λ t. bit_and t 0xffff) parts ∙ low_mask_fields 16 (a / 65536) (a % 65536) (omega arith)

-- Bounds of the operations.

pub bit_or-lt : (k a b : ℕ) → a < 2 ^ k → b < 2 ^ k → bit_or a b < 2 ^ k
bit_or-lt zero zero b p q = omega (arith, bit_or-bitwise 0 b)
bit_or-lt zero (suc a) b p q = absurd (omega arith)
bit_or-lt (suc k) a b p q = omega (
  arith,
  pow-suc 2 k,
  bit_or_step a b,
  bit_or-lt k (a / 2) (b / 2) (omega (arith, pow-suc 2 k)) (omega (arith, pow-suc 2 k)),
)

pub bit_or_byte : (a b : ℕ) → a < 256 → b < 256 → bit_or a b < 256
bit_or_byte = bit_or-lt 8

pub bit_or_word : (a b : ℕ) → a < 65536 → b < 65536 → bit_or a b < 65536
bit_or_word = bit_or-lt 16

differ_lem : (a b : ℕ) → a < 2 → b < 2 → differ a b ≡ (a + b) % 2
differ_lem zero b p q = omega arith
differ_lem (suc zero) zero p q = refl
differ_lem (suc zero) (suc zero) p q = refl
differ_lem (suc zero) (suc (suc b)) p q = absurd (omega arith)
differ_lem (suc (suc a)) b p q = absurd (omega arith)

bit_xor_digit : (a b : ℕ) → bit_xor a b ≡ bit_xor (a / 2) (b / 2) * 2 + differ (a % 2) (b % 2)
bit_xor_digit a b =
    bit_xor-bitwise a b
    ∙ lowest_digit (λ y. y) differ (λ y. omega arith) a b
    ∙ ap (λ high. high * 2 + differ (a % 2) (b % 2)) (sym (bit_xor-bitwise (a / 2) (b / 2)))

pub bit_xor_step : (a b : ℕ) → bit_xor a b ≡ bit_xor (a / 2) (b / 2) * 2 + (a % 2 + b % 2) % 2
bit_xor_step a b =
    omega (arith, bit_xor_digit a b, differ_lem (a % 2) (b % 2) (omega arith) (omega arith))

pub bit_xor-lt : (k a b : ℕ) → a < 2 ^ k → b < 2 ^ k → bit_xor a b < 2 ^ k
bit_xor-lt zero zero b p q = omega (arith, bit_xor-bitwise 0 b)
bit_xor-lt zero (suc a) b p q = absurd (omega arith)
bit_xor-lt (suc k) a b p q = omega (
  arith,
  pow-suc 2 k,
  bit_xor_step a b,
  bit_xor-lt k (a / 2) (b / 2) (omega (arith, pow-suc 2 k)) (omega (arith, pow-suc 2 k)),
)

pub bit_xor_word : (a b : ℕ) → a < 65536 → b < 65536 → bit_xor a b < 65536
bit_xor_word = bit_xor-lt 16
