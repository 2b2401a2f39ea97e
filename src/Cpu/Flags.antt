-- ===== src/Cpu/Flags.antt =====
-- The bits of the status register and of the sums: how the flags read back, and the top bits.
use oric2_golden_model.Base.{
  ℕ, zero, suc, ◌+◌, ◌-◌, ◌*◌, ◌/◌, ◌%◌, ◌^◌, ◌<◌, bit_and, bit_or, bit_xor, ◌≡◌, refl, sym, ap,
  ◌∙◌, Bool, true, false, ◌&&◌, arith, leb, ◌==◌, bool_eq, if◌then◌else◌, all_below,
  all_below_sound, has, clear8, bit_and_step, bit_or_fields, bit_and_low_byte, bit_and-le,
  bit_or_byte, bit_xor_step, bit_xor-lt,
}
use oric2_golden_model.Base.{bit_xor-lt, bit_xor_step}
use native.Mathlib.Nat.{pow-suc}
use Prim.Native.Nat.{min}
use oric2_golden_model.Cpu.State.{flag_carry, flag_zero, flag_overflow, flag_negative, Cpu}
use oric2_golden_model.Cpu.Access.{flag, setf, a8, set_a8}

-- `x` halved `k` times
unfoldable pub halves : ℕ → ℕ → ℕ
halves zero x = x
halves (suc k) x = halves k (x / 2)

pub top_xor :
    (k a b : ℕ)
    → halves k a < 2
    → halves k b < 2
    → halves k (bit_xor a b) ≡ (halves k a + halves k b) % 2
unfolding halves
top_xor zero a b p q =
    omega (arith, bit_xor_step a b, bit_xor-lt 0 (a / 2) (b / 2) (omega arith) (omega arith))
top_xor (suc k) a b p q =
    ap (halves k) (omega (arith, bit_xor_step a b)) ∙ top_xor k (a / 2) (b / 2) p q

pub top_and :
    (k a b : ℕ)
    → halves k a < 2
    → halves k b < 2
    → halves k (bit_and a b) ≡ min (halves k a) (halves k b)
unfolding halves
top_and zero zero b p q = omega (arith, bit_and-le 0 b)
top_and zero (suc zero) b p q = omega (arith, bit_and_step 1 b, bit_and-le 0 (b / 2))
top_and zero (suc (suc a)) b p q = absurd (omega arith)
top_and (suc k) a b p q =
    ap (halves k) (omega (arith, bit_and_step a b)) ∙ top_and k (a / 2) (b / 2) p q

pub test_bit : (k x : ℕ) → bit_and x (2 ^ k) ≡ halves k x % 2 * 2 ^ k
unfolding halves
test_bit zero x = omega (arith, bit_and_step x 1, bit_and-le (x / 2) 0)
test_bit (suc k) x =
    let inner : bit_and (x / 2) (2 ^ suc k / 2) ≡ halves k (x / 2) % 2 * 2 ^ k =
      ap (bit_and (x / 2)) (omega (arith, pow-suc 2 k)) ∙ test_bit k (x / 2) in
    ground (
      arith,
      bit_and_step x (2 ^ suc k),
      inner,
      pow-suc 2 k,
      ap (λ (t : ℕ). halves k (x / 2) % 2 * t) (pow-suc 2 k),
    )

abbrev set_then_test : ℕ → ℕ → ℕ → Bool → Bool
set_then_test j k p b =
    bool_eq (has (if b then bit_or p (2 ^ k) else clear8 p (2 ^ k)) (2 ^ j))
      (if j == k then b else has p (2 ^ j))

flag_table :
    all_below 8 (λ j.
      all_below 8 (λ k. all_below 256 (λ p. set_then_test j k p true && set_then_test j k p false)))
    ≡ true
unfolding all_below
flag_table = refl

bool_eq_sound : (a b : Bool) → bool_eq a b ≡ true → a ≡ b
bool_eq_sound true true h = refl
bool_eq_sound true false h = sym h
bool_eq_sound false true h = h
bool_eq_sound false false h = refl

both_hold : (b : Bool) (f : Bool → Bool) → (f true && f false) ≡ true → f b ≡ true
both_hold true f h = ground arith
both_hold false f h = ground arith

-- A flag after one was set or cleared.
pub flag-setf :
    {D : Type 0} (j k : ℕ) (b : Bool) (s : Cpu D)
    → j < 8
    → k < 8
    → s.p < 256
    → flag (2 ^ j) (setf (2 ^ k) b s) ≡ (if j == k then b else flag (2 ^ j) s)
unfolding flag setf
flag-setf j k b s hj hk hp =
    let row =
      all_below_sound 8
        (λ j.
          all_below 8
            (λ k. all_below 256 (λ p. set_then_test j k p true && set_then_test j k p false)))
        j flag_table hj in
    let column =
      all_below_sound 8
        (λ k. all_below 256 (λ p. set_then_test j k p true && set_then_test j k p false)) k row
        hk in
    let both =
      all_below_sound 256 (λ p. set_then_test j k p true && set_then_test j k p false) s.p column
        hp in
    bool_eq_sound _ _ (both_hold b (set_then_test j k s.p) both)

-- The top bit of a byte and of a word.
pub sign8 : (x : ℕ) → x < 256 → has x 0x80 ≡ leb 128 x
unfolding halves
sign8 x h = ground (arith, test_bit 7 x)

pub sign16 : (x : ℕ) → x < 65536 → has x 0x8000 ≡ leb 32768 x
unfolding halves
sign16 x h = ground (arith, test_bit 15 x)

high_mask : (k x m : ℕ) → bit_and x (m * 2 ^ k) ≡ bit_and (halves k x) m * 2 ^ k
unfolding halves
high_mask zero x m = let one : m * 1 ≡ m = omega arith in ap (bit_and x) one ∙ omega arith
high_mask (suc k) x m =
    let inner : bit_and (x / 2) (m * 2 ^ suc k / 2) ≡ bit_and (halves k (x / 2)) m * 2 ^ k =
      ap (bit_and (x / 2)) (ground (arith, ap (λ (t : ℕ). m * t) (pow-suc 2 k)))
      ∙ high_mask k (x / 2) m in
    ground (
      arith,
      bit_and_step x (m * 2 ^ suc k),
      inner,
      ap (λ (t : ℕ). m * t) (pow-suc 2 k),
      ap (λ (t : ℕ). bit_and (halves k (x / 2)) m * t) (pow-suc 2 k),
    )

-- The accumulator in its two halves.
pub a8-set_a8 :
    {D : Type 0} (n : ℕ) (s : Cpu D)
    → n < 256
    → s.c < 65536
    → (a8 (set_a8 n s) ≡ n) × ((set_a8 n s).c / 256 ≡ s.c / 256)
unfolding a8 set_a8 halves
a8-set_a8 n s h hc =
    let high : bit_and s.c 0xff00 ≡ s.c / 256 * 256 =
      high_mask 8 s.c 255
      ∙ ap (λ t. t * 256)
          (ap (λ x. bit_and x 255) (omega arith) ∙ bit_and_low_byte (s.c / 256) ∙ omega arith) in
    let joined = ap (λ x. bit_or x n) high ∙ bit_or_fields 8 (s.c / 256) n h in
    (
      bit_and_low_byte (bit_or (bit_and s.c 0xff00) n) ∙ omega (arith, joined),
      omega (arith, joined),
    )

module _ {D : Type 0} where
  pub setf-lt : (f : ℕ) (b : Bool) (s : Cpu D) → f < 256 → s.p < 256 → (setf f b s).p < 256
  unfolding setf
  setf-lt f b s hf hp = ground (arith, bit_or_byte s.p f, bit_and-le s.p (255 - f))

  -- The four arithmetic flags after they were set in the order of the binary operations, with the
  -- accumulator written between, and in the order of the decimal ones.
  pub flags_binary :
      (n z v c : Bool) (r : ℕ) (s : Cpu D)
      → s.p < 256
      → let t =
          setf flag_negative n
            (setf flag_zero z (record (setf flag_overflow v (setf flag_carry c s)) { c = r })) in
        (flag flag_carry t ≡ c)
        × (flag flag_overflow t ≡ v)
        × (flag flag_zero t ≡ z)
        × (flag flag_negative t ≡ n)
  unfolding flag
  flags_binary n z v c r s hp =
      let p1 = setf-lt flag_carry c s (omega arith) hp in
      let p2 = setf-lt flag_overflow v _ (omega arith) p1 in
      let s2 : Cpu D = record (setf flag_overflow v (setf flag_carry c s)) { c = r } in
      let p3 = setf-lt flag_zero z s2 (omega arith) p2 in
      let last = λ (j : ℕ) (h : j < 8). flag-setf j 7 n (setf flag_zero z s2) h (omega arith) p3 in
      let third = λ (j : ℕ) (h : j < 8). flag-setf j 1 z s2 h (omega arith) p2 in
      let second =
        λ (j : ℕ) (h : j < 8). flag-setf j 6 v (setf flag_carry c s) h (omega arith) p1 in
      (
        last 0 (omega arith)
            ∙ third 0 (omega arith)
            ∙ second 0 (omega arith)
            ∙ flag-setf 0 0 c s (omega arith) (omega arith) hp,
        last 6 (omega arith) ∙ third 6 (omega arith) ∙ second 6 (omega arith),
        last 1 (omega arith) ∙ third 1 (omega arith),
        last 7 (omega arith),
      )

  pub flags_decimal :
      (n z v c : Bool) (s : Cpu D)
      → s.p < 256
      → let t =
          setf flag_carry c (setf flag_overflow v (setf flag_negative n (setf flag_zero z s))) in
        (flag flag_carry t ≡ c) × (flag flag_zero t ≡ z)
  flags_decimal n z v c s hp =
      let p1 = setf-lt flag_zero z s (omega arith) hp in
      let p2 = setf-lt flag_negative n (setf flag_zero z s) (omega arith) p1 in
      let p3 = setf-lt flag_overflow v _ (omega arith) p2 in
      (
        flag-setf 0 0 c _ (omega arith) (omega arith) p3,
        flag-setf 1 0 c _ (omega arith) (omega arith) p3
            ∙ flag-setf 1 6 v _ (omega arith) (omega arith) p2
            ∙ flag-setf 1 7 n _ (omega arith) (omega arith) p1
            ∙ flag-setf 1 1 z s (omega arith) (omega arith) hp,
      )
