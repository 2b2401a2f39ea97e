-- ===== src/Ay/Noise.antt =====
-- The noise register and the samples.
use oric2_golden_model.Base.{
  ℕ, zero, suc, ◌+◌, ◌*◌, ◌/◌, ◌%◌, ◌^◌, ◌≤◌, ◌<◌, bit_and, bit_or, bit_xor, ◌≡◌, refl, ap, ◌∙◌,
  Bool, true, false, List, [], ◌∷◌, arith, ◌==◌, if◌then◌else◌, shl, shr, has, bit_and_step,
  bit_or_step, bit_and-zero, bit_or-zero, bit_and-le, bit_xor_step,
}
use native.Mathlib.Nat.{pow-suc}
use oric2_golden_model.Ay.{Ay}
use oric2_golden_model.Ay.Generate.{
  tick_tone, shift_noise, volume_at, channel, sample, tick, tick_envelope, step_envelope,
  tick_noise, samples, generate, envelope_volume,
}

-- The 17 bits of the noise register, never all 0.
abbrev pub IsNoise : ℕ → Type 0
IsNoise shift = (0 < shift) × (shift < 131072)

bit_or-power : (k x : ℕ) → x < 2 ^ k → bit_or x (2 ^ k) ≡ x + 2 ^ k
bit_or-power zero zero h = refl
bit_or-power zero (suc x) h = absurd (omega arith)
bit_or-power (suc k) x h =
    let half : bit_or (x / 2) (2 ^ suc k / 2) ≡ x / 2 + 2 ^ k =
      ap (bit_or (x / 2)) {y = 2 ^ k} (omega (arith, pow-suc 2 k))
      ∙ bit_or-power k (x / 2) (omega (arith, pow-suc 2 k)) in
    omega (arith, bit_or_step x (2 ^ suc k), half, pow-suc 2 k)

bit_or-top_bit : (x b : ℕ) → x < 65536 → b < 2 → bit_or x (b * 65536) ≡ x + b * 65536
bit_or-top_bit x zero h lt = omega (arith, bit_or-zero x)
bit_or-top_bit x (suc zero) h lt = bit_or-power 16 x h
bit_or-top_bit x (suc (suc b)) h lt = absurd (omega arith)

-- The noise register runs through its 17 bits and never gets stuck at 0: a shift takes a register that is not 0
-- to one that is not 0, whose low 16 bits are the upper 16 of the old one and whose top bit is the
-- exclusive or of the old bits 0 and 3.
pub shift_noise_lem :
    (shift : ℕ)
    → IsNoise shift
    → IsNoise (shift_noise shift)
      × (shift_noise shift % 65536 ≡ shift / 2)
      × (shift_noise shift / 65536 ≡ (shift + shift / 8) % 2)
unfolding shift_noise
shift_noise_lem shift (pos, lt) =
    let mixed = bit_xor shift (shr shift 3) in
    let bit : bit_and mixed 1 ≡ (shift + shift / 8) % 2 =
      omega
        (arith, bit_and_step mixed 1, bit_and-zero (mixed / 2), bit_xor_step shift (shr shift 3)) in
    let joined : bit_or (shr shift 1) (shl (bit_and mixed 1) 16)
        ≡ shift / 2 + (shift + shift / 8) % 2 * 65536 =
      ap (λ b. bit_or (shr shift 1) (shl b 16)) bit
      ∙ bit_or-top_bit (shift / 2) ((shift + shift / 8) % 2) (omega arith) (omega arith) in
    ((omega (arith, joined), omega (arith, joined)), omega (arith, joined), omega (arith, joined))

volume_at-le : (i : ℕ) → volume_at i ≤ 16383
unfolding volume_at
volume_at-le i = ground arith

-- Both channels of all samples are below a bound.
pub data AllBelow (bound : ℕ) : List (ℕ × ℕ) → Type 0 where
  no_samples : AllBelow bound []
  more_samples :
      (l r : ℕ) (rest : List (ℕ × ℕ))
      → l < bound
      → r < bound
      → AllBelow bound rest
      → AllBelow bound ((l, r) ∷ rest)

envelope_volume-lt : (shape step : ℕ) → envelope_volume shape step < 16
unfolding envelope_volume
envelope_volume-lt shape step = ground (arith, bit_and-le (bit_and step 0x1f) 0x0f)

if-lt : (b : Bool) {x y n : ℕ} → x < n → y < n → (if b then x else y) < n
if-lt true hx hy = hx
if-lt false hx hy = hy

if-le : (b : Bool) {x y n : ℕ} → x ≤ n → y ≤ n → (if b then x else y) ≤ n
if-le true hx hy = hx
if-le false hx hy = hy

module _ {D : Type 0} where
  channel-le : (mixer ch : ℕ) (ay : Ay D) → channel mixer ch ay ≤ 16383
  unfolding channel
  channel-le mixer ch ay =
      if-le
        (bit_and (bit_or (ay.tone_output ch) (bit_and (shr mixer ch) 1))
            (bit_or ay.noise_output (bit_and (shr mixer (ch + 3)) 1))
          == 0)
        (omega arith)
        (volume_at-le (
          if has (ay.registers (8 + ch)) 0x10
          then ay.env_volume
          else bit_and (ay.registers (8 + ch)) 0x0f))

  sample-le : (mixer : ℕ) (ay : Ay D) → sample mixer ay ≤ 16383
  unfolding sample
  sample-le mixer ay =
      omega (arith, channel-le mixer 0 ay, channel-le mixer 1 ay, channel-le mixer 2 ay)

  samples-AllBelow : (mixer n : ℕ) (ay : Ay D) → AllBelow 32768 (samples mixer n ay).0
  unfolding samples
  samples-AllBelow mixer zero ay = no_samples
  samples-AllBelow mixer (suc n) ay =
      let lt : sample mixer (tick ay) < 32768 = omega (arith, sample-le mixer (tick ay)) in
      more_samples _ _ _ lt lt (samples-AllBelow mixer n (tick ay))

  -- However many samples `ay_generate` makes and from whatever state, each of them, left and right, is below 32768,
  -- so the cast to `int16_t` keeps it.
  pub generate-AllBelow : (n : ℕ) (ay : Ay D) → AllBelow 32768 (generate n ay).0
  unfolding generate
  generate-AllBelow n ay = samples-AllBelow (ay.registers 7) n ay

  tick_envelope-lt : (rate : ℕ) (ay : Ay D) → (tick_envelope rate ay).env_volume < 16
  unfolding tick_envelope
  tick_envelope-lt rate ay =
      envelope_volume-lt (step_envelope rate ay).env_shape (step_envelope rate ay).env_step

  -- The volumes that the mixer looks up lie in the table of 16 entries: after the envelope was updated for a
  -- sample, whatever the state was before, its volume is below 16, and so is the volume of a register.
  pub tick_volume_lem :
      (ch : ℕ) (ay : Ay D)
      → (if has ((tick ay).registers (8 + ch)) 0x10
          then (tick ay).env_volume
          else bit_and ((tick ay).registers (8 + ch)) 0x0f)
        < 16
  unfolding tick
  tick_volume_lem ch ay =
      let tone_rate = ay.clock_rate / 8 in
      let toned = tick_tone tone_rate 2 (tick_tone tone_rate 1 (tick_tone tone_rate 0 ay)) in
      let volume = (tick ay).registers (8 + ch) in
      if-lt (has volume 0x10) (tick_envelope-lt (ay.clock_rate / 16) (tick_noise tone_rate toned))
        (omega (arith, bit_and-le volume 0x0f))
