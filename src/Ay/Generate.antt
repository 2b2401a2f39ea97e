-- ===== src/Ay/Generate.antt =====
-- `ay_generate`: the counters of tones, noise and envelope, and the mixer. A `while` that takes a threshold off a
-- counter has the counter as fuel, since the threshold is positive.
use oric2_golden_model.Base.{
  ℕ, zero, suc, ◌+◌, ◌-◌, ◌*◌, ◌/◌, bit_and, bit_or, bit_xor, Bool, true, false, not, ◌&&◌, List,
  [], ◌∷◌, ltb, leb, ◌==◌, if◌then◌else◌, update, u8, u32, shl, shr, has,
}
use oric2_golden_model.Ay.{Ay}

abbrev pub sample_rate : ℕ
sample_rate = 44100

-- `while (counter >= threshold) { counter -= threshold; ... }`, with the state that the body changes.
unfoldable pub drain : {A : Type 0} → ℕ → ℕ → (A → A) → ℕ → A → ℕ × A
drain zero threshold body counter a = (counter, a)
drain (suc fuel) threshold body counter a = elim (leb threshold counter) [
  | true ↦ drain fuel threshold body (counter - threshold) (body a)
  | false ↦ (counter, a)
]

-- `period == 0 ? 1 : period`
abbrev pub at_least_one : ℕ → ℕ
at_least_one period = if period == 0 then 1 else period

-- `tone_output ^= 1`
abbrev pub toggle : ℕ → ℕ
toggle n = bit_xor n 1

-- One shift of the 17-bit register.
unfoldable pub shift_noise : ℕ → ℕ
shift_noise shift =
    let bit = bit_and (bit_xor shift (shr shift 3)) 1 in u32 (bit_or (shr shift 1) (shl bit 16))

unfoldable pub envelope_volume : ℕ → ℕ → ℕ
envelope_volume shape step =
    let s = bit_and step 0x1f in
    let pos = bit_and s 0x0f in
    let attack = has shape 0x04 in
    let alternate = has shape 0x02 in
    let hold = has shape 0x01 in
    let ramp = if attack then pos else 15 - pos in
    if not (has shape 0x08)
    then (if leb 16 s then 0 else ramp)
    else if hold
    then (if leb 16 s
        then (if alternate then (if attack then 0 else 15) else (if attack then 15 else 0))
        else ramp)
    else if alternate
    then (if ltb s 16 then ramp else (if attack then 15 - pos else pos))
    else ramp

-- `voltab`
unfoldable pub volume_at : ℕ → ℕ
volume_at i =
    if i == 0
    then 0
    else if i == 1
    then 513 / 4
    else if i == 2
    then 828 / 4
    else if i == 3
    then 1239 / 4
    else if i == 4
    then 1923 / 4
    else if i == 5
    then 3238 / 4
    else if i == 6
    then 4926 / 4
    else if i == 7
    then 9110 / 4
    else if i == 8
    then 10344 / 4
    else if i == 9
    then 17876 / 4
    else if i == 10
    then 24682 / 4
    else if i == 11
    then 30442 / 4
    else if i == 12
    then 38844 / 4
    else if i == 13
    then 47270 / 4
    else if i == 14
    then 56402 / 4
    else 65535 / 4

-- One step of the envelope: the step and whether it holds.
unfoldable pub advance_envelope : ℕ → ℕ × Bool → ℕ × Bool
advance_envelope shape (step, holding) =
    let next = u8 (step + 1) in
    if ltb next 32
    then (next, holding)
    else if not (has shape 0x08)
    then (31, true)
    else if has shape 0x01
    then (bit_and next 0x1f, true)
    else (bit_and next 0x1f, holding)

module _ {D : Type 0} where
  unfoldable pub tick_tone : ℕ → ℕ → Ay D → Ay D
  unfolding drain
  tick_tone rate ch ay =
      let counter = u32 (ay.tone_counter ch + rate) in
      let (left, out) =
        drain counter (at_least_one (ay.tone_period ch) * sample_rate) toggle counter
          (ay.tone_output ch) in
      record ay {
        tone_counter = update ay.tone_counter ch left;
        tone_output = update ay.tone_output ch out;
      }

  unfoldable pub tick_noise : ℕ → Ay D → Ay D
  unfolding drain shift_noise
  tick_noise rate ay =
      let counter = u32 (ay.noise_counter + rate) in
      let threshold = at_least_one ay.noise_period * sample_rate in
      let (left, (shift, out)) =
        drain counter threshold (λ (n : ℕ × ℕ). let s = shift_noise n.0 in (s, bit_and s 1)) counter
          (ay.noise_shift, ay.noise_output) in
      record ay { noise_counter = left; noise_shift = shift; noise_output = out }

  -- The envelope's part of the loop before its volume is looked up.
  unfoldable pub step_envelope : ℕ → Ay D → Ay D
  unfolding drain advance_envelope
  step_envelope rate ay =
      if not (ay.env_period == 0) && not ay.env_holding
      then (let counter = u32 (ay.env_counter + rate) in
          let (left, (step, holding)) =
            drain counter (ay.env_period * sample_rate) (advance_envelope ay.env_shape) counter
              (ay.env_step, ay.env_holding) in
          record ay { env_counter = left; env_step = step; env_holding = holding })
      else ay

  unfoldable pub tick_envelope : ℕ → Ay D → Ay D
  unfolding step_envelope envelope_volume
  tick_envelope rate ay =
      let stepped = step_envelope rate ay in
      record stepped { env_volume = envelope_volume stepped.env_shape stepped.env_step }

  -- What channel `ch` adds to the sample, with the mixer register read before the loop.
  unfoldable pub channel : ℕ → ℕ → Ay D → ℕ
  unfolding volume_at
  channel mixer ch ay =
      let tone = bit_or (ay.tone_output ch) (bit_and (shr mixer ch) 1) in
      let noise = bit_or ay.noise_output (bit_and (shr mixer (ch + 3)) 1) in
      let volume = ay.registers (8 + ch) in
      if bit_and tone noise == 0
      then 0
      else volume_at (if has volume 0x10 then ay.env_volume else bit_and volume 0x0f)

  unfoldable pub sample : ℕ → Ay D → ℕ
  unfolding channel
  sample mixer ay = (channel mixer 0 ay + channel mixer 1 ay + channel mixer 2 ay) / 3

  unfoldable pub tick : Ay D → Ay D
  unfolding tick_tone tick_noise tick_envelope
  tick ay =
      let tone_rate = ay.clock_rate / 8 in
      let toned = tick_tone tone_rate 2 (tick_tone tone_rate 1 (tick_tone tone_rate 0 ay)) in
      tick_envelope (ay.clock_rate / 16) (tick_noise tone_rate toned)

  -- The samples, each for the left and the right channel, and the generator behind them.
  unfoldable pub samples : ℕ → ℕ → Ay D → List (ℕ × ℕ) × Ay D
  unfolding tick sample
  samples mixer zero ay = ([], ay)
  samples mixer (suc n) ay =
      let ticked = tick ay in
      let out = sample mixer ticked in
      let (rest, last) = samples mixer n ticked in ((out, out) ∷ rest, last)

  unfoldable pub generate : ℕ → Ay D → List (ℕ × ℕ) × Ay D
  unfolding samples
  generate n ay = samples (ay.registers 7) n ay
