-- ===== src/Ay/Tests.antt =====
-- The theorems on the sound generator at concrete states.
use oric2_golden_model.Base.{
  ℕ, ◌+◌, ◌*◌, ◌/◌, ◌%◌, ◌<◌, bit_and, ◌≡◌, arith, ◌==◌, if◌then◌else◌, u32, has,
}
use oric2_golden_model.Ay.{Ay, init}
use oric2_golden_model.Ay.Generate.{
  sample_rate, at_least_one, tick_tone, shift_noise, tick, generate,
}
use oric2_golden_model.Ay.Counter.{tick_tone_lem}
use oric2_golden_model.Ay.Noise.{
  IsNoise, shift_noise_lem, tick_volume_lem, AllBelow, generate-AllBelow,
}

-- The generator at 1 MHz, with channel A at full volume.
abbrev playing : Ay ℕ
playing = record (init 0 1000000) {
  registers = λ r. if r == 8 then 15 else 0;
  tone_output = λ _. 1;
}

tick_tone_lem_example :
    let threshold = at_least_one (playing.tone_period 0) * sample_rate in
    let ticked = tick_tone 125000 0 playing in
    (q : ℕ) × (u32 (playing.tone_counter 0 + 125000) ≡ q * threshold + ticked.tone_counter 0)
    × (ticked.tone_counter 0 < threshold)
    × (ticked.tone_output 0 ≡ (playing.tone_output 0 + q) % 2)
tick_tone_lem_example = tick_tone_lem 125000 0 playing (omega arith)

shift_noise_lem_example :
    IsNoise (shift_noise 1)
    × (shift_noise 1 % 65536 ≡ 1 / 2)
    × (shift_noise 1 / 65536 ≡ (1 + 1 / 8) % 2)
shift_noise_lem_example = shift_noise_lem 1 (omega arith, omega arith)

tick_volume_lem_example :
    (if has ((tick playing).registers 8) 0x10
      then (tick playing).env_volume
      else bit_and ((tick playing).registers 8) 0x0f)
    < 16
tick_volume_lem_example = tick_volume_lem 0 playing

generate-AllBelow_example : AllBelow 32768 (generate 3 playing).0
generate-AllBelow_example = generate-AllBelow 3 playing
