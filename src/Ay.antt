-- ===== src/Ay.antt =====
-- src/audio/ay3891x.c: the AY-3-8910 sound generator. An array of registers or channels is a function from its
-- index; `D` is the state behind the port callback; the samples are the list that `ay_generate` fills.
pub mod Generate
pub mod Counter
pub mod Noise
mod Tests
use oric2_golden_model.Base.{
  ℕ, zero, suc, ◌+◌, ◌-◌, ◌*◌, ◌/◌, ◌%◌, ◌^◌, ◌≤◌, ◌<◌, bit_and, bit_or, bit_xor, ◌≡◌, refl, sym,
  ap, ◌∙◌, ◌≢◌, ◌⊎◌, inl, inr, Bool, true, false, not, ◌&&◌, ◌||◌, Option, none, some, List, [],
  ◌∷◌, ◌++◌, arith, ltb, leb, ◌==◌, bool_eq, if◌then◌else◌, ==_iff, Bool-cases, Option-cases,
  all_below, all_below_sound, update, fill, IsBytes, update-IsBytes, fill-IsBytes, u8, u16, u32,
  u64, shl, shr, has, clear8, word, bit_and_step, bit_or_step, bit_and-zero, bit_or-zero,
  bit_or_fields, word_lem, byte_bit, bit_and_low_byte, bit_and_low_word, bit_and-le, bit_or_byte,
  bit_or_word, bit_xor_step, bit_xor-lt, bit_xor_word,
}

-- `ay3891x_t`
pub record Ay (D : Type 0) : Type 0 where
  pub registers : ℕ → ℕ
  pub selected_reg : ℕ
  pub tone_period : ℕ → ℕ
  pub tone_counter : ℕ → ℕ
  pub tone_output : ℕ → ℕ
  pub noise_period : ℕ
  pub noise_counter : ℕ
  pub noise_shift : ℕ
  pub noise_output : ℕ
  pub env_period : ℕ
  pub env_counter : ℕ
  pub env_shape : ℕ
  pub env_step : ℕ
  pub env_volume : ℕ
  pub env_holding : Bool
  pub clock_rate : ℕ
  pub porta_input : Option (D → ℕ × D)
  pub userdata : D

abbrev pub num_registers : ℕ
num_registers = 16

-- A 12-bit tone period from two registers.
abbrev pub period_of : ℕ → ℕ → ℕ
period_of hi lo = bit_or (shl (bit_and hi 0x0f) 8) lo

module _ {D : Type 0} where
  unfoldable pub init : D → ℕ → Ay D
  init null clock = record {
    registers = update (update (λ _. 0) 14 0xff) 15 0xff;
    selected_reg = 0;
    tone_period = λ _. 0;
    tone_counter = λ _. 0;
    tone_output = λ _. 0;
    noise_period = 0;
    noise_counter = 0;
    noise_shift = 1;
    noise_output = 0;
    env_period = 0;
    env_counter = 0;
    env_shape = 0;
    env_step = 0;
    env_volume = 0;
    env_holding = false;
    clock_rate = clock;
    porta_input = none;
    userdata = null;
  }

  -- `null` stands for the zero bytes that `memset` leaves in `userdata`.
  unfoldable pub reset : D → Ay D → Ay D
  unfolding init
  reset null ay = init null ay.clock_rate

  unfoldable pub write_address : ℕ → Ay D → Ay D
  write_address addr ay = record ay { selected_reg = bit_and addr 0x0f }

  unfoldable pub latch : ℕ → ℕ → Ay D → Ay D
  latch reg byte ay =
      let r = ay.registers in
      if leb reg 1
      then record ay { tone_period = update ay.tone_period 0 (period_of (r 1) (r 0)) }
      else if leb reg 3
      then record ay { tone_period = update ay.tone_period 1 (period_of (r 3) (r 2)) }
      else if leb reg 5
      then record ay { tone_period = update ay.tone_period 2 (period_of (r 5) (r 4)) }
      else if reg == 6
      then record ay { noise_period = bit_and byte 0x1f }
      else if reg == 11 || reg == 12
      then record ay { env_period = bit_or (shl (r 12) 8) (r 11) }
      else if reg == 13
      then record ay {
        env_shape = bit_and byte 0x0f;
        env_step = 0;
        env_counter = 0;
        env_holding = false;
      }
      else ay

  unfoldable pub write_data : ℕ → Ay D → Ay D
  unfolding latch
  write_data byte ay =
      if leb num_registers ay.selected_reg
      then ay
      else latch ay.selected_reg byte
          (record ay { registers = update ay.registers ay.selected_reg byte })

  unfoldable pub read_data : Ay D → ℕ × Ay D
  read_data ay =
      if leb num_registers ay.selected_reg
      then (0xff, ay)
      else if ay.selected_reg == 14 && has (ay.registers 7) 0x40
      then elim ay.porta_input [
        | none ↦ (0xff, ay)
        | some callback ↦ let (v, d) = callback ay.userdata in (u8 v, record ay { userdata = d })
      ]
      else (ay.registers ay.selected_reg, ay)
