-- ===== src/Cpu/Valid/Arith.antt =====
-- Arithmetic, logic and shifts keep the core valid.
use oric2_golden_model.Base.{
  ℕ, ◌<◌, bit_and, Bool, arith, ◌==◌, bit_and-le, bit_or_word, bit_xor_word,
}
use oric2_golden_model.Cpu.State.{flag_zero, flag_decimal, Cpu}
use oric2_golden_model.Cpu.Access.{flag, setf, m_is_8bit, x_is_8bit, a_get_m}
use oric2_golden_model.Cpu.Alu.{
  op_adc_decimal, op_adc_binary, op_adc, op_sbc_decimal, op_sbc_binary, op_sbc, op_cmp, op_adc16,
  op_sbc16, op_adc_m, op_sbc_m, op_cmp_m, op_cmp_x, load_a, load_x, load_y, and_a, or_a, xor_a,
  cmp_a, cmp_x, cmp_y, bit_a,
}
use oric2_golden_model.Cpu.Valid.{IsValid, Keeps}
use oric2_golden_model.Cpu.Valid.Alu.{
  if-IsValid, a_get_m-lt, c-IsValid, setf-IsValid, update_nz-IsValid, update_nz_m-IsValid,
  update_nz_x-IsValid, set_a8-IsValid, load_a-IsValid, load_x-IsValid, load_y-IsValid,
}

module _ {D : Type 0} where
  flagged : (f : ℕ) (b : Bool) {s : Cpu D} → f < 256 → IsValid s → IsValid (setf f b s)
  flagged f b {s} lt v = setf-IsValid f b s lt v

  adc_decimal-IsValid : (n : ℕ) (s : Cpu D) → IsValid s → IsValid (op_adc_decimal n s)
  unfolding op_adc_decimal
  adc_decimal-IsValid n s v = set_a8-IsValid _ _ (omega arith) (
      flagged _ _ (omega arith)
        (flagged _ _ (omega arith) (flagged _ _ (omega arith) (flagged _ _ (omega arith) v))))

  adc_binary-IsValid : (n : ℕ) (s : Cpu D) → IsValid s → IsValid (op_adc_binary n s)
  unfolding op_adc_binary
  adc_binary-IsValid n s v =
      update_nz-IsValid _ _
        (set_a8-IsValid _ _ (omega arith) (flagged _ _ (omega arith) (flagged _ _ (omega arith) v)))

  op_adc-IsValid : (n : ℕ) (s : Cpu D) → IsValid s → IsValid (op_adc n s)
  unfolding op_adc
  op_adc-IsValid n s v =
      if-IsValid (flag flag_decimal s) (adc_decimal-IsValid n s v) (adc_binary-IsValid n s v)

  sbc_decimal-IsValid : (n : ℕ) (s : Cpu D) → IsValid s → IsValid (op_sbc_decimal n s)
  unfolding op_sbc_decimal
  sbc_decimal-IsValid n s v = set_a8-IsValid _ _ (omega arith) (
      flagged _ _ (omega arith)
        (flagged _ _ (omega arith) (flagged _ _ (omega arith) (flagged _ _ (omega arith) v))))

  sbc_binary-IsValid : (n : ℕ) (s : Cpu D) → IsValid s → IsValid (op_sbc_binary n s)
  unfolding op_sbc_binary
  sbc_binary-IsValid n s v =
      update_nz-IsValid _ _
        (set_a8-IsValid _ _ (omega arith) (flagged _ _ (omega arith) (flagged _ _ (omega arith) v)))

  op_sbc-IsValid : (n : ℕ) (s : Cpu D) → IsValid s → IsValid (op_sbc n s)
  unfolding op_sbc
  op_sbc-IsValid n s v =
      if-IsValid (flag flag_decimal s) (sbc_decimal-IsValid n s v) (sbc_binary-IsValid n s v)

  adc16-IsValid : (n : ℕ) (s : Cpu D) → IsValid s → IsValid (op_adc16 n s)
  unfolding op_adc16
  adc16-IsValid n s v =
      update_nz_m-IsValid _ _
        (c-IsValid _ _ (flagged _ _ (omega arith) (flagged _ _ (omega arith) v)) (omega arith))

  sbc16-IsValid : (n : ℕ) (s : Cpu D) → IsValid s → IsValid (op_sbc16 n s)
  unfolding op_sbc16
  sbc16-IsValid n s v =
      update_nz_m-IsValid _ _
        (c-IsValid _ _ (flagged _ _ (omega arith) (flagged _ _ (omega arith) v)) (omega arith))

  pub op_adc_m-IsValid : (n : ℕ) (s : Cpu D) → IsValid s → IsValid (op_adc_m n s)
  unfolding op_adc_m
  op_adc_m-IsValid n s v =
      if-IsValid (m_is_8bit s) (op_adc-IsValid _ s v)
        (if-IsValid (flag flag_decimal s) (op_adc-IsValid _ s v) (adc16-IsValid n s v))

  pub op_sbc_m-IsValid : (n : ℕ) (s : Cpu D) → IsValid s → IsValid (op_sbc_m n s)
  unfolding op_sbc_m
  op_sbc_m-IsValid n s v =
      if-IsValid (m_is_8bit s) (op_sbc-IsValid _ s v)
        (if-IsValid (flag flag_decimal s) (op_sbc-IsValid _ s v) (sbc16-IsValid n s v))

  op_cmp-IsValid : (r n : ℕ) (s : Cpu D) → IsValid s → IsValid (op_cmp r n s)
  unfolding op_cmp
  op_cmp-IsValid r n s v = update_nz-IsValid _ _ (flagged _ _ (omega arith) v)

  op_cmp_m-IsValid : (r n : ℕ) (s : Cpu D) → IsValid s → IsValid (op_cmp_m r n s)
  unfolding op_cmp_m
  op_cmp_m-IsValid r n s v =
      if-IsValid (m_is_8bit s) (op_cmp-IsValid _ _ s v)
        (update_nz_m-IsValid _ _ (flagged _ _ (omega arith) v))

  op_cmp_x-IsValid : (r n : ℕ) (s : Cpu D) → IsValid s → IsValid (op_cmp_x r n s)
  unfolding op_cmp_x
  op_cmp_x-IsValid r n s v =
      if-IsValid (x_is_8bit s) (op_cmp-IsValid _ _ s v)
        (update_nz_x-IsValid _ _ (flagged _ _ (omega arith) v))

  pub cmp_a-IsValid : (n : ℕ) (s : Cpu D) → IsValid s → IsValid (cmp_a n s)
  unfolding cmp_a
  cmp_a-IsValid n s v = op_cmp_m-IsValid _ n s v

  pub cmp_x-IsValid : (n : ℕ) (s : Cpu D) → IsValid s → IsValid (cmp_x n s)
  unfolding cmp_x
  cmp_x-IsValid n s v = op_cmp_x-IsValid _ n s v

  pub cmp_y-IsValid : (n : ℕ) (s : Cpu D) → IsValid s → IsValid (cmp_y n s)
  unfolding cmp_y
  cmp_y-IsValid n s v = op_cmp_x-IsValid _ n s v

  pub bit_a-IsValid : (n : ℕ) (s : Cpu D) → IsValid s → IsValid (bit_a n s)
  unfolding bit_a
  bit_a-IsValid n s v =
      if-IsValid (m_is_8bit (setf flag_zero (bit_and (a_get_m s) n == 0) s))
        (flagged _ _ (omega arith) (flagged _ _ (omega arith) (flagged _ _ (omega arith) v)))
        (flagged _ _ (omega arith) (flagged _ _ (omega arith) (flagged _ _ (omega arith) v)))

  pub and_a-IsValid : (n : ℕ) (s : Cpu D) → n < 65536 → IsValid s → IsValid (and_a n s)
  unfolding and_a
  and_a-IsValid n s lt v = load_a-IsValid _ s (omega (arith, bit_and-le (a_get_m s) n)) v

  pub or_a-IsValid : (n : ℕ) (s : Cpu D) → n < 65536 → IsValid s → IsValid (or_a n s)
  unfolding or_a
  or_a-IsValid n s lt v = load_a-IsValid _ s (bit_or_word (a_get_m s) n (a_get_m-lt s v) lt) v

  pub xor_a-IsValid : (n : ℕ) (s : Cpu D) → n < 65536 → IsValid s → IsValid (xor_a n s)
  unfolding xor_a
  xor_a-IsValid n s lt v = load_a-IsValid _ s (bit_xor_word (a_get_m s) n (a_get_m-lt s v) lt) v

-- An operation on an operand of 16 bits.
pub record KeepsAt {D : Type 0} (act : ℕ → Cpu D → Cpu D) : Type 0 where
  pub for : (n : ℕ) → n < 65536 → Keeps (act n)

module _ {D : Type 0} where
  keeps_at :
      (act : ℕ → Cpu D → Cpu D)
      → ((n : ℕ) (s : Cpu D) → n < 65536 → IsValid s → IsValid (act n s))
      → KeepsAt act
  keeps_at act h = record { for = λ n lt. record { at = λ s v. h n s lt v } }

  pub KeepsAt-load_a : KeepsAt {D = D} load_a
  KeepsAt-load_a = keeps_at _ load_a-IsValid

  pub KeepsAt-load_x : KeepsAt {D = D} load_x
  KeepsAt-load_x = keeps_at _ load_x-IsValid

  pub KeepsAt-load_y : KeepsAt {D = D} load_y
  KeepsAt-load_y = keeps_at _ load_y-IsValid

  pub KeepsAt-and_a : KeepsAt {D = D} and_a
  KeepsAt-and_a = keeps_at _ and_a-IsValid

  pub KeepsAt-or_a : KeepsAt {D = D} or_a
  KeepsAt-or_a = keeps_at _ or_a-IsValid

  pub KeepsAt-xor_a : KeepsAt {D = D} xor_a
  KeepsAt-xor_a = keeps_at _ xor_a-IsValid

  pub KeepsAt-op_adc_m : KeepsAt {D = D} op_adc_m
  KeepsAt-op_adc_m = keeps_at _ (λ n s _ v. op_adc_m-IsValid n s v)

  pub KeepsAt-op_sbc_m : KeepsAt {D = D} op_sbc_m
  KeepsAt-op_sbc_m = keeps_at _ (λ n s _ v. op_sbc_m-IsValid n s v)

  pub KeepsAt-cmp_a : KeepsAt {D = D} cmp_a
  KeepsAt-cmp_a = keeps_at _ (λ n s _ v. cmp_a-IsValid n s v)

  pub KeepsAt-cmp_x : KeepsAt {D = D} cmp_x
  KeepsAt-cmp_x = keeps_at _ (λ n s _ v. cmp_x-IsValid n s v)

  pub KeepsAt-cmp_y : KeepsAt {D = D} cmp_y
  KeepsAt-cmp_y = keeps_at _ (λ n s _ v. cmp_y-IsValid n s v)

  pub KeepsAt-bit_a : KeepsAt {D = D} bit_a
  KeepsAt-bit_a = keeps_at _ (λ n s _ v. bit_a-IsValid n s v)

pub ruleset keeps_at_rules = (
  KeepsAt-load_a, KeepsAt-load_x, KeepsAt-load_y, KeepsAt-and_a, KeepsAt-or_a, KeepsAt-xor_a,
  KeepsAt-op_adc_m, KeepsAt-op_sbc_m, KeepsAt-cmp_a, KeepsAt-cmp_x, KeepsAt-cmp_y, KeepsAt-bit_a,
)
