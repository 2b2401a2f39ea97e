-- ===== src/Cpu/Valid/Memory.antt =====
-- The cases that write memory keep the core valid.
use oric2_golden_model.Base.{ℕ, arith}
use oric2_golden_model.Cpu.Alu.{asl8, lsr8, rol8, ror8, inc8, dec8}
use oric2_golden_model.Cpu.Exec.Memory.{
  sta_long_cases, sta_dp_indirect_cases, sta_cases, stx_cases, sty_cases, stz_cases, asl_cases,
  lsr_cases, rol_cases, ror_cases, inc_cases, dec_cases,
}
use oric2_golden_model.Cpu.Valid.{Any, Yields}
use oric2_golden_model.Cpu.Valid.Address.{address_rules}
use oric2_golden_model.Cpu.Valid.Alu.{setf-IsValid}
use oric2_golden_model.Cpu.Valid.Shapes.{KeepsCases, shape_rules}

module _ {D : Type 0} where
  Yields-asl8 : (n : ℕ) → Yields {D = D} Any (asl8 n)
  unfolding asl8
  Yields-asl8 n = record { at = λ s v. (setf-IsValid _ _ s (omega arith) v, tt) }

  Yields-lsr8 : (n : ℕ) → Yields {D = D} Any (lsr8 n)
  unfolding lsr8
  Yields-lsr8 n = record { at = λ s v. (setf-IsValid _ _ s (omega arith) v, tt) }

  Yields-rol8 : (n : ℕ) → Yields {D = D} Any (rol8 n)
  unfolding rol8
  Yields-rol8 n = record { at = λ s v. (setf-IsValid _ _ s (omega arith) v, tt) }

  Yields-ror8 : (n : ℕ) → Yields {D = D} Any (ror8 n)
  unfolding ror8
  Yields-ror8 n = record { at = λ s v. (setf-IsValid _ _ s (omega arith) v, tt) }

  Yields-inc8 : (n : ℕ) → Yields {D = D} Any (inc8 n)
  unfolding inc8
  Yields-inc8 n = record { at = λ s v. (v, tt) }

  Yields-dec8 : (n : ℕ) → Yields {D = D} Any (dec8 n)
  unfolding dec8
  Yields-dec8 n = record { at = λ s v. (v, tt) }

  pub KeepsCases-sta_long_cases : KeepsCases {D = D} sta_long_cases
  unfolding sta_long_cases
  KeepsCases-sta_long_cases = search (shape_rules, address_rules) depth 20

  pub KeepsCases-sta_dp_indirect_cases : KeepsCases {D = D} sta_dp_indirect_cases
  unfolding sta_dp_indirect_cases
  KeepsCases-sta_dp_indirect_cases = search (shape_rules, address_rules) depth 20

  pub KeepsCases-sta_cases : KeepsCases {D = D} sta_cases
  unfolding sta_cases
  KeepsCases-sta_cases = search (shape_rules, address_rules) depth 20

  pub KeepsCases-stx_cases : KeepsCases {D = D} stx_cases
  unfolding stx_cases
  KeepsCases-stx_cases = search (shape_rules, address_rules) depth 20

  pub KeepsCases-sty_cases : KeepsCases {D = D} sty_cases
  unfolding sty_cases
  KeepsCases-sty_cases = search (shape_rules, address_rules) depth 20

  pub KeepsCases-stz_cases : KeepsCases {D = D} stz_cases
  unfolding stz_cases
  KeepsCases-stz_cases = search (shape_rules, address_rules) depth 20

  pub KeepsCases-asl_cases : KeepsCases {D = D} asl_cases
  unfolding asl_cases
  KeepsCases-asl_cases = search (shape_rules, address_rules, Yields-asl8) depth 20

  pub KeepsCases-lsr_cases : KeepsCases {D = D} lsr_cases
  unfolding lsr_cases
  KeepsCases-lsr_cases = search (shape_rules, address_rules, Yields-lsr8) depth 20

  pub KeepsCases-rol_cases : KeepsCases {D = D} rol_cases
  unfolding rol_cases
  KeepsCases-rol_cases = search (shape_rules, address_rules, Yields-rol8) depth 20

  pub KeepsCases-ror_cases : KeepsCases {D = D} ror_cases
  unfolding ror_cases
  KeepsCases-ror_cases = search (shape_rules, address_rules, Yields-ror8) depth 20

  pub KeepsCases-inc_cases : KeepsCases {D = D} inc_cases
  unfolding inc_cases
  KeepsCases-inc_cases = search (shape_rules, address_rules, Yields-inc8) depth 20

  pub KeepsCases-dec_cases : KeepsCases {D = D} dec_cases
  unfolding dec_cases
  KeepsCases-dec_cases = search (shape_rules, address_rules, Yields-dec8) depth 20
