-- ===== src/Cpu/Valid/Address.antt =====
-- The addressing modes keep the core valid and give addresses of 16 bits.
use oric2_golden_model.Base.{ℕ, ◌<◌, bit_and, arith, word, bit_and-le}
use oric2_golden_model.Cpu.State.{pure}
use oric2_golden_model.Cpu.Address.{
  add_signed8, indexed, addr_zp, addr_zp_x, addr_zp_y, addr_abs, addr_abs_x, addr_abs_y,
  addr_indirect, zp_pointer, addr_indexed_indirect, addr_indirect_indexed, addr_relative,
  fetch_long_pc, addr_long, addr_long_x, addr_dp_indirect_long, addr_dp_indirect_long_y,
  addr_dp_indirect,
}
use oric2_golden_model.Cpu.Valid.{Any, Word, Address, Yields, Yields-pure, yields_rules}
use oric2_golden_model.Cpu.Valid.Access.{
  Yields-mem_read, Yields-read24, Yields-fetch_byte, Yields-word, Yields-fetch_word_pc,
  Yields-weaken,
}

word-lt : (lo hi : ℕ) → word lo hi < 65536
unfolding word
word-lt lo hi = omega arith

module _ {D : Type 0} where
  low_byte : (n : ℕ) → Yields {D = D} Word (pure (bit_and n 0xff))
  low_byte n = Yields-pure Word _ (omega (arith, bit_and-le n 0xff))

  pub Yields-addr_zp : Yields {D = D} Word addr_zp
  unfolding addr_zp
  Yields-addr_zp = Yields-weaken Yields-fetch_byte

  pub Yields-addr_zp_x : Yields {D = D} Word addr_zp_x
  unfolding addr_zp_x
  Yields-addr_zp_x = search (yields_rules, Yields-fetch_byte, low_byte)

  pub Yields-addr_zp_y : Yields {D = D} Word addr_zp_y
  unfolding addr_zp_y
  Yields-addr_zp_y = search (yields_rules, Yields-fetch_byte, low_byte)

  pub Yields-addr_abs : Yields {D = D} Word addr_abs
  unfolding addr_abs
  Yields-addr_abs = Yields-fetch_word_pc

  Yields-indexed : (base idx : ℕ) → Yields {D = D} Address (pure (indexed base idx))
  unfolding indexed
  Yields-indexed base idx = Yields-pure Address _ (omega arith)

  pub Yields-addr_abs_x : Yields {D = D} Address addr_abs_x
  unfolding addr_abs_x
  Yields-addr_abs_x = search (yields_rules, Yields-fetch_word_pc, Yields-indexed)

  pub Yields-addr_abs_y : Yields {D = D} Address addr_abs_y
  unfolding addr_abs_y
  Yields-addr_abs_y = search (yields_rules, Yields-fetch_word_pc, Yields-indexed)

  pub Yields-addr_indirect : Yields {D = D} Word addr_indirect
  unfolding addr_indirect
  Yields-addr_indirect = search (yields_rules, Yields-fetch_word_pc, Yields-mem_read, Yields-word)

  pub Yields-zp_pointer : (zpg : ℕ) → Yields {D = D} Word (zp_pointer zpg)
  unfolding zp_pointer
  Yields-zp_pointer zpg = search (yields_rules, Yields-mem_read, Yields-word)

  pub Yields-addr_indexed_indirect : Yields {D = D} Word addr_indexed_indirect
  unfolding addr_indexed_indirect
  Yields-addr_indexed_indirect = search (yields_rules, Yields-fetch_byte, Yields-zp_pointer)

  pub Yields-addr_indirect_indexed : Yields {D = D} Address addr_indirect_indexed
  unfolding addr_indirect_indexed
  Yields-addr_indirect_indexed =
      search (yields_rules, Yields-fetch_byte, Yields-zp_pointer, Yields-indexed)

  Yields-add_signed8 : (pc offset : ℕ) → Yields {D = D} Word (pure (add_signed8 pc offset))
  unfolding add_signed8
  Yields-add_signed8 pc offset = Yields-pure Word _ (ground arith)

  pub Yields-addr_relative : Yields {D = D} Word addr_relative
  unfolding addr_relative
  Yields-addr_relative = search (yields_rules, Yields-fetch_byte, Yields-add_signed8)

  pub Yields-fetch_long_pc : Yields {D = D} Any fetch_long_pc
  unfolding fetch_long_pc
  Yields-fetch_long_pc = search (yields_rules, Yields-fetch_byte)

  pub Yields-addr_long : Yields {D = D} Any addr_long
  unfolding addr_long
  Yields-addr_long = Yields-fetch_long_pc

  pub Yields-addr_long_x : Yields {D = D} Any addr_long_x
  unfolding addr_long_x
  Yields-addr_long_x = search (yields_rules, Yields-fetch_long_pc)

  pub Yields-addr_dp_indirect_long : Yields {D = D} Any addr_dp_indirect_long
  unfolding addr_dp_indirect_long
  Yields-addr_dp_indirect_long = search (yields_rules, Yields-fetch_byte, Yields-read24) depth 9

  pub Yields-addr_dp_indirect_long_y : Yields {D = D} Any addr_dp_indirect_long_y
  unfolding addr_dp_indirect_long_y
  Yields-addr_dp_indirect_long_y = search (yields_rules, Yields-addr_dp_indirect_long)

  pub Yields-addr_dp_indirect : Yields {D = D} Any addr_dp_indirect
  unfolding addr_dp_indirect
  Yields-addr_dp_indirect = search (yields_rules, Yields-fetch_byte, Yields-read24) depth 9

pub ruleset address_rules = (
  Yields-addr_zp, Yields-addr_zp_x, Yields-addr_zp_y, Yields-addr_abs, Yields-addr_abs_x,
  Yields-addr_abs_y, Yields-addr_indexed_indirect, Yields-addr_indirect_indexed,
  Yields-addr_relative, Yields-addr_indirect, Yields-zp_pointer, Yields-fetch_long_pc,
  Yields-addr_long, Yields-addr_long_x, Yields-addr_dp_indirect_long,
  Yields-addr_dp_indirect_long_y, Yields-addr_dp_indirect,
)
