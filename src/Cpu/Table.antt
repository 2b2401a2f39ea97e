-- ===== src/Cpu/Table.antt =====
-- src/cpu/opcode_metadata.c: name, base cycles, size and addressing mode of the 256 opcodes.
use Prim.Native.String.{String}
use oric2_golden_model.Base.{ℕ, zero, suc, List, [], ◌∷◌, ◌++◌}

pub data AddressingMode : Type 0 where
  implicit accumulator immediate zero_page zero_page_x zero_page_y relative : AddressingMode
  absolute absolute_x absolute_y indirect indexed_indirect indirect_indexed : AddressingMode

-- `opcode_info_t`
pub record OpcodeInfo : Type 0 where
  pub name : String
  pub cycles : ℕ
  pub size : ℕ
  pub mode : AddressingMode

row : String → ℕ → ℕ → AddressingMode → OpcodeInfo
row name cycles size mode = record { name = name; cycles = cycles; size = size; mode = mode }

-- the entry at an index of the array, which has 256
entry : List OpcodeInfo → ℕ → OpcodeInfo
unfolding row
entry [] i = row "" 0 0 implicit
entry (x ∷ xs) zero = x
entry (x ∷ xs) (suc i) = entry xs i

rows_00 : List OpcodeInfo
unfolding row
rows_00 =
    row "BRK" 7 1 implicit
    ∷ row "ORA" 6 2 indexed_indirect
    ∷ row "???" 2 1 implicit
    ∷ row "???" 2 1 implicit
    ∷ row "???" 3 2 zero_page
    ∷ row "ORA" 3 2 zero_page
    ∷ row "ASL" 5 2 zero_page
    ∷ row "???" 2 1 implicit
    ∷ row "PHP" 3 1 implicit
    ∷ row "ORA" 2 2 immediate
    ∷ row "ASL" 2 1 accumulator
    ∷ row "???" 2 1 implicit
    ∷ row "???" 4 3 absolute
    ∷ row "ORA" 4 3 absolute
    ∷ row "ASL" 6 3 absolute
    ∷ row "???" 2 1 implicit
    ∷ row "BPL" 2 2 relative
    ∷ row "ORA" 5 2 indirect_indexed
    ∷ row "???" 2 1 implicit
    ∷ row "???" 2 1 implicit
    ∷ row "???" 4 2 zero_page_x
    ∷ row "ORA" 4 2 zero_page_x
    ∷ row "ASL" 6 2 zero_page_x
    ∷ row "???" 2 1 implicit
    ∷ row "CLC" 2 1 implicit
    ∷ row "ORA" 4 3 absolute_y
    ∷ row "???" 2 1 implicit
    ∷ row "???" 2 1 implicit
    ∷ row "???" 4 3 absolute_x
    ∷ row "ORA" 4 3 absolute_x
    ∷ row "ASL" 7 3 absolute_x
    ∷ row "???" 2 1 implicit
    ∷ []

rows_20 : List OpcodeInfo
unfolding row
rows_20 =
    row "JSR" 6 3 absolute
    ∷ row "AND" 6 2 indexed_indirect
    ∷ row "???" 2 1 implicit
    ∷ row "???" 2 1 implicit
    ∷ row "BIT" 3 2 zero_page
    ∷ row "AND" 3 2 zero_page
    ∷ row "ROL" 5 2 zero_page
    ∷ row "???" 2 1 implicit
    ∷ row "PLP" 4 1 implicit
    ∷ row "AND" 2 2 immediate
    ∷ row "ROL" 2 1 accumulator
    ∷ row "???" 2 1 implicit
    ∷ row "BIT" 4 3 absolute
    ∷ row "AND" 4 3 absolute
    ∷ row "ROL" 6 3 absolute
    ∷ row "???" 2 1 implicit
    ∷ row "BMI" 2 2 relative
    ∷ row "AND" 5 2 indirect_indexed
    ∷ row "???" 2 1 implicit
    ∷ row "???" 2 1 implicit
    ∷ row "???" 4 2 zero_page_x
    ∷ row "AND" 4 2 zero_page_x
    ∷ row "ROL" 6 2 zero_page_x
    ∷ row "???" 2 1 implicit
    ∷ row "SEC" 2 1 implicit
    ∷ row "AND" 4 3 absolute_y
    ∷ row "???" 2 1 implicit
    ∷ row "???" 2 1 implicit
    ∷ row "???" 4 3 absolute_x
    ∷ row "AND" 4 3 absolute_x
    ∷ row "ROL" 7 3 absolute_x
    ∷ row "???" 2 1 implicit
    ∷ []

rows_40 : List OpcodeInfo
unfolding row
rows_40 =
    row "RTI" 6 1 implicit
    ∷ row "EOR" 6 2 indexed_indirect
    ∷ row "???" 2 1 implicit
    ∷ row "???" 2 1 implicit
    ∷ row "???" 3 2 zero_page
    ∷ row "EOR" 3 2 zero_page
    ∷ row "LSR" 5 2 zero_page
    ∷ row "???" 2 1 implicit
    ∷ row "PHA" 3 1 implicit
    ∷ row "EOR" 2 2 immediate
    ∷ row "LSR" 2 1 accumulator
    ∷ row "???" 2 1 implicit
    ∷ row "JMP" 3 3 absolute
    ∷ row "EOR" 4 3 absolute
    ∷ row "LSR" 6 3 absolute
    ∷ row "???" 2 1 implicit
    ∷ row "BVC" 2 2 relative
    ∷ row "EOR" 5 2 indirect_indexed
    ∷ row "???" 2 1 implicit
    ∷ row "???" 2 1 implicit
    ∷ row "???" 4 2 zero_page_x
    ∷ row "EOR" 4 2 zero_page_x
    ∷ row "LSR" 6 2 zero_page_x
    ∷ row "???" 2 1 implicit
    ∷ row "CLI" 2 1 implicit
    ∷ row "EOR" 4 3 absolute_y
    ∷ row "???" 2 1 implicit
    ∷ row "???" 2 1 implicit
    ∷ row "???" 4 3 absolute_x
    ∷ row "EOR" 4 3 absolute_x
    ∷ row "LSR" 7 3 absolute_x
    ∷ row "???" 2 1 implicit
    ∷ []

rows_60 : List OpcodeInfo
unfolding row
rows_60 =
    row "RTS" 6 1 implicit
    ∷ row "ADC" 6 2 indexed_indirect
    ∷ row "???" 2 1 implicit
    ∷ row "???" 2 1 implicit
    ∷ row "???" 3 2 zero_page
    ∷ row "ADC" 3 2 zero_page
    ∷ row "ROR" 5 2 zero_page
    ∷ row "???" 2 1 implicit
    ∷ row "PLA" 4 1 implicit
    ∷ row "ADC" 2 2 immediate
    ∷ row "ROR" 2 1 accumulator
    ∷ row "???" 2 1 implicit
    ∷ row "JMP" 5 3 indirect
    ∷ row "ADC" 4 3 absolute
    ∷ row "ROR" 6 3 absolute
    ∷ row "???" 2 1 implicit
    ∷ row "BVS" 2 2 relative
    ∷ row "ADC" 5 2 indirect_indexed
    ∷ row "???" 2 1 implicit
    ∷ row "???" 2 1 implicit
    ∷ row "???" 4 2 zero_page_x
    ∷ row "ADC" 4 2 zero_page_x
    ∷ row "ROR" 6 2 zero_page_x
    ∷ row "???" 2 1 implicit
    ∷ row "SEI" 2 1 implicit
    ∷ row "ADC" 4 3 absolute_y
    ∷ row "???" 2 1 implicit
    ∷ row "???" 2 1 implicit
    ∷ row "???" 4 3 absolute_x
    ∷ row "ADC" 4 3 absolute_x
    ∷ row "ROR" 7 3 absolute_x
    ∷ row "???" 2 1 implicit
    ∷ []

rows_80 : List OpcodeInfo
unfolding row
rows_80 =
    row "???" 2 2 immediate
    ∷ row "STA" 6 2 indexed_indirect
    ∷ row "???" 2 2 immediate
    ∷ row "???" 2 1 implicit
    ∷ row "STY" 3 2 zero_page
    ∷ row "STA" 3 2 zero_page
    ∷ row "STX" 3 2 zero_page
    ∷ row "???" 2 1 implicit
    ∷ row "DEY" 2 1 implicit
    ∷ row "???" 2 2 immediate
    ∷ row "TXA" 2 1 implicit
    ∷ row "???" 2 1 implicit
    ∷ row "STY" 4 3 absolute
    ∷ row "STA" 4 3 absolute
    ∷ row "STX" 4 3 absolute
    ∷ row "???" 2 1 implicit
    ∷ row "BCC" 2 2 relative
    ∷ row "STA" 6 2 indirect_indexed
    ∷ row "???" 2 1 implicit
    ∷ row "???" 2 1 implicit
    ∷ row "STY" 4 2 zero_page_x
    ∷ row "STA" 4 2 zero_page_x
    ∷ row "STX" 4 2 zero_page_y
    ∷ row "???" 2 1 implicit
    ∷ row "TYA" 2 1 implicit
    ∷ row "STA" 5 3 absolute_y
    ∷ row "TXS" 2 1 implicit
    ∷ row "???" 2 1 implicit
    ∷ row "???" 2 1 implicit
    ∷ row "STA" 5 3 absolute_x
    ∷ row "???" 2 1 implicit
    ∷ row "???" 2 1 implicit
    ∷ []

rows_a0 : List OpcodeInfo
unfolding row
rows_a0 =
    row "LDY" 2 2 immediate
    ∷ row "LDA" 6 2 indexed_indirect
    ∷ row "LDX" 2 2 immediate
    ∷ row "???" 2 1 implicit
    ∷ row "LDY" 3 2 zero_page
    ∷ row "LDA" 3 2 zero_page
    ∷ row "LDX" 3 2 zero_page
    ∷ row "???" 2 1 implicit
    ∷ row "TAY" 2 1 implicit
    ∷ row "LDA" 2 2 immediate
    ∷ row "TAX" 2 1 implicit
    ∷ row "???" 2 1 implicit
    ∷ row "LDY" 4 3 absolute
    ∷ row "LDA" 4 3 absolute
    ∷ row "LDX" 4 3 absolute
    ∷ row "???" 2 1 implicit
    ∷ row "BCS" 2 2 relative
    ∷ row "LDA" 5 2 indirect_indexed
    ∷ row "???" 2 1 implicit
    ∷ row "???" 2 1 implicit
    ∷ row "LDY" 4 2 zero_page_x
    ∷ row "LDA" 4 2 zero_page_x
    ∷ row "LDX" 4 2 zero_page_y
    ∷ row "???" 2 1 implicit
    ∷ row "CLV" 2 1 implicit
    ∷ row "LDA" 4 3 absolute_y
    ∷ row "TSX" 2 1 implicit
    ∷ row "???" 2 1 implicit
    ∷ row "LDY" 4 3 absolute_x
    ∷ row "LDA" 4 3 absolute_x
    ∷ row "LDX" 4 3 absolute_y
    ∷ row "???" 2 1 implicit
    ∷ []

rows_c0 : List OpcodeInfo
unfolding row
rows_c0 =
    row "CPY" 2 2 immediate
    ∷ row "CMP" 6 2 indexed_indirect
    ∷ row "???" 2 2 immediate
    ∷ row "???" 2 1 implicit
    ∷ row "CPY" 3 2 zero_page
    ∷ row "CMP" 3 2 zero_page
    ∷ row "DEC" 5 2 zero_page
    ∷ row "???" 2 1 implicit
    ∷ row "INY" 2 1 implicit
    ∷ row "CMP" 2 2 immediate
    ∷ row "DEX" 2 1 implicit
    ∷ row "???" 2 1 implicit
    ∷ row "CPY" 4 3 absolute
    ∷ row "CMP" 4 3 absolute
    ∷ row "DEC" 6 3 absolute
    ∷ row "???" 2 1 implicit
    ∷ row "BNE" 2 2 relative
    ∷ row "CMP" 5 2 indirect_indexed
    ∷ row "???" 2 1 implicit
    ∷ row "???" 2 1 implicit
    ∷ row "???" 4 2 zero_page_x
    ∷ row "CMP" 4 2 zero_page_x
    ∷ row "DEC" 6 2 zero_page_x
    ∷ row "???" 2 1 implicit
    ∷ row "CLD" 2 1 implicit
    ∷ row "CMP" 4 3 absolute_y
    ∷ row "???" 2 1 implicit
    ∷ row "???" 2 1 implicit
    ∷ row "???" 4 3 absolute_x
    ∷ row "CMP" 4 3 absolute_x
    ∷ row "DEC" 7 3 absolute_x
    ∷ row "???" 2 1 implicit
    ∷ []

rows_e0 : List OpcodeInfo
unfolding row
rows_e0 =
    row "CPX" 2 2 immediate
    ∷ row "SBC" 6 2 indexed_indirect
    ∷ row "???" 2 2 immediate
    ∷ row "???" 2 1 implicit
    ∷ row "CPX" 3 2 zero_page
    ∷ row "SBC" 3 2 zero_page
    ∷ row "INC" 5 2 zero_page
    ∷ row "???" 2 1 implicit
    ∷ row "INX" 2 1 implicit
    ∷ row "SBC" 2 2 immediate
    ∷ row "NOP" 2 1 implicit
    ∷ row "???" 2 2 immediate
    ∷ row "CPX" 4 3 absolute
    ∷ row "SBC" 4 3 absolute
    ∷ row "INC" 6 3 absolute
    ∷ row "???" 2 1 implicit
    ∷ row "BEQ" 2 2 relative
    ∷ row "SBC" 5 2 indirect_indexed
    ∷ row "???" 2 1 implicit
    ∷ row "???" 2 1 implicit
    ∷ row "???" 4 2 zero_page_x
    ∷ row "SBC" 4 2 zero_page_x
    ∷ row "INC" 6 2 zero_page_x
    ∷ row "???" 2 1 implicit
    ∷ row "SED" 2 1 implicit
    ∷ row "SBC" 4 3 absolute_y
    ∷ row "???" 2 1 implicit
    ∷ row "???" 2 1 implicit
    ∷ row "???" 4 3 absolute_x
    ∷ row "SBC" 4 3 absolute_x
    ∷ row "INC" 7 3 absolute_x
    ∷ row "???" 2 1 implicit
    ∷ []

unfoldable pub opcode_table : ℕ → OpcodeInfo
unfolding entry rows_00 rows_20 rows_40 rows_60 rows_80 rows_a0 rows_c0 rows_e0
opcode_table i =
    entry
      (rows_00
        ++ (rows_20 ++ (rows_40 ++ (rows_60 ++ (rows_80 ++ (rows_a0 ++ (rows_c0 ++ (rows_e0))))))))
      i
