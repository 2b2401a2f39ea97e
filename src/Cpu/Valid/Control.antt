-- ===== src/Cpu/Valid/Control.antt =====
-- The cases that move the stack or the program counter keep the core valid.
use oric2_golden_model.Base.{
  ℕ, ◌+◌, ◌-◌, ◌<◌, Bool, not, ◌&&◌, arith, u16, has, word, bit_and-le, bit_or_byte,
}
use oric2_golden_model.Cpu.State.{flag_x_index, Cpu, M}
use oric2_golden_model.Cpu.Access.{update_nz, update_nz16, push_m, pull_m, push_x, pull_x}
use oric2_golden_model.Cpu.Address.{add_signed16}
use oric2_golden_model.Cpu.Exec.Control.{
  pla, pha, php, take_status, plp, push_reg_x, pull_reg_x, stack_cases, push_byte_of, plb, phd, pld,
  pea, pei, per, native_stack_cases, do_branch, branch_on, branch_cases, bra, brl, bra_cases,
  jump_to, go_long, jmp_long, jml, jsl, rtl, jsr, rts, jump_cases,
}
use oric2_golden_model.Cpu.Valid.{IsValid, Any, Word, Yields, Keeps, yields_rules}
use oric2_golden_model.Cpu.Valid.Access.{
  Yields-read24, Yields-fetch_byte, Yields-fetch_word_pc, Yields-push, Yields-pull,
  Yields-push_word, Yields-pull_word, Yields-push_sized, Yields-pull_sized,
}
use oric2_golden_model.Cpu.Valid.Address.{
  Yields-addr_abs, Yields-addr_indirect, Yields-zp_pointer, Yields-addr_relative,
  Yields-fetch_long_pc, Yields-addr_long,
}
use oric2_golden_model.Cpu.Valid.Alu.{p-IsValid, update_nz-IsValid, update_nz16-IsValid, if-IsValid}
use oric2_golden_model.Cpu.Valid.Registers.{truncate_xy-IsValid}
use oric2_golden_model.Cpu.Valid.Arith.{KeepsAt, KeepsAt-load_a, KeepsAt-load_x, KeepsAt-load_y}
use oric2_golden_model.Cpu.Valid.Shapes.{KeepsCase, KeepsCases, Yields-act, shape_rules}

pub word-lt : (lo hi : ℕ) → word lo hi < 65536
unfolding word
word-lt lo hi = omega arith

-- New values of one register.
module _ {D : Type 0} where
  keeps : {f : Cpu D → Cpu D} → ((s : Cpu D) → IsValid s → IsValid (f s)) → Keeps f
  keeps h = record { at = h }

  pub Keeps-pc : (a : ℕ) → a < 65536 → Keeps {D = D} (λ s. record s { pc = a })
  Keeps-pc a h = keeps λ s v. ground arith

  pub Keeps-pbr : (b : ℕ) → b < 256 → Keeps {D = D} (λ s. record s { pbr = b })
  Keeps-pbr b h = keeps λ s v. ground arith

  Keeps-dbr : (b : ℕ) → b < 256 → Keeps {D = D} (λ s. record s { dbr = b })
  Keeps-dbr b h = keeps λ s v. ground arith

  Keeps-plb : (b : ℕ) → b < 256 → Keeps {D = D} (λ s. update_nz b (record s { dbr = b }))
  Keeps-plb b h = keeps λ s v. update_nz-IsValid b _ ((Keeps-dbr b h).at s v)

  d-IsValid : (d : ℕ) (s : Cpu D) → IsValid s → d < 65536 → IsValid (record s { d = d })
  d-IsValid d s v h = ground arith

  Keeps-pld : (d : ℕ) → d < 65536 → Keeps {D = D} (λ s. update_nz16 d (record s { d = d }))
  Keeps-pld d h = keeps λ s v. update_nz16-IsValid d _ (d-IsValid d s v h)

  pub Keeps-go_long : (target : ℕ) → Keeps {D = D} (go_long target)
  unfolding go_long
  Keeps-go_long target = keeps λ s v. ground arith

  Keeps-jml :
      (bank lo hi : ℕ) → bank < 256 → Keeps {D = D} (λ s. record s { pbr = bank; pc = word lo hi })
  Keeps-jml bank lo hi hb =
      keeps λ s v. (Keeps-pc _ (word-lt lo hi)).at _ ((Keeps-pbr bank hb).at s v)

  pub Keeps-take_status : (v : ℕ) → v < 256 → Keeps {D = D} (take_status v)
  unfolding take_status
  Keeps-take_status n lt = keeps λ s v.
      if-IsValid s.e
        (p-IsValid _ s v (bit_or_byte _ 32 (omega (arith, bit_and-le n (255 - 16))) (omega arith)))
        (if-IsValid (not (has s.p flag_x_index) && has n flag_x_index)
          (truncate_xy-IsValid _ (p-IsValid n s v lt)) (p-IsValid n s v lt))

  KeepsCase-pla : KeepsCase {D = D} pla
  unfolding pla pull_m
  KeepsCase-pla = record {
    for = λ n. search (yields_rules, Yields-pull_sized, Yields-act KeepsAt-load_a) depth 9;
  }

  KeepsCase-pha : KeepsCase {D = D} pha
  unfolding pha push_m
  KeepsCase-pha = record { for = λ n. search (yields_rules, Yields-push_sized) depth 9 }

  KeepsCase-php : KeepsCase {D = D} php
  unfolding php
  KeepsCase-php = record { for = λ n. search (yields_rules, Yields-push) depth 9 }

  KeepsCase-plp : KeepsCase {D = D} plp
  unfolding plp
  KeepsCase-plp = record {
    for = λ n. search (yields_rules, Yields-pull, Keeps-take_status) depth 9;
  }

  KeepsCase-push_reg_x : (reg : Cpu D → ℕ) → KeepsCase (push_reg_x reg)
  unfolding push_reg_x push_x
  KeepsCase-push_reg_x reg = record { for = λ n. search (yields_rules, Yields-push_sized) depth 9 }

  KeepsCase-pull_reg_x : {act : ℕ → Cpu D → Cpu D} → KeepsAt act → KeepsCase (pull_reg_x act)
  unfolding pull_reg_x pull_x
  KeepsCase-pull_reg_x keeps_act = record {
    for = λ n. search (yields_rules, Yields-pull_sized, Yields-act keeps_act) depth 9;
  }

  pub KeepsCases-stack_cases : KeepsCases {D = D} stack_cases
  unfolding stack_cases
  KeepsCases-stack_cases =
      search
        (
          shape_rules, KeepsCase-pla, KeepsCase-pha, KeepsCase-php, KeepsCase-plp,
          KeepsCase-push_reg_x, KeepsCase-pull_reg_x, KeepsAt-load_x, KeepsAt-load_y,
        )
        depth 20

  KeepsCase-push_byte_of : (reg : Cpu D → ℕ) → KeepsCase (push_byte_of reg)
  unfolding push_byte_of
  KeepsCase-push_byte_of reg = record { for = λ n. search (yields_rules, Yields-push) depth 9 }

  KeepsCase-plb : KeepsCase {D = D} plb
  unfolding plb
  KeepsCase-plb = record { for = λ n. search (yields_rules, Yields-pull, Keeps-plb) depth 9 }

  KeepsCase-phd : KeepsCase {D = D} phd
  unfolding phd
  KeepsCase-phd = record { for = λ n. search (yields_rules, Yields-push_word) depth 9 }

  KeepsCase-pld : KeepsCase {D = D} pld
  unfolding pld
  KeepsCase-pld = record { for = λ n. search (yields_rules, Yields-pull_word, Keeps-pld) depth 9 }

  KeepsCase-pea : KeepsCase {D = D} pea
  unfolding pea
  KeepsCase-pea = record {
    for = λ n. search (yields_rules, Yields-fetch_word_pc, Yields-push_word) depth 9;
  }

  KeepsCase-pei : KeepsCase {D = D} pei
  unfolding pei
  KeepsCase-pei = record {
    for =
        λ n. search (yields_rules, Yields-fetch_byte, Yields-zp_pointer, Yields-push_word) depth 9;
  }

  KeepsCase-per : KeepsCase {D = D} per
  unfolding per
  KeepsCase-per = record {
    for = λ n. search (yields_rules, Yields-fetch_word_pc, Yields-push_word) depth 9;
  }

  pub KeepsCases-native_stack_cases : KeepsCases {D = D} native_stack_cases
  unfolding native_stack_cases
  KeepsCases-native_stack_cases =
      search
        (
          shape_rules, KeepsCase-push_byte_of, KeepsCase-plb, KeepsCase-phd, KeepsCase-pld,
          KeepsCase-pea, KeepsCase-pei, KeepsCase-per,
        )
        depth 20

  Yields-do_branch : (taken : Bool) → Yields {D = D} Any (do_branch taken)
  unfolding do_branch
  Yields-do_branch taken = search (yields_rules, Yields-addr_relative, Keeps-pc) depth 9

  KeepsCase-branch_on : (f : ℕ) (wanted : Bool) → KeepsCase {D = D} (branch_on f wanted)
  unfolding branch_on
  KeepsCase-branch_on f wanted = record {
    for = λ n. search (yields_rules, Yields-do_branch) depth 9;
  }

  pub KeepsCases-branch_cases : KeepsCases {D = D} branch_cases
  unfolding branch_cases
  KeepsCases-branch_cases = search (shape_rules, KeepsCase-branch_on) depth 20

  KeepsCase-bra : KeepsCase {D = D} bra
  unfolding bra
  KeepsCase-bra = record {
    for = λ n. search (yields_rules, Yields-addr_relative, Keeps-pc) depth 9;
  }

  Keeps-brl : (offset : ℕ) → Keeps {D = D} (λ s. record s { pc = add_signed16 s.pc offset })
  unfolding add_signed16
  Keeps-brl offset = keeps λ s v. (Keeps-pc (add_signed16 s.pc offset) (ground arith)).at s v

  KeepsCase-brl : KeepsCase {D = D} brl
  unfolding brl
  KeepsCase-brl = record {
    for = λ n. search (yields_rules, Yields-fetch_word_pc, Keeps-brl) depth 9;
  }

  pub KeepsCases-bra_cases : KeepsCases {D = D} bra_cases
  unfolding bra_cases
  KeepsCases-bra_cases = search (shape_rules, KeepsCase-bra, KeepsCase-brl) depth 20

  KeepsCase-jump_to : {mode : M D ℕ} → Yields Word mode → KeepsCase (jump_to mode)
  unfolding jump_to
  KeepsCase-jump_to h = record { for = λ n. search (yields_rules, Keeps-pc) depth 9 }

  KeepsCase-jmp_long : KeepsCase {D = D} jmp_long
  unfolding jmp_long
  KeepsCase-jmp_long = record {
    for = λ n. search (yields_rules, Yields-addr_long, Keeps-go_long) depth 9;
  }

  KeepsCase-jml : KeepsCase {D = D} jml
  unfolding jml
  KeepsCase-jml = record {
    for = λ n. search (yields_rules, Yields-fetch_word_pc, Yields-read24, Keeps-jml) depth 12;
  }

  KeepsCase-jsl : KeepsCase {D = D} jsl
  unfolding jsl
  KeepsCase-jsl = record {
    for = λ n.
        search (yields_rules, Yields-fetch_long_pc, Yields-push, Yields-push_word, Keeps-go_long)
          depth 12;
  }

  Keeps-return : (a : ℕ) → Keeps {D = D} (λ s. record s { pc = u16 (a + 1) })
  Keeps-return a = Keeps-pc (u16 (a + 1)) (omega arith)

  KeepsCase-rtl : KeepsCase {D = D} rtl
  unfolding rtl
  KeepsCase-rtl = record {
    for =
        λ n. search (yields_rules, Yields-pull, Yields-pull_word, Keeps-return, Keeps-pbr) depth 12;
  }

  KeepsCase-jsr : KeepsCase {D = D} jsr
  unfolding jsr
  KeepsCase-jsr = record {
    for = λ n. search (yields_rules, Yields-addr_abs, Yields-push_word, Keeps-pc) depth 12;
  }

  KeepsCase-rts : KeepsCase {D = D} rts
  unfolding rts
  KeepsCase-rts = record {
    for = λ n. search (yields_rules, Yields-pull_word, Keeps-return) depth 12;
  }

  pub KeepsCases-jump_cases : KeepsCases {D = D} jump_cases
  unfolding jump_cases
  KeepsCases-jump_cases =
      search
        (
          shape_rules, Yields-addr_abs, Yields-addr_indirect, KeepsCase-jump_to, KeepsCase-jmp_long,
          KeepsCase-jml, KeepsCase-jsl, KeepsCase-rtl, KeepsCase-jsr, KeepsCase-rts,
        )
        depth 20
