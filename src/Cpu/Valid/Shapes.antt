-- ===== src/Cpu/Valid/Shapes.antt =====
-- The shapes of the cases of the switch, and lists of cases, keep the core valid.
use oric2_golden_model.Base.{
  ℕ, ◌<◌, Bool, true, false, Option, none, some, [], ◌∷◌, ◌==◌, if◌then◌else◌,
}
use oric2_golden_model.Cpu.State.{Cpu, M, modify}
use oric2_golden_model.Cpu.Access.{
  update_nz, read_m, write_m, fetch_imm_m, read_x, write_x, fetch_imm_x,
}
use oric2_golden_model.Cpu.Exec.Shapes.{
  Action, Cases, plain, no_cross, on_m, on_imm_m, on_x, on_imm_x, native, skip_byte, skip_word,
  skip_long, on_m24, store_m, store_x, store_m24, rmw, on_regs,
}
use oric2_golden_model.Cpu.Exec.{in_cases}
use oric2_golden_model.Cpu.Valid.{
  IsValid, Any, Byte, Word, Address, Yields, Keeps, Yields-pure, Yields-gets, Yields-look,
  Yields-end, Yields-if, Yields-modify, Yields-bind, then-Any, then-Byte, then-Word, then-Address,
  yields_rules,
}
use oric2_golden_model.Cpu.Valid.Access.{
  Yields-mem_read, Yields-mem_write, Yields-fetch_byte, Yields-fetch_word_pc, Yields-read_sized,
  Yields-write_sized, Yields-fetch_imm, Yields-read_m24, Yields-write_m24,
}
use oric2_golden_model.Cpu.Valid.Address.{Yields-fetch_long_pc}
use oric2_golden_model.Cpu.Valid.Alu.{update_nz-IsValid}
use oric2_golden_model.Cpu.Valid.Arith.{KeepsAt}

-- A case of the switch that keeps the core valid, whatever its base cycles.
pub record KeepsCase {D : Type 0} (act : Action D) : Type 0 where
  pub for : (cycles : ℕ) → Yields Any (act cycles)

-- A case that was found, if one was.
pub data KeepsFound {D : Type 0} : Option (Action D) → Type 0 where
  not_found : KeepsFound none
  found : {act : Action D} → KeepsCase act → KeepsFound (some act)

-- A list of cases that keep the core valid.
pub record KeepsCases {D : Type 0} (cases : Cases D) : Type 0 where
  pub search_in :
      (op : ℕ) (rest : Option (Action D)) → KeepsFound rest → KeepsFound (in_cases op cases rest)

module _ {D : Type 0} where
  pub KeepsCases-nil : KeepsCases {D = D} []
  unfolding in_cases
  KeepsCases-nil = record { search_in = λ op rest h. h }

  KeepsFound-if :
      (b : Bool) {o : Option (Action D)} {act : Action D}
      → KeepsCase act
      → KeepsFound o
      → KeepsFound (if b then some act else o)
  KeepsFound-if true h r = found h
  KeepsFound-if false h r = r

  pub KeepsCases-cons :
      {k : ℕ} {act : Action D} {cases : Cases D}
      → KeepsCase act
      → KeepsCases cases
      → KeepsCases ((k, act) ∷ cases)
  unfolding in_cases
  KeepsCases-cons {k} h hs = record {
    search_in = λ op rest r. KeepsFound-if (k == op) h (hs.search_in op rest r);
  }

  pub Yields-plain : {mode : M D ℕ} → Yields Word mode → Yields Address (plain mode)
  Yields-plain h = search (yields_rules)

  pub Yields-no_cross : {mode : M D (ℕ × Bool)} → Yields Address mode → Yields Word (no_cross mode)
  Yields-no_cross h = search (yields_rules)

  module _ {act : ℕ → Cpu D → Cpu D} (keeps : KeepsAt act) where
    pub Yields-act : (n : ℕ) → n < 65536 → Yields Any (modify (act n))
    Yields-act n lt = Yields-modify (keeps.for n lt)

    pub KeepsCase-on_m : {mode : M D (ℕ × Bool)} → Yields Address mode → KeepsCase (on_m mode act)
    unfolding on_m read_m
    KeepsCase-on_m h = record {
      for = λ n. search (yields_rules, Yields-read_sized, Yields-act) depth 9;
    }

    pub KeepsCase-on_imm_m : KeepsCase (on_imm_m act)
    unfolding on_imm_m fetch_imm_m
    KeepsCase-on_imm_m = record {
      for = λ n. search (yields_rules, Yields-fetch_imm, Yields-act) depth 9;
    }

    pub KeepsCase-on_x : {mode : M D (ℕ × Bool)} → Yields Address mode → KeepsCase (on_x mode act)
    unfolding on_x read_x
    KeepsCase-on_x h = record {
      for = λ n. search (yields_rules, Yields-read_sized, Yields-act) depth 9;
    }

    pub KeepsCase-on_imm_x : KeepsCase (on_imm_x act)
    unfolding on_imm_x fetch_imm_x
    KeepsCase-on_imm_x = record {
      for = λ n. search (yields_rules, Yields-fetch_imm, Yields-act) depth 9;
    }

  pub KeepsCase-native :
      {skip : M D (Unit {0})} {act : Action D}
      → Yields Any skip
      → KeepsCase act
      → KeepsCase (native skip act)
  unfolding native
  KeepsCase-native hs h = record {
    for = λ n.
        then-Any _ _ (Yields-look _)
          (λ e. Yields-if e (then-Any _ _ hs (λ u. Yields-end n)) (h.for n));
  }

  pub KeepsCase-on_m24 :
      {skip : M D (Unit {0})} {mode : M D ℕ} {act : ℕ → Cpu D → Cpu D}
      → Yields Any skip
      → Yields Any mode
      → KeepsAt act
      → KeepsCase (on_m24 skip mode act)
  unfolding on_m24
  KeepsCase-on_m24 hs hm keeps =
      KeepsCase-native hs
        (record { for = λ n. search (yields_rules, Yields-read_m24, Yields-act keeps) depth 9 })

  pub KeepsCase-store_m :
      {mode : M D ℕ} (reg : Cpu D → ℕ) → Yields Word mode → KeepsCase (store_m mode reg)
  unfolding store_m write_m
  KeepsCase-store_m reg h = record { for = λ n. search (yields_rules, Yields-write_sized) depth 9 }

  pub KeepsCase-store_x :
      {mode : M D ℕ} (reg : Cpu D → ℕ) → Yields Word mode → KeepsCase (store_x mode reg)
  unfolding store_x write_x
  KeepsCase-store_x reg h = record { for = λ n. search (yields_rules, Yields-write_sized) depth 9 }

  pub KeepsCase-store_m24 :
      {skip : M D (Unit {0})} {mode : M D ℕ}
      → Yields Any skip
      → Yields Any mode
      → KeepsCase (store_m24 skip mode)
  unfolding store_m24
  KeepsCase-store_m24 hs hm =
      KeepsCase-native hs (record { for = λ n. search (yields_rules, Yields-write_m24) depth 9 })

  Keeps-update_nz : (n : ℕ) → Keeps {D = D} (update_nz n)
  Keeps-update_nz n = record { at = λ s v. update_nz-IsValid n s v }

  pub KeepsCase-rmw :
      {mode : M D ℕ} {change : ℕ → M D ℕ}
      → Yields Word mode
      → ((n : ℕ) → Yields Any (change n))
      → KeepsCase (rmw mode change)
  unfolding rmw
  KeepsCase-rmw h hc = record {
    for = λ n. search (yields_rules, Yields-mem_read, Yields-mem_write, Keeps-update_nz) depth 9;
  }

  pub KeepsCase-on_regs : {change : Cpu D → Cpu D} → Keeps change → KeepsCase (on_regs change)
  unfolding on_regs
  KeepsCase-on_regs h = record { for = λ n. search (yields_rules) }

  pub Yields-skip_byte : Yields {D = D} Any skip_byte
  Yields-skip_byte = search (yields_rules, Yields-fetch_byte)

  pub Yields-skip_word : Yields {D = D} Any skip_word
  Yields-skip_word = search (yields_rules, Yields-fetch_word_pc)

  pub Yields-skip_long : Yields {D = D} Any skip_long
  Yields-skip_long = search (yields_rules, Yields-fetch_long_pc)

pub ruleset shape_rules = (
  KeepsCases-nil, KeepsCases-cons, Yields-plain, Yields-no_cross, KeepsCase-on_m,
  KeepsCase-on_imm_m, KeepsCase-on_x, KeepsCase-on_imm_x, KeepsCase-native, KeepsCase-on_m24,
  KeepsCase-store_m, KeepsCase-store_x, KeepsCase-store_m24, KeepsCase-rmw, KeepsCase-on_regs,
  Yields-skip_byte, Yields-skip_word, Yields-skip_long, Yields-end,
)
