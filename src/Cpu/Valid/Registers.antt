-- ===== src/Cpu/Valid/Registers.antt =====
-- The cases that change registers keep the core valid.
use oric2_golden_model.Base.{
  ℕ, ◌-◌, ◌%◌, ◌≤◌, ◌<◌, bit_and, bit_or, Bool, true, false, arith, if◌then◌else◌, u16, has,
  bit_or_fields, bit_and-le, bit_or_byte,
}
use oric2_golden_model.Cpu.State.{flag_carry, flag_x_index, flag_m_mem, Cpu, pure}
use oric2_golden_model.Cpu.Access.{flag, setf, m_is_8bit, x_is_8bit, sp8, set_sp8, x_get_x, y_get_x}
use oric2_golden_model.Cpu.Alu.{load_a, load_x, load_y}
use oric2_golden_model.Cpu.Exec.Registers.{
  asl_a, lsr_a, rol_a, ror_a, shift_a_cases, inc_a_cases, index_cases, tax, txa, tay, tya, tsx, txs,
  tcs, transfer_cases, native_transfer_cases, flag_cases, truncate_xy, rep, sep, on_mask,
  rep_sep_cases, xce, xce_cases, wdm, halt_as, wdm_cases, stop_cases, nop_cases,
}
use oric2_golden_model.Cpu.Valid.{IsValid, Keeps, Yields-end, yields_rules}
use oric2_golden_model.Cpu.Valid.Access.{page_one, Yields-fetch_byte}
use oric2_golden_model.Cpu.Valid.Alu.{
  p-IsValid, c-IsValid, setf-IsValid, update_nz-IsValid, update_nz16-IsValid, if-IsValid,
  update_nz_m-IsValid, update_nz_x-IsValid, set_a8-IsValid, a_set_m-IsValid, x_set_x-IsValid,
  y_set_x-IsValid, load_a-IsValid, load_x-IsValid, load_y-IsValid,
}
use oric2_golden_model.Cpu.Valid.Shapes.{
  KeepsCase, KeepsCases, KeepsCases-nil, KeepsCases-cons, KeepsCase-native, KeepsCase-on_regs,
  shape_rules,
}

keeps : {D : Type 0} {f : Cpu D → Cpu D} → ((s : Cpu D) → IsValid s → IsValid (f s)) → Keeps f
keeps h = record { at = h }

u16-lt : (n : ℕ) → u16 n < 65536
u16-lt n = omega arith

module _ {D : Type 0} where
  pub Keeps-asl_a : Keeps {D = D} asl_a
  unfolding asl_a
  Keeps-asl_a = keeps λ s v.
      if-IsValid (m_is_8bit s)
        (update_nz-IsValid _ _
          (set_a8-IsValid _ _ (omega arith) (setf-IsValid _ _ s (omega arith) v)))
        (update_nz_m-IsValid _ _ (c-IsValid _ _ (setf-IsValid _ _ s (omega arith) v) (omega arith)))

  pub Keeps-lsr_a : Keeps {D = D} lsr_a
  unfolding lsr_a
  Keeps-lsr_a = keeps λ s v.
      if-IsValid (m_is_8bit s)
        (update_nz-IsValid _ _
          (set_a8-IsValid _ _ (omega arith) (setf-IsValid _ _ s (omega arith) v)))
        (update_nz_m-IsValid _ _ (c-IsValid _ _ (setf-IsValid _ _ s (omega arith) v) (omega arith)))

  pub Keeps-rol_a : Keeps {D = D} rol_a
  unfolding rol_a
  Keeps-rol_a = keeps λ s v.
      if-IsValid (m_is_8bit s)
        (update_nz-IsValid _ _
          (set_a8-IsValid _ _ (omega arith) (setf-IsValid _ _ s (omega arith) v)))
        (update_nz_m-IsValid _ _ (c-IsValid _ _ (setf-IsValid _ _ s (omega arith) v) (omega arith)))

  pub Keeps-ror_a : Keeps {D = D} ror_a
  unfolding ror_a
  Keeps-ror_a = keeps λ s v.
      if-IsValid (m_is_8bit s)
        (update_nz-IsValid _ _
          (set_a8-IsValid _ _ (omega arith) (setf-IsValid _ _ s (omega arith) v)))
        (update_nz_m-IsValid _ _ (c-IsValid _ _ (setf-IsValid _ _ s (omega arith) v) (omega arith)))

  -- X and Y cut to a byte.
  pub truncate_xy-IsValid : (s : Cpu D) → IsValid s → IsValid (truncate_xy s)
  unfolding truncate_xy
  truncate_xy-IsValid s v = ground (arith, bit_and-le s.x 0xff, bit_and-le s.y 0xff)

  get_x-lt : (s : Cpu D) → IsValid s → s.x < 65536
  get_x-lt s v = ground arith

  get_y-lt : (s : Cpu D) → IsValid s → s.y < 65536
  get_y-lt s v = ground arith

  x_get_x-lt : (s : Cpu D) → IsValid s → x_get_x s < 65536
  unfolding x_get_x
  x_get_x-lt s v = ground (arith, bit_and-le s.x 0xff, get_x-lt s v)

  y_get_x-lt : (s : Cpu D) → IsValid s → y_get_x s < 65536
  unfolding y_get_x
  y_get_x-lt s v = ground (arith, bit_and-le s.y 0xff, get_y-lt s v)

  get_s-lt : (s : Cpu D) → IsValid s → s.s < 65536
  get_s-lt s v = ground arith

  d-IsValid : (d : ℕ) (s : Cpu D) → IsValid s → d < 65536 → IsValid (record s { d = d })
  d-IsValid d s v h = ground arith

  pub Keeps-tax : Keeps {D = D} tax
  unfolding tax
  Keeps-tax = keeps λ s v. update_nz_x-IsValid _ _ (x_set_x-IsValid _ s v.c v)

  pub Keeps-tay : Keeps {D = D} tay
  unfolding tay
  Keeps-tay = keeps λ s v. update_nz_x-IsValid _ _ (y_set_x-IsValid _ s v.c v)

  pub Keeps-txa : Keeps {D = D} txa
  unfolding txa
  Keeps-txa = keeps λ s v. update_nz_m-IsValid _ _ (a_set_m-IsValid _ s (get_x-lt s v) v)

  pub Keeps-tya : Keeps {D = D} tya
  unfolding tya
  Keeps-tya = keeps λ s v. update_nz_m-IsValid _ _ (a_set_m-IsValid _ s (get_y-lt s v) v)

  tsx_value-lt : (s : Cpu D) → IsValid s → (if x_is_8bit s then sp8 s else s.s) < 65536
  unfolding sp8
  tsx_value-lt s v = ground (arith, bit_and-le s.s 0xff, get_s-lt s v)

  pub Keeps-tsx : Keeps {D = D} tsx
  unfolding tsx
  Keeps-tsx = keeps λ s v. load_x-IsValid _ s (tsx_value-lt s v) v

  stack-IsValid :
      (a b : ℕ) (s : Cpu D)
      → IsValid s
      → (256 ≤ a) × (a < 512)
      → b < 65536
      → IsValid (record s { s = if s.e then a else b })
  stack-IsValid a b s v ha hb = ground arith

  Keeps-tcs : Keeps {D = D} tcs
  unfolding tcs
  Keeps-tcs =
      keeps λ s v. stack-IsValid _ _ s v (omega (arith, page_one s.c, bit_and-le s.c 0xff)) v.c

  pub Keeps-txs : Keeps {D = D} txs
  unfolding txs set_sp8
  Keeps-txs =
      keeps λ s v. ground (arith, bit_or_fields 8 1 (x_get_x s % 256) (omega arith), x_get_x-lt s v)

  -- A register loaded with a value of 16 bits that the state gives.
  Keeps-to_a :
      (f : Cpu D → ℕ)
      → ((s : Cpu D) → IsValid s → f s < 65536)
      → Keeps {D = D} (λ s. load_a (f s) s)
  Keeps-to_a f h = keeps λ s v. load_a-IsValid (f s) s (h s v) v

  Keeps-to_x :
      (f : Cpu D → ℕ)
      → ((s : Cpu D) → IsValid s → f s < 65536)
      → Keeps {D = D} (λ s. load_x (f s) s)
  Keeps-to_x f h = keeps λ s v. load_x-IsValid (f s) s (h s v) v

  Keeps-to_y :
      (f : Cpu D → ℕ)
      → ((s : Cpu D) → IsValid s → f s < 65536)
      → Keeps {D = D} (λ s. load_y (f s) s)
  Keeps-to_y f h = keeps λ s v. load_y-IsValid (f s) s (h s v) v

  pub Keeps-setf : (f : ℕ) (b : Bool) → f < 256 → Keeps {D = D} (setf f b)
  Keeps-setf f b lt = keeps λ s v. setf-IsValid f b s lt v

  leave_emulation : (s : Cpu D) → IsValid s → IsValid (record s { e = false })
  leave_emulation s v = ground arith

  enter_emulation :
      (p : ℕ) (s : Cpu D)
      → p < 256
      → IsValid s
      → IsValid (truncate_xy (record s { e = true; p = p; s = bit_or 0x0100 (bit_and s.s 0x00ff) }))
  unfolding truncate_xy
  enter_emulation p s lt v =
      ground (arith, bit_and-le s.x 0xff, bit_and-le s.y 0xff, bit_and-le s.s 0xff, page_one s.s)

  xce_to-IsValid :
      (b : Bool) (s : Cpu D)
      → IsValid s
      → IsValid (
          let s1 = setf flag_carry s.e (record s { e = b }) in
          if s1.e
          then truncate_xy (record s1 {
            p = bit_or s1.p (bit_or flag_m_mem flag_x_index);
            s = bit_or 0x0100 (bit_and s1.s 0x00ff);
          })
          else s1)
  unfolding setf
  xce_to-IsValid true s v =
      enter_emulation _ s
        (bit_or_byte _ 48 (setf-IsValid flag_carry s.e s (omega arith) v).p (omega arith)) v
  xce_to-IsValid false s v = setf-IsValid _ _ _ (omega arith) (leave_emulation s v)

  Keeps-xce : Keeps {D = D} xce
  unfolding xce truncate_xy
  Keeps-xce = keeps λ s v. xce_to-IsValid (flag flag_carry s) s v

  pub Keeps-rep : (mask : ℕ) → mask < 256 → Keeps {D = D} (rep mask)
  unfolding rep
  Keeps-rep mask lt = keeps λ s v.
      p-IsValid _ s v
        (ground (arith, bit_and-le s.p (255 - mask), bit_or_byte (bit_and s.p (255 - mask)) 32))

  pub Keeps-sep : (mask : ℕ) → mask < 256 → Keeps {D = D} (sep mask)
  unfolding sep
  Keeps-sep mask lt = keeps λ s v.
      let v1 = p-IsValid _ s v (bit_or_byte s.p mask v.p lt) in
      if-IsValid (has mask flag_x_index) (truncate_xy-IsValid _ v1) v1

  KeepsCase-on_mask :
      {act : ℕ → Cpu D → Cpu D}
      → ((mask : ℕ) → mask < 256 → Keeps (act mask))
      → KeepsCase (on_mask act)
  unfolding on_mask
  KeepsCase-on_mask h = record { for = λ n. search (yields_rules, Yields-fetch_byte) }

  KeepsCase-wdm : KeepsCase {D = D} wdm
  unfolding wdm
  KeepsCase-wdm = record { for = λ n. search (yields_rules, Yields-fetch_byte) }

  KeepsCase-halt_as : {change : Cpu D → Cpu D} → Keeps change → KeepsCase (halt_as change)
  unfolding halt_as
  KeepsCase-halt_as h = record { for = λ n. search (yields_rules) }

  KeepsCase-pure : KeepsCase {D = D} pure
  KeepsCase-pure = record { for = λ n. Yields-end n }

  pub KeepsCases-shift_a_cases : KeepsCases {D = D} shift_a_cases
  unfolding shift_a_cases
  KeepsCases-shift_a_cases =
      search (shape_rules, Keeps-asl_a, Keeps-lsr_a, Keeps-rol_a, Keeps-ror_a) depth 20

  pub KeepsCases-inc_a_cases : KeepsCases {D = D} inc_a_cases
  unfolding inc_a_cases
  KeepsCases-inc_a_cases =
      KeepsCases-cons
        (KeepsCase-native (Yields-end tt) (KeepsCase-on_regs (Keeps-to_a _ (λ s _. u16-lt _))))
        (KeepsCases-cons
          (KeepsCase-native (Yields-end tt) (KeepsCase-on_regs (Keeps-to_a _ (λ s _. u16-lt _))))
          KeepsCases-nil)

  pub KeepsCases-index_cases : KeepsCases {D = D} index_cases
  unfolding index_cases
  KeepsCases-index_cases =
      let to_x =
        λ (f : Cpu D → ℕ). KeepsCase-on_regs (Keeps-to_x (λ s. u16 (f s)) (λ s _. u16-lt (f s))) in
      let to_y =
        λ (f : Cpu D → ℕ). KeepsCase-on_regs (Keeps-to_y (λ s. u16 (f s)) (λ s _. u16-lt (f s))) in
      KeepsCases-cons (to_x _) (
        KeepsCases-cons (to_y _)
          (KeepsCases-cons (to_x _) (KeepsCases-cons (to_y _) KeepsCases-nil)))

  pub KeepsCases-transfer_cases : KeepsCases {D = D} transfer_cases
  unfolding transfer_cases
  KeepsCases-transfer_cases =
      search (shape_rules, Keeps-tax, Keeps-txa, Keeps-tay, Keeps-tya, Keeps-tsx, Keeps-txs) depth
        20

  pub KeepsCases-native_transfer_cases : KeepsCases {D = D} native_transfer_cases
  unfolding native_transfer_cases
  KeepsCases-native_transfer_cases =
      KeepsCases-cons
        (KeepsCase-on_regs (keeps λ s v. update_nz16-IsValid _ _ (d-IsValid _ s v v.c)))
        (KeepsCases-cons
          (KeepsCase-on_regs (keeps λ s v. update_nz16-IsValid _ _ (c-IsValid _ s v v.d)))
          (KeepsCases-cons (KeepsCase-on_regs Keeps-tcs) (
            KeepsCases-cons
              (KeepsCase-on_regs
                (keeps λ s v. update_nz16-IsValid _ _ (c-IsValid _ s v (get_s-lt s v))))
              (KeepsCases-cons (KeepsCase-on_regs (Keeps-to_y _ x_get_x-lt))
                (KeepsCases-cons (KeepsCase-on_regs (Keeps-to_x _ y_get_x-lt)) KeepsCases-nil)))))

  pub KeepsCases-flag_cases : KeepsCases {D = D} flag_cases
  unfolding flag_cases
  KeepsCases-flag_cases = search (shape_rules, Keeps-setf, arith) depth 20

  pub KeepsCases-rep_sep_cases : KeepsCases {D = D} rep_sep_cases
  unfolding rep_sep_cases
  KeepsCases-rep_sep_cases = search (shape_rules, KeepsCase-on_mask, Keeps-rep, Keeps-sep) depth 20

  pub KeepsCases-xce_cases : KeepsCases {D = D} xce_cases
  unfolding xce_cases
  KeepsCases-xce_cases = search (shape_rules, Keeps-xce) depth 20

  pub KeepsCases-wdm_cases : KeepsCases {D = D} wdm_cases
  unfolding wdm_cases
  KeepsCases-wdm_cases = search (shape_rules, KeepsCase-wdm) depth 20

  Keeps-stopped : Keeps {D = D} (λ s. record s { stopped = true })
  Keeps-stopped = keeps λ s v. ground arith

  Keeps-waiting : Keeps {D = D} (λ s. record s { waiting = true })
  Keeps-waiting = keeps λ s v. ground arith

  pub KeepsCases-stop_cases : KeepsCases {D = D} stop_cases
  unfolding stop_cases
  KeepsCases-stop_cases =
      search (shape_rules, KeepsCase-halt_as, Keeps-stopped, Keeps-waiting) depth 20

  pub KeepsCases-nop_cases : KeepsCases {D = D} nop_cases
  unfolding nop_cases
  KeepsCases-nop_cases = search (shape_rules, KeepsCase-pure) depth 20
