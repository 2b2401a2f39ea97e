-- ===== src/Fdc/Seek.antt =====
-- The head: seeks, and the step out that hangs.
use oric2_golden_model.Base.{
  ℕ, ◌+◌, ◌-◌, ◌≤◌, ◌<◌, bit_and, ◌≡◌, refl, ap, ◌∙◌, inl, inr, true, none, some, List, [], ◌∷◌,
  arith, ltb, ◌==◌, Bool-cases, if◌then◌else◌, has,
}
use oric2_golden_model.Fdc.{
  op_none, Fdc, st_busy, drop_intrq, raise_intrq, seek_track, ticktock, tick_int, tick_drq,
}
use oric2_golden_model.Fdc.Registers.{start_seek, execute, write}

-- the cycles of all ticks
unfoldable pub total : List ℕ → ℕ
total [] = 0
total (cycles ∷ rest) = cycles + total rest

-- Each number is one that an `int` holds.
abbrev pub AreInts : List ℕ → Type 0
AreInts [] = Unit
AreInts (cycles ∷ rest) = (cycles < 2147483648) × AreInts rest

module _ {D : Type 0} where
  -- ticks one after the other
  unfoldable pub ticks : List ℕ → Fdc D → Fdc D
  ticks [] f = f
  ticks (cycles ∷ rest) f = ticks rest (ticktock cycles f)

  ticktock-quiet :
      (cycles : ℕ) (f : Fdc D) → f.delayed_int ≡ 0 → f.delayed_drq ≡ 0 → ticktock cycles f ≡ f
  unfolding ticktock tick_int tick_drq
  ticktock-quiet cycles f hi hd = ground arith

  -- Ticks change nothing while no interrupt and no request is due.
  ticks-quiet :
      (cycles : List ℕ) (f : Fdc D) → f.delayed_int ≡ 0 → f.delayed_drq ≡ 0 → ticks cycles f ≡ f
  unfolding ticks
  ticks-quiet [] f hi hd = refl
  ticks-quiet (c ∷ cs) f hi hd = rw (ticktock-quiet c f hi hd) (ticks-quiet cs f hi hd)

  -- A tick that ends before the interrupt is due, and one that does not.
  ticktock-waiting :
      (cycles : ℕ) (f : Fdc D)
      → f.delayed_drq ≡ 0
      → cycles < f.delayed_int
      → f.delayed_int < 2147483648
      → ticktock cycles f ≡ record f { delayed_int = f.delayed_int - cycles }
  unfolding ticktock tick_int tick_drq
  ticktock-waiting cycles f hd early small = ground arith

  ticktock-due :
      (cycles found : ℕ) (f : Fdc D)
      → f.delayed_drq ≡ 0
      → f.di_status ≡ some found
      → found < 256
      → 0 < f.delayed_int
      → f.delayed_int ≤ cycles
      → cycles < 2147483648
      → ticktock cycles f ≡ record f {
        delayed_int = 0;
        status = found;
        di_status = none;
        userdata = f.set_intrq f.userdata;
      }
  unfolding ticktock tick_int tick_drq raise_intrq
  ticktock-due cycles found f hd hs byte running late small = ground arith

  -- Ticks from a state in which the interrupt is due in `delayed_int` cycles.
  ticks-due :
      (found : ℕ) (cycles : List ℕ) (f : Fdc D)
      → f.delayed_drq ≡ 0
      → f.di_status ≡ some found
      → found < 256
      → 0 < f.delayed_int
      → f.delayed_int < 2147483648
      → AreInts cycles
      → ticks cycles f ≡ (
          if ltb (total cycles) f.delayed_int
          then record f { delayed_int = f.delayed_int - total cycles }
          else record f {
            delayed_int = 0;
            status = found;
            di_status = none;
            userdata = f.set_intrq f.userdata;
          })
  unfolding ticks total
  ticks-due found [] f hd hs byte running small ints = ground arith
  ticks-due found (c ∷ cs) f hd hs byte running small ints =
      elim (Bool-cases (ltb c f.delayed_int)) [
        | inl early ↦
            let sooner : c < f.delayed_int = ground (arith, early) in
            let left = record f { delayed_int = f.delayed_int - c } in
            rw (ticktock-waiting c f hd sooner small) (
              ground (arith, ticks-due found cs left hd hs byte (omega arith) (omega arith) ints.1))
        | inr late ↦
            let g = record f {
              delayed_int = 0;
              status = found;
              di_status = none;
              userdata = f.set_intrq f.userdata;
            } in
            rw (ticktock-due c found f hd hs byte running (ground (arith, late)) ints.0)
              (ground (arith, ticks-quiet cs g refl hd))
      ]

  -- A seek command, with or without the flag that loads the head, on a drive with a disk, to a track that the
  -- disk has, while no DRQ is due, and then any ticks, of any length that an `int` holds. The head and
  -- the track register are on the track at once. As long as the ticks add up to fewer than 20 cycles,
  -- the command is busy, INTRQ has not been raised, and the delay left is 20 less these cycles. From
  -- 20 cycles on, BUSY is off, INTRQ has been raised, once, the status says that the head is loaded
  -- and whether it is on track 0, and nothing is due any more.
  pub ticks-seek :
      (value block : ℕ) (cycles : List ℕ) (f : Fdc D)
      → bit_and value 0xe0 ≡ 0
      → has value 0x10 ≡ true
      → f.disk_data ≡ some block
      → f.data_reg < f.tracks
      → f.delayed_drq ≡ 0
      → AreInts cycles
      → let g = ticks cycles (write 0 value f) in
        let early = ltb (total cycles) 20 in
        (g.c_track ≡ f.data_reg)
        × (g.track ≡ f.data_reg)
        × (g.status ≡ (
            if early
            then (if has value 0x08 then 0x21 else 0x01)
            else (if f.data_reg == 0 then 0x26 else 0x22)))
        × (g.userdata
            ≡ (if early then f.clr_intrq f.userdata else f.set_intrq (f.clr_intrq f.userdata)))
        × (g.currentop ≡ op_none)
        × (g.delayed_int ≡ 20 - total cycles)
        × (g.delayed_drq ≡ 0)
  unfolding write execute start_seek seek_track drop_intrq
  ticks-seek value block cycles f kind low disk there quiet ints =
      let found : ℕ = if f.data_reg == 0 then 0x26 else 0x22 in
      let g = write 0 value f in
      let started : (g.delayed_drq ≡ 0)
          × (g.di_status ≡ some found)
          × (g.delayed_int ≡ 20)
          × (found < 256) =
        ground arith in
      ground (
        arith,
        ticks-due found cycles g started.0 started.1 started.3 (omega (arith, started.2))
            (omega (arith, started.2)) ints,
      )

  -- A command to step out on track 0 does nothing and never ends: if no interrupt and no request was due, BUSY
  -- stays on and INTRQ is not raised, however many ticks follow.
  pub ticks-step_out :
      (value : ℕ) (cycles : List ℕ) (f : Fdc D)
      → bit_and value 0xe0 ≡ 0x60
      → f.c_track ≡ 0
      → f.delayed_int ≡ 0
      → f.delayed_drq ≡ 0
      → let g = ticks cycles (write 0 value f) in
        (has g.status st_busy ≡ true) × (g.userdata ≡ f.clr_intrq f.userdata)
  unfolding write execute start_seek drop_intrq
  ticks-step_out value cycles f out outer hi hd =
      let g = write 0 value f in
      let at_rest : (has g.status st_busy ≡ true)
          × (g.userdata ≡ f.clr_intrq f.userdata)
          × (g.delayed_int ≡ 0)
          × (g.delayed_drq ≡ 0) =
        ground arith in
      let quiet = ticks-quiet cycles g at_rest.2 at_rest.3 in
      (ap (λ h. has h.status st_busy) quiet ∙ at_rest.0, ap (λ h. h.userdata) quiet ∙ at_rest.1)
