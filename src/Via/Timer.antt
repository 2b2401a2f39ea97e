-- ===== src/Via/Timer.antt =====
-- `via_update`: the two timers.
use oric2_golden_model.Base.{
  ℕ, ◌+◌, ◌-◌, ◌≤◌, ◌<◌, ◌≡◌, ◌⊎◌, Bool, false, not, ◌&&◌, ◌||◌, arith, ltb, leb, ◌==◌,
  if◌then◌else◌, u16, has,
}
use oric2_golden_model.Via.{Via, int_t2, int_t1, raise}

-- A 16-bit counter after `cycles`, and whether it ran out.
unfoldable pub counted : ℕ → ℕ → ℕ
counted old cycles = u16 (old + 65536 - u16 cycles)

unfoldable pub ran_out : ℕ → ℕ → Bool
unfolding counted
ran_out old cycles =
    ltb old (counted old cycles) || (counted old cycles == 0xffff || counted old cycles == 0)

module _ {D : Type 0} where
  unfoldable pub update_t1 : ℕ → Via D → Via D
  unfolding counted ran_out raise
  update_t1 cycles v =
      if not v.t1_running
      then v
      else (let v1 = record v { t1_counter = counted v.t1_counter cycles } in
          if not (ran_out v.t1_counter cycles)
          then v1
          else (let v2 = raise int_t1 v1 in
              if has v2.aux_control 0x40
              then record v2 { t1_counter = v2.t1_latch }
              else record v2 { t1_running = false }))

  unfoldable pub update_t2 : ℕ → Via D → Via D
  unfolding counted ran_out raise
  update_t2 cycles v =
      if not (v.t2_running && not (has v.aux_control 0x20))
      then v
      else (let v1 = record v { t2_counter = counted v.t2_counter cycles } in
          if not (ran_out v.t2_counter cycles)
          then v1
          else record (raise int_t2 v1) { t2_running = false })

  unfoldable pub update_timers : ℕ → Via D → Via D
  unfolding update_t1 update_t2
  update_timers cycles v = update_t2 cycles (update_t1 cycles v)

-- For a positive number of cycles below 65536 a counter runs out exactly when it is not above them, and
-- else it is less by them.
pub ran_out_lem :
    (old cycles : ℕ)
    → old < 65536
    → 0 < cycles
    → cycles < 65536
    → (ran_out old cycles ≡ leb old cycles) × (old ≤ cycles ⊎ (counted old cycles ≡ old - cycles))
unfolding ran_out counted
ran_out_lem old cycles h pos lt = ground arith
