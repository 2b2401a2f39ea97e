-- ===== src/Cpu/Loop.antt =====
-- `cpu816_step` and the loop of `cpu816_execute_cycles`: when the loop ends, and with what.
use oric2_golden_model.Base.{
  ℕ, zero, suc, ◌+◌, ◌≤◌, ◌<◌, ◌≡◌, refl, ap, ◌∙◌, Bool, true, false, ◌||◌, Option, none, some,
  arith, ltb,
}
use oric2_golden_model.Cpu.State.{Cpu}
use oric2_golden_model.Cpu.Run.{step, run_cycles, execute_cycles}

ltb-true : (a b : ℕ) → a < b → ltb a b ≡ true
ltb-true a b lt = ground arith

ltb-false : (a b : ℕ) → b ≤ a → ltb a b ≡ false
ltb-false a b le = ground arith

module _ {D : Type 0} where
  -- The state after `n` steps, and the cycles that they report.
  unfoldable pub steps : ℕ → Cpu D → Cpu D
  steps zero s = s
  steps (suc n) s = steps n (step s).1

  unfoldable pub spent : ℕ → Cpu D → ℕ
  spent zero s = 0
  spent (suc n) s = (step s).0 + spent n (step s).1

  -- The turn of the loop after its test.
  abbrev after_test : ℕ → ℕ → ℕ → Cpu D → Bool → Option (ℕ × Cpu D)
  after_test fuel cycles total s more = elim more [
    | false ↦ some (total, s)
    | true ↦ run_cycles fuel cycles (total + (step s).0) (step s).1
  ]

  -- One turn of the loop, and its end.
  turn :
      (fuel cycles total : ℕ) (s : Cpu D)
      → total < cycles
      → run_cycles (suc fuel) cycles total s
        ≡ run_cycles fuel cycles (total + (step s).0) (step s).1
  unfolding run_cycles
  turn fuel cycles total s lt = ap (after_test fuel cycles total s) (ltb-true total cycles lt)

  done :
      (fuel cycles total : ℕ) (s : Cpu D)
      → cycles ≤ total
      → run_cycles (suc fuel) cycles total s ≡ some (total, s)
  unfolding run_cycles
  done fuel cycles total s le = ap (after_test fuel cycles total s) (ltb-false total cycles le)

  run_lem :
      (n fuel cycles total : ℕ) (s : Cpu D)
      → ((k : ℕ) → k < n → total + spent k s < cycles)
      → cycles ≤ total + spent n s
      → n < fuel
      → run_cycles fuel cycles total s ≡ some (total + spent n s, steps n s)
  unfolding spent steps
  run_lem n zero cycles total s below reached enough = absurd (omega arith)
  run_lem zero (suc fuel) cycles total s below reached enough =
      done fuel cycles total s (omega (arith, reached)) ∙ ap (λ t. some (t, s)) (omega arith)
  run_lem (suc n) (suc fuel) cycles total s below reached enough =
      let (r, s') = step s in
      let rest =
        run_lem n fuel cycles (total + r) s' (λ k lt. omega (arith, below (suc k) (omega arith)))
          (omega (arith, reached)) (omega arith) in
      turn fuel cycles total s (omega (arith, below 0 (omega arith)))
      ∙ rest
      ∙ ap (λ t. some (t, steps n s')) (omega arith)

  -- The loop of `cpu816_execute_cycles` ends as soon as the steps have reported the cycles asked for: with
  -- the first number of steps `n` whose sum reaches `cycles`, and any fuel above `n`, it returns that
  -- sum and the state after those steps.
  pub execute_cycles_lem :
      (n fuel cycles : ℕ) (s : Cpu D)
      → ((k : ℕ) → k < n → spent k s < cycles)
      → cycles ≤ spent n s
      → n < fuel
      → execute_cycles fuel cycles s ≡ some (spent n s, steps n s)
  unfolding execute_cycles
  execute_cycles_lem n fuel cycles s below reached enough =
      run_lem n fuel cycles 0 s (λ k lt. omega (arith, below k lt)) (omega (arith, reached)) enough
      ∙ ap (λ t. some (t, steps n s)) (omega arith)

  stopped_step : (s : Cpu D) → (s.halted || s.stopped) ≡ true → step s ≡ (0, s)
  unfolding step
  stopped_step s h = rw (h)

  run-stopped :
      (fuel cycles total : ℕ) (s : Cpu D)
      → (s.halted || s.stopped) ≡ true
      → total < cycles
      → run_cycles fuel cycles total s ≡ none
  unfolding run_cycles
  run-stopped zero cycles total s h lt = refl
  run-stopped (suc fuel) cycles total s h lt =
      turn fuel cycles total s lt
      ∙ ap (λ r. run_cycles fuel cycles (total + r.0) r.1) (stopped_step s h)
      ∙ run-stopped fuel cycles (total + 0) s h (omega arith)

  -- On a halted or stopped core the loop of `cpu816_execute_cycles` never ends when at least one cycle is
  -- asked for: no fuel is enough, since every step returns 0 cycles and leaves the core as it was.
  pub execute_cycles-stopped :
      (fuel cycles : ℕ) (s : Cpu D)
      → (s.halted || s.stopped) ≡ true
      → 0 < cycles
      → execute_cycles fuel cycles s ≡ none
  unfolding execute_cycles
  execute_cycles-stopped fuel cycles s h lt = run-stopped fuel cycles 0 s h lt
