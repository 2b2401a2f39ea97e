-- ===== src/Ay/Counter.antt =====
-- The `while` loops that take a threshold off a counter.
use oric2_golden_model.Base.{
  ℕ, zero, suc, ◌+◌, ◌-◌, ◌*◌, ◌%◌, ◌≤◌, ◌<◌, ◌≡◌, refl, sym, ap, ◌∙◌, inl, inr, Bool, true, false,
  arith, leb, Bool-cases, update, u32,
}
use mathlib.Core.Path.{subst}
use oric2_golden_model.Ay.{Ay}
use oric2_golden_model.Ay.Generate.{sample_rate, drain, at_least_one, toggle, tick_tone}

-- `body` applied `n` times
unfoldable pub iterate : {A : Type 0} → ℕ → (A → A) → A → A
iterate zero body a = a
iterate (suc n) body a = iterate n body (body a)

-- The loop divides: it ends with the remainder, and has run its body once for each threshold taken off.
abbrev pub Divided : {A : Type 0} → ℕ → ℕ → (A → A) → A → ℕ × A → Type 0
Divided threshold counter body a result =
    (q : ℕ) × (counter ≡ q * threshold + result.0)
    × (result.0 < threshold)
    × (result.1 ≡ iterate q body a)

-- One turn of the loop, by its test.
abbrev turn : {A : Type 0} → ℕ → ℕ → (A → A) → ℕ → A → Bool → ℕ × A
turn fuel threshold body counter a reached = elim reached [
  | true ↦ drain fuel threshold body (counter - threshold) (body a)
  | false ↦ (counter, a)
]

drain-turn :
    {A : Type 0} (fuel threshold : ℕ) (body : A → A) (counter : ℕ) (a : A) (reached : Bool)
    → leb threshold counter ≡ reached
    → drain (suc fuel) threshold body counter a ≡ turn fuel threshold body counter a reached
unfolding drain
drain-turn fuel threshold body counter a reached e = ap (turn fuel threshold body counter a) e

drain-Divided :
    {A : Type 0} (fuel threshold : ℕ) (body : A → A) (counter : ℕ) (a : A)
    → 0 < threshold
    → counter ≤ fuel
    → Divided threshold counter body a (drain fuel threshold body counter a)
unfolding drain iterate
drain-Divided zero threshold body counter a pos enough = (0, omega arith, omega arith, refl)
drain-Divided (suc fuel) threshold body counter a pos enough =
    elim (Bool-cases (leb threshold counter)) [
      | inl reached ↦
          let (q, sum, left, same) =
            drain-Divided fuel threshold body (counter - threshold) (body a) pos
              (ground (arith, reached)) in
          subst (Divided threshold counter body a)
            (sym (drain-turn fuel threshold body counter a true reached))
            (suc q, ground (arith, reached, sum), left, same)
      | inr under ↦
          subst (Divided threshold counter body a)
            (sym (drain-turn fuel threshold body counter a false under))
            (0, omega arith, ground (arith, under), refl)
    ]

iterate-toggle : (q out : ℕ) → out < 2 → iterate q toggle out ≡ (out + q) % 2
unfolding iterate
iterate-toggle zero out h = omega arith
iterate-toggle (suc q) zero h = iterate-toggle q 1 (omega arith) ∙ omega arith
iterate-toggle (suc q) (suc zero) h = iterate-toggle q 0 (omega arith) ∙ omega arith
iterate-toggle (suc q) (suc (suc out)) h = absurd (omega arith)

update-same : (a : ℕ → ℕ) (i v : ℕ) → update a i v i ≡ v
update-same a i v = ground arith

-- The tone generator of a channel divides: in one sample it adds the tone rate to the counter modulo 2 ^ 32,
-- takes off the period in samples as often as it fits, leaving less than a period, and flips the
-- output, a bit, that many times.
pub tick_tone_lem :
    {D : Type 0} (rate ch : ℕ) (ay : Ay D)
    → ay.tone_output ch < 2
    → let threshold = at_least_one (ay.tone_period ch) * sample_rate in
      let ticked = tick_tone rate ch ay in
      (q : ℕ) × (u32 (ay.tone_counter ch + rate) ≡ q * threshold + ticked.tone_counter ch)
      × (ticked.tone_counter ch < threshold)
      × (ticked.tone_output ch ≡ (ay.tone_output ch + q) % 2)
unfolding tick_tone
tick_tone_lem rate ch ay h =
    let counter = u32 (ay.tone_counter ch + rate) in
    let threshold = at_least_one (ay.tone_period ch) * sample_rate in
    let result = drain counter threshold toggle counter (ay.tone_output ch) in
    let (q, sum, left, same) =
      drain-Divided counter threshold toggle counter (ay.tone_output ch) (ground arith)
        (omega arith) in
    let kept = update-same ay.tone_counter ch result.0 in
    (
      q,
      sum ∙ ap (λ r. q * threshold + r) (sym kept),
      subst (λ r. r < threshold) (sym kept) left,
      update-same ay.tone_output ch result.1 ∙ same ∙ iterate-toggle q (ay.tone_output ch) h,
    )
