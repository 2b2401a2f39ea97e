-- ===== src/Base/Maps.antt =====
-- C arrays as functions from the index. The sizes are kept by the code's own bounds.
use Prim.Native.Nat.{ℕ, ◌+◌, ◌<◌}
use mathlib.Core.Bool.{◌&&◌}
use native.Mathlib.Omega.{arith}
use oric2_golden_model.Base.Tests.{leb, ltb, ◌==◌, if◌then◌else◌}

-- `a[i] = v`
abbrev pub update {ℓ} : {A : Type ℓ} → (ℕ → A) → ℕ → A → ℕ → A
update a i v j = if i == j then v else a j

-- `memset(&a[start], v, len)`
abbrev pub fill {ℓ} : {A : Type ℓ} → (ℕ → A) → ℕ → ℕ → A → ℕ → A
fill a start len v j = if leb start j && ltb j (start + len) then v else a j

-- Every cell holds a byte.
pub record IsBytes (a : ℕ → ℕ) : Type 0 where
  pub at : (i : ℕ) → a i < 256

pub update-IsBytes : {a : ℕ → ℕ} (i v : ℕ) → IsBytes a → v < 256 → IsBytes (update a i v)
update-IsBytes i v h lt = record { at = λ j. ground (arith, h.at j) }

pub fill-IsBytes :
    {a : ℕ → ℕ} (start len v : ℕ) → IsBytes a → v < 256 → IsBytes (fill a start len v)
fill-IsBytes start len v h lt = record { at = λ j. ground (arith, h.at j) }
