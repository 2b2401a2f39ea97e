-- ===== src/Cpu/Valid/Blocks.antt =====
-- MVN and MVP keep the core valid: they run in native mode alone, where X and Y may take any 16 bits.
use oric2_golden_model.Base.{
  ℕ, zero, suc, ◌+◌, ◌-◌, ◌<◌, ◌≡◌, refl, Bool, true, false, arith, if◌then◌else◌, u16, u32,
}
use oric2_golden_model.Cpu.State.{Cpu, M, pure, gets, modify, ◌>>=◌}
use oric2_golden_model.Cpu.Access.{read24, write24, fetch_byte}
use oric2_golden_model.Cpu.Exec.Shapes.{native}
use oric2_golden_model.Cpu.Exec.Control.{move_byte, move_bytes, block_move, block_cases, skip_two}
use oric2_golden_model.Cpu.Valid.{IsValid, Any, Yields, Yields-end, then-Any, yields_rules}
use oric2_golden_model.Cpu.Valid.Access.{Yields-read24, Yields-write24, Yields-fetch_byte}
use oric2_golden_model.Cpu.Valid.Alu.{c-IsValid}
use oric2_golden_model.Cpu.Valid.Shapes.{KeepsCase, KeepsCases, KeepsCases-nil, KeepsCases-cons}

-- A valid state in native mode.
abbrev IsNative : {D : Type 0} → Cpu D → Type 0
IsNative s = IsValid s × (s.e ≡ false)

module _ {D : Type 0} where
  xy-IsValid :
      (x y : ℕ) (s : Cpu D)
      → IsNative s
      → x < 65536
      → y < 65536
      → IsValid (record s { x = x; y = y })
  xy-IsValid x y s (v, e) hx hy = ground arith

  fetch_byte-IsNative : (s : Cpu D) → IsNative s → IsNative (fetch_byte s).1
  unfolding fetch_byte ◌>>=◌ read24
  fetch_byte-IsNative s (v, e) = ((Yields-fetch_byte.at s v).0, e)

  read24-IsNative : (a : ℕ) (s : Cpu D) → IsNative s → IsNative (read24 a s).1
  unfolding read24
  read24-IsNative a s (v, e) = (((Yields-read24 a).at s v).0, e)

  write24-IsNative : (a b : ℕ) (s : Cpu D) → IsNative s → IsNative (write24 a b s).1
  unfolding write24
  write24-IsNative a b s (v, e) = (((Yields-write24 a b).at s v).0, e)

  advance-IsNative :
      (ascending : Bool) (s : Cpu D)
      → IsNative s
      → IsNative (
          if ascending
          then record s { x = u16 (s.x + 1); y = u16 (s.y + 1) }
          else record s { x = u16 (s.x + 65536 - 1); y = u16 (s.y + 65536 - 1) })
  advance-IsNative true s h = (xy-IsValid _ _ s h (omega arith) (omega arith), h.1)
  advance-IsNative false s h = (xy-IsValid _ _ s h (omega arith) (omega arith), h.1)

  move_byte-IsNative :
      (ascending : Bool) (src dst : ℕ) (s : Cpu D)
      → IsNative s
      → IsNative (move_byte ascending src dst s).1
  unfolding move_byte ◌>>=◌ gets modify
  move_byte-IsNative ascending src dst s h =
      advance-IsNative ascending _ (write24-IsNative _ _ _ (read24-IsNative _ s h))

  move_bytes-IsNative :
      (n : ℕ) (ascending : Bool) (src dst : ℕ) (s : Cpu D)
      → IsNative s
      → IsNative (move_bytes n ascending src dst s)
  unfolding move_bytes
  move_bytes-IsNative zero ascending src dst s h = h
  move_bytes-IsNative (suc n) ascending src dst s h =
      move_bytes-IsNative n ascending src dst _ (move_byte-IsNative ascending src dst s h)

  dbr-IsNative : (b : ℕ) (s : Cpu D) → b < 256 → IsNative s → IsNative (record s { dbr = b })
  dbr-IsNative b s lt (v, e) = (ground arith, e)

  block_move-IsValid :
      (ascending : Bool) (cycles : ℕ) (s : Cpu D)
      → IsNative s
      → IsValid (block_move ascending cycles s).1
  unfolding block_move ◌>>=◌ gets modify pure fetch_byte read24
  block_move-IsValid ascending cycles s h =
      let h1 = fetch_byte-IsNative s h in
      let h2 = fetch_byte-IsNative _ h1 in
      let h3 = dbr-IsNative (fetch_byte s).0 _ (Yields-fetch_byte.at s h.0).1 h2 in
      c-IsValid 0xffff _
        (move_bytes-IsNative (u32 (s.c + 1)) ascending (fetch_byte (fetch_byte s).1).0
          (fetch_byte s).0 _ h3).0
        (omega arith)

  -- A case of native mode needs to keep the states of native mode valid alone.
  choose :
      (b : Bool) {m : M D ℕ} (n : M D ℕ) (s : Cpu D)
      → s.e ≡ b
      → IsValid s
      → Yields Any m
      → (IsNative s → IsValid (n s).1)
      → IsValid ((if b then m else n) s).1
  choose true n s e v hm hn = (hm.at s v).0
  choose false n s e v hm hn = hn (v, e)

  Yields-skip_two : Yields {D = D} Any skip_two
  Yields-skip_two = search (yields_rules, Yields-fetch_byte)

  KeepsCase-block_move :
      (ascending : Bool) → KeepsCase {D = D} (native skip_two (block_move ascending))
  unfolding native ◌>>=◌ gets
  KeepsCase-block_move ascending = record {
    for = λ n. record {
      at = λ s v. (
        choose s.e (block_move ascending n) s refl v
            (then-Any _ _ Yields-skip_two (λ u. Yields-end n)) (block_move-IsValid ascending n s),
        tt,
      );
    };
  }

  pub KeepsCases-block_cases : KeepsCases {D = D} block_cases
  unfolding block_cases
  KeepsCases-block_cases =
      KeepsCases-cons (KeepsCase-block_move true)
        (KeepsCases-cons (KeepsCase-block_move false) KeepsCases-nil)
