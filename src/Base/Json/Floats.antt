-- ===== src/Base/Json/Floats.antt =====
-- A binary64 number, as exactly as it is held: `finite m e s` is m * 2^e / 2^1074, below zero if
-- `s` says so (`finite 0 0 true` is -0.0).
use Prim.Native.Nat.{ℕ}
use mathlib.Core.Bool.{Bool}

pub data Float : Type 0 where
  finite : ℕ → ℕ → Bool → Float
  infinite : Bool → Float
  nan : Float
