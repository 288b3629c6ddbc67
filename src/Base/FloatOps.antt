-- ===== src/Base/FloatOps.antt =====
-- Python floats as an interface: every rounding, NaN and infinity is left open.
use Prim.Native.Nat.{ℕ}
use Prim.Native.String.{String}
use mathlib.Core.Bool.{Bool, true, false}
use mathlib.Core.Path.{◌≡◌}
use mathlib.Core.Logic.{◌≢◌}
use mathlib.Core.List.{List}
use mathlib.Core.Option.{Option, some}

pub record Floats : Type 1 where
  pub Float : Type 0
  pub add : Float → Float → Float
  pub sub : Float → Float → Float
  pub neg : Float → Float
  pub mul : Float → Float → Float
  -- none where Python raises ZeroDivisionError
  pub div : Float → Float → Option Float
  pub float_abs : Float → Float
  pub float_of : ℕ → Float
  -- int() of a float that is not negative; none where Python raises
  pub truncate : Float → Option ℕ
  pub float_leb : Float → Float → Bool
  pub float_ltb : Float → Float → Bool
  -- a formatted text: its template, and the texts, floats and whole numbers in it
  pub format : String → List String → List Float → List ℕ → String

-- Where Python's division does not raise: the divisor is not at most zero, is greater than zero, or
-- is a whole number that is not zero.
pub record Division (F : Floats) : Type 0 where
  pub not_le_zero :
      (a b : F.Float) → F.float_leb b (F.float_of 0) ≡ false → (q : F.Float) × (F.div a b ≡ some q)
  pub gt_zero :
      (a b : F.Float) → F.float_ltb (F.float_of 0) b ≡ true → (q : F.Float) × (F.div a b ≡ some q)
  pub not_zero : (a : F.Float) (n : ℕ) → n ≢ 0 → (q : F.Float) × (F.div a (F.float_of n) ≡ some q)
