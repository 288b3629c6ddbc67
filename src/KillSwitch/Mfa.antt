-- ===== src/KillSwitch/Mfa.antt =====
-- KillSwitch._validate_mfa. The keyed digest is a parameter: `digest secret initiator window` is the
-- first eight hexadecimal digits of the HMAC-SHA256 of "initiator:window". A text is a sequence of
-- Unicode scalars.
use Prim.Native.Char.{code}
use nexus_trading.Base.{
  ℕ, zero, suc, ◌/◌, Bool, true, false, ◌||◌, String, ltb, if◌then◌else◌, Result, ok, err,
}
use text.Mathlib.Text.{◌==◌ as str_eq}

-- A 30-second window number; `minus_one` is the one before the epoch.
pub data Window : Type 0 where
  window : ℕ → Window
  minus_one : Window

abbrev pub previous : ℕ → Window
previous zero = minus_one
previous (suc n) = window n

abbrev pub Digest : Type 0
Digest = String → String → Window → String

abbrev pub window_valid : Digest → String → String → String → ℕ → Bool
window_valid digest secret token initiator n =
    str_eq token (digest secret initiator (window n))
    || str_eq token (digest secret initiator (previous n))

-- `hmac.compare_digest` raises TypeError for a text that is not ASCII.
pub data MfaError : Type 0 where
  type_error : MfaError

abbrev pub is_ascii : String → Bool
is_ascii String.[] = true
is_ascii (String.◌∷◌ c s) = if ltb (code c) 128 then is_ascii s else false

-- `now` is `time.time()` in whole seconds; an empty secret switches the test off.
unfoldable pub validate_mfa : Digest → String → ℕ → String → String → Result MfaError Bool
validate_mfa digest String.[] now token initiator = ok true
validate_mfa digest (String.◌∷◌ c s) now token initiator =
    if is_ascii token
    then ok (window_valid digest (String.◌∷◌ c s) token initiator (now / 30))
    else err type_error
