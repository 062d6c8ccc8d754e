-- ===== src/Platform.antt =====
-- What static/app.js takes from the browser and the model does not fix: Unicode case mapping,
-- collation, the reading of dates, and the clock. Every definition takes them as one argument.
use Prim.Native.Nat.{Ordering}
use domain_ssl_checker.Base.{ℕ, Text}

pub record Platform : Type 0 where
  -- `s.toLowerCase()`
  pub lower : Text → Text
  -- The sign of `a.localeCompare(b)`.
  pub locale_compare : Text → Text → Ordering
  -- `new Date(s).getTime()`, for a text that is a date
  pub time_of : Text → ℕ
  -- `new Date(s + 'T00:00:00Z').getTime()`
  pub midnight_of : Text → ℕ
  -- `Date.now()` at the moment of the call
  pub now : ℕ
