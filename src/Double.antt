-- ===== src/Double.antt =====
-- What the server uses of `double`: times in seconds and sizes in MiB. The arithmetic is not
-- modelled; the operations are the fields of a record.
use bacs_legacy.Base.{ℤ, Bool, Option, Bytes}

pub record Double : Type 1 where
  pub Carrier : Type 0
  -- `0.`
  pub zero_value : Carrier
  -- `a < b`
  pub less : Carrier → Carrier → Bool
  -- `(double)t / 1000`, and `(double)m / (1024 * 1024)`
  pub of_ms : ℤ → Carrier
  pub of_bytes : ℤ → Carrier
  -- `(int)(x * 1000)`, and `(int)(x * 1024 * 1024)`
  pub to_ms : Carrier → ℤ
  pub to_bytes : Carrier → ℤ
  -- `sscanf("%lf")`: none where there is no conversion
  pub parse : Bytes → Option Carrier
  -- the output by `<<`, by `%lf` and by `%.3lf`
  pub print : Carrier → Bytes
  pub print_lf : Carrier → Bytes
  pub print_3lf : Carrier → Bytes
