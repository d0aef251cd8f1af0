-- ===== src/Dates.antt =====
-- src/dates.rs: `unix_to_instant`. The formatting of crate `chrono` is a parameter.
use ct_firehose_filter.Prelude.{◌≡◌, Option, none, some, Str}
use ct_firehose_filter.Prelude.Int.{ℤ, pos}

pub record Chrono : Type 0 where
  -- `Utc.timestamp_opt(secs, 0).single()`, formatted.
  pub format_utc : ℤ → Option Str
  pub epoch : Str
  -- The epoch itself is a valid instant, so the `expect` in the source holds.
  pub format_epoch : format_utc (pos 0) ≡ some epoch

unfoldable pub unix_to_instant : Chrono → ℤ → Str
unix_to_instant c secs = elim (c.format_utc secs) [ none ↦ c.epoch | some instant ↦ instant ]
