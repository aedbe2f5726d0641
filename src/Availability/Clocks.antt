-- ===== src/Availability/Clocks.antt =====
-- Time zones (store.py, `_as_utc`, `_resolve_timezone`, `_as_agent_utc`). The zones are those of
-- `zoneinfo`: parameters.
use real_voice_agent_free.Prelude.{
  ℕ, ◌+◌, String, ◌≡◌, Bool, DateTime, Stamp, aware, naive, if◌then◌else◌,
}

-- What a clock on the wall shows is counted in microseconds since it showed the start of the year
-- 1, a Monday. `known` tells the names that `ZoneInfo` finds; `to_utc` reads a wall clock with
-- `fold=0`, as `astimezone(UTC)` does. `column_time` is the instant as which the database compares
-- a column, and `stored` what a column gives back of what was written to it; `isoformat` and
-- `slot_label` write texts.
pub record Zones : Type 0 where
  pub known : String → Bool
  pub to_wall : String → DateTime → ℕ
  pub to_utc : String → ℕ → DateTime
  pub column_time : Stamp → DateTime
  pub stored : Stamp → Stamp
  pub isoformat : Stamp → String
  pub slot_label : ℕ → String

unfoldable pub as_utc : Zones → Stamp → DateTime
as_utc z (aware t) = t
as_utc z (naive wall) = z.to_utc "UTC" wall

unfoldable pub resolve_timezone : Zones → String → String
resolve_timezone z name = if z.known name then name else "UTC"

unfoldable pub as_agent_utc : Zones → Stamp → String → DateTime
as_agent_utc z (aware t) name = t
as_agent_utc z (naive wall) name = z.to_utc (resolve_timezone z name) wall

-- A time zone whose clocks are never set back or forward.
pub record IsSteady (z : Zones) (name : String) : Type 0 where
  pub to_utc-add :
      (wall d : ℕ)
      → z.to_utc (resolve_timezone z name) (wall + d) ≡ z.to_utc (resolve_timezone z name) wall + d

-- The database compares an instant with a zone as that instant; and where it gives back an instant
-- with a zone, as PostgreSQL does, this is the one that was written, a time without a zone being
-- written as UTC. SQLite gives back times without a zone only.
pub record KeepsInstants (z : Zones) : Type 0 where
  pub column_time-aware : (t : DateTime) → z.column_time (aware t) ≡ t
  pub as_utc-stored : (s : Stamp) (t : DateTime) → z.stored s ≡ aware t → as_utc z s ≡ t
