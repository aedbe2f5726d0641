-- ===== src/Prelude.antt =====
-- The names that the other modules share: those of the libraries, passed on, and those of the
-- children below. `==` compares texts, `nat_eq` numbers.
mod Tests
mod Lists
mod Texts
mod Integers
pub use Tests.*
pub use Lists.*
pub use Texts.*
pub use Integers.*
pub use Prim.Native.Nat.{ℕ, zero, suc, ◌+◌, ◌-◌, ◌*◌, ◌/◌, ◌%◌, ◌^◌, ◌≤◌, ◌<◌, min, max}
pub use Prim.Native.String.{String}
pub use mathlib.Core.Path.{◌≡◌, refl, sym, ap, ap₂, ◌∙◌, subst}
pub use mathlib.Core.Logic.{◌≢◌, ◌↔◌, ◌⊎◌, inl, inr}
pub use mathlib.Core.Bool.{Bool, true, false, not, ◌&&◌, ◌||◌}
pub use mathlib.Core.Option.{Option, none, some}
pub use mathlib.Core.List.{List, [], ◌∷◌, ◌++◌, map}
pub use native.Mathlib.Omega.{arith}
pub use text.Mathlib.Text.{◌==◌, starts_with}
pub use text.Mathlib.TextEquality.{eq_iff}
pub use text.Mathlib.TextPositions.{eq_refl}

-- A `datetime` with a time zone: the instant, in microseconds since a fixed one, some days before
-- the year 1.
abbrev pub DateTime : Type 0
DateTime = ℕ

-- A `datetime` column that the code may read back without a time zone (as from SQLite): an instant,
-- or the digits of a clock of which the zone is not known.
pub data Stamp : Type 0 where
  aware naive : ℕ → Stamp

abbrev pub BusinessHours : Type 0
BusinessHours = List (String × List String)

-- `timedelta(seconds=n)`, in microseconds.
abbrev pub seconds : ℕ → ℕ
seconds n = n * 1000000

-- `timedelta(minutes=n)`, and so on.
abbrev pub minutes : ℕ → ℕ
minutes n = n * 60000000

abbrev pub hours_long : ℕ → ℕ
hours_long n = n * 3600000000

abbrev pub days_long : ℕ → ℕ
days_long n = n * 86400000000
