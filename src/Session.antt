-- ===== src/Session.antt =====
-- The database session: its actions, and the rules for the invariants of code that uses it.
mod Defs
pub mod Keeps
pub mod Inversion
pub mod Frame
pub mod Does
pub use Defs.{World, M, continue, replace}
unfoldable pub use Defs.{
  pure, fail, raise, ◌>>=◌, ◌>>◌, require, new_id, select, scalar, count_rows, get, insert, save,
  delete, commit, session,
}
