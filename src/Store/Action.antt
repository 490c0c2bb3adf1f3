-- ===== src/Store/Action.antt =====
-- A service function: it reads and writes the database, and answers or throws.
use duevy_be.Base.Stateful.{Stateful}
use duevy_be.Store.{Db}
pub use duevy_be.Base.Stateful.{
  pure, raise, gets, lift, or_raise, transaction, ignore_errors, ◌>>=◌, ◌>>◌, raise_if, modify,
  when,
}

abbrev pub Action : Type 0 → Type 0
Action A = Stateful Db A
