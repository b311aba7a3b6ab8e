-- ===== src/World.antt =====
-- The state that the handlers of apps/edge/src share: the tables of the D1 database, the objects of
-- the R2 bucket and the messages of the queue; and the actions on it. The tables have the columns
-- that the handlers name (apps/edge/src/types.ts); a table is the list of its rows in the order of
-- insertion.
mod Rows
mod Actions
pub mod Laws
pub mod Frame
pub use Rows.*
unfoldable pub use Actions.*
