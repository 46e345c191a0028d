-- ===== src/World.antt =====
-- The tables of the database (src/db/schema), the errors that the services throw, and the monad of
-- an `async` service call: a state and an exception. What a call has written stays written when a
-- later step throws, since each `withContext` is a transaction of its own.
mod Tables
mod ReviewTables
mod Monad
pub mod Keeps
unfoldable pub use Tables.*
unfoldable pub use ReviewTables.*
unfoldable pub use Monad.*
