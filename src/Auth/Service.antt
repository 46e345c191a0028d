-- ===== src/Auth/Service.antt =====
-- `AuthService` (src/auth/authService.ts), one function per method. The clock stands still within a
-- call.
mod Statements
mod Sessions
mod OneTime
unfoldable pub use Statements.*
unfoldable pub use Sessions.*
unfoldable pub use OneTime.*
