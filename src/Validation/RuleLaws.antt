-- ===== src/Validation/RuleLaws.antt =====
-- When each rule of a service reports nothing (src/validation/changeValidator.ts).
mod Texts
mod Codes
unfoldable pub use Texts.*
unfoldable pub use Codes.*
