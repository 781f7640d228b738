-- ===== src/UiCopy.antt =====
-- web/src/utils/uiCopy.ts: what the pages say of errors, of concurrent changes and of audit events.
-- `currentLocale()` is the parameter `ko`; error messages are walked, so they are a `Text`.
mod Errors
mod Audit
pub mod Laws
unfoldable pub use Errors.*
unfoldable pub use Audit.*
