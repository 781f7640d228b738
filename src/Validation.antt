-- ===== src/Validation.antt =====
-- web/src/utils/environmentValidation.ts: the checks of the create and update forms.
pub mod Cidr
pub mod Wizard
