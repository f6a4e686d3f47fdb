-- ===== src/Language.antt =====
-- src/cc-language-chooser.c, src/cc-common-language.c, src/cc-util.c: the language page.
pub mod Box
pub mod Built
pub mod Tables
pub mod Properties
pub mod Uniqueness
pub mod Added
pub mod Permuted
pub mod Chooser
pub mod Chosen
mod Examples
pub mod Locales
pub mod Normalize
pub mod Retranslate
pub mod Order
pub mod Rows
pub mod Sorted
pub mod Unaccent
pub mod Utf8
