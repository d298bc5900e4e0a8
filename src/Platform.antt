-- ===== src/Platform.antt =====
-- What lies outside the repository and the sources use: the key codes, RE2, the text conversions
-- of //base, and the mojo messages.
pub mod DomCode
pub mod Regex
pub mod Text
pub mod Host
pub mod Document
