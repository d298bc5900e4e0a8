-- ===== src/Rulebased.antt =====
-- The rule-based transliterator of
-- chromium-patches/rulebased-payload/chromeos/ash/services/ime/public/cpp/rulebased.
pub mod KeyMap
pub mod Prefix
pub mod Regexp
pub mod Rules
pub mod RulesData
pub mod Engine
