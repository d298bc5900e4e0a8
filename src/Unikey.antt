-- ===== src/Unikey.antt =====
-- The UniKey adapter: chromium-patches/unikey-payload/chromeos/ash/services/ime/unikey_engine.cc,
-- and the text output that colorburst wrote for the vendored engine (charset_utf8.cpp).
pub mod Utf8
pub mod Utf16
pub mod Layout
pub mod Charset
pub mod Adapter
pub mod Driver
