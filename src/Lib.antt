-- ===== src/Lib.antt =====
-- Input methods of colorburst: the rule-based engine and the UniKey adapter for Vietnamese Telex, which
-- chromium-patches adds to the IME service of Chromium.
--
-- Paths below RB are chromium-patches/rulebased-payload/chromeos/ash/services/ime, below PC they are
-- RB/public/cpp/rulebased, below UK chromium-patches/unikey-payload/chromeos/ash/services/ime, and below
-- TP chromium-patches/unikey-payload/third_party/unikey.
--
-- Parts
-- - Rulebased/KeyMap: `ParseKeyMap` of PC/rules_data.cc, the map from key codes to texts.
-- - Rulebased/Prefix: `Prefixalize` of PC/rules_data.cc; Prefix/Grammar has the tokens of a pattern.
-- - Rulebased/Regexp: what patterns match, as a relation on trees that is independent of the code;
--   Regexp/Predicted sets `Prefixalize` and `PredictTransform` against it, and Engine/Unfinished `ProcessKey`.
-- - Rulebased/Rules: `ParseTransforms` and `ParseHistoryPrune` of PC/rules_data.cc; Rules/Groups numbers
--   the rules by capture groups.
-- - Rulebased/RulesData: `RulesData` of PC/rules_data.cc and PC/rules_data.h: `Create`, `GetById`, `Transform`,
--   `PredictTransform`, `MatchHistoryPrune`.
-- - Rulebased/Engine: `Engine` of PC/engine.cc and PC/engine.h, the state of a composition. `ProcessKey` is
--   `process_key`, cut at its returns into `with_data`, `on_key` and `transform_key`; the last is
--   `match_key`, `update_history`, `change_state`, `may_go_on` and `finish_key`, in this order.
-- - Layouts: the tables of PC/def, one module for each file, and `GetRawData` of PC/rules_data.cc;
--   Layouts/Patterns reads the patterns of the rules as trees.
-- - Service: `RuleBasedEngine` of RB/rule_based_engine.cc, which asks the engine about key events and calls
--   the host, and RB/rule_based_engine_connection_factory.cc, which makes it.
-- - Unikey/Adapter: `UnikeyEngine` of UK/unikey_engine.cc; Unikey/Layout, Unikey/Utf8 and Unikey/Utf16 are
--   its character tables and conversions.
-- - Unikey/Charset: the output layer that the repository puts under the vendored engine,
--   TP/charset_utf8.cpp, TP/charset.h and the tables of TP/vnlexi_tables.cpp.
-- - Unikey/Driver: TP/poc_driver.cc, which runs the vendored engine on its command line. The adapter and the
--   driver call the same engine, and Unikey/Driver/Agrees sets one against the other, on the characters that
--   Unikey/Driver/Typing takes and for 100 keys, which the engine's buffers of 128 have room for.
-- - Platform: what is outside the repository. Common: what all share. Tests: runs at concrete inputs.
--
-- How it is modelled
-- - A call that may end the process returns an `Outcome`: `substr` and arrays past their ends, null
--   pointers and `NOTREACHED()` are its faults.
-- - A byte string is a list of bytes and a UTF-16 string a list of units. An `int` that the code compares
--   with -1 is an integer, other numbers are natural; texts are taken to be shorter than 2^31 bytes, where
--   the source casts a length to `int`. The `uint16_t` sums of capture groups wrap around.
--   A pattern is taken to be valid, so its count of groups is no -1, and a table of transforms to have
--   fewer than 65535 strings, so that the index of its loop does not wrap around.
-- - What the vendored engine puts out is the bytes it stored, at most the 1024 of the adapter's buffer.
-- - A handler returns its new state, the host calls that it makes, in order, and the result that its
--   callback is run with. The text field behind the host is in Platform/Document.
-- - RE2, the conversions of //base, the values of `mojom::DomCode` and the vendored UniKey engine are
--   parameters; what RE2 and //base document of them is in the records of laws, which theorems take.
--   The codes from `kKeyA` to `kKeyZ` are the alphabet, so a layout character is below 128.
-- - The decoder of UTF-8 runs on the number of its bytes as fuel, which is enough,
--   since the length of no sequence is 0.
--
-- Not modelled: the vendored engine in TP (ukengine, inputproc, mactab, vnlexi), a copy of another
-- project's library, with the stub of its macro store, which is always empty, and the script that
-- generates its tables; `tolower`, `toupper`, `atoi` and `printf` of the C library; mojo pipes; handlers that
-- do nothing or report a constant; patches, scripts, tools and release data, which hold no C++ of the
-- system's own. Trees of patterns have no anchors, no `.` outside brackets and no counted repetition: the
-- six layouts that Layouts/Patterns leaves out have one of these in some pattern.
pub mod Common
pub mod Platform
pub mod Rulebased
pub mod Unikey
pub mod Layouts
pub mod Service
mod Tests
