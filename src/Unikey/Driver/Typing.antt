-- ===== src/Unikey/Driver/Typing.antt =====
-- Key presses in the adapter, the characters that they hand to the driver.
use chromiumos_devenv.Common.{ℕ, ◌≡◌, ◌≢◌, false, List, [], ◌∷◌, ◌==◌}
use chromiumos_devenv.Platform.DomCode.{DomCode, backspace, code_eq}
use chromiumos_devenv.Platform.Host.{PhysicalKeyEvent}
use chromiumos_devenv.Platform.Document.{Document, apply_calls}
use chromiumos_devenv.Unikey.Layout.{us_layout_char, effective_char}
use chromiumos_devenv.Unikey.Adapter.{UkEngine, Adapter, process_key_event}
use chromiumos_devenv.Unikey.Adapter.Keys.{IsPlainPress}
use chromiumos_devenv.Unikey.Driver.Words.{goes_on}

-- The character of a pressed key.
abbrev pub key_char : (DomCode → ℕ) → PhysicalKeyEvent → ℕ
key_char value event =
    effective_char (us_layout_char value event.code) event.modifier_state.shift
      event.modifier_state.caps_lock

-- The press of a key that the layout maps to a character other than a full stop, which the driver
-- takes for a space, and those at which the vendored engine goes on with the word.
abbrev pub IsTyped : (DomCode → ℕ) → PhysicalKeyEvent → Type 0
IsTyped value event =
    IsPlainPress event
    × (code_eq event.code backspace ≡ false)
    × ((us_layout_char value event.code).base ≢ 0)
    × ((key_char value event == b'.') ≡ false)
    × (goes_on (key_char value event) ≡ false)

abbrev pub AllTyped : (DomCode → ℕ) → List PhysicalKeyEvent → Type 0
AllTyped value [] = Unit {0}
AllTyped value (event ∷ events) = IsTyped value event × AllTyped value events

abbrev pub key_chars : (DomCode → ℕ) → List PhysicalKeyEvent → List ℕ
key_chars value [] = []
key_chars value (event ∷ events) = key_char value event ∷ key_chars value events

-- The text field of the adapter after key events.
abbrev pub type_keys :
    (uk : UkEngine) → (DomCode → ℕ) → List PhysicalKeyEvent → Adapter uk.Core → Document → Document
type_keys uk value [] a doc = doc
type_keys uk value (event ∷ events) a doc =
    let s = (process_key_event uk value event a).0 in
    type_keys uk value events s.0 (apply_calls s.1 doc)
