-- ===== src/Unikey/Adapter/Keys.antt =====
-- What a press of a key with a character does in `UnikeyEngine`.
use chromiumos_devenv.Common.{
  ℕ, ◌≡◌, ◌≢◌, ap, ◌∙◌, Bool, false, List, [], ◌++◌, arith, ◌==◌, if◌then◌else◌,
}
use chromiumos_devenv.Platform.DomCode.{DomCode, backspace, code_eq}
use chromiumos_devenv.Platform.Host.{
  key_down, PhysicalKeyEvent, consumed_by_ime, needs_handling_by_system,
}
use chromiumos_devenv.Unikey.Layout.{KeyChars, us_layout_char, effective_char, is_word_break_char}
use chromiumos_devenv.Unikey.Adapter.{
  UkEngine, Adapter, update_composition, commit_and_reset, on_char, on_layout_key, on_backspace,
  is_left_to_system, press, process_key_event,
}
use chromiumos_devenv.Unikey.Adapter.Composing.{
  added, kept, span_call, flush_call, typed_composition-kept,
}

-- A key press without Ctrl and Alt.
abbrev pub IsPlainPress : PhysicalKeyEvent → Type 0
IsPlainPress event =
    (event.type ≡ key_down)
    × (event.modifier_state.control ≡ false)
    × (event.modifier_state.alt ≡ false)

pressed : (event : PhysicalKeyEvent) → IsPlainPress event → is_left_to_system event ≡ false
unfolding is_left_to_system
pressed event h = ground arith

module _ (uk : UkEngine) (value : DomCode → ℕ) (event : PhysicalKeyEvent)
    (a : Adapter uk.Core) where
  plain_press : IsPlainPress event → process_key_event uk value event a ≡ press uk value event a
  unfolding process_key_event
  plain_press h =
      ap (λ b. if b then ((a, []), needs_handling_by_system) else press uk value event a)
        (pressed event h)

  on_press_key :
      code_eq event.code backspace ≡ false
      → press uk value event a
        ≡ on_layout_key uk
            (us_layout_char value event.code)
            event.modifier_state.shift
            event.modifier_state.caps_lock
            a
  unfolding press
  on_press_key other =
      ap
        (λ b.
          if b
          then on_backspace uk a
          else on_layout_key uk (us_layout_char value event.code) event.modifier_state.shift
              event.modifier_state.caps_lock a)
        other

  on_char-typed :
      (ch : ℕ)
      → let out = (uk.process ch a.core).0 in
        let core = (uk.process ch a.core).1 in
        let text = kept out a.composition ++ added out ch in
        on_char uk ch a ≡ (
          (if is_word_break_char ch
              then (record a { core = uk.reset core; composition = [] }, flush_call text)
              else (record a { core = core; composition = text }, span_call text)),
          consumed_by_ime,
        )
  unfolding on_char
  on_char-typed ch =
      let out = (uk.process ch a.core).0 in
      let core = (uk.process ch a.core).1 in
      ap
        (λ (text : List ℕ). (
          (if is_word_break_char ch
              then commit_and_reset uk (record a { core = core; composition = text })
              else update_composition uk (record a { core = core; composition = text })),
          consumed_by_ime,
        ))
        (typed_composition-kept out ch a.composition)

  not_zero : (n : ℕ) → n ≢ 0 → (n == 0) ≡ false
  not_zero n h = ground arith

  mapped_char :
      (kc : KeyChars) (shift caps : Bool)
      → kc.base ≢ 0
      → on_layout_key uk kc shift caps a ≡ on_char uk (effective_char kc shift caps) a
  unfolding on_layout_key
  mapped_char kc shift caps h =
      ap
        (λ (b : Bool).
          if b
          then (commit_and_reset uk a, needs_handling_by_system)
          else on_char uk (effective_char kc shift caps) a)
        (not_zero kc.base h)

  -- A pressed key that the layout maps hands its character to the vendored engine and is consumed.
  -- The composition loses as many code points at its end as the engine takes back, as far as there
  -- are any, and gets what the engine puts out behind the rest, or the character itself if the
  -- engine did not take it. A character that breaks words then commits the composition and resets
  -- the engine; after any other the host is shown the composition, with the cursor at its end.
  pub process_key_event-typed :
      IsPlainPress event
      → code_eq event.code backspace ≡ false
      → (us_layout_char value event.code).base ≢ 0
      → let ch =
          effective_char
            (us_layout_char value event.code)
            event.modifier_state.shift
            event.modifier_state.caps_lock in
        let out = (uk.process ch a.core).0 in
        let core = (uk.process ch a.core).1 in
        let text = kept out a.composition ++ added out ch in
        process_key_event uk value event a ≡ (
          (if is_word_break_char ch
              then (record a { core = uk.reset core; composition = [] }, flush_call text)
              else (record a { core = core; composition = text }, span_call text)),
          consumed_by_ime,
        )
  process_key_event-typed h other mapped =
      plain_press h
      ∙ on_press_key other
      ∙ mapped_char (us_layout_char value event.code) event.modifier_state.shift
          event.modifier_state.caps_lock mapped
      ∙ on_char-typed (
          effective_char (us_layout_char value event.code) event.modifier_state.shift
            event.modifier_state.caps_lock)
