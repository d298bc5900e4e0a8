-- ===== src/Tests/Vietnamese.antt =====
-- The theorems on the Unikey adapter at concrete inputs.
use chromiumos_devenv.Common.{
  ◌⊎◌, ℕ, Bool-cases, inr, suc, ◌+◌, ◌≤◌, ◌<◌, ◌≡◌, ◌≢◌, refl, inl, true, false, List, [], ◌∷◌,
  ◌++◌, Bytes, codes, arith, length, ◌==◌, if◌then◌else◌,
}
use chromiumos_devenv.Platform.DomCode.{DomCode, key_a, key_b, shift_left, backspace, code_eq}
use chromiumos_devenv.Platform.Host.{
  key_down, key_up, ModifierState, PhysicalKeyEvent, consumed_by_ime, needs_handling_by_system,
}
use chromiumos_devenv.Unikey.Utf8.{encode_utf8, append_utf8, decode_from}
use chromiumos_devenv.Unikey.Utf8.RoundTrip.{append_utf8-encode_utf8, decode_from-fuel}
use chromiumos_devenv.Unikey.Utf16.{codepoints_to_u16, Decodes, codepoints_to_u16-Decodes}
use chromiumos_devenv.Unikey.Layout.{us_layout_char, effective_char, is_word_break_char}
use chromiumos_devenv.Unikey.Adapter.{
  is_left_to_system, UkEngine, Adapter, Step, construct, process_key_event,
}
use chromiumos_devenv.Platform.Document.{Document, apply_calls, shown_text}
use chromiumos_devenv.Unikey.Adapter.Preedit.{Shows, PutsOut, connected, key_event, Session-Shows}
use chromiumos_devenv.Unikey.Adapter.Unhandled.{process_key_event-Left}
use chromiumos_devenv.Unikey.Adapter.Composing.{added, kept, span_call, flush_call}
use chromiumos_devenv.Unikey.Adapter.Keys.{process_key_event-typed}

-- An engine that counts its keys, and turns the second `a` into `â` in place of the first.
abbrev toy_unikey : UkEngine
toy_unikey = record {
  Core = ℕ;
  prepared = 0;
  set_options = λ o c. c;
  attach = λ c. c;
  reset = λ c. 0;
  process = λ ch c.
      if c == 1
      then (record { ret = 1; backs = 1; buf = 0xC3 ∷ 0xA2 ∷ [] }, 2)
      else (record { ret = 0; backs = 0; buf = [] }, suc c);
  process_backspace = λ c. (record { ret = 0; backs = 0; buf = [] }, c);
}

abbrev toy_adapter : Adapter ℕ
toy_adapter = record { core = 1; composition = codes "ba"; bound = true }

-- The values of the letters' codes, in order; of no account for others.
abbrev toy_value : DomCode → ℕ
toy_value key_b = 5
toy_value key_a = 4
toy_value shift_left = 100
toy_value _ = 29

abbrev no_modifiers : ModifierState
no_modifiers = record {
  alt = false;
  alt_graph = false;
  caps_lock = false;
  control = false;
  shift = false;
}

abbrev a_press : PhysicalKeyEvent
a_press = record { type = key_down; code = key_a; modifier_state = no_modifiers }

abbrev shift_press : PhysicalKeyEvent
shift_press = record {
  type = key_down;
  code = shift_left;
  modifier_state = record no_modifiers { shift = true };
}

abbrev a_release : PhysicalKeyEvent
a_release = record { type = key_up; code = key_a; modifier_state = no_modifiers }

a_not_backspace : code_eq key_a backspace ≡ false
unfolding code_eq
a_not_backspace = refl

a_mapped : (us_layout_char toy_value key_a).base ≢ 0
unfolding us_layout_char
a_mapped e = cc

process_key_event-typed_example :
    let ch = effective_char (us_layout_char toy_value key_a) false false in
    let out = (toy_unikey.process ch 1).0 in
    let text = kept out (codes "ba") ++ added out ch in
    process_key_event toy_unikey toy_value a_press toy_adapter ≡ (
      (if is_word_break_char ch
          then (record { core = 0; composition = []; bound = true }, flush_call text)
          else (record { core = 2; composition = text; bound = true }, span_call text)),
      consumed_by_ime,
    )
process_key_event-typed_example =
    process_key_event-typed toy_unikey toy_value a_press toy_adapter (refl, refl, refl)
      a_not_backspace a_mapped

-- Shift pressed in the middle of a word goes to the system, and ends the word.
shift_left_alone :
    (process_key_event toy_unikey toy_value shift_press toy_adapter).1 ≡ needs_handling_by_system
unfolding process_key_event is_left_to_system code_eq us_layout_char
shift_left_alone = refl

abbrev ba_field : Document
ba_field = record { committed = codes "x "; preedit = codes "ba" }

ba_shown : Shows ba_field toy_adapter
unfolding codepoints_to_u16
ba_shown = refl

process_key_event-Left_example :
    let s = (process_key_event toy_unikey toy_value shift_press toy_adapter).0 in
    (shown_text (apply_calls s.1 ba_field) ≡ shown_text ba_field)
    × ((s.0 ≡ toy_adapter) ⊎ (s.0 ≡ record toy_adapter { composition = []; core = 0 }))
process_key_event-Left_example =
    process_key_event-Left toy_unikey toy_value shift_press toy_adapter ba_field ba_shown
      shift_left_alone

puts_out : PutsOut toy_unikey
puts_out ch c h = elim (Bool-cases (c == 1)) [
  | inl second ↦ inl (rw second refl)
  | inr other ↦ inr (rw other refl)
]

abbrev new_adapter : Adapter ℕ
new_adapter = construct toy_unikey true

abbrev empty_field : Document
empty_field = record { committed = []; preedit = [] }

abbrev first_a : Step ℕ
first_a = (process_key_event toy_unikey toy_value a_press new_adapter).0

abbrev second_a : Step ℕ
second_a = (process_key_event toy_unikey toy_value a_press first_a.0).0

-- After `a` was typed twice.
Session-Shows_example :
    Shows (apply_calls second_a.1 (apply_calls first_a.1 empty_field)) second_a.0
Session-Shows_example =
    Session-Shows toy_unikey toy_value puts_out
      (key_event a_press (key_event a_press (connected true {doc = empty_field} refl)))

-- A letter of each length in UTF-8.
abbrev points : List ℕ
points = 0x61 ∷ 0xE2 ∷ 0x1EA5 ∷ 0x1F600 ∷ []

append_utf8-encode_utf8_example : append_utf8 (encode_utf8 points) (codes "x") ≡ codes "x" ++ points
append_utf8-encode_utf8_example =
    append_utf8-encode_utf8 points (codes "x") (below_1, (below_2, (below_3, (below_4, tt))))
  where
    below_1 : 0x61 < 0x200000
    below_1 = omega arith

    below_2 : 0xE2 < 0x200000
    below_2 = omega arith

    below_3 : 0x1EA5 < 0x200000
    below_3 = omega arith

    below_4 : 0x1F600 < 0x200000
    below_4 = omega arith

codepoints_to_u16-Decodes_example : Decodes (codepoints_to_u16 points) points
codepoints_to_u16-Decodes_example =
    codepoints_to_u16-Decodes points (refl, (refl, (refl, (refl, tt))))

-- The first two bytes of a sequence of three.
abbrev cut_short : Bytes
cut_short = 0xE1 ∷ 0xBA ∷ []

two_bytes : length cut_short ≤ 2
two_bytes = omega arith

decode_from-fuel_example : decode_from (2 + 5) cut_short ≡ decode_from 2 cut_short
decode_from-fuel_example = decode_from-fuel 2 5 cut_short two_bytes
