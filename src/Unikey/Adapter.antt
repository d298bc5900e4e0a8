-- ===== src/Unikey/Adapter.antt =====
-- `UnikeyEngine` of unikey_engine.cc and unikey_engine.h. The vendored engine, `UkEngine` with its
-- `UkSharedMem`, is a library of another project and a parameter.
pub mod Composing
pub mod Keys
pub mod Preedit
pub mod Unhandled
use chromiumos_devenv.Common.{
  ℕ, zero, suc, ◌+◌, Bool, true, false, not, ◌&&◌, ◌||◌, List, [], ◌∷◌, ◌++◌, Option, none, some,
  Bytes, codes, bytes_eq, init, is_empty, length, ◌==◌, if◌then◌else◌,
}
use chromiumos_devenv.Platform.DomCode.{DomCode, backspace, code_eq}
use chromiumos_devenv.Platform.Host.{
  KeyEventType, key_down, key_up, PhysicalKeyEvent, KeyEventResult, consumed_by_ime,
  needs_handling_by_system, none_style, HostCall, commit_text, set_composition,
}
use chromiumos_devenv.Unikey.Utf8.{append_utf8}
use chromiumos_devenv.Unikey.Utf16.{codepoints_to_u16}
use chromiumos_devenv.Unikey.Layout.{KeyChars, us_layout_char, effective_char, is_word_break_char}

-- `UnikeyOptions`, as `ApplyOptions` sets them.
pub record Options : Type 0 where
  pub free_marking : Bool
  pub modern_style : Bool
  pub macro_enabled : Bool
  pub spell_check_enabled : Bool
  pub auto_non_vn_restore : Bool
  pub strict_spell_check : Bool
  pub use_unicode_clipboard : Bool
  pub always_macro : Bool

-- What `process` and `processBackspace` hand back: their result, the code points to delete, and
-- the bytes in `buf` up to `out_size`.
pub record Output : Type 0 where
  pub ret : ℕ
  pub backs : ℕ
  pub buf : Bytes

pub record UkEngine : Type 1 where
  pub Core : Type 0
  -- The engine and its memory after the calls of the constructor that stand before `ApplyOptions`.
  pub prepared : Core
  pub set_options : Options → Core → Core
  -- `setCtrlInfo` and `setCheckKbCaseFunc`
  pub attach : Core → Core
  pub reset : Core → Core
  pub process : ℕ → Core → Output × Core
  pub process_backspace : Core → Output × Core

pub record Adapter (C : Type 0) : Type 0 where
  pub core : C
  pub composition : List ℕ
  pub bound : Bool

-- A handler's new state and its calls of the host, in order.
abbrev pub Step : Type 0 → Type 0
Step C = Adapter C × List HostCall

-- `for (k = 0; k < backs && !composition_.empty(); ++k) composition_.pop_back();`
unfoldable pub pop_backs : ℕ → List ℕ → List ℕ
pop_backs zero composition = composition
pop_backs (suc backs) [] = []
pop_backs (suc backs) (c ∷ composition) = pop_backs backs (init (c ∷ composition))

abbrev pub vietnamese_options : Bool → Options
vietnamese_options modern = record {
  free_marking = true;
  modern_style = modern;
  macro_enabled = false;
  spell_check_enabled = true;
  auto_non_vn_restore = true;
  strict_spell_check = false;
  use_unicode_clipboard = false;
  always_macro = false;
}

unfoldable pub is_ime_supported : Bytes → Bool
is_ime_supported ime_spec = bytes_eq ime_spec (codes "m17n:vi_telex")

-- `settings`: null, of another kind, or Vietnamese Telex settings with their
-- `new_style_tone_mark_placement`.
pub data Settings : Type 0 where
  null_settings other_settings : Settings
  vietnamese_telex_settings : Bool → Settings

unfoldable pub modern_placement : Settings → Bool
modern_placement (vietnamese_telex_settings new_style) = new_style
modern_placement _ = false

-- The composition after `process` on the character `ch`.
unfoldable pub typed_composition : Output → ℕ → List ℕ → List ℕ
unfolding pop_backs
typed_composition out ch composition =
    let kept = pop_backs out.backs composition in
    if not (is_empty out.buf)
    then append_utf8 out.buf kept
    else if out.ret == 0
    then kept ++ ch ∷ []
    else kept

-- The composition after `processBackspace`.
unfoldable pub backspaced_composition : Output → List ℕ → List ℕ
unfolding pop_backs
backspaced_composition out composition =
    let kept = pop_backs out.backs composition in
    if not (is_empty out.buf)
    then append_utf8 out.buf kept
    else if out.backs == 0 && not (is_empty kept)
    then init kept
    else kept

abbrev is_key_down : KeyEventType → Bool
is_key_down key_down = true
is_key_down key_up = false

-- The first test of `ProcessKeyEvent`.
unfoldable pub is_left_to_system : PhysicalKeyEvent → Bool
is_left_to_system event =
    not (is_key_down event.type) || event.modifier_state.control || event.modifier_state.alt

module _ (uk : UkEngine) where
  unfoldable pub apply_options : Bool → Adapter uk.Core → Adapter uk.Core
  apply_options modern a = record a { core = uk.set_options (vietnamese_options modern) a.core }

  -- The constructor.
  unfoldable pub construct : Bool → Adapter uk.Core
  unfolding apply_options
  construct modern =
      let a =
        apply_options modern (record { core = uk.prepared; composition = []; bound = true }) in
      record a { core = uk.reset (uk.attach a.core) }

  unfoldable pub create : Bytes → Settings → Option (Adapter uk.Core)
  unfolding is_ime_supported modern_placement construct
  create ime_spec settings =
      if not (is_ime_supported ime_spec) then none else some (construct (modern_placement settings))

  -- The disconnect handler resets the receiver.
  unfoldable pub on_disconnect : Adapter uk.Core → Adapter uk.Core
  on_disconnect a = record a { bound = false }

  unfoldable pub on_composition_canceled_by_system : Adapter uk.Core → Step uk.Core
  on_composition_canceled_by_system a = (record a { core = uk.reset a.core; composition = [] }, [])

  -- The callback is run with success.
  unfoldable pub on_focus : Settings → Adapter uk.Core → Step uk.Core
  unfolding modern_placement apply_options
  on_focus settings a =
      let a' = apply_options (modern_placement settings) a in
      (record a' { core = uk.reset a'.core; composition = [] }, [])

  unfoldable pub update_composition : Adapter uk.Core → Step uk.Core
  update_composition a =
      let text = codepoints_to_u16 a.composition in
      (
        a,
        set_composition text (record { start = 0; end = length text; style = none_style } ∷ [])
              (length text)
            ∷ [],
      )

  unfoldable pub commit_and_reset : Adapter uk.Core → Step uk.Core
  commit_and_reset a = (
    record a { composition = []; core = uk.reset a.core },
    if is_empty a.composition then [] else commit_text (codepoints_to_u16 a.composition) ∷ [],
  )

  unfoldable pub on_blur : Adapter uk.Core → Step uk.Core
  unfolding commit_and_reset
  on_blur = commit_and_reset

  on_backspace : Adapter uk.Core → Step uk.Core × KeyEventResult
  unfolding backspaced_composition update_composition
  on_backspace a =
      if is_empty a.composition
      then ((a, []), needs_handling_by_system)
      else (let (out, core) = uk.process_backspace a.core in
          (
            update_composition
                (record a { core = core; composition = backspaced_composition out a.composition }),
            consumed_by_ime,
          ))

  on_char : ℕ → Adapter uk.Core → Step uk.Core × KeyEventResult
  unfolding typed_composition commit_and_reset update_composition
  on_char ch a =
      let (out, core) = uk.process ch a.core in
      let a' = record a { core = core; composition = typed_composition out ch a.composition } in
      (
        (if is_word_break_char ch then commit_and_reset a' else update_composition a'),
        consumed_by_ime,
      )

  -- `kc` is what the layout gives for the key.
  on_layout_key : KeyChars → Bool → Bool → Adapter uk.Core → Step uk.Core × KeyEventResult
  unfolding on_char commit_and_reset
  on_layout_key kc shift caps a =
      if kc.base == 0
      then (commit_and_reset a, needs_handling_by_system)
      else on_char (effective_char kc shift caps) a

  -- A key press that is not left to the system.
  press : (DomCode → ℕ) → PhysicalKeyEvent → Adapter uk.Core → Step uk.Core × KeyEventResult
  unfolding on_backspace on_layout_key
  press value event a =
      if code_eq event.code backspace
      then on_backspace a
      else on_layout_key (us_layout_char value event.code) event.modifier_state.shift
          event.modifier_state.caps_lock a

  unfoldable pub process_key_event :
      (DomCode → ℕ) → PhysicalKeyEvent → Adapter uk.Core → Step uk.Core × KeyEventResult
  unfolding press
  process_key_event value event a =
      if is_left_to_system event then ((a, []), needs_handling_by_system) else press value event a
