-- ===== src/Service.antt =====
-- `RuleBasedEngine` of rule_based_engine.cc and rule_based_engine.h, and
-- `RuleBasedEngineConnectionFactory`, both of
-- chromium-patches/rulebased-payload/chromeos/ash/services/ime.
pub mod Modifiers
pub mod Events
pub mod Unhandled
pub mod Connection
pub mod Reports
pub mod Session
use chromiumos_devenv.Common.{
  ℕ, zero, suc, ◌+◌, bit_or, Bool, true, false, not, ◌&&◌, ◌||◌, List, [], ◌∷◌, ◌++◌, Option, none,
  some, Bytes, codes, drop, length, is_empty, ◌==◌, if◌then◌else◌, Outcome, returns, fails, ◌>>=◌,
  not_reached,
}
use chromiumos_devenv.Platform.DomCode.{
  DomCode, code_eq, alt_left, alt_right, shift_left, shift_right, control_left, control_right,
  caps_lock,
}
use chromiumos_devenv.Platform.Regex.{Re2}
use chromiumos_devenv.Platform.Text.{Units, Conversions}
use chromiumos_devenv.Platform.Host.{
  KeyEventType, key_down, key_up, ModifierState, PhysicalKeyEvent, KeyEventResult, consumed_by_ime,
  needs_handling_by_system, default, HostCall, commit_text, set_composition,
}
use chromiumos_devenv.Rulebased.RulesData.{RawDataEntry, is_id_supported}
use chromiumos_devenv.Rulebased.Engine.{
  ProcessKeyResult, Engine, new_engine, reset, activate, process_key,
}

abbrev pub modifier_shift : ℕ
modifier_shift = 1

abbrev pub modifier_altgr : ℕ
modifier_altgr = 2

abbrev pub modifier_capslock : ℕ
modifier_capslock = 4

starts_with : Bytes → Bytes → Bool
starts_with [] s = true
starts_with (p ∷ ps) [] = false
starts_with (p ∷ ps) (c ∷ s) = c == p && starts_with ps s

abbrev pub m17n_prefix : Bytes
m17n_prefix = codes "m17n:"

unfoldable pub get_id_from_ime_spec : Bytes → Bytes
unfolding starts_with
get_id_from_ime_spec ime_spec =
    if starts_with m17n_prefix ime_spec then drop (length m17n_prefix) ime_spec else []

unfoldable pub generate_modifier_value : ModifierState → Bool → ℕ
generate_modifier_value m is_alt_right_key_down =
    let m0 : ℕ = 0 in
    let m1 = if m.shift then bit_or m0 modifier_shift else m0 in
    let m2 = if m.alt_graph || is_alt_right_key_down then bit_or m1 modifier_altgr else m1 in
    if m.caps_lock then bit_or m2 modifier_capslock else m2

abbrev pub convert_to_utf16_and_normalize : Conversions → Bytes → Units
convert_to_utf16_and_normalize conv str = conv.to_utf16 (conv.normalize str)

-- The call of `CommitText`, if there is one.
abbrev pub commit_call : Conversions → ProcessKeyResult → List HostCall
commit_call conv result =
    if is_empty result.commit_text
    then []
    else commit_text (convert_to_utf16_and_normalize conv result.commit_text) ∷ []

-- The call of `SetComposition`, if there is one.
abbrev pub composition_call : Conversions → ProcessKeyResult → List HostCall
composition_call conv result =
    let text = convert_to_utf16_and_normalize conv result.composition_text in
    if not (is_empty result.composition_text) || result.key_handled && is_empty result.commit_text
    then set_composition text (record { start = 0; end = length text; style = default } ∷ [])
        (length text)
      ∷ []
    else []

unfoldable pub handle_engine_result :
    Conversions → ProcessKeyResult → List HostCall × KeyEventResult
handle_engine_result conv result = (
  commit_call conv result ++ composition_call conv result,
  (if result.key_handled then consumed_by_ime else needs_handling_by_system),
)

unfoldable pub is_modifier_key : DomCode → Bool
is_modifier_key alt_left = true
is_modifier_key alt_right = true
is_modifier_key shift_left = true
is_modifier_key shift_right = true
is_modifier_key control_left = true
is_modifier_key control_right = true
is_modifier_key caps_lock = true
is_modifier_key _ = false

pub record RuleBasedEngine (R : Type 0) : Type 0 where
  pub engine : Engine R
  pub is_alt_right_key_down : Bool
  pub bound : Bool

abbrev pub is_key_down : KeyEventType → Bool
is_key_down key_down = true
is_key_down key_up = false

-- `OnFocus` runs its callback with this success value, and changes nothing.
abbrev pub on_focus_success : Bool
on_focus_success = false

module _ {R : Type 0} where
  unfoldable pub on_composition_canceled_by_system : RuleBasedEngine R → RuleBasedEngine R
  on_composition_canceled_by_system s = record s {
    engine = reset s.engine;
    is_alt_right_key_down = false;
  }

  -- The disconnect handler resets the receiver.
  unfoldable pub on_disconnect : RuleBasedEngine R → RuleBasedEngine R
  on_disconnect s = record s { bound = false }

  -- The first statement of `ProcessKeyEvent`.
  unfoldable pub track_alt_right : PhysicalKeyEvent → RuleBasedEngine R → RuleBasedEngine R
  track_alt_right event s =
      if code_eq event.code alt_right
      then record s { is_alt_right_key_down = is_key_down event.type }
      else s

  -- `OnCandidateSelected`, `OnAssistiveWindowChanged` and `OnQuickSettingsUpdated`.
  unfoldable pub on_candidate_selected : ℕ → RuleBasedEngine R → Outcome (RuleBasedEngine R)
  on_candidate_selected index s = fails not_reached

-- Whether `ProcessKeyEvent` leaves the event to the system without asking the engine.
unfoldable pub is_left_to_system : PhysicalKeyEvent → Bool → Bool
is_left_to_system event is_alt_right_key_down =
    not (is_key_down event.type)
    || is_modifier_key event.code
    || event.modifier_state.control
    || event.modifier_state.alt && not is_alt_right_key_down

module _ (re2 : Re2) (conv : Conversions) where
  -- The new state, the calls of the host and the result that the callback is run with.
  abbrev pub Handled : Type 0
  Handled = RuleBasedEngine re2.Regex × List HostCall × KeyEventResult

  ask_engine : PhysicalKeyEvent → RuleBasedEngine re2.Regex → Outcome Handled
  ask_engine event s = do
    step ←
        process_key re2 conv s.engine event.code
          (generate_modifier_value event.modifier_state s.is_alt_right_key_down)
    let out = handle_engine_result conv step.0
    returns (record s { engine = step.1 }, out.0, out.1)

  unfoldable pub process_key_event : PhysicalKeyEvent → RuleBasedEngine re2.Regex → Outcome Handled
  unfolding ask_engine track_alt_right
  process_key_event event s =
      let s' = track_alt_right event s in
      if is_left_to_system event s'.is_alt_right_key_down
      then returns (s', [], needs_handling_by_system)
      else ask_engine event s'

  module _ (raw_data : List (Bytes × RawDataEntry)) where
    unfoldable pub is_ime_supported_by_rulebased : Bytes → Bool
    is_ime_supported_by_rulebased ime_spec =
        is_id_supported raw_data (get_id_from_ime_spec ime_spec)

    -- The constructor.
    construct : Bytes → Outcome (RuleBasedEngine re2.Regex)
    construct ime_spec = do
      e ← activate re2 conv raw_data (get_id_from_ime_spec ime_spec) (new_engine re2.Regex)
      returns (record { engine = e; is_alt_right_key_down = false; bound = true })

    unfoldable pub create : Bytes → Outcome (Option (RuleBasedEngine re2.Regex))
    unfolding is_ime_supported_by_rulebased construct
    create ime_spec =
        if is_ime_supported_by_rulebased ime_spec
        then (do s ← construct ime_spec; returns (some s))
        else returns none

    -- The factory's state is `rule_based_engine_`; the callback is run with `bound`.
    unfoldable pub connect_to_input_method :
        Bytes
        → Option (RuleBasedEngine re2.Regex)
        → Outcome (Option (RuleBasedEngine re2.Regex) × Bool)
    unfolding create
    connect_to_input_method ime_spec old = do
      made ← create ime_spec
      returns (made, elim made [ none ↦ false | some s ↦ true ])

-- `IsConnected` of the factory.
unfoldable pub is_connected : {R : Type 0} → Option (RuleBasedEngine R) → Bool
is_connected none = false
is_connected (some s) = s.bound
