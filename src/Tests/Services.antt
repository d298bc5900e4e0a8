-- ===== src/Tests/Services.antt =====
-- The theorems on the rule-based service at concrete inputs.
use chromiumos_devenv.Common.{
  Option, Bool, ◌∷◌, ◌⊎◌, ◌↔◌, ◌/◌, ◌%◌, ◌<◌, ◌≡◌, ◌≢◌, refl, true, false, List, [], ◌++◌, none,
  some, Bytes, bytes_eq, codes, arith, ◌==◌, returns,
}
use chromiumos_devenv.Platform.DomCode.{key_b, key_z, code_eq}
use chromiumos_devenv.Platform.Text.{Units}
use chromiumos_devenv.Platform.Host.{
  key_down, ModifierState, PhysicalKeyEvent, KeyEventResult, needs_handling_by_system, HostCall,
  commit_text,
}
use chromiumos_devenv.Platform.Document.{Document, apply_calls, shown_text}
use chromiumos_devenv.Rulebased.RulesData.{find_entry}
use chromiumos_devenv.Rulebased.RulesData.Building.{is_complete, CountsGroups}
use chromiumos_devenv.Rulebased.Rules.Groups.{flat}
use chromiumos_devenv.Rulebased.KeyMap.{find}
use chromiumos_devenv.Rulebased.RulesData.{get_key_map_by_modifiers}
use chromiumos_devenv.Rulebased.Engine.{reset, clear_history, process_key}
use chromiumos_devenv.Rulebased.Engine.Results.{as_new}
use chromiumos_devenv.Rulebased.Engine.Safety.{Inv}
use chromiumos_devenv.Layouts.{c_string}
use chromiumos_devenv.Service.{
  RuleBasedEngine, handle_engine_result, track_alt_right, is_left_to_system, is_modifier_key,
  process_key_event, generate_modifier_value, connect_to_input_method, is_connected,
}
use chromiumos_devenv.Service.Modifiers.{generate_modifier_value-bits}
use chromiumos_devenv.Service.Events.{Mirrors, process_key_event-Mirrors}
use chromiumos_devenv.Service.Unhandled.{process_key_event-unhandled}
use chromiumos_devenv.Service.Connection.{connect-supported}
use chromiumos_devenv.Service.Reports.{Supported, connect-reports}
use chromiumos_devenv.Layouts.{raw_data}
use chromiumos_devenv.Service.Session.{Supports, connected, Session-returns}
use chromiumos_devenv.Tests.Toys.{
  toy_re2, toy_conv, toy_laws, toy_engine, toy_Inv, toy_raw_data, toy_entry, toy_rules,
}

abbrev no_modifiers : ModifierState
no_modifiers = record {
  alt = false;
  alt_graph = false;
  caps_lock = false;
  control = false;
  shift = false;
}

abbrev b_press : PhysicalKeyEvent
b_press = record { type = key_down; code = key_b; modifier_state = no_modifiers }

abbrev toy_service : RuleBasedEngine Bytes
toy_service = record { engine = toy_engine; is_alt_right_key_down = false; bound = true }

abbrev toy_document : Document
toy_document = record { committed = codes "before "; preedit = codes "ab" }

process_key_event-Mirrors_example :
    (s' : RuleBasedEngine Bytes) × (calls : List HostCall) × (result : KeyEventResult)
    × (process_key_event toy_re2 toy_conv b_press toy_service ≡ returns (s', calls, result))
    × Inv toy_re2 s'.engine
    × Mirrors toy_re2 toy_conv (apply_calls calls toy_document) s'.engine
    × ((added : Units) × ((apply_calls calls toy_document).committed ≡ codes "before " ++ added))
process_key_event-Mirrors_example =
    process_key_event-Mirrors toy_re2 toy_conv toy_laws b_press toy_service toy_document refl
      toy_Inv refl

-- The system gets a key that no key map has, and `ab` is committed.
abbrev z_press : PhysicalKeyEvent
z_press = record b_press { code = key_z }

abbrev z_service : RuleBasedEngine Bytes
z_service = record toy_service { engine = as_new toy_engine }

z_left :
    process_key_event toy_re2 toy_conv z_press toy_service
    ≡ returns (z_service, commit_text (codes "ab") ∷ [], needs_handling_by_system)
unfolding process_key_event is_left_to_system is_modifier_key track_alt_right
    generate_modifier_value handle_engine_result process_key get_key_map_by_modifiers find code_eq
    reset clear_history
z_left = refl

process_key_event-unhandled_example :
    (shown_text (apply_calls (commit_text (codes "ab") ∷ []) toy_document)
      ≡ shown_text toy_document)
    × ((z_service.engine ≡ toy_engine) ⊎ (z_service.engine ≡ as_new toy_engine))
process_key_event-unhandled_example =
    process_key_event-unhandled toy_re2 toy_conv toy_laws z_press toy_service z_service
      (commit_text (codes "ab") ∷ []) toy_document refl toy_Inv refl z_left

abbrev shift_caps : ModifierState
shift_caps = record {
  alt = false;
  alt_graph = false;
  caps_lock = true;
  control = false;
  shift = true;
}

generate_modifier_value-bits_example :
    (generate_modifier_value shift_caps true < 8)
    × ((generate_modifier_value shift_caps true % 2 == 1) ≡ true)
    × ((generate_modifier_value shift_caps true / 2 % 2 == 1) ≡ true)
    × ((generate_modifier_value shift_caps true / 4 == 1) ≡ true)
generate_modifier_value-bits_example = generate_modifier_value-bits shift_caps true

-- A layout that another service has.
connect-reports_example :
    (made : Option (RuleBasedEngine Bytes)) × (reported : Bool) × (connect_to_input_method toy_re2
        toy_conv raw_data
        (codes "xkb:us")
        (some toy_service)
      ≡ returns (made, reported))
    × (is_connected made ≡ reported)
    × ((reported ≡ true) ↔ Supported (codes "xkb:us"))
connect-reports_example = connect-reports toy_re2 toy_conv (codes "xkb:us") (some toy_service)

toy_found : find_entry (codes "toy") toy_raw_data ≡ some toy_entry
unfolding find_entry bytes_eq c_string
toy_found = refl

toy_is_complete : is_complete toy_entry ≡ true
unfolding is_complete
toy_is_complete = refl

toy_transforms : toy_entry.transforms ≡ flat toy_rules
unfolding c_string
toy_transforms = refl

toy_counted : CountsGroups toy_re2 toy_conv toy_rules
toy_counted = (omega arith, refl)

toy_id : codes "toy" ≢ []
toy_id e = cc

connect-supported_example :
    (s : RuleBasedEngine Bytes) × (connect_to_input_method toy_re2 toy_conv toy_raw_data
        (codes "m17n:toy")
        (some toy_service)
      ≡ returns (some s, true))
    × (is_connected (some s) ≡ true)
    × (s.engine.current_id ≡ codes "toy")
    × (s.engine.context ≡ [])
    × Inv toy_re2 s.engine
connect-supported_example =
    connect-supported toy_re2 toy_conv toy_raw_data (codes "toy") (some toy_service) toy_entry
      toy_rules toy_id toy_found toy_is_complete toy_transforms refl toy_counted

toy-Supports : Supports toy_re2 toy_conv toy_raw_data (codes "toy")
toy-Supports = record {
  entry = toy_entry;
  rules = toy_rules;
  full = toy_id;
  found = toy_found;
  complete = toy_is_complete;
  transforms = toy_transforms;
  count = refl;
  counted = toy_counted;
}

abbrev empty_field : Document
empty_field = record { committed = []; preedit = [] }

-- The toy layout, connected.
toy_connection :
    (s : RuleBasedEngine Bytes) × (connect_to_input_method toy_re2 toy_conv toy_raw_data
        (codes "m17n:toy")
        none
      ≡ returns (some s, true))
toy_connection =
    let (s, made, up, same_id, nothing_yet, inv) =
      connect-supported toy_re2 toy_conv toy_raw_data (codes "toy") none toy_entry toy_rules toy_id
        toy_found toy_is_complete toy_transforms refl toy_counted in
    (s, made)

Session-returns_example :
    ([] ≡ toy_connection.0.engine.context)
    × ((s' : RuleBasedEngine Bytes) × (calls : List HostCall) × (result : KeyEventResult)
        × (process_key_event toy_re2 toy_conv b_press toy_connection.0
            ≡ returns (s', calls, result)))
Session-returns_example =
    Session-returns toy_re2 toy_conv toy_raw_data toy_laws refl {doc = empty_field} b_press
      (connected (codes "toy") none toy-Supports toy_connection.1 refl)
