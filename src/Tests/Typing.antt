-- ===== src/Tests/Typing.antt =====
-- The engine's theorems at concrete inputs.
use chromiumos_devenv.Common.{
  ◌≡◌, ◌≢◌, ◌⊎◌, refl, true, false, [], ◌∷◌, ◌++◌, some, Bytes, bytes_eq, codes, arith, returns,
}
use chromiumos_devenv.Common.Int.{pos}
use chromiumos_devenv.Platform.DomCode.{key_a, key_b, key_z, backspace, code_eq}
use chromiumos_devenv.Rulebased.KeyMap.{find}
use chromiumos_devenv.Rulebased.RulesData.{
  RulesData, get_key_map_by_modifiers, create, find_entry, is_id_supported, transform, apply_rule,
  match_history_prune, predict_transform,
}
use chromiumos_devenv.Rulebased.Rules.{find_rule}
use chromiumos_devenv.Rulebased.RulesData.Building.{is_complete, CountsGroups}
use chromiumos_devenv.Rulebased.Engine.{
  ProcessKeyResult, Engine, new_engine, clear_history, reset, activate, match_key, transform_key,
  process_key,
}
use chromiumos_devenv.Rulebased.Engine.Safety.{Inv}
use chromiumos_devenv.Rulebased.Engine.Effects.{KeyEffect, process_key-returns}
use chromiumos_devenv.Rulebased.Engine.Results.{
  process_key-composition, process_key-unhandled, as_new, process_keys, process_keys-Types, Types,
  nothing, key,
}
use chromiumos_devenv.Rulebased.Engine.Text.{
  transform_key-text, activate-supported, activate-unsupported,
}
use chromiumos_devenv.Rulebased.Rules.Groups.{flat}
use chromiumos_devenv.Layouts.{c_string}
use chromiumos_devenv.Tests.Toys.{
  toy_raw_data, toy_entry, toy_rules, toy_re2, toy_conv, toy_laws, toy_map, toy_data, toy_plain,
  toy_engine, toy_plain_engine, toy_Inv,
}

process_key-returns_example :
    (res : ProcessKeyResult) × (e' : Engine Bytes) × (process_key toy_re2 toy_conv toy_engine key_b
        0
      ≡ returns (res, e'))
    × KeyEffect toy_engine res e'
    × Inv toy_re2 e'
process_key-returns_example =
    process_key-returns toy_re2 toy_laws toy_conv toy_engine key_b 0 toy_Inv

map_0 : get_key_map_by_modifiers toy_re2 toy_data 0 ≡ some toy_map
unfolding get_key_map_by_modifiers
map_0 = refl

abbrev backspaced_result : ProcessKeyResult
backspaced_result = record { key_handled = true; commit_text = []; composition_text = codes "a" }

abbrev backspaced_engine : Engine Bytes
backspaced_engine = record toy_engine { context = codes "a"; history_ambi = [] }

backspaced :
    process_key toy_re2 toy_conv toy_engine backspace 0
    ≡ returns (backspaced_result, backspaced_engine)
unfolding process_key get_key_map_by_modifiers find code_eq
backspaced = refl

process_key-composition_example :
    (backspaced_result.composition_text ≡ backspaced_engine.context)
    × ((backspaced_result.composition_text ≡ [])
        ⊎ ((backspaced_result.commit_text ≡ []) × (backspaced_result.key_handled ≡ true)))
process_key-composition_example =
    process_key-composition toy_re2 toy_laws toy_conv toy_engine backspaced_engine backspace 0
      backspaced_result toy_Inv backspaced

-- The engine after a key that no key map has.
unmapped :
    process_key toy_re2 toy_conv toy_engine key_z 0
    ≡ returns (
      record { key_handled = false; commit_text = codes "ab"; composition_text = [] },
      as_new toy_engine,
    )
unfolding process_key get_key_map_by_modifiers find code_eq reset clear_history
unmapped = refl

process_key-unhandled_example :
    (codes "ab" ≡ toy_engine.context)
    × (◌≡◌ {A = Bytes} [] [])
    × (as_new toy_engine ≡ as_new toy_engine)
process_key-unhandled_example =
    process_key-unhandled toy_re2 toy_laws toy_conv toy_engine (as_new toy_engine) key_z 0
      (record { key_handled = false; commit_text = codes "ab"; composition_text = [] }) toy_Inv
      unmapped refl

plain_map : get_key_map_by_modifiers toy_re2 toy_plain 0 ≡ some toy_map
unfolding get_key_map_by_modifiers
plain_map = refl

a_key : find key_a toy_map ≡ some (codes "a")
unfolding find code_eq
a_key = refl

b_key : find key_b toy_map ≡ some (codes "b")
unfolding find code_eq
b_key = refl

typed_ab : Types toy_re2 toy_plain ((key_a, 0) ∷ (key_b, 0) ∷ []) (codes "ab")
typed_ab = key plain_map a_key (key plain_map b_key nothing refl) refl

process_keys-Types_example :
    process_keys toy_re2 toy_conv toy_plain_engine ((key_a, 0) ∷ (key_b, 0) ∷ [])
    ≡ returns (codes "ab", toy_plain_engine)
process_keys-Types_example =
    process_keys-Types toy_re2 toy_conv toy_plain_engine toy_plain refl refl typed_ab

abbrev fresh_engine : Engine Bytes
fresh_engine = record toy_engine { context = codes "ab"; history_ambi = [] }

matched_a : match_key toy_re2 toy_data fresh_engine (codes "a") ≡ returns (some (codes "xyz"))
unfolding match_key transform apply_rule find_rule
matched_a = refl

abbrev typed_result : ProcessKeyResult
typed_result = record { key_handled = true; commit_text = []; composition_text = codes "xyz" }

abbrev typed_engine : Engine Bytes
typed_engine = record fresh_engine { context = codes "xyz"; transat = pos 3 }

typed_a :
    transform_key toy_re2 toy_data fresh_engine (codes "a") ≡ returns (typed_result, typed_engine)
unfolding transform_key transform apply_rule find_rule match_history_prune predict_transform
    bytes_eq
typed_a = refl

transform_key-text_example : typed_result.commit_text ++ typed_result.composition_text ≡ codes "xyz"
transform_key-text_example =
    transform_key-text toy_re2 toy_data fresh_engine typed_engine (codes "a") (some (codes "xyz"))
      typed_result matched_a typed_a

toy_found : find_entry (codes "toy") toy_raw_data ≡ some toy_entry
unfolding find_entry bytes_eq c_string
toy_found = refl

toy_is_complete : is_complete toy_entry ≡ true
unfolding is_complete
toy_is_complete = refl

toy_transforms : toy_entry.transforms ≡ flat toy_rules
unfolding c_string
toy_transforms = refl

toy_counted : CountsGroups toy_re2 toy_conv toy_rules
toy_counted = (omega arith, refl)

other_id : toy_plain_engine.current_id ≢ codes "toy"
other_id e = cc

activate-supported_example :
    (e' : Engine Bytes) × (d : RulesData Bytes) × (activate toy_re2 toy_conv toy_raw_data
        (codes "toy")
        toy_plain_engine
      ≡ returns e')
    × (create toy_re2 toy_conv toy_entry ≡ returns d)
    × (e'.current_data ≡ some d)
    × (e'.current_id ≡ codes "toy")
    × (e'.context ≡ [])
    × Inv toy_re2 e'
activate-supported_example =
    activate-supported toy_re2 toy_conv toy_raw_data (codes "toy") toy_plain_engine toy_entry
      toy_rules other_id toy_found toy_is_complete toy_transforms refl toy_counted

no_z_id : is_id_supported toy_raw_data (codes "z") ≡ false
unfolding is_id_supported find_entry bytes_eq c_string
no_z_id = refl

unlike_other : toy_plain_engine.current_id ≢ codes "z"
unlike_other e = cc

-- An engine with that id and no layout.
abbrev z_engine : Engine Bytes
z_engine = record (new_engine Bytes) { current_id = codes "z" }

activate-unsupported_example :
    (activate toy_re2 toy_conv toy_raw_data (codes "z") toy_plain_engine ≡ returns z_engine)
    × (process_key toy_re2 toy_conv z_engine key_a 0
        ≡ returns
            (record { key_handled = false; commit_text = []; composition_text = [] }, z_engine))
activate-unsupported_example =
    activate-unsupported toy_re2 toy_conv toy_raw_data (codes "z") toy_plain_engine key_a 0
      unlike_other no_z_id
