-- ===== src/Tests/Erasing.antt =====
-- Backspaces into a composition at a concrete input.
use chromiumos_devenv.Common.{◌≡◌, refl, none, some}
use chromiumos_devenv.Platform.DomCode.{backspace, code_eq}
use chromiumos_devenv.Rulebased.KeyMap.{find}
use chromiumos_devenv.Rulebased.RulesData.{get_key_map_by_modifiers}
use chromiumos_devenv.Rulebased.Engine.Erasing.{ErasingLaws, Erased, process_keys-Erased}
use chromiumos_devenv.Tests.Toys.{toy_re2, toy_conv, toy_map, toy_data, toy_engine}

toy_conv_erases : ErasingLaws toy_conv
toy_conv_erases = record { keeps_length = λ us. refl; empty_text = refl; text_empty = λ s e. e }

map_of_no_modifiers : get_key_map_by_modifiers toy_re2 toy_data 0 ≡ some toy_map
unfolding get_key_map_by_modifiers
map_of_no_modifiers = refl

not_mapped : find backspace toy_map ≡ none
unfolding find code_eq
not_mapped = refl

process_keys-Erased_example : Erased toy_re2 toy_conv 0 toy_engine 2
process_keys-Erased_example =
    process_keys-Erased toy_re2 toy_conv toy_conv_erases toy_data toy_map 0 2 toy_engine refl
      map_of_no_modifiers not_mapped refl
