-- ===== src/Service/Connection.antt =====
-- Which input methods the rule-based service takes, and what a connection reports.
use chromiumos_devenv.Common.{
  ◌≡◌, ◌≢◌, refl, sym, true, false, List, [], ◌++◌, Option, some, Bytes, returns,
}
use chromiumos_devenv.Platform.Regex.{Re2}
use chromiumos_devenv.Platform.Text.{Conversions}
use chromiumos_devenv.Rulebased.Rules.Groups.{Pair, flat, count_of}
use chromiumos_devenv.Rulebased.RulesData.{RawDataEntry, find_entry, is_id_supported}
use chromiumos_devenv.Rulebased.RulesData.Building.{is_complete, CountsGroups}
use chromiumos_devenv.Rulebased.Engine.{new_engine}
use chromiumos_devenv.Rulebased.Engine.Safety.{Inv}
use chromiumos_devenv.Rulebased.Engine.Text.{activate-supported}
use chromiumos_devenv.Service.{
  RuleBasedEngine, m17n_prefix, get_id_from_ime_spec, connect_to_input_method, is_connected,
}

-- `m17n:` and an id stand for that id; any other specification stands for the empty id.
pub get_id_from_ime_spec-prefix : (id : Bytes) → get_id_from_ime_spec (m17n_prefix ++ id) ≡ id
unfolding get_id_from_ime_spec
get_id_from_ime_spec-prefix id = refl

module _ (re2 : Re2) (conv : Conversions) (raw_data : List (Bytes × RawDataEntry)) where
  -- A connection to a supported input method, whose entry is complete and whose transforms RE2
  -- counts, reports true. The factory then holds an engine that is connected, has the layout's id,
  -- composes nothing and satisfies the invariant.
  pub connect-supported :
      (id : Bytes) (old : Option (RuleBasedEngine re2.Regex)) (entry : RawDataEntry)
      (ps : List Pair)
      → id ≢ []
      → find_entry id raw_data ≡ some entry
      → is_complete entry ≡ true
      → entry.transforms ≡ flat ps
      → entry.transforms_count ≡ count_of ps
      → CountsGroups re2 conv ps
      → (s : RuleBasedEngine re2.Regex) × (connect_to_input_method re2 conv raw_data
            (m17n_prefix ++ id)
            old
          ≡ returns (some s, true))
        × (is_connected (some s) ≡ true)
        × (s.engine.current_id ≡ id)
        × (s.engine.context ≡ [])
        × Inv re2 s.engine
  unfolding connect_to_input_method is_connected is_id_supported
  connect-supported id old entry ps full found complete et ec counted =
      let (e', d, er, made, ed, ei, ectx, inv) =
        activate-supported re2 conv raw_data id (new_engine re2.Regex) entry ps (λ q. full (sym q))
          found complete et ec counted in
      (
        record { engine = e'; is_alt_right_key_down = false; bound = true },
        rw (get_id_from_ime_spec-prefix id, found) (rw er refl),
        refl,
        ei,
        ectx,
        inv,
      )
