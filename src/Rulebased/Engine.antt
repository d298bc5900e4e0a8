-- ===== src/Rulebased/Engine.antt =====
-- `rulebased::Engine` of engine.cc and engine.h.
pub mod Safety
pub mod Effects
pub mod Results
pub mod Text
pub mod Erasing
pub mod Unfinished
use chromiumos_devenv.Common.{
  ℕ, Bool, true, false, not, ◌&&◌, List, [], ◌++◌, Option, none, some, Bytes, bytes_eq, init,
  is_empty, length, ltb, if◌then◌else◌, Outcome, returns, ◌>>=◌, null_pointer, deref,
}
use chromiumos_devenv.Common.Int.{ℤ, pos, negsuc}
use chromiumos_devenv.Platform.DomCode.{DomCode, code_eq, backspace}
use chromiumos_devenv.Platform.Regex.{Re2}
use chromiumos_devenv.Platform.Text.{Conversions}
use chromiumos_devenv.Rulebased.KeyMap.{find}
use chromiumos_devenv.Rulebased.RulesData.{
  RawDataEntry, RulesData, get_by_id, get_key_map_by_modifiers, has_transform, transform,
  match_history_prune, predict_transform,
}

pub record ProcessKeyResult : Type 0 where
  pub key_handled : Bool
  pub commit_text : Bytes
  pub composition_text : Bytes

pub record Engine (R : Type 0) : Type 0 where
  pub current_data : Option (RulesData R)
  pub current_id : Bytes
  pub context : Bytes
  pub transat : ℤ
  pub history_context : Bytes
  pub history_transat : ℤ
  pub history_ambi : Bytes

abbrev pub minus_one : ℤ
minus_one = negsuc 0

-- A freshly constructed engine.
abbrev pub new_engine : (R : Type 0) → Engine R
new_engine R = record {
  current_data = none;
  current_id = [];
  context = [];
  transat = minus_one;
  history_context = [];
  history_transat = minus_one;
  history_ambi = [];
}

-- `transat_ = context_.length()` if it is greater.
pub clip : ℤ → ℕ → ℤ
clip (negsuc n) len = negsuc n
clip (pos n) len = if ltb len n then pos len else pos n

module _ {R : Type 0} where
  unfoldable pub clear_history : Engine R → Engine R
  clear_history e = record e {
    history_context = [];
    history_transat = minus_one;
    history_ambi = [];
  }

  unfoldable pub reset : Engine R → Engine R
  unfolding clear_history
  reset e = clear_history (record e { context = []; transat = minus_one })

  -- The fallback result commits the existing composition.
  unfoldable pub fall_back : Engine R → ProcessKeyResult × Engine R
  unfolding reset
  fall_back e =
      (record { key_handled = false; commit_text = e.context; composition_text = [] }, reset e)

  unfoldable pub change_state : Option Bytes → Bytes → Engine R → Engine R
  change_state (some composition) key_char e = record e {
    context = composition;
    transat = pos (length composition);
  }
  change_state none key_char e = record e { context = e.context ++ key_char }

module _ (re2 : Re2) (conv : Conversions) where
  unfoldable pub activate :
      List (Bytes × RawDataEntry) → Bytes → Engine re2.Regex → Outcome (Engine re2.Regex)
  unfolding reset
  activate raw_data id e = if bytes_eq e.current_id id then returns e else do
    made ← get_by_id re2 conv raw_data id
    returns (record (reset e) { current_id = id; current_data = made })

  -- The history state, after a backspace.
  back_history : Engine re2.Regex → Engine re2.Regex
  unfolding clear_history
  back_history e =
      if is_empty e.history_ambi
      then e
      else let ambi = conv.to_utf8 (init (conv.to_utf16 e.history_ambi)) in
        if is_empty ambi then clear_history e else record e { history_ambi = ambi }

  unfoldable pub process_backspace : Engine re2.Regex → ProcessKeyResult × Engine re2.Regex
  unfolding clip back_history
  process_backspace e =
      let text = conv.to_utf8 (init (conv.to_utf16 e.context)) in
      let e' = back_history (record e { context = text; transat = clip e.transat (length text) }) in
      (record { key_handled = true; commit_text = []; composition_text = text }, e')

module _ (re2 : Re2) (d : RulesData re2.Regex) where
  -- If history exists, it is matched first; otherwise, or if that fails, the current state.
  unfoldable pub match_key : Engine re2.Regex → Bytes → Outcome (Option Bytes)
  match_key e key_char =
      if is_empty e.history_ambi then transform re2 d e.context e.transat key_char else do
        by_history ←
            transform re2 d e.history_context e.history_transat (e.history_ambi ++ key_char)
        elim by_history [
          | some composition ↦ returns (some composition)
          | none ↦ transform re2 d e.context e.transat key_char
        ]

  unfoldable pub update_history : Engine re2.Regex → Bytes → Engine re2.Regex
  unfolding clear_history
  update_history e key_char =
      if match_history_prune re2 d (e.history_ambi ++ key_char)
      then (if is_empty e.history_ambi
          then record e {
            history_context = e.context;
            history_transat = e.transat;
            history_ambi = key_char;
          }
          else record e { history_ambi = e.history_ambi ++ key_char })
      else if match_history_prune re2 d key_char
      then record e {
        history_context = e.context;
        history_transat = e.transat;
        history_ambi = key_char;
      }
      else clear_history e

  -- Whether a later transform may still match.
  unfoldable pub may_go_on : Engine re2.Regex → Outcome Bool
  may_go_on e = do
    now ← predict_transform re2 d e.context e.transat
    if not now
        then returns false
        else if is_empty e.history_ambi
        then returns true
        else predict_transform re2 d (e.history_context ++ e.history_ambi) e.history_transat

  unfoldable pub finish_key : Engine re2.Regex → Bool → ProcessKeyResult × Engine re2.Regex
  unfolding reset
  finish_key e true =
      (record { key_handled = true; commit_text = []; composition_text = e.context }, e)
  finish_key e false =
      (record { key_handled = true; commit_text = e.context; composition_text = [] }, reset e)

  unfoldable pub transform_key :
      Engine re2.Regex → Bytes → Outcome (ProcessKeyResult × Engine re2.Regex)
  unfolding match_key update_history change_state may_go_on finish_key
  transform_key e key_char = do
    matched ← match_key e key_char
    let e' = change_state matched key_char (update_history e key_char)
    go_on ← may_go_on e'
    returns (finish_key e' go_on)

module _ (re2 : Re2) (conv : Conversions) where
  unfoldable pub on_key :
      RulesData re2.Regex
      → Engine re2.Regex
      → DomCode
      → Option Bytes
      → Outcome (ProcessKeyResult × Engine re2.Regex)
  unfolding process_backspace fall_back transform_key
  on_key d e code none =
      if code_eq code backspace && not (is_empty e.context)
      then returns (process_backspace re2 conv e)
      else returns (fall_back e)
  on_key d e code (some key_char) =
      if has_transform re2 d
      then transform_key re2 d e key_char
      else returns (record { key_handled = true; commit_text = key_char; composition_text = [] }, e)

  with_data :
      Option (RulesData re2.Regex)
      → Engine re2.Regex
      → DomCode
      → ℕ
      → Outcome (ProcessKeyResult × Engine re2.Regex)
  unfolding fall_back on_key
  with_data none e code modifier_state = returns (fall_back e)
  with_data (some d) e code modifier_state =
      if ltb 7 modifier_state then returns (fall_back e) else do
        key_map ← deref null_pointer (get_key_map_by_modifiers re2 d modifier_state)
        on_key d e code (find code key_map)

  unfoldable pub process_key :
      Engine re2.Regex → DomCode → ℕ → Outcome (ProcessKeyResult × Engine re2.Regex)
  unfolding with_data
  process_key e code modifier_state = with_data e.current_data e code modifier_state
