-- ===== src/Rulebased/RulesData.antt =====
-- `RulesData` of rules_data.cc and rules_data.h: its construction from a raw entry, and its queries.
pub mod Building
pub mod Created
pub mod Matching
pub mod Predicting
use chromiumos_devenv.Common.{
  ℕ, zero, suc, ◌+◌, ◌-◌, ◌%◌, ◌^◌, Bool, true, false, List, [], ◌∷◌, ◌++◌, Option, none, some,
  Bytes, bytes_eq, codes, take, drop, length, get_elem?, ltb, if◌then◌else◌, Outcome, returns,
  fails, ◌>>=◌, out_of_range, null_pointer, deref,
}
use chromiumos_devenv.Common.Int.{ℤ, pos, negsuc}
use chromiumos_devenv.Platform.Regex.{Re2, Group, submatches}
use chromiumos_devenv.Platform.Text.{Conversions}
use chromiumos_devenv.Rulebased.KeyMap.{KeyMap, parse_key_map}
use chromiumos_devenv.Rulebased.Rules.{
  TransformRule, Rules, find_rule, ParsedTransforms, parse_transforms, parse_history_prune,
}

-- `transforms` is `[]` where the source has `nullptr` with the count 0.
pub record RawDataEntry : Type 0 where
  pub key_map : List (List Bytes)
  pub is_102_keyboard : Bool
  pub transforms : List Bytes
  pub transforms_count : ℕ
  pub history_prune : Option Bytes

-- The constructor for a layout that only maps keys.
abbrev pub keys_only : List (List Bytes) → Bool → RawDataEntry
keys_only map is_102 = record {
  key_map = map;
  is_102_keyboard = is_102;
  transforms = [];
  transforms_count = 0;
  history_prune = none;
}

pub record RulesData (R : Type 0) : Type 0 where
  pub key_maps : List KeyMap
  pub transform_rules : Rules R
  pub transform_re_merged : Option R
  pub prefix_re : Option R
  pub history_prune_re : Option R

abbrev pub key_map_count : ℕ
key_map_count = 8

-- The loop of `Create` over `key_map[i]`; the number is how many maps are left.
parse_key_maps : ℕ → List (List Bytes) → Bool → Outcome (List KeyMap)
parse_key_maps zero raw is_102 = returns []
parse_key_maps (suc n) [] is_102 = fails out_of_range
parse_key_maps (suc n) (r ∷ raw) is_102 = do
  m ← parse_key_map r is_102
  ms ← parse_key_maps n raw is_102
  returns (m ∷ ms)

-- `context.substr(0, transat) + kTransatDelimit + context.substr(transat)`, if `transat > 0`.
abbrev pub transat_delimit : ℕ
transat_delimit = 0x1D

unfoldable pub with_delimit : Bytes → ℤ → Outcome Bytes
with_delimit s (negsuc n) = returns s
with_delimit s (pos zero) = returns s
with_delimit s (pos (suc n)) =
    if ltb (length s) (suc n)
    then fails out_of_range
    else returns (take (suc n) s ++ transat_delimit ∷ drop (suc n) s)

-- The loop over `matches` from `pos` on; the list is what it has not reached.
unfoldable pub skip_null : List Group → ℕ → ℕ
skip_null [] at = at
skip_null (some g ∷ gs) at = at
skip_null (none ∷ gs) at = skip_null gs (at + 1)

module _ (re2 : Re2) (conv : Conversions) where
  unfoldable pub create : RawDataEntry → Outcome (RulesData re2.Regex)
  unfolding parse_key_maps
  create entry = do
    maps ← parse_key_maps key_map_count entry.key_map entry.is_102_keyboard
    parsed ← parse_transforms re2 conv entry.transforms entry.transforms_count
    returns (record {
      key_maps = maps;
      transform_rules = parsed.rules;
      transform_re_merged = parsed.merged;
      prefix_re = parsed.prefix;
      history_prune_re = parse_history_prune re2 conv entry.history_prune;
    })

  build : Option RawDataEntry → Outcome (Option (RulesData re2.Regex))
  build none = returns none
  build (some entry) = do made ← create entry; returns (some made)

-- `raw_data.find(id)`
unfoldable pub find_entry : Bytes → List (Bytes × RawDataEntry) → Option RawDataEntry
find_entry id [] = none
find_entry id ((k, e) ∷ raw_data) = if bytes_eq k id then some e else find_entry id raw_data

abbrev pub is_some : Option RawDataEntry → Bool
is_some none = false
is_some (some e) = true

unfoldable pub is_id_supported : List (Bytes × RawDataEntry) → Bytes → Bool
unfolding find_entry
is_id_supported raw_data id = is_some (find_entry id raw_data)

module _ (re2 : Re2) (conv : Conversions) where
  unfoldable pub get_by_id :
      List (Bytes × RawDataEntry) → Bytes → Outcome (Option (RulesData re2.Regex))
  unfolding build find_entry
  get_by_id raw_data id = build re2 conv (find_entry id raw_data)

-- The `pos` of the first group that took part in the match.
unfoldable pub first_group : List Group → ℕ
unfolding skip_null
first_group matches = skip_null (drop 1 matches) 1

-- `match_start > str.length() - appended.length()`
starts_after : List Group → Bytes → Bytes → Outcome Bool
starts_after [] str appended = fails out_of_range
starts_after (none ∷ matches) str appended = fails null_pointer
starts_after (some (start, n) ∷ matches) str appended =
    returns (ltb (length str - length appended) start)

module _ (re2 : Re2) where
  -- Whether the rule matches in the middle of the appended text.
  unfoldable pub in_appended : re2.Regex → ℕ → Bytes → Bytes → Outcome Bool
  unfolding starts_after
  in_appended re nmatch str appended = elim (submatches nmatch (re2.groups re str)) [
    | none ↦ returns false
    | some matches ↦ starts_after matches str appended
  ]

  -- The two calls of `Replace`.
  unfoldable pub rewrite : TransformRule re2.Regex → Bytes → Bytes
  rewrite rule str =
      re2.replace (re2.replace str rule.re rule.repl) (re2.compile (transat_delimit ∷ [])) []

  -- The loop of `PredictTransform` from index `i` on; the number is how many rounds are left.
  unfoldable pub try_suffixes : re2.Regex → Bytes → ℕ → ℕ → Bool
  try_suffixes re s zero i = false
  try_suffixes re s (suc n) i =
      let rest = try_suffixes re s n (i + 1) in
      if re2.full_match (drop (length s - i - 1) s) re then true else rest

module _ (re2 : Re2) (d : RulesData re2.Regex) where
  unfoldable pub get_key_map_by_modifiers : ℕ → Option KeyMap
  get_key_map_by_modifiers modifiers =
      if ltb modifiers key_map_count then get_elem? d.key_maps modifiers else none

  unfoldable pub has_transform : Bool
  has_transform = elim d.transform_re_merged [ none ↦ false | some re ↦ true ]

  unfoldable pub apply_rule :
      Option (TransformRule re2.Regex) → ℕ → Bytes → Bytes → Outcome (Option Bytes)
  unfolding in_appended rewrite
  apply_rule none nmatch str appended = returns none
  apply_rule (some rule) nmatch str appended = do
    middle ← in_appended re2 rule.re nmatch str appended
    returns (if middle then none else some (rewrite re2 rule str))

  -- What the merged regexp found in `str`. `find` takes `pos` as a `uint16_t`.
  unfoldable pub on_match : Option (List Group) → ℕ → Bytes → Bytes → Outcome (Option Bytes)
  unfolding first_group
  on_match none nmatch str appended = returns none
  on_match (some matches) nmatch str appended =
      apply_rule (find_rule (first_group matches % 2 ^ 16) d.transform_rules) nmatch str appended

  -- From the test of the merged regexp on.
  unfoldable pub match_rules : re2.Regex → Bytes → Bytes → Outcome (Option Bytes)
  unfolding on_match
  match_rules merged str appended =
      let nmatch = re2.number_of_capturing_groups merged in
      on_match (submatches nmatch (re2.groups merged str)) nmatch str appended

  -- `some t` is the result true with `*transformed = t`.
  unfoldable pub transform : Bytes → ℤ → Bytes → Outcome (Option Bytes)
  unfolding with_delimit match_rules
  transform context transat appended = do
    delimited ← with_delimit context transat
    merged ← deref null_pointer d.transform_re_merged
    match_rules merged (delimited ++ appended) appended

  unfoldable pub match_history_prune : Bytes → Bool
  match_history_prune str = elim d.history_prune_re [
    | none ↦ false
    | some re ↦ re2.full_match str re
  ]

  unfoldable pub predict_transform : Bytes → ℤ → Outcome Bool
  unfolding with_delimit try_suffixes
  predict_transform str transat = elim d.prefix_re [
    | none ↦ returns false
    | some re ↦ do s ← with_delimit str transat; returns (try_suffixes re2 re s (length s) 0)
  ]
