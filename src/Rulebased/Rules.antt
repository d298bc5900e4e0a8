-- ===== src/Rulebased/Rules.antt =====
-- `TransformRule`, `ParseTransforms` and `ParseHistoryPrune` of rules_data.cc and rules_data.h.
pub mod Groups
use chromiumos_devenv.Common.{
  ℕ, zero, suc, ◌+◌, ◌%◌, ◌^◌, Bool, List, [], ◌∷◌, ◌++◌, Option, none, some, Bytes, codes, init,
  if◌then◌else◌, ◌==◌, Outcome, returns, fails, ◌>>=◌, out_of_range,
}
use chromiumos_devenv.Platform.Regex.{Re2}
use chromiumos_devenv.Platform.Text.{Conversions}
use chromiumos_devenv.Rulebased.Prefix.{prefixalize}

pub record TransformRule (R : Type 0) : Type 0 where
  pub re : R
  pub repl : Bytes

-- `std::map<uint16_t, TransformRule>`
abbrev pub Rules : Type 0 → Type 0
Rules R = List (ℕ × TransformRule R)

module _ {R : Type 0} where
  unfoldable pub find_rule : ℕ → Rules R → Option (TransformRule R)
  find_rule n [] = none
  find_rule n ((k, r) ∷ rules) = if k == n then some r else find_rule n rules

  -- `(*re_map)[k] = r`
  unfoldable pub assign_rule : ℕ → TransformRule R → Rules R → Rules R
  assign_rule k r [] = (k, r) ∷ []
  assign_rule k r ((j, q) ∷ rules) =
      if j == k then (k, r) ∷ rules else (j, q) ∷ assign_rule k r rules

-- The variables of the loop of `ParseTransforms`.
pub record Merging (R : Type 0) : Type 0 where
  pub all_prefixes : Bytes
  pub all_trans : Bytes
  pub sum_of_groups : ℕ
  pub re_map : Rules R

-- The two regexps that `ParseTransforms` returns, and the map that it fills.
pub record ParsedTransforms (R : Type 0) : Type 0 where
  pub merged : Option R
  pub prefix : Option R
  pub rules : Rules R

module _ (re2 : Re2) (conv : Conversions) where
  abbrev pub merging_start : Merging re2.Regex
  merging_start = record { all_prefixes = []; all_trans = []; sum_of_groups = 1; re_map = [] }

  -- The body of the loop. `sum_of_groups` is a `uint16_t`.
  unfoldable pub add_rule : Bytes → Bytes → Merging re2.Regex → Merging re2.Regex
  unfolding assign_rule
  add_rule from to s =
      let from_re = re2.compile (from ++ codes "$") in
      let group_count = re2.number_of_capturing_groups from_re in
      record {
        all_prefixes = s.all_prefixes ++ (prefixalize re2 conv from ++ codes "|");
        all_trans = s.all_trans ++ (codes "(" ++ (from ++ codes "$)|"));
        sum_of_groups = (s.sum_of_groups + (group_count + 1)) % 2 ^ 16;
        re_map = assign_rule s.sum_of_groups (record { re = from_re; repl = to }) s.re_map;
      }

  -- The loop; the number is what is left of `trans_count`, and the list what index `i` has not
  -- reached. An array that ends before the count does is read past its end.
  unfoldable pub add_rules : ℕ → List Bytes → Merging re2.Regex → Outcome (Merging re2.Regex)
  unfolding add_rule
  add_rules zero raw s = returns s
  add_rules (suc zero) (from ∷ to ∷ raw) s = returns (add_rule from to s)
  add_rules (suc (suc n)) (from ∷ to ∷ raw) s = add_rules n raw (add_rule from to s)
  add_rules (suc n) raw s = fails out_of_range

  -- `substr(0, length - 1)` drops the last `|`.
  unfoldable pub finish_transforms : Merging re2.Regex → ParsedTransforms re2.Regex
  finish_transforms s = record {
    merged = some (re2.compile (init s.all_trans));
    prefix = some (re2.compile (init s.all_prefixes));
    rules = s.re_map;
  }

  unfoldable pub parse_transforms : List Bytes → ℕ → Outcome (ParsedTransforms re2.Regex)
  unfolding add_rules finish_transforms
  parse_transforms raw zero = returns (record { merged = none; prefix = none; rules = [] })
  parse_transforms raw (suc n) = do
    s ← add_rules (suc n) raw merging_start
    returns (finish_transforms s)

  unfoldable pub parse_history_prune : Option Bytes → Option re2.Regex
  parse_history_prune none = none
  parse_history_prune (some history_prune) =
      some (re2.compile (codes "^(" ++ (history_prune ++ codes ")$")))
