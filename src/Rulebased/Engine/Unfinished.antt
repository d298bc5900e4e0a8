-- ===== src/Rulebased/Engine/Unfinished.antt =====
-- A composition that a rule can still transform goes on: `Create`, `PredictTransform` and `ProcessKey`
-- together.
use chromiumos_devenv.Common.{
  ◌+◌, ◌<◌, ◌≡◌, ◌≢◌, refl, true, false, List, [], ◌∷◌, ◌++◌, Option, none, some, Bytes, returns,
}
use chromiumos_devenv.Platform.Regex.{Re2}
use chromiumos_devenv.Platform.Text.{Units, Conversions}
use chromiumos_devenv.Rulebased.Prefix.Grammar.{ScanLaws, prefixed_all}
use chromiumos_devenv.Rulebased.Rules.Groups.{Pair, flat, count_of, total_groups}
use chromiumos_devenv.Rulebased.RulesData.{
  RawDataEntry, RulesData, create, with_delimit, predict_transform, match_history_prune,
}
use chromiumos_devenv.Rulebased.RulesData.Created.{create-prefix_re}
use chromiumos_devenv.Rulebased.Regexp.{Re, tokens, Classes, Matches}
use chromiumos_devenv.Rulebased.Regexp.Predicted.{
  IsText, TextLaws, Written, choices, Reads, predict_transform-unfinished,
}
use chromiumos_devenv.Rulebased.Engine.{
  Engine, clear_history, change_state, match_key, update_history, may_go_on, finish_key,
  transform_key,
}

module _ (re2 : Re2) (d : RulesData re2.Regex) where
  pruned_none :
      (e : Engine re2.Regex) (key_char : Bytes)
      → d.history_prune_re ≡ none
      → update_history re2 d e key_char ≡ clear_history e
  unfolding update_history match_history_prune
  pruned_none e key_char h = rw (no_match (e.history_ambi ++ key_char), no_match key_char) refl
    where
      no_match : (s : Bytes) → match_history_prune re2 d s ≡ false
      no_match s = unfold match_history_prune in rw h refl

  goes_on :
      (e : Engine re2.Regex) (composed : Option Bytes) (key_char : Bytes)
      → let e' = change_state composed key_char (clear_history e) in
        predict_transform re2 d e'.context e'.transat ≡ returns true
        → may_go_on re2 d e' ≡ returns true
  unfolding may_go_on change_state clear_history
  goes_on e (some t) key_char h = rw h refl
  goes_on e none key_char h = rw h refl

  -- A key after which the composition is predicted to go on is kept composing.
  transform_key-goes_on :
      (e : Engine re2.Regex) (composed : Option Bytes) (key_char : Bytes)
      → d.history_prune_re ≡ none
      → match_key re2 d e key_char ≡ returns composed
      → let e' = change_state composed key_char (clear_history e) in
        predict_transform re2 d e'.context e'.transat ≡ returns true
        → transform_key re2 d e key_char
          ≡ returns
              (record { key_handled = true; commit_text = []; composition_text = e'.context }, e')
  unfolding transform_key finish_key
  transform_key-goes_on e composed key_char unpruned matched predicted =
      rw matched
        (rw (pruned_none e key_char unpruned) (rw (goes_on e composed key_char predicted) refl))

module _ (re2 : Re2) (conv : Conversions) (classes : Classes) where
  -- A composition that a rule can still transform is not committed. Let RE2 and the conversions keep
  -- `ScanLaws` and `TextLaws`, and let the layout be made by `Create` from an entry without a pattern that
  -- prunes the history, whose rules are patterns as they are written, with groups that a `uint16_t` can
  -- count, and whose prefix pattern RE2 reads as the tree of all of them. If the text that a key leaves,
  -- with its delimiter, ends in a text that is not empty and that some continuation makes a match of
  -- some rule's pattern, all in characters of one UTF-16 unit, then the key is handled, nothing is
  -- committed, and the text is the composition.
  pub transform_key-unfinished :
      ScanLaws re2 conv
      → TextLaws conv
      → (entry : RawDataEntry) (d : RulesData re2.Regex) (p : Pair) (ps : List Pair) (r : Re)
        (rs : List Re)
      → create re2 conv entry ≡ returns d
      → entry.history_prune ≡ none
      → entry.transforms ≡ flat (p ∷ ps)
      → entry.transforms_count ≡ count_of (p ∷ ps)
      → 1 + total_groups re2 conv (p ∷ ps) < 65536
      → Written conv (p ∷ ps) (r ∷ rs)
      → Reads re2 conv classes true
          (choices r rs)
          (re2.compile (prefixed_all conv (tokens (choices r rs))))
      → (e : Engine re2.Regex) (composed : Option Bytes) (key_char : Bytes) (us vs t : Units)
      → match_key re2 d e key_char ≡ returns composed
      → IsText us
      → IsText vs
      → vs ≢ []
      → let e' = change_state composed key_char (clear_history e) in
        with_delimit e'.context e'.transat ≡ returns (conv.to_utf8 (us ++ vs))
        → Matches classes false (choices r rs) (vs ++ t) []
        → transform_key re2 d e key_char
          ≡ returns
              (record { key_handled = true; commit_text = []; composition_text = e'.context }, e')
  transform_key-unfinished scan text entry d p ps r rs made unpruned et ec few written reads e
        composed key_char us vs t matched hu hv ne ew m =
      let (prefix, no_prune) = create-prefix_re re2 conv entry d p ps made unpruned et ec few in
      let e' = change_state composed key_char (clear_history e) in
      transform_key-goes_on re2 d e composed key_char no_prune matched (
        predict_transform-unfinished re2 conv classes scan text p ps r rs written reads d prefix
          e'.context e'.transat us vs t hu hv ne ew m)
