-- ===== src/Rulebased/RulesData/Created.antt =====
-- The regexps that `Create` compiles.
use chromiumos_devenv.Common.{
  ◌+◌, ◌≡◌, refl, sym, ap, map, ◌<◌, List, ◌∷◌, none, some, ◌∙◌, Outcome, returns, ◌>>=◌,
  >>=-eq-returns,
}
use chromiumos_devenv.Platform.Regex.{Re2}
use chromiumos_devenv.Platform.Text.{Conversions}
use chromiumos_devenv.Rulebased.KeyMap.{KeyMap}
use chromiumos_devenv.Rulebased.Rules.{ParsedTransforms, parse_transforms, parse_history_prune}
use chromiumos_devenv.Rulebased.Rules.Groups.{
  Pair, flat, count_of, alternation, prefixed_pattern, total_groups, parse_transforms-pairs,
}
use chromiumos_devenv.Rulebased.RulesData.{
  RawDataEntry, RulesData, key_map_count, parse_key_maps, create,
}

module _ (re2 : Re2) (conv : Conversions) where
  -- What `Create` makes of an entry with rules and without a pattern that prunes the history.
  pub create-prefix_re :
      (e : RawDataEntry) (d : RulesData re2.Regex) (p : Pair) (ps : List Pair)
      → create re2 conv e ≡ returns d
      → e.history_prune ≡ none
      → e.transforms ≡ flat (p ∷ ps)
      → e.transforms_count ≡ count_of (p ∷ ps)
      → 1 + total_groups re2 conv (p ∷ ps) < 65536
      → (d.prefix_re ≡ some (re2.compile (alternation (map (prefixed_pattern re2 conv) (p ∷ ps)))))
        × (d.history_prune_re ≡ none)
  unfolding create
  create-prefix_re e d p ps made unpruned et ec few =
      let (maps, em, rest) =
        >>=-eq-returns (parse_key_maps key_map_count e.key_map e.is_102_keyboard) with_maps made in
      let (t', parsed', last) =
        >>=-eq-returns (parse_transforms re2 conv e.transforms e.transforms_count) (with_rules maps)
          rest in
      let (t, parsed, merged, prefix, filed) = parse_transforms-pairs re2 conv p ps few in
      let same : t ≡ t' = returned (sym parsed ∙ sym (rw (et, ec) refl) ∙ parsed') in
      let shape = returned last in
      (
        ap (λ (x : RulesData re2.Regex). x.prefix_re) (sym shape)
            ∙ ap (λ (x : ParsedTransforms re2.Regex). x.prefix) (sym same)
            ∙ prefix,
        ap (λ (x : RulesData re2.Regex). x.history_prune_re) (sym shape)
            ∙ ap (parse_history_prune re2 conv) unpruned
            ∙ (unfold parse_history_prune in refl),
      )
    where
      with_rules : List KeyMap → ParsedTransforms re2.Regex → Outcome (RulesData re2.Regex)
      with_rules ms t = returns (record {
        key_maps = ms;
        transform_rules = t.rules;
        transform_re_merged = t.merged;
        prefix_re = t.prefix;
        history_prune_re = parse_history_prune re2 conv e.history_prune;
      })

      with_maps : List KeyMap → Outcome (RulesData re2.Regex)
      with_maps ms = parse_transforms re2 conv e.transforms e.transforms_count >>= with_rules ms

      returned : {A : Type 0} {a b : A} → ◌≡◌ {A = Outcome A} (returns a) (returns b) → a ≡ b
      returned q = cc q
