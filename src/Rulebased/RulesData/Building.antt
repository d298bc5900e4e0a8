-- ===== src/Rulebased/RulesData/Building.antt =====
-- `Create` on a complete raw entry: it reads nothing past its end, and what it builds is well formed.
use chromiumos_devenv.Common.{
  ℕ, zero, suc, ◌+◌, ◌%◌, ◌/◌, ◌≤◌, ◌≡◌, refl, sym, ap, subst, map, ◌<◌, Bool, true, ◌&&◌, List, [],
  ◌∷◌, Option, none, some, Bytes, arith, length, leb, ◌==◌, returns,
}
use chromiumos_devenv.Platform.Regex.{Re2}
use chromiumos_devenv.Platform.Text.{Conversions}
use chromiumos_devenv.Rulebased.KeyMap.{KeyMap, std_keys}
use chromiumos_devenv.Rulebased.KeyMap.Lookup.{parse_key_map-find}
use chromiumos_devenv.Rulebased.Rules.{
  Merging, ParsedTransforms, merging_start, add_rules, finish_transforms, parse_transforms,
  parse_history_prune,
}
use chromiumos_devenv.Rulebased.Rules.Groups.{
  Pair, flat, count_of, alternation, anchored_group, total_groups, parse_transforms-pairs,
}
use chromiumos_devenv.Rulebased.RulesData.{
  RawDataEntry, RulesData, key_map_count, parse_key_maps, create,
}

abbrev pub all_long : ℕ → List (List Bytes) → Bool
all_long n [] = true
all_long n (r ∷ raw) = leb n (length r) && all_long n raw

-- An entry has the eight key maps, each with an entry for every key of its keyboard, and as many
-- strings of transforms as it counts, an even number.
unfoldable pub is_complete : RawDataEntry → Bool
is_complete e =
    leb key_map_count (length e.key_map)
    && all_long (length (std_keys e.is_102_keyboard)) e.key_map
    && leb e.transforms_count (length e.transforms)
    && e.transforms_count % 2 == 0

abbrev pub SameShape : {R : Type 0} → Option R → Option R → Type 0
SameShape none none = Unit {0}
SameShape (some a) (some b) = Unit {0}
SameShape _ _ = ⊥

-- The merged pattern has a capture group, if there is one.
abbrev pub HasGroup : (re2 : Re2) → Option re2.Regex → Type 0
HasGroup re2 none = Unit {0}
HasGroup re2 (some re) = 1 ≤ re2.number_of_capturing_groups re

-- What the queries of a `RulesData` rely on.
pub record IsWellFormed (re2 : Re2) (d : RulesData re2.Regex) : Type 0 where
  pub all_maps : length d.key_maps ≡ key_map_count
  pub both_regexes : SameShape d.transform_re_merged d.prefix_re
  pub has_group : HasGroup re2 d.transform_re_merged

parse_key_maps-returns :
    (n : ℕ) (raw : List (List Bytes)) (is_102 : Bool)
    → n ≤ length raw
    → all_long (length (std_keys is_102)) raw ≡ true
    → (ms : List KeyMap) × (parse_key_maps n raw is_102 ≡ returns ms) × (length ms ≡ n)
unfolding parse_key_maps
parse_key_maps-returns zero raw is_102 h long = ([], refl, refl)
parse_key_maps-returns (suc n) [] is_102 h long = absurd (omega arith)
parse_key_maps-returns (suc n) (r ∷ raw) is_102 h long =
    let (m, e, found) = parse_key_map-find r is_102 (ground arith) in
    let (ms, es, len) = parse_key_maps-returns n raw is_102 (omega arith) (ground arith) in
    (m ∷ ms, rw (e, es) refl, ap suc len)

module _ (re2 : Re2) (conv : Conversions) where
  add_rules-returns :
      (k n : ℕ) (raw : List Bytes) (s : Merging re2.Regex)
      → n ≤ length raw
      → n ≡ k + k
      → (t : Merging re2.Regex) × (add_rules re2 conv n raw s ≡ returns t)
  unfolding add_rules
  add_rules-returns zero zero raw s h e = (s, refl)
  add_rules-returns zero (suc n) raw s h e = absurd (omega arith)
  add_rules-returns (suc k) (suc (suc n)) (from ∷ to ∷ raw) s h e =
      add_rules-returns k n raw _ (omega arith) (omega arith)
  add_rules-returns (suc k) _ _ s h e = absurd (omega arith)

  parse_transforms-shape :
      (k n : ℕ) (raw : List Bytes)
      → n ≤ length raw
      → n ≡ k + k
      → (t : ParsedTransforms re2.Regex) × (parse_transforms re2 conv raw n ≡ returns t)
        × SameShape t.merged t.prefix
  unfolding parse_transforms
  parse_transforms-shape k zero raw h e =
      (record { merged = none; prefix = none; rules = [] }, refl, tt)
  parse_transforms-shape k (suc n) raw h e =
      let (s, es) = add_rules-returns k (suc n) raw (merging_start re2 conv) h e in
      (finish_transforms re2 conv s, rw es refl, tt)

  -- From a complete entry `Create` returns: it reads no array past its end. There are eight key
  -- maps, and the merged regexp is null exactly if the prefix regexp is.
  pub create-returns :
      (e : RawDataEntry)
      → is_complete e ≡ true
      → (d : RulesData re2.Regex) × (create re2 conv e ≡ returns d)
        × (length d.key_maps ≡ key_map_count)
        × SameShape d.transform_re_merged d.prefix_re
  unfolding create is_complete
  create-returns e h =
      let (ms, em, len) =
        parse_key_maps-returns key_map_count e.key_map e.is_102_keyboard (ground arith)
          (ground arith) in
      let (t, et, shape) =
        parse_transforms-shape (e.transforms_count / 2) e.transforms_count e.transforms
          (ground arith) (even (ground arith)) in
      (
        record {
          key_maps = ms;
          transform_rules = t.rules;
          transform_re_merged = t.merged;
          prefix_re = t.prefix;
          history_prune_re = parse_history_prune re2 conv e.history_prune;
        },
        rw (em, et) refl,
        len,
        shape,
      )
    where
      even :
          e.transforms_count % 2 ≡ 0
          → e.transforms_count ≡ e.transforms_count / 2 + e.transforms_count / 2
      even q = omega arith

  -- RE2 counts the groups of a merged pattern as the sum over its rules, few enough for a
  -- `uint16_t`.
  abbrev pub CountsGroups : List Pair → Type 0
  CountsGroups [] = Unit {0}
  CountsGroups (p ∷ ps) =
      (1 + total_groups re2 conv (p ∷ ps) < 65536)
      × (re2.number_of_capturing_groups (re2.compile (alternation (map anchored_group (p ∷ ps))))
          ≡ total_groups re2 conv (p ∷ ps))

  both-some : {a b : Option re2.Regex} {x y : re2.Regex} → a ≡ some x → b ≡ some y → SameShape a b
  both-some {a} {b} {x} {y} ea eb =
      subst (λ o. SameShape a o) (sym eb) (subst (λ o. SameShape o (some y)) (sym ea) tt)

  parse_pairs-HasGroup :
      (ps : List Pair)
      → CountsGroups ps
      → (t : ParsedTransforms re2.Regex) × (parse_transforms re2 conv (flat ps) (count_of ps)
          ≡ returns t)
        × SameShape t.merged t.prefix
        × HasGroup re2 t.merged
  unfolding parse_transforms
  parse_pairs-HasGroup [] h = (record { merged = none; prefix = none; rules = [] }, refl, tt, tt)
  parse_pairs-HasGroup (p ∷ ps) h =
      let (t, e, em, ep, filed) = parse_transforms-pairs re2 conv p ps h.0 in
      (t, e, both-some em ep, subst (HasGroup re2) (sym em) (omega (arith, h.1)))

  -- From an entry that is complete and whose transforms are the given rules, where RE2 counts the
  -- groups of the merged pattern as the sum over the rules, few enough for a `uint16_t`, `Create`
  -- makes a well-formed `RulesData`: eight key maps, both regexps or none, and a merged regexp with a
  -- capture group.
  pub create-IsWellFormed :
      (e : RawDataEntry) (ps : List Pair)
      → is_complete e ≡ true
      → e.transforms ≡ flat ps
      → e.transforms_count ≡ count_of ps
      → CountsGroups ps
      → (d : RulesData re2.Regex) × (create re2 conv e ≡ returns d) × IsWellFormed re2 d
  unfolding create is_complete
  create-IsWellFormed e ps h et ec counted =
      let (ms, em, len) =
        parse_key_maps-returns key_map_count e.key_map e.is_102_keyboard (ground arith)
          (ground arith) in
      let (t, parsed, shape, group) = parse_pairs-HasGroup ps counted in
      (
        record {
          key_maps = ms;
          transform_rules = t.rules;
          transform_re_merged = t.merged;
          prefix_re = t.prefix;
          history_prune_re = parse_history_prune re2 conv e.history_prune;
        },
        rw (em, et, ec, parsed) refl,
        record { all_maps = len; both_regexes = shape; has_group = group },
      )
