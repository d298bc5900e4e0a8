-- ===== src/Tests/Rules.antt =====
-- The theorems on the rules and the key maps at concrete inputs.
use chromiumos_devenv.Common.{
  ℕ, ◌+◌, ◌<◌, ◌≤◌, ◌≡◌, ◌↔◌, refl, Bool, true, false, List, [], ◌∷◌, ◌++◌, map, some, Bytes, codes,
  arith, length, get_elem?, returns, bytes_eq,
}
use chromiumos_devenv.Common.Int.{negsuc}
use chromiumos_devenv.Platform.DomCode.{DomCode}
use chromiumos_devenv.Rulebased.KeyMap.{KeyMap, find, std_keys, parse_key_map}
use chromiumos_devenv.Rulebased.KeyMap.Lookup.{index_from, entry_at, parse_key_map-find}
use chromiumos_devenv.Rulebased.Prefix.{prefixalize, wrap_prefix_unit}
use chromiumos_devenv.Rulebased.Prefix.Grammar.{
  Token, literal, operator, escaped, class, repeat, member, quoted, AreTokens, prefixed_all,
  is_literal, is_operator, is_member, is_count,
}
use chromiumos_devenv.Rulebased.Prefix.Tokens.{prefixalize-tokens}
use chromiumos_devenv.Rulebased.Rules.{ParsedTransforms, parse_transforms, find_rule}
use chromiumos_devenv.Rulebased.Rules.Groups.{
  Pair, flat, alternation, prefixed_pattern, rule_at, rule_of, parse_transforms-pairs,
}
use chromiumos_devenv.Rulebased.RulesData.{
  RulesData, with_delimit, transform, apply_rule, predict_transform, create, get_by_id,
  is_id_supported, find_entry, key_map_count,
}
use chromiumos_devenv.Rulebased.RulesData.Building.{
  IsWellFormed, SameShape, create-IsWellFormed, is_complete, CountsGroups,
}
use chromiumos_devenv.Rulebased.RulesData.Matching.{MatchedBy, transform-MatchedBy}
use chromiumos_devenv.Rulebased.RulesData.Predicting.{SuffixBelow, predict_transform-suffix}
use chromiumos_devenv.Layouts.{raw_data, c_string, c_strings, keyed}
use chromiumos_devenv.Layouts.Ar
use chromiumos_devenv.Layouts.Us
use chromiumos_devenv.Layouts.Checks.{get_by_id-supported, raw_data-listed}
use chromiumos_devenv.Tests.Toys.{toy_re2, toy_conv, toy-ScanLaws, toy_data, toy_entry, toy_rules}

-- Two rules, each with a group of its own besides the one around it.
abbrev two_rules : List Pair
two_rules = (codes "(a)", codes "b") ∷ (codes "(c)d", codes "e") ∷ []

abbrev second_rule : Pair
second_rule = (codes "(c)d", codes "e")

few_groups : 1 + 4 < 65536
few_groups = omega arith

parse_transforms-pairs_example :
    (d : ParsedTransforms Bytes) × (parse_transforms toy_re2 toy_conv (flat two_rules) 4
      ≡ returns d)
    × (d.merged ≡ some (codes "((a)$)|((c)d$)"))
    × (d.prefix ≡ some (alternation (map (prefixed_pattern toy_re2 toy_conv) two_rules)))
    × ((n : ℕ) → find_rule n d.rules ≡ rule_at toy_re2 toy_conv two_rules 1 n)
parse_transforms-pairs_example =
    parse_transforms-pairs toy_re2 toy_conv (codes "(a)", codes "b") (second_rule ∷ []) few_groups

-- The toy layout's only rule is the one that matches.
abbrev toy_pair : Pair
toy_pair = (codes "a", codes "xyz")

toy_filed :
    (n : ℕ) → find_rule n toy_data.transform_rules ≡ rule_at toy_re2 toy_conv (toy_pair ∷ []) 1 n
unfolding find_rule
toy_filed n = refl

toy_delimited : with_delimit (codes "ab") (negsuc 0) ≡ returns (codes "ab")
unfolding with_delimit
toy_delimited = refl

toy_few : 1 + 1 < 65536
toy_few = omega arith

toy_MatchedBy : MatchedBy toy_re2 toy_conv [] toy_pair (some (0, 3) ∷ some (0, 3) ∷ [])
toy_MatchedBy = record { whole = some (0, 3); own = (0, 3); inner = []; layout = refl }

transform-MatchedBy_example :
    transform toy_re2 toy_data (codes "ab") (negsuc 0) (codes "a")
    ≡ apply_rule toy_re2 toy_data
        (some (rule_of toy_re2 toy_conv toy_pair))
        1
        (codes "aba")
        (codes "a")
transform-MatchedBy_example =
    transform-MatchedBy toy_re2 toy_conv toy_data (codes "(a$)") [] toy_pair [] (codes "ab")
      (codes "a") (codes "ab") (negsuc 0) (some (0, 3) ∷ some (0, 3) ∷ []) refl toy_filed toy_few
      refl toy_delimited refl toy_MatchedBy

predict_transform-suffix_example :
    (b : Bool) × (predict_transform toy_re2 toy_data (codes "ab") (negsuc 0) ≡ returns b)
    × ((b ≡ true) ↔ SuffixBelow toy_re2 (codes "xyz" ++ 0x1D ∷ []) (codes "ab") 2)
predict_transform-suffix_example =
    predict_transform-suffix toy_re2 toy_data (codes "xyz" ++ 0x1D ∷ []) (codes "ab") (codes "ab")
      (negsuc 0) refl toy_delimited

-- `a([e\]])\?k{2}*`
abbrev tokens : List Token
tokens =
    literal b'a'
    ∷ operator b'('
    ∷ class (member b'e' ∷ quoted b']' ∷ [])
    ∷ operator b')'
    ∷ escaped b'?'
    ∷ literal b'k'
    ∷ repeat (b'2' ∷ [])
    ∷ operator b'*'
    ∷ []

tokens_ok : AreTokens tokens
unfolding is_literal is_operator is_member is_count
tokens_ok = (refl, (refl, ((refl, tt), (refl, (tt, (refl, ((refl, tt), (refl, tt))))))))

prefixalize-tokens_example :
    prefixalize toy_re2 toy_conv (codes "a([e\\]])\\?k{2}*") ≡ prefixed_all toy_conv tokens
prefixalize-tokens_example =
    prefixalize-tokens toy_re2 toy_conv toy-ScanLaws (codes "a([e\\]])\\?k{2}*") tokens tokens_ok
      refl

prefixed_text : prefixed_all toy_conv tokens ≡ codes "(?:a|$)((?:[e\\]]|$))(?:\\?|$)(?:k|$){2}*"
unfolding wrap_prefix_unit
prefixed_text = refl

abbrev us_keys : List Bytes
us_keys = c_strings Us.normal

us_long : length (std_keys false) ≤ length us_keys
us_long = omega arith

parse_key_map-find_example :
    (m : KeyMap) × (parse_key_map us_keys false ≡ returns m)
    × ((d : DomCode) → find d m ≡ entry_at us_keys (index_from 0 d (std_keys false)))
parse_key_map-find_example = parse_key_map-find us_keys false us_long

toy_is_complete : is_complete toy_entry ≡ true
unfolding is_complete
toy_is_complete = refl

toy_transforms : toy_entry.transforms ≡ flat toy_rules
unfolding c_string
toy_transforms = refl

toy_counted : CountsGroups toy_re2 toy_conv toy_rules
toy_counted = (omega arith, refl)

create-IsWellFormed_example :
    (d : RulesData Bytes) × (create toy_re2 toy_conv toy_entry ≡ returns d) × IsWellFormed toy_re2 d
create-IsWellFormed_example =
    create-IsWellFormed toy_re2 toy_conv toy_entry toy_rules toy_is_complete toy_transforms refl
      toy_counted

telex_supported : is_id_supported raw_data (codes "vi_telex") ≡ true
unfolding is_id_supported find_entry bytes_eq c_string raw_data
telex_supported = refl

get_by_id-supported_example :
    (d : RulesData Bytes) × (get_by_id toy_re2 toy_conv raw_data (codes "vi_telex")
      ≡ returns (some d))
    × (length d.key_maps ≡ key_map_count)
    × SameShape d.transform_re_merged d.prefix_re
get_by_id-supported_example =
    get_by_id-supported toy_re2 toy_conv (codes "vi_telex") telex_supported

listed_ar : get_elem? raw_data 0 ≡ some (keyed Ar.id Ar.key_map Ar.is_102)
unfolding raw_data
listed_ar = refl

raw_data-listed_example :
    find_entry (keyed Ar.id Ar.key_map Ar.is_102).0 raw_data
    ≡ some (keyed Ar.id Ar.key_map Ar.is_102).1
raw_data-listed_example =
    raw_data-listed 0 (keyed Ar.id Ar.key_map Ar.is_102).0 (keyed Ar.id Ar.key_map Ar.is_102).1
      listed_ar
