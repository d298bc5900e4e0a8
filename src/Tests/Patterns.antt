-- ===== src/Tests/Patterns.antt =====
-- The theorems on patterns at concrete inputs: the rule for `ab`, and a layout's rules.
use chromiumos_devenv.Common.{
  ◌+◌, none, Outcome, fails, ℕ, ◌<◌, ◌≤◌, ◌≡◌, ◌≢◌, ◌↔◌, refl, sym, ap, ◌∙◌, Bool, true, false,
  ◌&&◌, List, [], ◌∷◌, ◌++◌, append-nil, some, Bytes, bytes_eq, codes, arith, inl, inr, ◌==◌,
  if◌then◌else◌, returns,
}
use chromiumos_devenv.Platform.Regex.{Re2}
use chromiumos_devenv.Platform.Text.{Units, Conversions}
use chromiumos_devenv.Unikey.Utf8.{append_utf8, decode_utf8}
use chromiumos_devenv.Unikey.Utf8.RoundTrip.{AllBelow, append_utf8-encode_utf8}
use chromiumos_devenv.Unikey.Utf16.{codepoints_to_u16, is_scalar, AllScalar}
use chromiumos_devenv.Rulebased.Prefix.{prefixalize, wrap_prefix_unit}
use chromiumos_devenv.Rulebased.Prefix.Grammar.{
  ScanLaws, literal, is_literal, is_operator, prefixed_all,
}
use chromiumos_devenv.Rulebased.KeyMap.{parse_key_map}
use chromiumos_devenv.Rulebased.Rules.{parse_transforms}
use chromiumos_devenv.Rulebased.Rules.Groups.{total_groups, Pair, flat, count_of}
use chromiumos_devenv.Rulebased.RulesData.{
  create, transform, RawDataEntry, RulesData, find_entry, with_delimit,
}
use chromiumos_devenv.Rulebased.Engine.Unfinished.{transform_key-unfinished}
use chromiumos_devenv.Rulebased.Engine.{
  Engine, clear_history, change_state, match_key, transform_key,
}
use chromiumos_devenv.Rulebased.Regexp.{Re, unit, seq, is_plain, tokens, Classes, Matches}
use chromiumos_devenv.Rulebased.Regexp.Predicted.{TextLaws, Written, Reads, prefixalize-prefixes}
use chromiumos_devenv.Layouts.{raw_data, c_string, transforming}
use chromiumos_devenv.Layouts.Us
use chromiumos_devenv.Layouts.TePhone
use chromiumos_devenv.Layouts.Patterns.{left_out, is_among, Utf16Law, supported-Written}
use chromiumos_devenv.Tests.Toys.{toy_engine, toy_re2, toy_conv, toy_data, toy_full_match}

-- The pattern with prefixed units matches the texts that `ab` starts with.
abbrev starts_ab : Bytes → Bool
starts_ab [] = true
starts_ab (x ∷ []) = x == b'a'
starts_ab (x ∷ y ∷ []) = x == b'a' && y == b'b'
starts_ab _ = false

abbrev prefixed_ab : Bytes
prefixed_ab = codes "(?:a|$)(?:b|$)"

-- It finds no rule.
abbrev ab_re2 : Re2
ab_re2 = record toy_re2 {
  groups = λ re text. none;
  full_match =
      λ text re. if bytes_eq re prefixed_ab then starts_ab text else toy_full_match text re;
}

ab-ScanLaws : ScanLaws ab_re2 toy_conv
unfolding bytes_eq is_operator
ab-ScanLaws = record {
  ascii_unit = λ u h. refl;
  other_unit = other_unit;
  operator_class = λ u. refl;
}
  where
    other_unit : (u b : ℕ) → 128 ≤ u → b < 128 → ◌≢◌ {A = Bytes} (u ∷ []) (b ∷ [])
    other_unit u b k h e = absurd (grind arith)

toy-TextLaws : TextLaws toy_conv
toy-TextLaws = record { joins = λ us vs h k. refl; reads_back = λ us h. refl }

-- No pattern here has an escape or a bracket expression.
abbrev no_classes : Classes
no_classes = record { escape_has = λ x u. false; class_has = λ ms u. false }

plain_a : is_plain b'a' ≡ true
unfolding is_plain is_literal is_operator
plain_a = refl

plain_b : is_plain b'b' ≡ true
unfolding is_plain is_literal is_operator
plain_b = refl

abbrev ab : Re
ab = seq (unit (literal b'a') plain_a) (unit (literal b'b') plain_b)

both : (x y : Bool) → (x && y) ≡ true → (x ≡ true) × (y ≡ true)
both true true h = (refl, refl)
both true false h = cc
both false y h = cc

starts_Matches : (s : Units) → starts_ab s ≡ true → Matches no_classes true ab s []
starts_Matches [] h = ([], [], refl, inr (refl, refl, refl), inr (refl, refl, refl))
starts_Matches (x ∷ []) h = (x ∷ [], [], refl, inl (x, refl, h), inr (refl, refl, refl))
starts_Matches (x ∷ y ∷ []) h =
    let (a, b) = both (x == b'a') (y == b'b') h in
    (x ∷ [], y ∷ [], refl, inl (x, refl, a), inl (y, refl, b))
starts_Matches (x ∷ y ∷ z ∷ s) h = cc

Matches_starts : (s : Units) → Matches no_classes true ab s [] → starts_ab s ≡ true
Matches_starts s (x, y, e, inl (u, eu, hu), inl (v, ev, hv)) =
    ap starts_ab (e ∙ ap (λ (l : Units). l ++ y) eu ∙ ap (λ (l : Units). u ∷ l) ev) ∙ rw hu hv
Matches_starts s (x, y, e, inl (u, eu, hu), inr (p, ey, q)) =
    ap starts_ab (e ∙ ap (λ (l : Units). l ++ y) eu ∙ ap (λ (l : Units). u ∷ l) ey) ∙ hu
Matches_starts s (x, y, e, inr (p, ex, q), m) =
    ap starts_ab (e ∙ ap (λ (l : Units). l ++ y) ex ∙ (sym (append-nil y) ∙ q))

-- The regexp library reads the prefix pattern of `ab` as the tree.
ab-Reads : Reads ab_re2 toy_conv no_classes true ab (prefixed_all toy_conv (tokens ab))
unfolding bytes_eq wrap_prefix_unit
ab-Reads s h = (starts_Matches s, Matches_starts s)

abbrev ab_rule : Pair
ab_rule = (codes "ab", codes "x")

-- The keys of the American layout with that rule.
abbrev ab_entry : RawDataEntry
ab_entry = (transforming "ab" Us.key_map false ("ab" ∷ "x" ∷ []) 2 none).1

abbrev value_or : RulesData Bytes → Outcome (RulesData Bytes) → RulesData Bytes
value_or d (returns x) = x
value_or d (fails f) = d

abbrev ab_data : RulesData Bytes
ab_data = value_or toy_data (create ab_re2 toy_conv ab_entry)

ab_made : create ab_re2 toy_conv ab_entry ≡ returns ab_data
unfolding create parse_key_map parse_transforms
ab_made = refl

ab_rules : ab_entry.transforms ≡ flat (ab_rule ∷ [])
unfolding c_string
ab_rules = refl

ab_few : 1 + total_groups ab_re2 toy_conv (ab_rule ∷ []) < 65536
ab_few = omega arith

-- The engine after `x`.
abbrev x_engine : Engine Bytes
x_engine = record toy_engine { context = codes "x"; history_ambi = [] }

ab_unmatched : match_key ab_re2 ab_data x_engine (codes "a") ≡ returns none
unfolding match_key create transform parse_key_map parse_transforms
ab_unmatched = refl

abbrev xa_engine : Engine Bytes
xa_engine = change_state none (codes "a") (clear_history x_engine)

no_delimiter : with_delimit xa_engine.context xa_engine.transat ≡ returns (codes "xa")
unfolding with_delimit change_state clear_history
no_delimiter = refl

-- After `xa`, a `b` would make the rule match.
transform_key-unfinished_example :
    transform_key ab_re2 ab_data x_engine (codes "a")
    ≡ returns (
      record { key_handled = true; commit_text = []; composition_text = xa_engine.context },
      xa_engine,
    )
transform_key-unfinished_example =
    transform_key-unfinished ab_re2 toy_conv no_classes ab-ScanLaws toy-TextLaws ab_entry ab_data
      ab_rule [] ab [] ab_made refl ab_rules refl ab_few (refl, tt) ab-Reads x_engine none
      (codes "a") (codes "x") (codes "a") (codes "b") ab_unmatched (refl, tt) (refl, tt) some_text
      no_delimiter whole
  where
    some_text : ◌≢◌ {A = Units} (codes "a") []
    some_text e = cc

    whole : Matches no_classes false ab (codes "ab") []
    whole = (codes "a", codes "b", refl, inl (b'a', refl, refl), inl (b'b', refl, refl))

-- The prefix pattern matches `a`, which `b` continues to a match.
prefixalize-prefixes_example :
    (ab_re2.full_match (codes "a") (prefixalize ab_re2 toy_conv (codes "ab")) ≡ true)
    ↔ ((t : Units) × Matches no_classes false ab (codes "a" ++ t) [])
prefixalize-prefixes_example =
    prefixalize-prefixes ab_re2 toy_conv no_classes ab-ScanLaws (codes "ab") ab (codes "a") refl
      ((b'a', refl), (b'b', refl)) ab-Reads (refl, tt)

-- Conversions that decode and encode.
abbrev code_conv : Conversions
code_conv = record {
  to_utf16 = λ s. codepoints_to_u16 (decode_utf8 s);
  to_utf8 = λ us. us;
  normalize = λ s. s;
}

scalar_below : (cps : List ℕ) → AllScalar cps → AllBelow 0x200000 cps
scalar_below [] h = tt
scalar_below (cp ∷ cps) h = (below cp h.0, scalar_below cps h.1)
  where
    below : (c : ℕ) → is_scalar c ≡ true → c < 0x200000
    below c q = ground arith

code_conv-Utf16Law : Utf16Law code_conv
unfolding append_utf8
code_conv-Utf16Law = record {
  utf16_of = λ cps h. ap codepoints_to_u16 (append_utf8-encode_utf8 cps [] (scalar_below cps h));
}

abbrev telugu : Bytes
telugu = codes "te_phone"

abbrev telugu_entry : RawDataEntry
telugu_entry =
    (transforming TePhone.id Us.key_map Us.is_102 TePhone.transforms TePhone.transforms_len
      TePhone.history_prune).1

telugu_found : find_entry telugu raw_data ≡ some telugu_entry
unfolding find_entry raw_data c_string bytes_eq
telugu_found = refl

telugu_read : is_among telugu left_out ≡ false
unfolding bytes_eq
telugu_read = refl

supported-Written_example :
    (ps : List Pair) × (rs : List Re) × (telugu_entry.transforms ≡ flat ps)
    × (telugu_entry.transforms_count ≡ count_of ps)
    × Written code_conv ps rs
supported-Written_example =
    supported-Written code_conv code_conv-Utf16Law telugu telugu_entry telugu_found telugu_read
