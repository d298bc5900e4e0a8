-- ===== src/Tests/Toys.antt =====
-- The parameters of the tests.
use chromiumos_devenv.Common.{
  ℕ, zero, suc, ◌+◌, ◌≤◌, ◌<◌, ◌≡◌, ◌≢◌, refl, ap, Bool, false, List, [], ◌∷◌, ◌++◌, Option, none,
  some, Bytes, bytes_eq, codes, arith, length, is_empty, ◌==◌, if◌then◌else◌,
}
use chromiumos_devenv.Platform.DomCode.{key_a, key_b}
use chromiumos_devenv.Platform.Regex.{Re2, Group, MatchLaws}
use chromiumos_devenv.Platform.Text.{Conversions}
use chromiumos_devenv.Rulebased.KeyMap.{KeyMap}
use chromiumos_devenv.Rulebased.Prefix.Grammar.{ScanLaws, is_operator}
use chromiumos_devenv.Rulebased.Rules.Groups.{Pair}
use chromiumos_devenv.Rulebased.RulesData.{RulesData, RawDataEntry}
use chromiumos_devenv.Layouts.{transforming}
use chromiumos_devenv.Layouts.Us
use chromiumos_devenv.Rulebased.RulesData.Building.{IsWellFormed}
use chromiumos_devenv.Rulebased.Engine.{Engine, minus_one}
use chromiumos_devenv.Rulebased.Engine.Safety.{Inv}

abbrev pub operators : Bytes
operators = codes "[+*?.()|]"

abbrev pub is_operator_text : Bytes → Bool
unfolding is_operator
is_operator_text (u ∷ []) = is_operator u
is_operator_text _ = false

-- A pattern is its own text; it has a group for each opening parenthesis.
abbrev pub parens : Bytes → ℕ
parens [] = 0
parens (c ∷ re) = if c == b'(' then suc (parens re) else parens re

abbrev pub repeated : ℕ → Group → List Group
repeated zero g = []
repeated (suc n) g = g ∷ repeated n g

abbrev pub toy_groups : Bytes → Bytes → Option (List Group)
toy_groups re [] = none
toy_groups re (c ∷ text) =
    some (some (0, suc (length text)) ∷ repeated (parens re) (some (0, suc (length text))))

abbrev pub toy_full_match : Bytes → Bytes → Bool
unfolding bytes_eq
toy_full_match text re = if bytes_eq re operators then is_operator_text text else bytes_eq text re

-- Every text that is not empty matches as a whole, with all groups; a rewrite that is not empty
-- replaces the text.
abbrev pub toy_re2 : Re2
toy_re2 = record {
  Regex = Bytes;
  compile = λ p. p;
  number_of_capturing_groups = parens;
  groups = toy_groups;
  full_match = toy_full_match;
  replace = λ text re rewrite. if is_empty rewrite then text else rewrite;
}

abbrev pub toy_conv : Conversions
toy_conv = record { to_utf16 = λ s. s; to_utf8 = λ s. s; normalize = λ s. s }

length-repeated : (n : ℕ) (g : Group) → length (repeated n g) ≡ n
length-repeated zero g = refl
length-repeated (suc n) g = ap suc (length-repeated n g)

toy_length :
    (re text : Bytes) (gs : List Group) → toy_groups re text ≡ some gs → length gs ≡ parens re + 1
toy_length re [] gs e = cc
toy_length re (c ∷ text) gs e =
    ground (arith, length-repeated (parens re) (some (0, suc (length text))))

toy_whole :
    (re text : Bytes) (gs : List Group)
    → toy_groups re text ≡ some gs
    → (start : ℕ) × (n : ℕ) × (rest : List Group) × (gs ≡ some (start, n) ∷ rest)
toy_whole re [] gs e = cc
toy_whole re (c ∷ text) gs e =
    (0, suc (length text), repeated (parens re) (some (0, suc (length text))), cc)

pub toy_laws : MatchLaws toy_re2
toy_laws = record { length_groups = toy_length; whole_match = toy_whole }

toy_other_unit : (u b : ℕ) → 128 ≤ u → b < 128 → ◌≢◌ {A = Bytes} (u ∷ []) (b ∷ [])
toy_other_unit u b h k e = absurd (grind arith)

pub toy-ScanLaws : ScanLaws toy_re2 toy_conv
unfolding bytes_eq is_operator
toy-ScanLaws = record {
  ascii_unit = λ u h. refl;
  other_unit = toy_other_unit;
  operator_class = λ u. refl;
}

abbrev pub toy_map : KeyMap
toy_map = (key_a, codes "a") ∷ (key_b, codes "b") ∷ []

-- A layout of two keys and one rule.
abbrev pub toy_data : RulesData Bytes
toy_data = record {
  key_maps = toy_map ∷ toy_map ∷ toy_map ∷ toy_map ∷ toy_map ∷ toy_map ∷ toy_map ∷ toy_map ∷ [];
  transform_rules = (1, record { re = codes "a$"; repl = codes "xyz" }) ∷ [];
  transform_re_merged = some (codes "(a$)");
  prefix_re = some (codes "xyz" ++ 0x1D ∷ []);
  history_prune_re = some (codes "^(a)$");
}

abbrev pub toy_plain : RulesData Bytes
toy_plain = record toy_data {
  transform_rules = [];
  transform_re_merged = none;
  prefix_re = none;
  history_prune_re = none;
}

abbrev pub toy_engine : Engine Bytes
toy_engine = record {
  current_data = some toy_data;
  current_id = codes "toy";
  context = codes "ab";
  transat = minus_one;
  history_context = [];
  history_transat = minus_one;
  history_ambi = codes "a";
}

abbrev pub toy_plain_engine : Engine Bytes
toy_plain_engine = record toy_engine {
  current_id = codes "plain";
  current_data = some toy_plain;
  context = [];
  history_ambi = [];
}

pub toy_IsWellFormed : IsWellFormed toy_re2 toy_data
toy_IsWellFormed = record { all_maps = refl; both_regexes = tt; has_group = omega arith }

no_plain : ◌≢◌ {A = Option Bytes} (some (codes "(a$)")) none
no_plain e = cc

pub toy_Inv : Inv toy_re2 toy_engine
toy_Inv = record {
  data_ok = toy_IsWellFormed;
  in_range = tt;
  history_in_range = tt;
  idle = λ n. absurd (no_plain n);
}

-- A table with one layout: the American keyboard and one rule.
abbrev pub toy_raw_data : List (Bytes × RawDataEntry)
toy_raw_data = transforming "toy" Us.key_map false ("a" ∷ "b" ∷ []) 2 none ∷ []

abbrev pub toy_entry : RawDataEntry
toy_entry = (transforming "toy" Us.key_map false ("a" ∷ "b" ∷ []) 2 none).1

abbrev pub toy_rules : List Pair
toy_rules = (codes "a", codes "b") ∷ []
