-- ===== src/Rulebased/Prefix.antt =====
-- `WrapPrefixUnit` and `Prefixalize` of rules_data.cc, which turn a rule's pattern into one that
-- also matches the prefixes of what the rule matches.
pub mod Grammar
pub mod Tokens
use chromiumos_devenv.Common.{
  ℕ, zero, suc, ◌+◌, ◌-◌, Bool, true, false, List, [], ◌∷◌, ◌++◌, Option, none, some, Bytes, codes,
  bytes_eq, if◌then◌else◌, take, drop,
}
use chromiumos_devenv.Platform.Regex.{Re2}
use chromiumos_devenv.Platform.Text.{Units, Conversions}

unfoldable pub wrap_prefix_unit : Bytes → Bytes
wrap_prefix_unit re_unit = codes "(?:" ++ (re_unit ++ codes "|$)")

-- The variables of the loop. `none` is the -1 of `bracket` and `brace`.
pub record Scan : Type 0 where
  pub ret : Bytes
  pub escape : Bool
  pub bracket : Option ℕ
  pub brace : Option ℕ

abbrev pub scan_start : Scan
scan_start = record { ret = []; escape = false; bracket = none; brace = none }

-- `restr16.substr(from, i - from + 1)`
abbrev pub slice : Units → ℕ → ℕ → Units
slice restr from i = take (i - from + 1) (drop from restr)

module _ (re2 : Re2) (conv : Conversions) (restr : Units) where
  -- `escape` is set.
  scan_escaped : Bytes → Scan → Option ℕ → Scan
  unfolding wrap_prefix_unit
  scan_escaped ch s none = record s { ret = s.ret ++ wrap_prefix_unit (b'\\' ∷ ch); escape = false }
  scan_escaped ch s (some b) = record s { escape = false }

  -- `bracket >= 0`
  scan_bracket : ℕ → Bytes → Scan → ℕ → Scan
  unfolding wrap_prefix_unit bytes_eq
  scan_bracket i ch s from =
      if bytes_eq ch (codes "]")
      then record s {
        ret = s.ret ++ wrap_prefix_unit (conv.to_utf8 (slice restr from i));
        bracket = none;
      }
      else s

  -- `brace >= 0`
  scan_brace : ℕ → Bytes → Scan → ℕ → Scan
  unfolding bytes_eq
  scan_brace i ch s from =
      if bytes_eq ch (codes "}")
      then record s { ret = s.ret ++ conv.to_utf8 (slice restr from i); brace = none }
      else s

  -- Outside brackets and braces.
  scan_plain : Bytes → Scan → Scan
  unfolding wrap_prefix_unit
  scan_plain ch s =
      if re2.full_match ch (re2.compile (codes "[+*?.()|]"))
      then record s { ret = s.ret ++ ch }
      else record s { ret = s.ret ++ wrap_prefix_unit ch }

  scan_inside : ℕ → Bytes → Scan → Option ℕ → Option ℕ → Scan
  unfolding scan_bracket scan_brace scan_plain
  scan_inside i ch s (some from) brace = scan_bracket i ch s from
  scan_inside i ch s none (some from) = scan_brace i ch s from
  scan_inside i ch s none none = scan_plain ch s

  abbrev is_open : Option ℕ → Bool
  is_open none = false
  is_open (some n) = true

  -- `escape` is not set.
  scan_unescaped : ℕ → Bytes → Scan → Scan
  unfolding scan_inside bytes_eq
  scan_unescaped i ch s =
      if bytes_eq ch (codes "\\")
      then record s { escape = true }
      else if bytes_eq ch (codes "[")
      then record s { bracket = some i }
      else if (if bytes_eq ch (codes "{")
          then (if is_open s.bracket then false else true)
          else false)
      then record s { brace = some i }
      else scan_inside i ch s s.bracket s.brace

  scan_char : ℕ → Bytes → Scan → Scan
  unfolding scan_escaped scan_unescaped
  scan_char i ch s = if s.escape then scan_escaped ch s s.bracket else scan_unescaped i ch s

  -- The loop, from index `i` on; `rest` is what it has not reached yet.
  scan_from : ℕ → Units → Scan → Scan
  unfolding scan_char
  scan_from i [] s = s
  scan_from i (u ∷ rest) s = scan_from (i + 1) rest (scan_char i (conv.to_utf8 (u ∷ [])) s)

unfoldable pub prefixalize : Re2 → Conversions → Bytes → Bytes
unfolding scan_from
prefixalize re2 conv re_str =
    let restr = conv.to_utf16 re_str in (scan_from re2 conv restr 0 restr scan_start).ret
