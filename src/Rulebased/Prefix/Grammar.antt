-- ===== src/Rulebased/Prefix/Grammar.antt =====
-- The tokens of a rule's pattern, and what `Prefixalize` is meant to make of each.
use chromiumos_devenv.Common.{
  ℕ, ◌<◌, ◌≤◌, ◌≡◌, ◌≢◌, Bool, true, not, ◌&&◌, ◌||◌, List, [], ◌∷◌, ◌++◌, Bytes, codes, ◌==◌,
}
use chromiumos_devenv.Platform.Regex.{Re2}
use chromiumos_devenv.Platform.Text.{Units, Conversions}
use chromiumos_devenv.Rulebased.Prefix.{wrap_prefix_unit}

unfoldable pub is_operator : ℕ → Bool
is_operator u =
    u == b'+' || u == b'*' || u == b'?' || u == b'.' || u == b'(' || u == b')' || u == b'|'

-- What //base and RE2 document of the calls that the scan makes: a UTF-16 unit below 128 is the
-- same byte in UTF-8, any other unit is converted to no such byte, and the class `[+*?.()|]`
-- matches its seven members.
pub record ScanLaws (re2 : Re2) (conv : Conversions) : Type 0 where
  pub ascii_unit : (u : ℕ) → u < 128 → conv.to_utf8 (u ∷ []) ≡ u ∷ []
  pub other_unit : (u b : ℕ) → 128 ≤ u → b < 128 → conv.to_utf8 (u ∷ []) ≢ b ∷ []
  pub operator_class :
      (u : ℕ)
      → re2.full_match (conv.to_utf8 (u ∷ [])) (re2.compile (codes "[+*?.()|]")) ≡ is_operator u

-- A member of a bracket expression: one unit, or an escaped one.
pub data Member : Type 0 where
  member : ℕ → Member
  quoted : ℕ → Member

pub data Token : Type 0 where
  literal operator escaped : ℕ → Token
  class : List Member → Token
  repeat : Units → Token

abbrev pub print_members : List Member → Units
print_members [] = []
print_members (member u ∷ ms) = u ∷ print_members ms
print_members (quoted u ∷ ms) = b'\\' ∷ u ∷ print_members ms

abbrev pub print : Token → Units
print (literal u) = u ∷ []
print (operator u) = u ∷ []
print (escaped u) = b'\\' ∷ u ∷ []
print (class ms) = b'[' ∷ (print_members ms ++ b']' ∷ [])
print (repeat us) = b'{' ∷ (us ++ b'}' ∷ [])

abbrev pub print_all : List Token → Units
print_all [] = []
print_all (t ∷ ts) = print t ++ print_all ts

unfoldable pub is_literal : ℕ → Bool
is_literal u = not (u == b'\\') && not (u == b'[') && not (u == b'{') && not (is_operator u)

unfoldable pub is_member : ℕ → Bool
is_member u = not (u == b'\\') && not (u == b'[') && not (u == b']')

unfoldable pub is_count : ℕ → Bool
is_count u = not (u == b'\\') && not (u == b'[') && not (u == b'{') && not (u == b'}')

abbrev pub AreMembers : List Member → Type 0
AreMembers [] = Unit {0}
AreMembers (member u ∷ ms) = (is_member u ≡ true) × AreMembers ms
AreMembers (quoted u ∷ ms) = AreMembers ms

abbrev pub AreCounts : Units → Type 0
AreCounts [] = Unit {0}
AreCounts (u ∷ us) = (is_count u ≡ true) × AreCounts us

-- A token's units are of its kind: no bracket opens inside a bracket expression, and nothing but
-- plain units stands in a repetition.
abbrev pub IsToken : Token → Type 0
IsToken (literal u) = is_literal u ≡ true
IsToken (operator u) = is_operator u ≡ true
IsToken (escaped u) = Unit {0}
IsToken (class ms) = AreMembers ms
IsToken (repeat us) = AreCounts us

abbrev pub AreTokens : List Token → Type 0
AreTokens [] = Unit {0}
AreTokens (t ∷ ts) = IsToken t × AreTokens ts

-- What a token becomes: a unit that consumes text may also meet the end of the text; operators
-- and repetitions stay.
abbrev pub prefixed : Conversions → Token → Bytes
prefixed conv (literal u) = wrap_prefix_unit (conv.to_utf8 (u ∷ []))
prefixed conv (operator u) = conv.to_utf8 (u ∷ [])
prefixed conv (escaped u) = wrap_prefix_unit (b'\\' ∷ conv.to_utf8 (u ∷ []))
prefixed conv (class ms) = wrap_prefix_unit (conv.to_utf8 (print (class ms)))
prefixed conv (repeat us) = conv.to_utf8 (print (repeat us))

abbrev pub prefixed_all : Conversions → List Token → Bytes
prefixed_all conv [] = []
prefixed_all conv (t ∷ ts) = prefixed conv t ++ prefixed_all conv ts
