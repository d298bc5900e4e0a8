-- ===== src/Rulebased/Regexp.antt =====
-- Patterns as trees, and what they match: an independent description of the patterns that the layouts
-- give to RE2, with the groups, alternatives and repetitions that RE2 documents. A `.` outside brackets
-- and a counted repetition are left out.
pub mod Prefixes
pub mod Finishes
pub mod Predicted
pub mod Reader
use chromiumos_devenv.Common.{ℕ, ◌≡◌, ◌⊎◌, Bool, true, false, not, ◌&&◌, List, [], ◌∷◌, ◌++◌, ◌==◌}
use chromiumos_devenv.Platform.Text.{Units}
use chromiumos_devenv.Rulebased.Prefix.Grammar.{
  Token, literal, operator, escaped, class, repeat, Member, AreMembers, is_literal,
}

-- A literal character that is no anchor of a text's start or end.
unfoldable pub is_plain : ℕ → Bool
is_plain u = is_literal u && not (u == b'^') && not (u == b'$')

-- A token that matches one character.
abbrev pub IsUnit : Token → Type 0
IsUnit (literal u) = is_plain u ≡ true
IsUnit (operator u) = ⊥
IsUnit (escaped u) = Unit {0}
IsUnit (class ms) = AreMembers ms
IsUnit (repeat us) = ⊥

pub data Re : Type 0 where
  unit : (t : Token) → IsUnit t → Re
  group : Re → Re
  star plus opt : Re → Re
  empty : Re
  seq alt : Re → Re → Re

-- How a pattern is written. It is read back as it is meant if what precedence asks for is a `group`.
abbrev pub tokens : Re → List Token
tokens (unit t h) = t ∷ []
tokens (group r) = operator b'(' ∷ (tokens r ++ operator b')' ∷ [])
tokens (star r) = tokens r ++ operator b'*' ∷ []
tokens (plus r) = tokens r ++ operator b'+' ∷ []
tokens (opt r) = tokens r ++ operator b'?' ∷ []
tokens empty = []
tokens (seq r q) = tokens r ++ tokens q
tokens (alt r q) = tokens r ++ operator b'|' ∷ tokens q

-- The characters that an escape and a bracket expression stand for, as RE2 documents them.
pub record Classes : Type 0 where
  pub escape_has : ℕ → ℕ → Bool
  pub class_has : List Member → ℕ → Bool

-- Repeated matches, up to the text `rest` that follows.
pub data Star (R : Units → Units → Type 0) (rest : Units) : Units → Type 0 where
  done : {s : Units} → s ≡ [] → Star R rest s
  more : {s : Units} (x y : Units) → s ≡ x ++ y → R x (y ++ rest) → Star R rest y → Star R rest s

module _ (classes : Classes) where
  abbrev pub has : Token → ℕ → Bool
  has (literal x) u = u == x
  has (escaped x) u = classes.escape_has x u
  has (class ms) u = classes.class_has ms u
  has (operator x) u = false
  has (repeat us) u = false

  -- The pattern matches the characters `s`, where `rest` follows. If `prefixed` is true, each unit `x`
  -- stands for `(?:x|$)`: it also matches the end of the text.
  abbrev pub Matches : Bool → Re → Units → Units → Type 0
  Matches prefixed (unit t h) s rest =
      ((u : ℕ) × (s ≡ u ∷ []) × (has t u ≡ true)) ⊎ ((prefixed ≡ true) × (s ≡ []) × (rest ≡ []))
  Matches prefixed (group r) s rest = Matches prefixed r s rest
  Matches prefixed (star r) s rest = Star (Matches prefixed r) rest s
  Matches prefixed (plus r) s rest =
      (x : Units) × (y : Units) × (s ≡ x ++ y)
      × Matches prefixed r x (y ++ rest)
      × Star (Matches prefixed r) rest y
  Matches prefixed (opt r) s rest = (s ≡ []) ⊎ Matches prefixed r s rest
  Matches prefixed empty s rest = s ≡ []
  Matches prefixed (seq r q) s rest =
      (x : Units) × (y : Units) × (s ≡ x ++ y)
      × Matches prefixed r x (y ++ rest)
      × Matches prefixed q y rest
  Matches prefixed (alt r q) s rest = Matches prefixed r s rest ⊎ Matches prefixed q s rest

  -- Every unit of the pattern stands for some character.
  abbrev pub Inhabited : Re → Type 0
  Inhabited (unit t h) = (u : ℕ) × (has t u ≡ true)
  Inhabited (group r) = Inhabited r
  Inhabited (star r) = Inhabited r
  Inhabited (plus r) = Inhabited r
  Inhabited (opt r) = Inhabited r
  Inhabited empty = Unit {0}
  Inhabited (seq r q) = Inhabited r × Inhabited q
  Inhabited (alt r q) = Inhabited r × Inhabited q
