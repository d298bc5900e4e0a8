-- ===== src/Platform/Regex.antt =====
-- RE2, a library outside the repository: what the rule-based engine uses of it, as a parameter.
use chromiumos_devenv.Common.{ℕ, ◌+◌, ◌≡◌, Bool, List, ◌∷◌, Option, none, some, Bytes, take, length}

-- A capture group's text in the subject: its first byte and its length. `none` is a null
-- `StringPiece`, of a group that took no part in the match.
abbrev pub Group : Type 0
Group = Option (ℕ × ℕ)

pub record Re2 : Type 1 where
  pub Regex : Type 0
  -- `RE2(pattern)`
  pub compile : Bytes → Regex
  pub number_of_capturing_groups : Regex → ℕ
  -- `re.Match(text, 0, text.length(), UNANCHORED, …)`: all groups of the leftmost match, the whole
  -- match first; `none` if there is no match.
  pub groups : Regex → Bytes → Option (List Group)
  -- `RE2::FullMatch(text, re)`
  pub full_match : Bytes → Regex → Bool
  -- `RE2::Replace(&text, re, rewrite)`: the text afterwards
  pub replace : Bytes → Regex → Bytes → Bytes

-- The result of `Match` with an array of `n` pieces: the first `n` groups.
abbrev pub submatches : ℕ → Option (List Group) → Option (List Group)
submatches n none = none
submatches n (some gs) = some (take n gs)

-- What RE2 documents of `Match`: a match has the whole match and one entry for each capturing
-- group, and the whole match is not null.
pub record MatchLaws (re2 : Re2) : Type 0 where
  pub length_groups :
      (re : re2.Regex) (text : Bytes) (gs : List Group)
      → re2.groups re text ≡ some gs
      → length gs ≡ re2.number_of_capturing_groups re + 1
  pub whole_match :
      (re : re2.Regex) (text : Bytes) (gs : List Group)
      → re2.groups re text ≡ some gs
      → (start : ℕ) × (n : ℕ) × (rest : List Group) × (gs ≡ some (start, n) ∷ rest)
