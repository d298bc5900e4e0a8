-- ===== src/Rulebased/Regexp/Reader.antt =====
-- A reader of written patterns, which finds the tree of a pattern by evaluation.
use chromiumos_devenv.Common.{
  ℕ, zero, suc, ◌*◌, ◌+◌, ◌≡◌, refl, Bool, true, false, ◌||◌, List, [], ◌∷◌, Option, none, some,
  ◌==◌, if◌then◌else◌, length, inl, inr, ◌⊎◌,
}
use chromiumos_devenv.Platform.Text.{Units}
use chromiumos_devenv.Rulebased.Prefix.Grammar.{
  literal, escaped, class, Member, member, quoted, AreMembers, is_member,
}
use chromiumos_devenv.Rulebased.Regexp.{Re, is_plain, unit, group, star, plus, opt, empty, seq, alt}

abbrev pub Read : Type 0 → Type 0
Read A = Option (A × Units)

infixl 5 ◌>>=◌
abbrev ◌>>=◌ : {A B : Type 0} → Option A → (A → Option B) → Option B
none >>= f = none
some a >>= f = f a

-- A test with the fact that it tells.
abbrev decide : (b : Bool) → (b ≡ true) ⊎ (b ≡ false)
decide true = inl refl
decide false = inr refl

-- The members up to the closing bracket; the flag tells that a backslash stands before.
read_members : Bool → Units → Read ((ms : List Member) × AreMembers ms)
unfolding is_member
read_members esc [] = none
read_members true (u ∷ us) =
    read_members false us >>= λ ((ms, h), rest). some ((quoted u ∷ ms, h), rest)
read_members false (u ∷ us) = elim (u == b']') [
  | true ↦ some (([], tt), us)
  | false ↦ elim (u == b'\\') [
    | true ↦ read_members true us
    | false ↦ elim (decide (is_member u)) [
      | inl ok ↦ read_members false us >>= λ ((ms, h), rest). some ((member u ∷ ms, (ok, h)), rest)
      | inr bad ↦ none
    ]
  ]
]

read_escape : Units → Read Re
read_escape [] = none
read_escape (u ∷ us) = some (unit (escaped u) tt, us)

-- The characters that end a branch.
ends_branch : Units → Bool
ends_branch [] = true
ends_branch (u ∷ us) = u == b'|' || u == b')'

-- A repetition behind an atom.
read_suffix : Re → Units → Re × Units
read_suffix r [] = (r, [])
read_suffix r (u ∷ us) =
    if u == b'*'
    then (star r, us)
    else if u == b'+'
    then (plus r, us)
    else if u == b'?'
    then (opt r, us)
    else (r, u ∷ us)

close_group : Re → Units → Read Re
close_group r [] = none
close_group r (u ∷ us) = if u == b')' then some (group r, us) else none

read_alternatives : Re → Units → (Units → Read Re) → Read Re
read_alternatives b [] next = some (b, [])
read_alternatives b (u ∷ us) next = elim (u == b'|') [
  | true ↦ next us >>= λ (r, rest). some (alt b r, rest)
  | false ↦ some (b, u ∷ us)
]

read_atom : Units → (Units → Read Re) → Read Re
unfolding read_members read_escape close_group is_plain
read_atom [] choice = none
read_atom (u ∷ us) choice = elim (u == b'(') [
  | true ↦ choice us >>= λ (r, rest). close_group r rest
  | false ↦ elim (u == b'[') [
    | true ↦ read_members false us >>= λ ((ms, h), rest). some (unit (class ms) h, rest)
    | false ↦ elim (u == b'\\') [
      | true ↦ read_escape us
      | false ↦ elim (decide (is_plain u)) [
        | inl ok ↦ some (unit (literal u) ok, us)
        | inr bad ↦ none
      ]
    ]
  ]
]

-- With the flag a branch is read, without it alternatives; each call takes fuel.
read : ℕ → Bool → Units → Read Re
unfolding ends_branch read_suffix read_alternatives read_atom
read zero branch us = none
read (suc f) true us = elim (ends_branch us) [
  | true ↦ some (empty, us)
  | false ↦ read_atom us (read f false) >>= λ (a, rest).
      read f true (read_suffix a rest).1 >>= λ (b, end). some (seq (read_suffix a rest).0 b, end)
]
read (suc f) false us = read f true us >>= λ (b, rest). read_alternatives b rest (read f false)

abbrev whole : Read Re → Option Re
whole none = none
whole (some (r, [])) = some r
whole (some (r, u ∷ us)) = none

unfoldable pub read_pattern : Units → Option Re
unfolding read
read_pattern us = whole (read (length us * 3 + 3) false us)
