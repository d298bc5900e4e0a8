-- ===== src/Rulebased/RulesData/Matching.antt =====
-- Which rule `Transform` applies: the groups of the merged regexp tell the alternative that matched.
use chromiumos_devenv.Common.{
  ℕ, zero, suc, ◌+◌, ◌%◌, ◌^◌, ◌<◌, ◌≤◌, ◌≡◌, ap, ◌∙◌, List, [], ◌∷◌, ◌++◌, none, some, Bytes,
  arith, take, returns, ◌>>=◌, deref, null_pointer,
}
use native.Mathlib.Nat.{add_assoc}
use chromiumos_devenv.Common.Int.{ℤ}
use chromiumos_devenv.Platform.Regex.{Re2, Group, submatches}
use chromiumos_devenv.Platform.Text.{Conversions}
use chromiumos_devenv.Rulebased.Rules.{find_rule}
use chromiumos_devenv.Rulebased.Rules.Groups.{Pair, rule_of, groups_of, total_groups, rule_at}
use chromiumos_devenv.Rulebased.RulesData.{
  RulesData, with_delimit, skip_null, first_group, apply_rule, on_match, match_rules, transform,
}

abbrev pub nulls : ℕ → List Group
nulls zero = []
nulls (suc n) = none ∷ nulls n

-- A match of the alternation in which the alternative of `p` matched, behind those of `before`:
-- the groups of the earlier alternatives are null, and the group around `p` is not.
pub record MatchedBy (re2 : Re2) (conv : Conversions) (before : List Pair) (p : Pair)
    (gs : List Group) : Type 0 where
  pub whole : Group
  pub own : ℕ × ℕ
  pub inner : List Group
  pub layout : gs ≡ whole ∷ (nulls (total_groups re2 conv before) ++ some own ∷ inner)

skip_null-nulls :
    (n m i : ℕ) (g : ℕ × ℕ) (inner : List Group)
    → n ≤ m
    → skip_null (take m (nulls n ++ some g ∷ inner)) i ≡ i + n
unfolding skip_null
skip_null-nulls zero zero i g inner h = omega arith
skip_null-nulls zero (suc m) i g inner h = omega arith
skip_null-nulls (suc n) zero i g inner h = absurd (omega arith)
skip_null-nulls (suc n) (suc m) i g inner h =
    skip_null-nulls n m (i + 1) g inner (omega arith) ∙ (omega arith)

-- `Transform` up to the test of the merged regexp.
pub transform-match_rules :
    (re2 : Re2) (d : RulesData re2.Regex) (merged : re2.Regex) (context appended s : Bytes) (z : ℤ)
    → d.transform_re_merged ≡ some merged
    → with_delimit context z ≡ returns s
    → transform re2 d context z appended ≡ match_rules re2 d merged (s ++ appended) appended
unfolding transform
transform-match_rules re2 d merged context appended s z em w =
    ap
      (λ m. m >>= λ t. deref null_pointer d.transform_re_merged >>= λ re.
        match_rules re2 d re (t ++ appended) appended)
      w
    ∙ ap (λ o. deref null_pointer o >>= λ re. match_rules re2 d re (s ++ appended) appended) em

module _ (re2 : Re2) (conv : Conversions) where
  rule_at-own :
      (before : List Pair) (p : Pair) (after : List Pair) (first : ℕ)
      → rule_at re2 conv (before ++ p ∷ after) first (first + total_groups re2 conv before)
        ≡ some (rule_of re2 conv p)
  rule_at-own [] p after first = ground arith
  rule_at-own (q ∷ before) p after first = ground (
    arith,
    ap (λ (n : ℕ). rule_at re2 conv (before ++ p ∷ after) (first + groups_of re2 conv q) n)
        (add_assoc first (groups_of re2 conv q) (total_groups re2 conv before)),
    rule_at-own before p after (first + groups_of re2 conv q),
  )

  total-append :
      (before : List Pair) (p : Pair) (after : List Pair)
      → total_groups re2 conv (before ++ p ∷ after)
        ≡ total_groups re2 conv before + (groups_of re2 conv p + total_groups re2 conv after)
  total-append [] p after = omega arith
  total-append (q ∷ before) p after = omega (arith, total-append before p after)

  -- The first group that took part in the match is the one around the alternative that matched,
  -- also where the array of pieces is one short and that group is the last.
  first_group-MatchedBy :
      (before : List Pair) (p : Pair) (m : ℕ) (gs : List Group)
      → MatchedBy re2 conv before p gs
      → total_groups re2 conv before < m
      → first_group (take m gs) ≡ 1 + total_groups re2 conv before
  unfolding first_group
  first_group-MatchedBy before p zero gs h lt = absurd (omega arith)
  first_group-MatchedBy before p (suc m) gs h lt =
      rw h.layout (skip_null-nulls (total_groups re2 conv before) m 1 h.own h.inner (omega arith))

  -- Let the rules be filed as `ParseTransforms` files them, and let RE2 count the groups of the
  -- merged regexp as the sum over the rules. When the merged regexp matches by the alternative of
  -- some rule, `Transform` applies that very rule, although the array that it hands to RE2 has no
  -- room for the last group.
  pub transform-MatchedBy :
      (d : RulesData re2.Regex) (merged : re2.Regex) (before : List Pair) (p : Pair)
      (after : List Pair) (context appended delimited : Bytes) (transat : ℤ) (gs : List Group)
      → d.transform_re_merged ≡ some merged
      → ((n : ℕ) → find_rule n d.transform_rules ≡ rule_at re2 conv (before ++ p ∷ after) 1 n)
      → 1 + total_groups re2 conv (before ++ p ∷ after) < 65536
      → re2.number_of_capturing_groups merged ≡ total_groups re2 conv (before ++ p ∷ after)
      → with_delimit context transat ≡ returns delimited
      → re2.groups merged (delimited ++ appended) ≡ some gs
      → MatchedBy re2 conv before p gs
      → transform re2 d context transat appended
        ≡ apply_rule re2 d
            (some (rule_of re2 conv p))
            (re2.number_of_capturing_groups merged)
            (delimited ++ appended)
            appended
  unfolding match_rules on_match
  transform-MatchedBy d merged before p after context appended delimited transat gs em filed small
        counted ed eg by =
      let n = re2.number_of_capturing_groups merged in
      transform-match_rules re2 d merged context appended delimited transat em ed
      ∙ ap (λ found. on_match re2 d (submatches n found) n (delimited ++ appended) appended) eg
      ∙ ap (λ r. apply_rule re2 d r n (delimited ++ appended) appended)
          (ap (λ k. find_rule (k % 2 ^ 16) d.transform_rules)
              (first_group-MatchedBy before p n gs by room)
            ∙ ap (λ k. find_rule k d.transform_rules) in_range
            ∙ filed (1 + total_groups re2 conv before)
            ∙ rule_at-own before p after 1)
    where
      room : total_groups re2 conv before < re2.number_of_capturing_groups merged
      room = omega (arith, total-append before p after)

      in_range : (1 + total_groups re2 conv before) % 2 ^ 16 ≡ 1 + total_groups re2 conv before
      in_range = omega (arith, total-append before p after)
