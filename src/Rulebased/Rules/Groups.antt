-- ===== src/Rulebased/Rules/Groups.antt =====
-- The patterns that `ParseTransforms` merges, and the numbers under which it files the rules.
use chromiumos_devenv.Common.{
  ℕ, suc, ◌+◌, ◌<◌, ◌≡◌, refl, sym, ap, ◌∙◌, List, [], ◌∷◌, ◌++◌, append_assoc, append-nil, map,
  Option, none, some, Bytes, codes, init, if◌then◌else◌, ◌==◌, arith, returns,
}
use chromiumos_devenv.Platform.Regex.{Re2}
use chromiumos_devenv.Platform.Text.{Conversions}
use chromiumos_devenv.Rulebased.Prefix.{prefixalize}
use chromiumos_devenv.Rulebased.Rules.{
  TransformRule, Rules, find_rule, assign_rule, Merging, ParsedTransforms, merging_start, add_rule,
  add_rules, finish_transforms, parse_transforms,
}

-- A rule as the table has it: a pattern and a rewrite.
abbrev pub Pair : Type 0
Pair = Bytes × Bytes

-- The rules as an array of strings: patterns at the even indices, rewrites at the odd ones.
abbrev pub flat : List Pair → List Bytes
flat [] = []
flat ((from, to) ∷ ps) = from ∷ to ∷ flat ps

abbrev pub count_of : List Pair → ℕ
count_of [] = 0
count_of (p ∷ ps) = suc (suc (count_of ps))

-- Patterns joined by `|`.
abbrev pub alternation : List Bytes → Bytes
alternation [] = []
alternation (p ∷ []) = p
alternation (p ∷ q ∷ ps) = p ++ (codes "|" ++ alternation (q ∷ ps))

-- Each pattern as a capture group of its own, at the end of the text.
abbrev pub anchored_group : Pair → Bytes
anchored_group (from, to) = codes "(" ++ (from ++ codes "$)")

-- Patterns with a `|` behind each.
piped : List Bytes → Bytes
piped [] = []
piped (p ∷ ps) = p ++ (codes "|" ++ piped ps)

init-append : (xs : Bytes) (y : ℕ) (ys : Bytes) → init (xs ++ y ∷ ys) ≡ xs ++ init (y ∷ ys)
init-append [] y ys = refl
init-append (x ∷ []) y ys = refl
init-append (x ∷ z ∷ xs) y ys = ap (◌∷◌ x) (init-append (z ∷ xs) y ys)

init-bar : (q rest : Bytes) → init (b'|' ∷ (q ++ b'|' ∷ rest)) ≡ b'|' ∷ init (q ++ b'|' ∷ rest)
init-bar [] rest = refl
init-bar (x ∷ q) rest = refl

init-piped : (p : Bytes) (ps : List Bytes) → init (piped (p ∷ ps)) ≡ alternation (p ∷ ps)
unfolding piped
init-piped p [] = init-append p b'|' [] ∙ append-nil p
init-piped p (q ∷ ps) =
    init-append p b'|' (piped (q ∷ ps))
    ∙ ap (λ l. p ++ l) (init-bar q (piped ps) ∙ ap (◌∷◌ b'|') (init-piped q ps))

module _ (re2 : Re2) (conv : Conversions) where
  abbrev pub prefixed_pattern : Pair → Bytes
  prefixed_pattern (from, to) = prefixalize re2 conv from

  abbrev pub rule_of : Pair → TransformRule re2.Regex
  rule_of (from, to) = record { re = re2.compile (from ++ codes "$"); repl = to }

  -- The groups of a rule in the merged pattern: its own, and those that its pattern captures.
  abbrev pub groups_of : Pair → ℕ
  groups_of p = suc (re2.number_of_capturing_groups (rule_of p).re)

  abbrev pub total_groups : List Pair → ℕ
  total_groups [] = 0
  total_groups (p ∷ ps) = groups_of p + total_groups ps

  -- The rule whose own group has number `n`, if the first rule's has number `first`.
  abbrev pub rule_at : List Pair → ℕ → ℕ → Option (TransformRule re2.Regex)
  rule_at [] first n = none
  rule_at (p ∷ ps) first n =
      if first == n then some (rule_of p) else rule_at ps (first + groups_of p) n

  abbrev or_else :
      Option (TransformRule re2.Regex)
      → Option (TransformRule re2.Regex)
      → Option (TransformRule re2.Regex)
  or_else none b = b
  or_else (some a) b = some a

  or_else-none : (a : Option (TransformRule re2.Regex)) → or_else a none ≡ a
  or_else-none none = refl
  or_else-none (some a) = refl

  find_rule-assign :
      (n k : ℕ) (r : TransformRule re2.Regex) (m : Rules re2.Regex)
      → find_rule n (assign_rule k r m) ≡ (if k == n then some r else find_rule n m)
  unfolding find_rule assign_rule
  find_rule-assign n k r [] = refl
  find_rule-assign n k r ((j, q) ∷ m) = ground (arith, find_rule-assign n k r m)

  rule_at-below : (ps : List Pair) (first n : ℕ) → n < first → rule_at ps first n ≡ none
  rule_at-below [] first n h = refl
  rule_at-below (p ∷ ps) first n h = ground (arith, rule_at-below ps (first + groups_of p) n)

  -- What the loop has done when it ends.
  record Merged (ps : List Pair) (s t : Merging re2.Regex) : Type 0 where
    trans : t.all_trans ≡ s.all_trans ++ piped (map anchored_group ps)
    prefixes : t.all_prefixes ≡ s.all_prefixes ++ piped (map prefixed_pattern ps)
    sum : t.sum_of_groups ≡ s.sum_of_groups + total_groups ps
    filed :
        (n : ℕ)
        → find_rule n t.re_map ≡ or_else (rule_at ps s.sum_of_groups n) (find_rule n s.re_map)

  add_rule-sum :
      (from to : Bytes) (s : Merging re2.Regex)
      → s.sum_of_groups + groups_of (from, to) < 65536
      → (add_rule re2 conv from to s).sum_of_groups ≡ s.sum_of_groups + groups_of (from, to)
  unfolding add_rule
  add_rule-sum from to s h = omega arith

  sum-le :
      (from to : Bytes) (ps : List Pair) (s : Merging re2.Regex)
      → s.sum_of_groups + total_groups ((from, to) ∷ ps) < 65536
      → (add_rule re2 conv from to s).sum_of_groups + total_groups ps < 65536
  sum-le from to ps s h = omega (arith, add_rule-sum from to s (omega arith))

  find_rule-add_rule :
      (n : ℕ) (from to : Bytes) (s : Merging re2.Regex)
      → find_rule n (add_rule re2 conv from to s).re_map
        ≡ (if s.sum_of_groups == n then some (rule_of (from, to)) else find_rule n s.re_map)
  unfolding add_rule
  find_rule-add_rule n from to s = find_rule-assign n s.sum_of_groups (rule_of (from, to)) s.re_map

  -- One more rule, filed under the number of its group.
  filed_step :
      (n : ℕ) (from to : Bytes) (ps : List Pair) (s : Merging re2.Regex)
      → s.sum_of_groups + groups_of (from, to) < 65536
      → or_else
          (rule_at ps (add_rule re2 conv from to s).sum_of_groups n)
          (find_rule n (add_rule re2 conv from to s).re_map)
        ≡ or_else (rule_at ((from, to) ∷ ps) s.sum_of_groups n) (find_rule n s.re_map)
  filed_step n from to ps s h = rw (add_rule-sum from to s h) (
      ground (
        arith,
        find_rule-add_rule n from to s,
        rule_at-below ps (s.sum_of_groups + groups_of (from, to)) n,
      ))

  add_rules-Merged :
      (ps : List Pair) (s : Merging re2.Regex)
      → s.sum_of_groups + total_groups ps < 65536
      → (t : Merging re2.Regex) × (add_rules re2 conv (count_of ps) (flat ps) s ≡ returns t)
        × Merged ps s t
  unfolding add_rules piped
  add_rules-Merged [] s h = (
    s,
    refl,
    record {
      trans = sym (append-nil s.all_trans);
      prefixes = sym (append-nil s.all_prefixes);
      sum = omega arith;
      filed = λ n. refl;
    },
  )
  add_rules-Merged ((from, to) ∷ ps) s h =
      let (t, e, done) =
        add_rules-Merged ps (add_rule re2 conv from to s) (sum-le from to ps s h) in
      (
        t,
        e,
        record {
          trans = done.trans ∙ (unfold add_rule in simp append_assoc);
          prefixes = done.prefixes ∙ (unfold add_rule in simp append_assoc);
          sum = unfold add_rule in omega (arith, done.sum, add_rule-sum from to s (omega arith));
          filed = λ n. done.filed n ∙ filed_step n from to ps s (omega arith);
        },
      )

  -- The rules of a table that is not empty, and whose groups a `uint16_t` can count, are parsed to
  -- the alternation of the patterns, each in a capture group of its own and anchored at the end;
  -- to the alternation of the prefixalized patterns; and to a map that holds each rule under the
  -- number that its own group has in the merged pattern, and nothing under any other number.
  pub parse_transforms-pairs :
      (p : Pair) (ps : List Pair)
      → 1 + total_groups (p ∷ ps) < 65536
      → (d : ParsedTransforms re2.Regex) × (parse_transforms re2 conv
            (flat (p ∷ ps))
            (count_of (p ∷ ps))
          ≡ returns d)
        × (d.merged ≡ some (re2.compile (alternation (map anchored_group (p ∷ ps)))))
        × (d.prefix ≡ some (re2.compile (alternation (map prefixed_pattern (p ∷ ps)))))
        × ((n : ℕ) → find_rule n d.rules ≡ rule_at (p ∷ ps) 1 n)
  unfolding parse_transforms find_rule
  parse_transforms-pairs p ps h =
      let (t, e, done) = add_rules-Merged (p ∷ ps) (merging_start re2 conv) h in
      (
        finish_transforms re2 conv t,
        rw e refl,
        ap (λ b. some (re2.compile (init b))) done.trans
            ∙ ap (λ b. some (re2.compile b))
                (init-piped (anchored_group p) (map anchored_group ps)),
        ap (λ b. some (re2.compile (init b))) done.prefixes
            ∙ ap (λ b. some (re2.compile b))
                (init-piped (prefixed_pattern p) (map prefixed_pattern ps)),
        λ n. done.filed n ∙ or_else-none (rule_at (p ∷ ps) 1 n),
      )
