-- ===== src/Rulebased/Regexp/Predicted.antt =====
-- `Prefixalize` and `PredictTransform` against the meaning of patterns.
use chromiumos_devenv.Common.{
  ℕ, ◌<◌, ◌≡◌, ◌≢◌, ◌↔◌, refl, sym, ap, ◌∙◌, Bool, true, false, ◌&&◌, ◌||◌, List, [], ◌∷◌, ◌++◌,
  append_assoc, map, some, Bytes, arith, length, length-append, drop, ltb, leb, returns,
}
use chromiumos_devenv.Common.Int.{ℤ}
use chromiumos_devenv.Platform.Regex.{Re2}
use chromiumos_devenv.Platform.Text.{Units, Conversions}
use chromiumos_devenv.Rulebased.Prefix.{prefixalize}
use chromiumos_devenv.Rulebased.Prefix.Grammar.{
  ScanLaws, Token, literal, operator, escaped, class, repeat, IsToken, AreTokens, print_all,
  prefixed, prefixed_all, is_operator,
}
use chromiumos_devenv.Rulebased.Prefix.Tokens.{prefixalize-tokens}
use chromiumos_devenv.Rulebased.Rules.Groups.{Pair, alternation, prefixed_pattern}
use chromiumos_devenv.Rulebased.RulesData.{RulesData, with_delimit, predict_transform}
use chromiumos_devenv.Rulebased.RulesData.Predicting.{SuffixBelow, predict_transform-suffix}
use chromiumos_devenv.Rulebased.Regexp.{
  Re, unit, group, star, plus, opt, empty, seq, alt, IsUnit, is_plain, tokens, Classes, Matches,
  Inhabited,
}
use chromiumos_devenv.Rulebased.Regexp.Prefixes.{cut_short}
use chromiumos_devenv.Rulebased.Regexp.Finishes.{Matches-prefixed_iff}

AreTokens-append : (ts us : List Token) → AreTokens ts → AreTokens us → AreTokens (ts ++ us)
AreTokens-append [] us h k = k
AreTokens-append (t ∷ ts) us h k = (h.0, AreTokens-append ts us h.1 k)

unit-IsToken : (t : Token) → IsUnit t → IsToken t
unfolding is_plain
unit-IsToken (literal u) h = ground arith
unit-IsToken (escaped u) h = h
unit-IsToken (class ms) h = h
unit-IsToken (operator u) h = absurd h
unit-IsToken (repeat us) h = absurd h

pub tokens-AreTokens : (r : Re) → AreTokens (tokens r)
unfolding is_operator
tokens-AreTokens (unit t h) = (unit-IsToken t h, tt)
tokens-AreTokens (group r) =
    (refl, AreTokens-append (tokens r) (operator b')' ∷ []) (tokens-AreTokens r) (refl, tt))
tokens-AreTokens (star r) =
    AreTokens-append (tokens r) (operator b'*' ∷ []) (tokens-AreTokens r) (refl, tt)
tokens-AreTokens (plus r) =
    AreTokens-append (tokens r) (operator b'+' ∷ []) (tokens-AreTokens r) (refl, tt)
tokens-AreTokens (opt r) =
    AreTokens-append (tokens r) (operator b'?' ∷ []) (tokens-AreTokens r) (refl, tt)
tokens-AreTokens empty = tt
tokens-AreTokens (seq r q) =
    AreTokens-append (tokens r) (tokens q) (tokens-AreTokens r) (tokens-AreTokens q)
tokens-AreTokens (alt r q) =
    AreTokens-append (tokens r) (operator b'|' ∷ tokens q) (tokens-AreTokens r)
      (refl, tokens-AreTokens q)

-- A UTF-16 unit that is a character by itself.
abbrev pub is_character : ℕ → Bool
is_character u = ltb u 0xD800 || leb 0xE000 u && ltb u 0x10000

abbrev pub IsText : Units → Type 0
IsText [] = Unit {0}
IsText (u ∷ us) = (is_character u ≡ true) × IsText us

-- What //base documents of the conversions, for characters of one unit each.
pub record TextLaws (conv : Conversions) : Type 0 where
  pub joins :
      (us vs : Units)
      → IsText us
      → IsText vs
      → conv.to_utf8 (us ++ vs) ≡ conv.to_utf8 us ++ conv.to_utf8 vs
  pub reads_back : (us : Units) → IsText us → conv.to_utf16 (conv.to_utf8 us) ≡ us

-- The patterns of the rules are the trees, as they are written.
abbrev pub Written : Conversions → List Pair → List Re → Type 0
Written conv [] [] = Unit {0}
Written conv ((from, to) ∷ ps) (r ∷ rs) =
    (conv.to_utf16 from ≡ print_all (tokens r)) × Written conv ps rs
Written conv _ _ = ⊥

-- Any of the patterns.
abbrev pub choices : Re → List Re → Re
choices r [] = r
choices r (q ∷ rs) = alt r (choices q rs)

module _ (re2 : Re2) (conv : Conversions) (classes : Classes) where
  -- RE2 reads the compiled pattern as the tree, with prefixed units or without, and matches it in
  -- full as documented.
  abbrev pub Reads : Bool → Re → re2.Regex → Type 0
  Reads mode r re =
      (s : Units)
      → IsText s
      → (re2.full_match (conv.to_utf8 s) re ≡ true) ↔ Matches classes mode r s []

  -- Let RE2 and the conversions keep `ScanLaws`, let a pattern be written as a tree every unit of which
  -- stands for some character, and let RE2 read the tree with each unit `x` written `(?:x|$)` as
  -- documented. Then the regexp compiled from what `Prefixalize` makes of the pattern matches a text of
  -- one-unit characters in full exactly if the text can be continued to a match of the pattern.
  pub prefixalize-prefixes :
      ScanLaws re2 conv
      → (from : Bytes) (r : Re) (s : Units) → conv.to_utf16 from ≡ print_all (tokens r)
      → Inhabited classes r
      → Reads true r (re2.compile (prefixed_all conv (tokens r)))
      → IsText s
      → (re2.full_match (conv.to_utf8 s) (re2.compile (prefixalize re2 conv from)) ≡ true)
        ↔ ((t : Units) × Matches classes false r (s ++ t) [])
  prefixalize-prefixes laws from r s e i reads h =
      let written = prefixalize-tokens re2 conv laws from (tokens r) (tokens-AreTokens r) e in
      let (ahead, back) = reads s h in
      let (finish, cut) = Matches-prefixed_iff classes r s i in
      (
        (λ q. finish (
            ahead (
              ap (λ (b : Bytes). re2.full_match (conv.to_utf8 s) (re2.compile b)) (sym written)
              ∙ q))),
        (λ m.
            ap (λ (b : Bytes). re2.full_match (conv.to_utf8 s) (re2.compile b)) written
            ∙ back (cut m)),
      )

  prefixed_all-append :
      (ts us : List Token)
      → prefixed_all conv (ts ++ us) ≡ prefixed_all conv ts ++ prefixed_all conv us
  prefixed_all-append [] us = refl
  prefixed_all-append (t ∷ ts) us =
      ap (λ b. prefixed conv t ++ b) (prefixed_all-append ts us)
      ∙ sym (append_assoc (prefixed conv t) (prefixed_all conv ts) (prefixed_all conv us))

  -- The merged prefix pattern of the rules is the prefixed pattern of all the choices.
  prefixed-choices :
      ScanLaws re2 conv
      → (p : Pair) (ps : List Pair) (r : Re) (rs : List Re) → Written conv (p ∷ ps) (r ∷ rs)
      → alternation (map (prefixed_pattern re2 conv) (p ∷ ps))
        ≡ prefixed_all conv (tokens (choices r rs))
  prefixed-choices laws p [] r [] w =
      prefixalize-tokens re2 conv laws p.0 (tokens r) (tokens-AreTokens r) w.0
  prefixed-choices laws p [] r (q ∷ rs) w = absurd w.1
  prefixed-choices laws p (p' ∷ ps) r [] w = absurd w.1
  prefixed-choices laws p (p' ∷ ps) r (q ∷ rs) w =
      ap (λ b. b ++ b'|' ∷ alternation (map (prefixed_pattern re2 conv) (p' ∷ ps)))
        (prefixalize-tokens re2 conv laws p.0 (tokens r) (tokens-AreTokens r) w.0)
      ∙ ap (λ b. prefixed_all conv (tokens r) ++ b'|' ∷ b) (prefixed-choices laws p' ps q rs w.1)
      ∙ ap (λ b. prefixed_all conv (tokens r) ++ (b ++ prefixed_all conv (tokens (choices q rs))))
          (sym (laws.ascii_unit b'|' (omega arith)))
      ∙ sym (prefixed_all-append (tokens r) (operator b'|' ∷ tokens (choices q rs)))

  drop-prefix : (b c : Bytes) → drop (length b) (b ++ c) ≡ c
  drop-prefix [] c = refl
  drop-prefix (x ∷ b) c = drop-prefix b c

  -- A text that is not empty is not empty in UTF-8.
  utf8-nonempty : TextLaws conv → (us : Units) → IsText us → us ≢ [] → 0 < length (conv.to_utf8 us)
  utf8-nonempty laws us h ne = some_byte (conv.to_utf8 us) refl
    where
      no_bytes : conv.to_utf8 [] ≡ []
      no_bytes = nothing (conv.to_utf8 []) (laws.joins [] [] tt tt)
        where
          nothing : (b : Bytes) → b ≡ b ++ b → b ≡ []
          nothing [] e = refl
          nothing (x ∷ b) e =
              absurd (omega (arith, ap (λ (l : Bytes). length l) e, length-append (x ∷ b) (x ∷ b)))

      some_byte : (b : Bytes) → conv.to_utf8 us ≡ b → 0 < length b
      some_byte [] e = absurd (
          ne (
            sym (laws.reads_back us h)
            ∙ ap conv.to_utf16 (e ∙ sym no_bytes)
            ∙ laws.reads_back [] tt))
      some_byte (x ∷ b) e = omega arith

  -- `PredictTransform` does not give up a composition that a rule can still transform. Let the prefix
  -- regexp be what `ParseTransforms` compiles for the rules, and let RE2 read it as the tree of all
  -- their patterns with prefixed units. If the delimited text ends in `vs`, which is not empty, and
  -- some rule's pattern matches `vs` continued by `t`, then the prediction is true.
  pub predict_transform-unfinished :
      ScanLaws re2 conv
      → TextLaws conv
      → (p : Pair) (ps : List Pair) (r : Re) (rs : List Re) → Written conv (p ∷ ps) (r ∷ rs)
      → Reads true (choices r rs) (re2.compile (prefixed_all conv (tokens (choices r rs))))
      → (d : RulesData re2.Regex)
      → d.prefix_re ≡ some (re2.compile (alternation (map (prefixed_pattern re2 conv) (p ∷ ps))))
      → (str : Bytes) (transat : ℤ) (us vs t : Units) → IsText us
      → IsText vs
      → vs ≢ []
      → with_delimit str transat ≡ returns (conv.to_utf8 (us ++ vs))
      → Matches classes false (choices r rs) (vs ++ t) []
      → predict_transform re2 d str transat ≡ returns true
  predict_transform-unfinished scan text p ps r rs w reads d ed str transat us vs t hu hv ne ew m =
      let re = re2.compile (alternation (map (prefixed_pattern re2 conv) (p ∷ ps))) in
      let (b, eb, sees) =
        predict_transform-suffix re2 d re str (conv.to_utf8 (us ++ vs)) transat ed ew in
      eb ∙ ap (λ (x : Bool). returns x) (sees.1 seen)
    where
      same :
          re2.compile (prefixed_all conv (tokens (choices r rs)))
          ≡ re2.compile (alternation (map (prefixed_pattern re2 conv) (p ∷ ps)))
      same = ap re2.compile (sym (prefixed-choices scan p ps r rs w))

      split : conv.to_utf8 (us ++ vs) ≡ conv.to_utf8 us ++ conv.to_utf8 vs
      split = text.joins us vs hu hv

      seen :
          SuffixBelow re2
            (re2.compile (alternation (map (prefixed_pattern re2 conv) (p ∷ ps))))
            (conv.to_utf8 (us ++ vs))
            (length (conv.to_utf8 (us ++ vs)))
      seen = (
        length (conv.to_utf8 us),
        omega (
          arith,
          ap (λ (l : Bytes). length l) split,
          length-append (conv.to_utf8 us) (conv.to_utf8 vs),
          utf8-nonempty text vs hv ne,
        ),
        ap
              (λ (l : Bytes).
                re2.full_match (drop (length (conv.to_utf8 us)) l)
                  (re2.compile (alternation (map (prefixed_pattern re2 conv) (p ∷ ps)))))
              split
            ∙ ap
                (λ (l : Bytes).
                  re2.full_match l
                    (re2.compile (alternation (map (prefixed_pattern re2 conv) (p ∷ ps)))))
                (drop-prefix (conv.to_utf8 us) (conv.to_utf8 vs))
            ∙ ap (λ (x : re2.Regex). re2.full_match (conv.to_utf8 vs) x) (sym same)
            ∙ (reads vs hv).1 (cut_short classes (choices r rs) (vs ++ t) [] vs t refl m),
      )
