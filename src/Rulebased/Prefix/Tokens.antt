-- ===== src/Rulebased/Prefix/Tokens.antt =====
-- What `Prefixalize` does to a pattern that is written as a sequence of regexp tokens.
use chromiumos_devenv.Common.{
  ℕ, ◌+◌, ◌<◌, ◌≡◌, refl, sym, ap, ◌∙◌, true, false, List, [], ◌∷◌, ◌++◌, append_assoc, append-nil,
  none, some, Bytes, bytes_eq, bytes_eq_iff, arith, take, drop, length, length-append, ◌==◌,
  Bool-cases, inl, inr, ltb,
}
use chromiumos_devenv.Platform.Regex.{Re2}
use chromiumos_devenv.Platform.Text.{Units, Conversions}
use chromiumos_devenv.Rulebased.Prefix.{
  Scan, scan_start, slice, wrap_prefix_unit, scan_from, scan_char, prefixalize,
}
use chromiumos_devenv.Rulebased.Prefix.Grammar.{
  ScanLaws, is_operator, Member, member, quoted, Token, literal, operator, escaped, class, repeat,
  print_members, print, print_all, is_literal, is_member, is_count, AreMembers, AreCounts, IsToken,
  AreTokens, prefixed, prefixed_all,
}

drop-append : (before rest : Units) → drop (length before) (before ++ rest) ≡ rest
drop-append [] rest = refl
drop-append (x ∷ before) rest = drop-append before rest

take-append : (mid rest : Units) → take (length mid) (mid ++ rest) ≡ mid
take-append [] rest = refl
take-append (x ∷ mid) rest = ap (◌∷◌ x) (take-append mid rest)

-- The slice that the scan takes at the end of a bracket expression or a repetition.
slice-middle :
    (before mid rest : Units) (i : ℕ)
    → i + 1 ≡ length before + length mid
    → 0 < length mid
    → slice (before ++ (mid ++ rest)) (length before) i ≡ mid
slice-middle before mid rest i e h =
    rw drop-append (ap (λ n. take n (mid ++ rest)) (omega arith) ∙ take-append mid rest)

abbrev clean : Bytes → Scan
clean r = record { ret = r; escape = false; bracket = none; brace = none }

abbrev in_class : Bytes → ℕ → Scan
in_class r from = record { ret = r; escape = false; bracket = some from; brace = none }

abbrev in_repeat : Bytes → ℕ → Scan
in_repeat r from = record { ret = r; escape = false; bracket = none; brace = some from }

module _ (re2 : Re2) (conv : Conversions) (laws : ScanLaws re2 conv) where
  -- The comparison of a converted unit with an ASCII character.
  unit_test : (u b : ℕ) → b < 128 → bytes_eq (conv.to_utf8 (u ∷ [])) (b ∷ []) ≡ (u == b)
  unit_test u b h = elim (Bool-cases (ltb u 128)) [
    | inl small ↦ rw (laws.ascii_unit u (ground arith)) (unfold bytes_eq in ground arith)
    | inr big ↦ ground (arith, bytes_eq_iff (conv.to_utf8 (u ∷ [])) (b ∷ []), laws.other_unit u b)
  ]

  module _ (restr : Units) where
    scan-literal :
        (i u : ℕ) (r : Bytes)
        → is_literal u ≡ true
        → scan_char re2 conv restr i (conv.to_utf8 (u ∷ [])) (clean r)
          ≡ clean (r ++ prefixed conv (literal u))
    unfolding scan_char is_literal
    scan-literal i u r h =
        ground (arith, unit_test u b'\\', unit_test u b'[', unit_test u b'{', laws.operator_class u)

    scan-operator :
        (i u : ℕ) (r : Bytes)
        → is_operator u ≡ true
        → scan_char re2 conv restr i (conv.to_utf8 (u ∷ [])) (clean r)
          ≡ clean (r ++ prefixed conv (operator u))
    unfolding scan_char is_operator
    scan-operator i u r h =
        ground (arith, unit_test u b'\\', unit_test u b'[', unit_test u b'{', laws.operator_class u)

    scan-backslash :
        (i : ℕ) (s : Scan)
        → s.escape ≡ false
        → scan_char re2 conv restr i (conv.to_utf8 (b'\\' ∷ [])) s ≡ record s { escape = true }
    unfolding scan_char
    scan-backslash i s e = ground (arith, unit_test b'\\' b'\\')

    scan-open :
        (i : ℕ) (r : Bytes)
        → scan_char re2 conv restr i (conv.to_utf8 (b'[' ∷ [])) (clean r) ≡ in_class r i
    unfolding scan_char
    scan-open i r = ground (arith, unit_test b'[' b'\\', unit_test b'[' b'[')

    scan-open_brace :
        (i : ℕ) (r : Bytes)
        → scan_char re2 conv restr i (conv.to_utf8 (b'{' ∷ [])) (clean r) ≡ in_repeat r i
    unfolding scan_char
    scan-open_brace i r =
        ground (arith, unit_test b'{' b'\\', unit_test b'{' b'[', unit_test b'{' b'{')

    scan-member :
        (i from u : ℕ) (r : Bytes)
        → is_member u ≡ true
        → scan_char re2 conv restr i (conv.to_utf8 (u ∷ [])) (in_class r from) ≡ in_class r from
    unfolding scan_char is_member
    scan-member i from u r h =
        ground (arith, unit_test u b'\\', unit_test u b'[', unit_test u b'{', unit_test u b']')

    scan-count :
        (i from u : ℕ) (r : Bytes)
        → is_count u ≡ true
        → scan_char re2 conv restr i (conv.to_utf8 (u ∷ [])) (in_repeat r from) ≡ in_repeat r from
    unfolding scan_char is_count
    scan-count i from u r h =
        ground (arith, unit_test u b'\\', unit_test u b'[', unit_test u b'{', unit_test u b'}')

    scan-close :
        (i from : ℕ) (r : Bytes)
        → scan_char re2 conv restr i (conv.to_utf8 (b']' ∷ [])) (in_class r from)
          ≡ clean (r ++ wrap_prefix_unit (conv.to_utf8 (slice restr from i)))
    unfolding scan_char
    scan-close i from r =
        ground (
          arith,
          unit_test b']' b'\\',
          unit_test b']' b'[',
          unit_test b']' b'{',
          unit_test b']' b']',
        )

    scan-close_brace :
        (i from : ℕ) (r : Bytes)
        → scan_char re2 conv restr i (conv.to_utf8 (b'}' ∷ [])) (in_repeat r from)
          ≡ clean (r ++ conv.to_utf8 (slice restr from i))
    unfolding scan_char
    scan-close_brace i from r =
        ground (
          arith,
          unit_test b'}' b'\\',
          unit_test b'}' b'[',
          unit_test b'}' b'{',
          unit_test b'}' b'}',
        )

    abbrev scan : ℕ → Units → Scan → Scan
    scan = scan_from re2 conv restr

    scan_members :
        (ms : List Member) (i from : ℕ) (r : Bytes) (rest : Units)
        → AreMembers ms
        → scan i (print_members ms ++ rest) (in_class r from)
          ≡ scan (i + length (print_members ms)) rest (in_class r from)
    unfolding scan_from
    scan_members [] i from r rest h = ap (λ k. scan k rest (in_class r from)) (omega arith)
    scan_members (member u ∷ ms) i from r rest h =
        ap (scan (i + 1) (print_members ms ++ rest)) (scan-member i from u r h.0)
        ∙ scan_members ms (i + 1) from r rest h.1
        ∙ ap (λ k. scan k rest (in_class r from)) (omega arith)
    scan_members (quoted u ∷ ms) i from r rest h =
        ap (λ s. scan (i + 1) (u ∷ print_members ms ++ rest) s)
          (scan-backslash i (in_class r from) refl)
        ∙ ap (scan (i + 1 + 1) (print_members ms ++ rest)) (unfold scan_char in refl)
        ∙ scan_members ms (i + 1 + 1) from r rest h
        ∙ ap (λ k. scan k rest (in_class r from)) (omega arith)

    scan_counts :
        (us : Units) (i from : ℕ) (r : Bytes) (rest : Units)
        → AreCounts us
        → scan i (us ++ rest) (in_repeat r from) ≡ scan (i + length us) rest (in_repeat r from)
    unfolding scan_from
    scan_counts [] i from r rest h = ap (λ k. scan k rest (in_repeat r from)) (omega arith)
    scan_counts (u ∷ us) i from r rest h =
        ap (scan (i + 1) (us ++ rest)) (scan-count i from u r h.0)
        ∙ scan_counts us (i + 1) from r rest h.1
        ∙ ap (λ k. scan k rest (in_repeat r from)) (omega arith)

    goes_on :
        (i j : ℕ) (a b : Bytes) (rest : Units)
        → i ≡ j
        → a ≡ b
        → scan i rest (clean a) ≡ scan j rest (clean b)
    goes_on i j a b rest e f = ap (λ n. scan n rest (clean a)) e ∙ ap (λ x. scan j rest (clean x)) f

    slice-token :
        (before mid rest : Units) (i j : ℕ)
        → restr ≡ before ++ (mid ++ rest)
        → i ≡ length before
        → j + 1 ≡ length before + length mid
        → 0 < length mid
        → slice restr i j ≡ mid
    slice-token before mid rest i j e at h pos = rw (e, at) (slice-middle before mid rest j h pos)

    -- One token, anywhere in the pattern.
    scan_token :
        (t : Token) (before rest : Units) (i : ℕ) (r : Bytes)
        → restr ≡ before ++ (print t ++ rest)
        → i ≡ length before
        → IsToken t
        → scan i (print t ++ rest) (clean r)
          ≡ scan (i + length (print t)) rest (clean (r ++ prefixed conv t))
    unfolding scan_from
    scan_token (literal u) before rest i r e at h = ap (scan (i + 1) rest) (scan-literal i u r h)
    scan_token (operator u) before rest i r e at h = ap (scan (i + 1) rest) (scan-operator i u r h)
    scan_token (escaped u) before rest i r e at h =
        ap (scan (i + 1) (u ∷ rest)) (scan-backslash i (clean r) refl)
        ∙ goes_on (i + 1 + 1) (i + 2) (r ++ prefixed conv (escaped u))
            (r ++ prefixed conv (escaped u)) rest (omega arith) refl
    scan_token (class ms) before rest i r e at h =
        let body = print_members ms in
        let j = i + 1 + length body in
        ap (scan (i + 1) ((body ++ b']' ∷ []) ++ rest)) (scan-open i r)
        ∙ ap (λ us. scan (i + 1) us (in_class r i)) (append_assoc body (b']' ∷ []) rest)
        ∙ scan_members ms (i + 1) i r (b']' ∷ rest) h
        ∙ ap (scan (j + 1) rest) (scan-close j i r)
        ∙ goes_on (j + 1) (i + length (print (class ms))) _ _ rest
            (omega (arith, length-append body (b']' ∷ [])))
            (ap (λ us. r ++ wrap_prefix_unit (conv.to_utf8 us))
              (slice-token before (print (class ms)) rest i j e at
                (omega (arith, length-append body (b']' ∷ []))) (omega arith)))
    scan_token (repeat us) before rest i r e at h =
        let j = i + 1 + length us in
        ap (scan (i + 1) ((us ++ b'}' ∷ []) ++ rest)) (scan-open_brace i r)
        ∙ ap (λ vs. scan (i + 1) vs (in_repeat r i)) (append_assoc us (b'}' ∷ []) rest)
        ∙ scan_counts us (i + 1) i r (b'}' ∷ rest) h
        ∙ ap (scan (j + 1) rest) (scan-close_brace j i r)
        ∙ goes_on (j + 1) (i + length (print (repeat us))) _ _ rest
            (omega (arith, length-append us (b'}' ∷ [])))
            (ap (λ vs. r ++ conv.to_utf8 vs)
              (slice-token before (print (repeat us)) rest i j e at
                (omega (arith, length-append us (b'}' ∷ []))) (omega arith)))

    scan_tokens :
        (ts : List Token) (before : Units) (i : ℕ) (r : Bytes)
        → restr ≡ before ++ print_all ts
        → i ≡ length before
        → AreTokens ts
        → (scan i (print_all ts) (clean r)).ret ≡ r ++ prefixed_all conv ts
    unfolding scan_from
    scan_tokens [] before i r e at h = sym (append-nil r)
    scan_tokens (t ∷ ts) before i r e at h =
        ap (λ s. s.ret) (scan_token t before (print_all ts) i r e at h.0)
        ∙ scan_tokens ts (before ++ print t) (i + length (print t)) (r ++ prefixed conv t)
            (e ∙ sym (append_assoc before (print t) (print_all ts)))
            (omega (arith, length-append before (print t))) h.1
        ∙ append_assoc r (prefixed conv t) (prefixed_all conv ts)

  -- Let RE2 and the conversions keep `ScanLaws`. A pattern that is a sequence of tokens is
  -- prefixalized token by token: every bracket expression as a whole, every escape, and every other
  -- character but the operators `+*?.()|`, so `^` and `$` too, is wrapped as `(?:…|$)`; the operators
  -- and the counted repetitions are copied in place, an operator behind a group staying behind the
  -- whole group.
  pub prefixalize-tokens :
      (re_str : Bytes) (ts : List Token)
      → AreTokens ts
      → conv.to_utf16 re_str ≡ print_all ts
      → prefixalize re2 conv re_str ≡ prefixed_all conv ts
  unfolding prefixalize
  prefixalize-tokens re_str ts h e =
      ap (λ us. (scan_from re2 conv us 0 us scan_start).ret) e
      ∙ scan_tokens (print_all ts) ts [] 0 [] refl refl h
