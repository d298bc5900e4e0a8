-- ===== src/Rulebased/Regexp/Finishes.antt =====
-- What the prefixed pattern matches at the end of a text can be continued to a match, and so the
-- prefixed pattern matches exactly the prefixes.
use chromiumos_devenv.Common.{
  ◌≡◌, ◌≢◌, ◌⊎◌, inl, inr, ◌↔◌, refl, sym, ap, ◌∙◌, subst, true, false, [], ◌∷◌, ◌++◌, append_assoc,
  append-nil,
}
use chromiumos_devenv.Platform.Text.{Units}
use chromiumos_devenv.Rulebased.Regexp.{
  Re, unit, group, star, plus, opt, empty, seq, alt, Classes, Star, done, more, Matches, Inhabited,
}
use chromiumos_devenv.Rulebased.Regexp.Prefixes.{cut_short, Star-map}

longer : (y rest : Units) → rest ≢ [] → y ++ rest ≢ []
longer [] rest ne = ne
longer (x ∷ y) rest ne = λ e. cc

-- A star of one relation is a star of another, if the matches in it can be changed where some text
-- follows.
Star-before_end :
    {R Q : Units → Units → Type 0} {rest rest' s : Units}
    → ((x v w : Units) → v ≢ [] → R x v → Q x w)
    → rest ≢ []
    → Star R rest s
    → Star Q rest' s
Star-before_end f ne (done e) = done e
Star-before_end {rest = rest} {rest' = rest'} f ne (more x y e m st) =
    more x y e (f x (y ++ rest) (y ++ rest') (longer y rest ne) m) (Star-before_end f ne st)

is_ended : (y : Units) → (y ≡ []) ⊎ (y ++ [] ≢ [])
is_ended [] = inl refl
is_ended (x ∷ y) = inr (λ e. cc)

-- The end of a text, moved behind what is added to it.
moved : (s x y t : Units) → s ≡ x ++ y → y ≡ [] → s ++ t ≡ (x ++ t) ++ []
moved s x y t e ey =
    ap (λ z. z ++ t) (e ∙ ap (λ z. x ++ z) ey ∙ append-nil x) ∙ sym (append-nil (x ++ t))

-- A run of repeated matches that ends at the end of the text can be finished.
Star-finish :
    {R Q : Units → Units → Type 0}
    → ((x v w : Units) → v ≢ [] → R x v → Q x w)
    → ((x : Units) → R x [] → (t : Units) × Q (x ++ t) [])
    → ((x v w : Units) → Q x v → Q x w)
    → {s : Units} → Star R [] s
    → (t : Units) × Star Q [] (s ++ t)
Star-finish f g k (done e) = ([], done (append-nil _ ∙ e))
Star-finish {R = R} {Q = Q} f g k {s} (more x y e m st) = elim (is_ended y) [
  | inl ey ↦
      let (t, n) = g x (subst (R x) (append-nil y ∙ ey) m) in
      (t, more (x ++ t) [] (moved s x y t e ey) n (done refl))
  | inr ne ↦
      let (t, n) = Star-finish f g k st in
      (
        t,
        more x (y ++ t) (ap (λ z. z ++ t) e ∙ append_assoc x y t)
            (f x (y ++ []) ((y ++ t) ++ []) ne m) n,
      )
]

module _ (classes : Classes) where
  -- Before the end of the text the prefixed pattern matches what the pattern does.
  before_end :
      (r : Re) (s rest rest' : Units)
      → rest ≢ []
      → Matches classes true r s rest
      → Matches classes false r s rest'
  before_end (unit t h) s rest rest' ne (inl m) = inl m
  before_end (unit t h) s rest rest' ne (inr (f, es, er)) = absurd (ne er)
  before_end (group r) s rest rest' ne m = before_end r s rest rest' ne m
  before_end (star r) s rest rest' ne m = Star-before_end (before_end r) ne m
  before_end (plus r) s rest rest' ne (x, y, e, m, st) = (
    x,
    y,
    e,
    before_end r x (y ++ rest) (y ++ rest') (longer y rest ne) m,
    Star-before_end (before_end r) ne st,
  )
  before_end (opt r) s rest rest' ne (inl e) = inl e
  before_end (opt r) s rest rest' ne (inr m) = inr (before_end r s rest rest' ne m)
  before_end empty s rest rest' ne e = e
  before_end (seq r q) s rest rest' ne (x, y, e, m, n) = (
    x,
    y,
    e,
    before_end r x (y ++ rest) (y ++ rest') (longer y rest ne) m,
    before_end q y rest rest' ne n,
  )
  before_end (alt r q) s rest rest' ne (inl m) = inl (before_end r s rest rest' ne m)
  before_end (alt r q) s rest rest' ne (inr m) = inr (before_end q s rest rest' ne m)

  -- A pattern does not look at what follows.
  any_rest :
      (r : Re) (s rest rest' : Units)
      → Matches classes false r s rest
      → Matches classes false r s rest'
  any_rest (unit t h) s rest rest' (inl m) = inl m
  any_rest (unit t h) s rest rest' (inr (f, es, er)) = cc
  any_rest (group r) s rest rest' m = any_rest r s rest rest' m
  any_rest (star r) s rest rest' m = Star-map (any_rest r) m
  any_rest (plus r) s rest rest' (x, y, e, m, st) =
      (x, y, e, any_rest r x (y ++ rest) (y ++ rest') m, Star-map (any_rest r) st)
  any_rest (opt r) s rest rest' (inl e) = inl e
  any_rest (opt r) s rest rest' (inr m) = inr (any_rest r s rest rest' m)
  any_rest empty s rest rest' e = e
  any_rest (seq r q) s rest rest' (x, y, e, m, n) =
      (x, y, e, any_rest r x (y ++ rest) (y ++ rest') m, any_rest q y rest rest' n)
  any_rest (alt r q) s rest rest' (inl m) = inl (any_rest r s rest rest' m)
  any_rest (alt r q) s rest rest' (inr m) = inr (any_rest q s rest rest' m)

  -- What the prefixed pattern matches at the end of a text can be finished to a match.
  finish :
      (r : Re) (s : Units)
      → Inhabited classes r
      → Matches classes true r s []
      → (t : Units) × Matches classes false r (s ++ t) []
  finish (unit t h) s i (inl (u, es, m)) = ([], inl (u, append-nil s ∙ es, m))
  finish (unit t h) s (u, m) (inr (f, es, er)) = (u ∷ [], inl (u, ap (λ z. z ++ u ∷ []) es, m))
  finish (group r) s i m = finish r s i m
  finish (star r) s i m = Star-finish (before_end r) (λ x n. finish r x i n) (any_rest r) m
  finish (plus r) s i (x, y, e, m, st) = elim (is_ended y) [
    | inl ey ↦
        let (t, n) = finish r x i (subst (Matches classes true r x) (append-nil y ∙ ey) m) in
        (t, (x ++ t, [], moved s x y t e ey, n, done refl))
    | inr ne ↦
        let (t, n) = Star-finish (before_end r) (λ z k. finish r z i k) (any_rest r) st in
        (
          t,
          (
            x,
            y ++ t,
            ap (λ z. z ++ t) e ∙ append_assoc x y t,
            before_end r x (y ++ []) ((y ++ t) ++ []) ne m,
            n,
          ),
        )
  ]
  finish (opt r) s i (inl e) = ([], inl (append-nil s ∙ e))
  finish (opt r) s i (inr m) = let (t, n) = finish r s i m in (t, inr n)
  finish empty s i e = ([], append-nil s ∙ e)
  finish (seq r q) s (i, j) (x, y, e, m, n) = elim (is_ended y) [
    | inl ey ↦
        let (t, k) = finish r x i (subst (Matches classes true r x) (append-nil y ∙ ey) m) in
        let (v, l) = finish q [] j (subst (λ z. Matches classes true q z []) ey n) in
        (
          t ++ v,
          (
            x ++ t,
            v,
            ap (λ z. z ++ (t ++ v)) (e ∙ ap (λ z. x ++ z) ey ∙ append-nil x)
                ∙ sym (append_assoc x t v),
            any_rest r (x ++ t) [] (v ++ []) k,
            l,
          ),
        )
    | inr ne ↦
        let (t, l) = finish q y j n in
        (
          t,
          (
            x,
            y ++ t,
            ap (λ z. z ++ t) e ∙ append_assoc x y t,
            before_end r x (y ++ []) ((y ++ t) ++ []) ne m,
            l,
          ),
        )
  ]
  finish (alt r q) s (i, j) (inl m) = let (t, n) = finish r s i m in (t, inl n)
  finish (alt r q) s (i, j) (inr m) = let (t, n) = finish q s j m in (t, inr n)

  -- If every unit of the pattern stands for some character, then the prefixed pattern, in which each
  -- unit may also meet the end, matches exactly the texts that can be continued to a match of the
  -- pattern.
  pub Matches-prefixed_iff :
      (r : Re) (s : Units)
      → Inhabited classes r
      → Matches classes true r s [] ↔ ((t : Units) × Matches classes false r (s ++ t) [])
  Matches-prefixed_iff r s i = (finish r s i, λ (t, m). cut_short classes r (s ++ t) [] s t refl m)
