-- ===== src/Rulebased/Regexp/Prefixes.antt =====
-- The prefixed pattern matches exactly the prefixes of what the pattern matches.
use chromiumos_devenv.Common.{
  ℕ, ◌≡◌, ◌⊎◌, inl, inr, refl, sym, ◌∙◌, true, false, [], ◌∷◌, ◌++◌, append-nil,
}
use chromiumos_devenv.Platform.Text.{Units}
use chromiumos_devenv.Rulebased.Regexp.{
  Re, unit, group, star, plus, opt, empty, seq, alt, Classes, Star, done, more, Matches,
}

-- Where a cut of `x ++ y` falls: into `y`, or into `x`.
abbrev Cut : Units → Units → Units → Units → Type 0
Cut x y p q =
    ((p' : Units) × (p ≡ x ++ p') × (y ≡ p' ++ q)) ⊎ ((q' : Units) × (x ≡ p ++ q') × (q ≡ q' ++ y))

cut : (x y p q : Units) → x ++ y ≡ p ++ q → Cut x y p q
cut [] y p q e = inl (p, refl, e)
cut (a ∷ x) y [] q e = inr (a ∷ x, refl, sym e)
cut (a ∷ x) y (b ∷ p) q e = elim (cut x y p q (cc e)) [
  | inl (p', ep, ey) ↦ inl (p', cc (e, ep), ey)
  | inr (q', ex, eq) ↦ inr (q', cc (e, ex), eq)
]

pub Star-map :
    {R Q : Units → Units → Type 0} {rest rest' s : Units}
    → ((x v w : Units) → R x v → Q x w)
    → Star R rest s
    → Star Q rest' s
Star-map f (done e) = done e
Star-map {rest = rest} {rest' = rest'} f (more x y e r st) =
    more x y e (f x (y ++ rest) (y ++ rest') r) (Star-map f st)

no_more : (p q : Units) → p ++ q ≡ [] → p ≡ []
no_more [] q e = refl
no_more (x ∷ p) q e = cc

-- A cut run of repeated matches.
Star-cut :
    {R Q : Units → Units → Type 0} {rest : Units}
    → ((x v w : Units) → R x v → Q x w)
    → ((x v p q : Units) → x ≡ p ++ q → R x v → Q p [])
    → (s p q : Units) → s ≡ p ++ q
    → Star R rest s
    → Star Q [] p
Star-cut f g s p q e (done es) = done (no_more p q (sym e ∙ es))
Star-cut {rest = rest} f g s p q e (more x y es r st) = elim (cut x y p q (sym es ∙ e)) [
  | inl (p', ep, ey) ↦ more x p' ep (f x (y ++ rest) (p' ++ []) r) (Star-cut f g y p' q ey st)
  | inr (q', ex, eq) ↦ more p [] (sym (append-nil p)) (g x (y ++ rest) p q' ex r) (done refl)
]

one_cut : (u : ℕ) (p q : Units) → u ∷ [] ≡ p ++ q → (p ≡ u ∷ []) ⊎ (p ≡ [])
one_cut u [] q e = inr refl
one_cut u (x ∷ []) q e = inl (cc e)
one_cut u (x ∷ y ∷ p) q e = cc

module _ (classes : Classes) where
  -- What the pattern matches, the prefixed pattern matches, whatever follows.
  embed :
      (r : Re) (s rest rest' : Units)
      → Matches classes false r s rest
      → Matches classes true r s rest'
  embed (unit t h) s rest rest' (inl m) = inl m
  embed (unit t h) s rest rest' (inr (f, es, er)) = cc
  embed (group r) s rest rest' m = embed r s rest rest' m
  embed (star r) s rest rest' m = Star-map (embed r) m
  embed (plus r) s rest rest' (x, y, e, m, st) =
      (x, y, e, embed r x (y ++ rest) (y ++ rest') m, Star-map (embed r) st)
  embed (opt r) s rest rest' (inl e) = inl e
  embed (opt r) s rest rest' (inr m) = inr (embed r s rest rest' m)
  embed empty s rest rest' e = e
  embed (seq r q) s rest rest' (x, y, e, m, n) =
      (x, y, e, embed r x (y ++ rest) (y ++ rest') m, embed q y rest rest' n)
  embed (alt r q) s rest rest' (inl m) = inl (embed r s rest rest' m)
  embed (alt r q) s rest rest' (inr m) = inr (embed q s rest rest' m)

  -- Every prefix of what the pattern matches is matched by the prefixed pattern at the end.
  pub cut_short :
      (r : Re) (s rest p q : Units)
      → s ≡ p ++ q
      → Matches classes false r s rest
      → Matches classes true r p []
  cut_short (unit t h) s rest p q e (inl (u, es, m)) = elim (one_cut u p q (sym es ∙ e)) [
    | inl ep ↦ inl (u, ep, m)
    | inr ep ↦ inr (refl, ep, refl)
  ]
  cut_short (unit t h) s rest p q e (inr (f, es, er)) = cc
  cut_short (group r) s rest p q e m = cut_short r s rest p q e m
  cut_short (star r) s rest p q e m =
      Star-cut (embed r) (λ x v p' q' ex mx. cut_short r x v p' q' ex mx) s p q e m
  cut_short (plus r) s rest p q e (x, y, es, m, st) = elim (cut x y p q (sym es ∙ e)) [
    | inl (p', ep, ey) ↦ (
      x,
      p',
      ep,
      embed r x (y ++ rest) (p' ++ []) m,
      Star-cut (embed r) (λ x' v p'' q' ex mx. cut_short r x' v p'' q' ex mx) y p' q ey st,
    )
    | inr (q', ex, eq) ↦ (p, [], sym (append-nil p), cut_short r x (y ++ rest) p q' ex m, done refl)
  ]
  cut_short (opt r) s rest p q e (inl es) = inl (no_more p q (sym e ∙ es))
  cut_short (opt r) s rest p q e (inr m) = inr (cut_short r s rest p q e m)
  cut_short empty s rest p q e es = no_more p q (sym e ∙ es)
  cut_short (seq r q) s rest p z e (x, y, es, m, n) = elim (cut x y p z (sym es ∙ e)) [
    | inl (p', ep, ey) ↦
        (x, p', ep, embed r x (y ++ rest) (p' ++ []) m, cut_short q y rest p' z ey n)
    | inr (q', ex, eq) ↦ (
      p,
      [],
      sym (append-nil p),
      cut_short r x (y ++ rest) p q' ex m,
      cut_short q y rest [] y refl n,
    )
  ]
  cut_short (alt r q) s rest p z e (inl m) = inl (cut_short r s rest p z e m)
  cut_short (alt r q) s rest p z e (inr m) = inr (cut_short q s rest p z e m)
