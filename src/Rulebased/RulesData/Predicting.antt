-- ===== src/Rulebased/RulesData/Predicting.antt =====
-- `PredictTransform` looks at every suffix of the text, the text itself included.
use chromiumos_devenv.Common.{
  ℕ, zero, suc, ◌+◌, ◌-◌, ◌<◌, ◌≡◌, ◌≢◌, refl, ap, ◌↔◌, Bool, true, false, some, Bytes, arith,
  length, drop, Bool-cases, inl, inr, returns,
}
use chromiumos_devenv.Common.Int.{ℤ}
use chromiumos_devenv.Platform.Regex.{Re2}
use chromiumos_devenv.Rulebased.RulesData.{RulesData, with_delimit, try_suffixes, predict_transform}

module _ (re2 : Re2) (re : re2.Regex) (s : Bytes) where
  -- Some suffix of `s` that starts before byte `n` is matched in full.
  abbrev pub SuffixBelow : ℕ → Type 0
  SuffixBelow n = (k : ℕ) × (k < n) × (re2.full_match (drop k s) re ≡ true)

  try_suffixes_sound :
      (n i : ℕ) → n + i ≡ length s → try_suffixes re2 re s n i ≡ true → SuffixBelow n
  unfolding try_suffixes
  try_suffixes_sound zero i e h = cc
  try_suffixes_sound (suc n) i e h =
      elim (Bool-cases (re2.full_match (drop (length s - i - 1) s) re)) [
        | inl hit ↦ (length s - i - 1, omega arith, hit)
        | inr miss ↦
            let (k, lt, m) = try_suffixes_sound n (i + 1) (omega arith) (rw miss at h) in
            (k, omega arith, m)
      ]

  -- A suffix that is matched is not the one that is not.
  earlier :
      (n i k : ℕ)
      → suc n + i ≡ length s
      → k < suc n
      → re2.full_match (drop (length s - i - 1) s) re ≡ false
      → re2.full_match (drop k s) re ≡ true
      → k < n
  earlier n i k e lt miss m = omega (arith, ne)
    where
      at : k ≡ n → length s - i - 1 ≡ k
      at q = omega arith

      ne : k ≢ n
      ne q = cc (ap (λ (j : ℕ). re2.full_match (drop j s) re) (at q))

  try_suffixes_complete :
      (n i : ℕ) → n + i ≡ length s → SuffixBelow n → try_suffixes re2 re s n i ≡ true
  unfolding try_suffixes
  try_suffixes_complete zero i e (k, lt, m) = absurd (omega arith)
  try_suffixes_complete (suc n) i e (k, lt, m) =
      elim (Bool-cases (re2.full_match (drop (length s - i - 1) s) re)) [
        | inl hit ↦ rw hit refl
        | inr miss ↦
            rw miss
              (try_suffixes_complete n (i + 1) (omega arith) (k, earlier n i k e lt miss m, m))
      ]

  try_suffixes_iff : (try_suffixes re2 re s (length s) 0 ≡ true) ↔ SuffixBelow (length s)
  try_suffixes_iff = (
    try_suffixes_sound (length s) 0 (omega arith),
    try_suffixes_complete (length s) 0 (omega arith),
  )

-- For a text that the transat delimiter can be put into, and a prefix regexp, the prediction
-- returns, and it is true exactly when some suffix of the delimited text that is not empty, down to
-- its last byte, is matched in full by the prefix regexp.
pub predict_transform-suffix :
    (re2 : Re2) (d : RulesData re2.Regex) (re : re2.Regex) (str s : Bytes) (transat : ℤ)
    → d.prefix_re ≡ some re
    → with_delimit str transat ≡ returns s
    → (b : Bool) × (predict_transform re2 d str transat ≡ returns b)
      × ((b ≡ true) ↔ SuffixBelow re2 re s (length s))
unfolding predict_transform
predict_transform-suffix re2 d re str s transat e w =
    (try_suffixes re2 re s (length s) 0, rw (e, w) refl, try_suffixes_iff re2 re s)
