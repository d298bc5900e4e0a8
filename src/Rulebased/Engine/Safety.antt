-- ===== src/Rulebased/Engine/Safety.antt =====
-- The engine's invariant, and that no call of the engine faults: no `substr` is out of range and no
-- null pointer is dereferenced.
use chromiumos_devenv.Common.{
  ℕ, zero, suc, ◌-◌, ◌≤◌, ◌≡◌, refl, ◌∙◌, true, false, List, [], ◌∷◌, ◌++◌, Option, none, some,
  Bytes, arith, length, length-append, take, drop, is_empty, ltb, if◌then◌else◌, Bool-cases,
  Option-cases, inl, inr, init, Outcome, returns,
}
use chromiumos_devenv.Common.Int.{ℤ, pos, negsuc, AtMost}
use chromiumos_devenv.Platform.Regex.{Re2, Group, MatchLaws, submatches}
use chromiumos_devenv.Platform.Text.{Conversions}
use chromiumos_devenv.Rulebased.Rules.{TransformRule}
use chromiumos_devenv.Rulebased.RulesData.{
  RulesData, transat_delimit, with_delimit, in_appended, apply_rule, on_match, match_rules,
  transform, predict_transform, has_transform, try_suffixes, rewrite,
}
use chromiumos_devenv.Rulebased.RulesData.Building.{IsWellFormed}
use chromiumos_devenv.Rulebased.RulesData.Matching.{transform-match_rules}
use chromiumos_devenv.Rulebased.Engine.{
  Engine, reset, clip, change_state, process_backspace, match_key, update_history, may_go_on,
}

-- The call returns.
abbrev pub Total {ℓ} : {A : Type ℓ} → Outcome A → Type ℓ
Total {A} m = (a : A) × (m ≡ returns a)

with_delimit-Total : (s : Bytes) (z : ℤ) → AtMost (length s) z → Total (with_delimit s z)
unfolding with_delimit
with_delimit-Total s (negsuc n) h = (s, refl)
with_delimit-Total s (pos zero) h = (s, refl)
with_delimit-Total s (pos (suc n)) h =
    (take (suc n) s ++ transat_delimit ∷ drop (suc n) s, ground arith)

module _ (re2 : Re2) (laws : MatchLaws re2) where
  in_appended-Total :
      (re : re2.Regex) (n : ℕ) (str appended : Bytes)
      → 1 ≤ n
      → Total (in_appended re2 re n str appended)
  unfolding in_appended
  in_appended-Total re zero str appended h = absurd (omega arith)
  in_appended-Total re (suc n) str appended h = elim (Option-cases (re2.groups re str)) [
    | inl e ↦ (false, rw (e, in_appended) refl)
    | inr (gs, e) ↦
        let (start, size, rest, g) = laws.whole_match re str gs e in
        (ltb (length str - length appended) start, rw (e, g, in_appended) refl)
  ]

  apply_rule-Total :
      (d : RulesData re2.Regex) (rule : Option (TransformRule re2.Regex)) (n : ℕ)
      (str appended : Bytes)
      → 1 ≤ n
      → Total (apply_rule re2 d rule n str appended)
  unfolding apply_rule
  apply_rule-Total d none n str appended h = (none, refl)
  apply_rule-Total d (some rule) n str appended h =
      let (middle, e) = in_appended-Total rule.re n str appended h in
      (if middle then none else some (rewrite re2 rule str), rw e refl)

  on_match-Total :
      (d : RulesData re2.Regex) (found : Option (List Group)) (n : ℕ) (str appended : Bytes)
      → 1 ≤ n
      → Total (on_match re2 d found n str appended)
  unfolding on_match
  on_match-Total d none n str appended h = (none, refl)
  on_match-Total d (some gs) n str appended h = apply_rule-Total d _ n str appended h

  -- `Transform` returns wherever the layout has transforms.
  pub transform-Total :
      (d : RulesData re2.Regex) (merged : re2.Regex) (context appended : Bytes) (z : ℤ)
      → d.transform_re_merged ≡ some merged
      → 1 ≤ re2.number_of_capturing_groups merged
      → AtMost (length context) z
      → Total (transform re2 d context z appended)
  unfolding match_rules
  transform-Total d merged context appended z em h at =
      let (s, w) = with_delimit-Total context z at in
      let (r, e) =
        on_match-Total d
          (submatches (re2.number_of_capturing_groups merged) (re2.groups merged (s ++ appended)))
          (re2.number_of_capturing_groups merged) (s ++ appended) appended h in
      (r, transform-match_rules re2 d merged context appended s z em w ∙ e)

  predict-Total :
      (d : RulesData re2.Regex) (str : Bytes) (z : ℤ)
      → AtMost (length str) z
      → Total (predict_transform re2 d str z)
  unfolding predict_transform
  predict-Total d str z h = elim (Option-cases d.prefix_re) [
    | inl e ↦ (false, rw e refl)
    | inr (re, e) ↦
        let (s, w) = with_delimit-Total str z h in
        (try_suffixes re2 re s (length s) 0, rw (e, w) refl)
  ]

abbrev pub NoTransform : {R : Type 0} → Option (RulesData R) → Type 0
NoTransform none = Unit {0}
NoTransform (some d) = d.transform_re_merged ≡ none

abbrev pub DataOk : (re2 : Re2) → Option (RulesData re2.Regex) → Type 0
DataOk re2 none = Unit {0}
DataOk re2 (some d) = IsWellFormed re2 d

-- The invariant of the engine: both positions lie in their texts, the layout is well formed, and a
-- layout without transforms leaves nothing to compose.
pub record Inv (re2 : Re2) (e : Engine re2.Regex) : Type 0 where
  pub data_ok : DataOk re2 e.current_data
  pub in_range : AtMost (length e.context) e.transat
  pub history_in_range : AtMost (length e.history_context) e.history_transat
  pub idle : NoTransform e.current_data → e.context ≡ []

pub reset-data : {R : Type 0} (e : Engine R) → (reset e).current_data ≡ e.current_data
unfolding reset
reset-data e = refl

pub reset-context : {R : Type 0} (e : Engine R) → (reset e).context ≡ []
unfolding reset
reset-context e = refl

module _ (re2 : Re2) where
  pub has_transform-none :
      (d : RulesData re2.Regex) → d.transform_re_merged ≡ none → has_transform re2 d ≡ false
  unfolding has_transform
  has_transform-none d e = rw e refl

  pub has_transform-some :
      (d : RulesData re2.Regex) (merged : re2.Regex)
      → d.transform_re_merged ≡ some merged
      → has_transform re2 d ≡ true
  unfolding has_transform
  has_transform-some d merged e = rw e refl

-- The positions only.
pub record InRange (re2 : Re2) (e : Engine re2.Regex) : Type 0 where
  pub now : AtMost (length e.context) e.transat
  pub history : AtMost (length e.history_context) e.history_transat

module _ (re2 : Re2) where
  pub reset-InRange : (e : Engine re2.Regex) → InRange re2 (reset e)
  unfolding reset
  reset-InRange e = record { now = tt; history = tt }

  pub update_history-InRange :
      (d : RulesData re2.Regex) (e : Engine re2.Regex) (key_char : Bytes)
      → InRange re2 e
      → InRange re2 (update_history re2 d e key_char)
  unfolding update_history
  update_history-InRange d e key_char v = ground arith

  AtMost-more : (z : ℤ) (m n : ℕ) → m ≤ n → AtMost m z → AtMost n z
  AtMost-more (pos k) m n h a = omega arith
  AtMost-more (negsuc k) m n h a = tt

  pub change_state-InRange :
      (o : Option Bytes) (e : Engine re2.Regex) (key_char : Bytes)
      → InRange re2 e
      → InRange re2 (change_state o key_char e)
  unfolding change_state
  change_state-InRange (some c) e key_char v = record { now = omega arith; history = v.history }
  change_state-InRange none e key_char v = record {
    now =
        AtMost-more e.transat (length e.context) (length (e.context ++ key_char))
          (omega (arith, length-append e.context key_char)) v.now;
    history = v.history;
  }

  pub clip-AtMost : (z : ℤ) (n : ℕ) → AtMost n (clip z n)
  unfolding clip
  clip-AtMost (pos k) n = ground arith
  clip-AtMost (negsuc k) n = tt

  pub process_backspace-InRange :
      (conv : Conversions) (e : Engine re2.Regex)
      → InRange re2 e
      → InRange re2 (process_backspace re2 conv e).1
  unfolding process_backspace
  process_backspace-InRange conv e v =
      ground (arith, clip-AtMost e.transat (length (conv.to_utf8 (init (conv.to_utf16 e.context)))))

module _ (re2 : Re2) (laws : MatchLaws re2) (d : RulesData re2.Regex) where
  pub match_key-Total :
      (merged : re2.Regex) (e : Engine re2.Regex) (key_char : Bytes)
      → d.transform_re_merged ≡ some merged
      → 1 ≤ re2.number_of_capturing_groups merged
      → InRange re2 e
      → Total (match_key re2 d e key_char)
  unfolding match_key
  match_key-Total merged e key_char em h v =
      let now = transform-Total re2 laws d merged e.context key_char e.transat em h v.now in
      let past =
        transform-Total re2 laws d merged e.history_context (e.history_ambi ++ key_char)
          e.history_transat em h v.history in
      elim (Bool-cases (is_empty e.history_ambi)) [
        | inl fresh ↦ (now.0, rw fresh now.1)
        | inr kept ↦ elim (Option-cases past.0) [
          | inl miss ↦ (now.0, rw (kept, past.1, miss) now.1)
          | inr (t, hit) ↦ (some t, rw (kept, past.1, hit) refl)
        ]
      ]

  pub may_go_on-Total : (e : Engine re2.Regex) → InRange re2 e → Total (may_go_on re2 d e)
  unfolding may_go_on
  may_go_on-Total e v =
      let now = predict-Total re2 laws d e.context e.transat v.now in
      let past = predict-Total re2 laws d (e.history_context ++ e.history_ambi) e.history_transat (
        AtMost-more re2 e.history_transat (length e.history_context)
          (length (e.history_context ++ e.history_ambi))
          (omega (arith, length-append e.history_context e.history_ambi)) v.history) in
      elim (Bool-cases now.0) [
        | inl yes' ↦ elim (Bool-cases (is_empty e.history_ambi)) [
          | inl fresh ↦ (true, rw (now.1, yes', fresh) refl)
          | inr kept ↦ (past.0, rw (now.1, yes', kept) past.1)
        ]
        | inr no' ↦ (false, rw (now.1, no') refl)
      ]
