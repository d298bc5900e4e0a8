-- ===== src/Rulebased/Engine/Effects.antt =====
-- What each call of `ProcessKey` does to the engine, and that it returns and keeps the invariant.
use chromiumos_devenv.Common.{
  ℕ, zero, suc, ◌≤◌, ◌<◌, ◌≡◌, ◌≢◌, refl, sym, ap, ◌∙◌, subst, Bool, true, false, not, ◌&&◌, List,
  [], ◌∷◌, Option, none, some, Bytes, arith, length, get_elem?, is_empty, ltb, Bool-cases,
  Option-cases, inl, inr, Outcome, returns,
}
use chromiumos_devenv.Platform.DomCode.{DomCode, code_eq, backspace}
use chromiumos_devenv.Platform.Regex.{Re2, MatchLaws}
use chromiumos_devenv.Platform.Text.{Conversions}
use chromiumos_devenv.Rulebased.KeyMap.{KeyMap, find}
use chromiumos_devenv.Rulebased.RulesData.{RulesData, get_key_map_by_modifiers}
use chromiumos_devenv.Rulebased.RulesData.Building.{IsWellFormed, HasGroup}
use chromiumos_devenv.Rulebased.Engine.{
  ProcessKeyResult, Engine, reset, fall_back, change_state, process_backspace, update_history,
  finish_key, transform_key, on_key, with_data, process_key,
}
use chromiumos_devenv.Rulebased.Engine.Safety.{
  Inv, InRange, NoTransform, DataOk, match_key-Total, may_go_on-Total, change_state-InRange,
  update_history-InRange, process_backspace-InRange, reset-InRange, has_transform-none,
  has_transform-some, reset-data, reset-context,
}

-- What a key does to the engine: it goes on composing, it ends the composition and resets the
-- state, or it passes its text through and changes nothing.
pub data KeyEffect {R : Type 0} (e : Engine R) (res : ProcessKeyResult) (e' : Engine R)
    : Type 0 where
  composes :
      res.key_handled ≡ true
      → res.commit_text ≡ []
      → res.composition_text ≡ e'.context
      → e'.current_data ≡ e.current_data
      → ¬ NoTransform e.current_data
      → KeyEffect e res e'
  flushes :
      res.composition_text ≡ []
      → (res.key_handled ≡ false → res.commit_text ≡ e.context)
      → e' ≡ reset e
      → KeyEffect e res e'
  passes :
      res.key_handled ≡ true
      → res.composition_text ≡ []
      → NoTransform e.current_data
      → e' ≡ e
      → KeyEffect e res e'

module _ (re2 : Re2) (laws : MatchLaws re2) (d : RulesData re2.Regex) where
  finish_key-effect :
      (e e' : Engine re2.Regex) (go_on : Bool)
      → e'.current_data ≡ e.current_data
      → ¬ NoTransform e.current_data
      → reset e' ≡ reset e
      → InRange re2 e'
      → KeyEffect e (finish_key re2 d e' go_on).0 (finish_key re2 d e' go_on).1
        × InRange re2 (finish_key re2 d e' go_on).1
  unfolding finish_key
  finish_key-effect e e' true same has cleared v = (composes refl refl refl same has, v)
  finish_key-effect e e' false same has cleared v =
      (flushes refl (λ q. cc) cleared, reset-InRange re2 e')

  moved-data :
      (e : Engine re2.Regex) (o : Option Bytes) (key_char : Bytes)
      → (change_state o key_char (update_history re2 d e key_char)).current_data ≡ e.current_data
  unfolding change_state update_history
  moved-data e o key_char = ground arith

  moved-reset :
      (e : Engine re2.Regex) (o : Option Bytes) (key_char : Bytes)
      → reset (change_state o key_char (update_history re2 d e key_char)) ≡ reset e
  unfolding change_state update_history reset
  moved-reset e o key_char = ground arith

  has_rules :
      {o : Option (RulesData re2.Regex)} {merged : re2.Regex}
      → o ≡ some d
      → d.transform_re_merged ≡ some merged
      → ¬ NoTransform o
  has_rules ed em n = cc (subst NoTransform ed n)

  transform_key-returns :
      (merged : re2.Regex) (e : Engine re2.Regex) (key_char : Bytes)
      → e.current_data ≡ some d
      → d.transform_re_merged ≡ some merged
      → 1 ≤ re2.number_of_capturing_groups merged
      → InRange re2 e
      → (res : ProcessKeyResult) × (e' : Engine re2.Regex) × (transform_key re2 d e key_char
          ≡ returns (res, e'))
        × KeyEffect e res e'
        × InRange re2 e'
  transform_key-returns merged e key_char ed em h v =
      let matched = match_key-Total re2 laws d merged e key_char em h v in
      let e1 = change_state matched.0 key_char (update_history re2 d e key_char) in
      let ranged =
        change_state-InRange re2 matched.0 (update_history re2 d e key_char) key_char
          (update_history-InRange re2 d e key_char v) in
      let go_on = may_go_on-Total re2 laws d e1 ranged in
      let done =
        finish_key-effect e e1 go_on.0 (moved-data e matched.0 key_char) (has_rules ed em)
          (moved-reset e matched.0 key_char) ranged in
      (
        (finish_key re2 d e1 go_on.0).0,
        (finish_key re2 d e1 go_on.0).1,
        unfold transform_key in rw (matched.1, go_on.1) refl,
        done.0,
        done.1,
      )

module _ (re2 : Re2) (laws : MatchLaws re2) (conv : Conversions) where
  abbrev Returned : Engine re2.Regex → Outcome (ProcessKeyResult × Engine re2.Regex) → Type 0
  Returned e m =
      (res : ProcessKeyResult) × (e' : Engine re2.Regex) × (m ≡ returns (res, e'))
      × KeyEffect e res e'
      × InRange re2 e'

  Inv-InRange : {e : Engine re2.Regex} → Inv re2 e → InRange re2 e
  Inv-InRange v = record { now = v.in_range; history = v.history_in_range }

  fall_back-Returned : (e : Engine re2.Regex) → Returned e (returns (fall_back e))
  unfolding fall_back
  fall_back-Returned e = (_, _, refl, flushes refl (λ q. refl) refl, reset-InRange re2 e)

  has_text : (xs : Bytes) → (not (is_empty xs)) ≡ true → xs ≢ []
  has_text [] h = cc
  has_text (x ∷ xs) h = λ e. cc

  backspace-Returned :
      (e : Engine re2.Regex)
      → Inv re2 e
      → e.context ≢ []
      → Returned e (returns (process_backspace re2 conv e))
  backspace-Returned e v h = (
    (process_backspace re2 conv e).0,
    (process_backspace re2 conv e).1,
    refl,
    composes (unfold process_backspace in refl) (unfold process_backspace in refl)
        (unfold process_backspace in ground arith) (unfold process_backspace in ground arith)
        (λ n. h (v.idle n)),
    process_backspace-InRange re2 conv e (Inv-InRange v),
  )

  merged-group :
      (d : RulesData re2.Regex) (merged : re2.Regex)
      → IsWellFormed re2 d
      → d.transform_re_merged ≡ some merged
      → 1 ≤ re2.number_of_capturing_groups merged
  merged-group d merged w em = subst (HasGroup re2) em w.has_group

  on_key-Returned :
      (d : RulesData re2.Regex) (e : Engine re2.Regex) (code : DomCode) (found : Option Bytes)
      → e.current_data ≡ some d
      → IsWellFormed re2 d
      → Inv re2 e
      → Returned e (on_key re2 conv d e code found)
  unfolding on_key
  on_key-Returned d e code none ed w v =
      elim (Bool-cases (code_eq code backspace && not (is_empty e.context))) [
        | inl back ↦ rw back (backspace-Returned e v (has_text e.context (ground arith)))
        | inr other ↦ rw other (fall_back-Returned e)
      ]
  on_key-Returned d e code (some key_char) ed w v = elim (Option-cases d.transform_re_merged) [
    | inl plain ↦ (
      record { key_handled = true; commit_text = key_char; composition_text = [] },
      e,
      rw (has_transform-none re2 d plain) refl,
      passes refl refl (subst NoTransform (sym ed) plain) refl,
      Inv-InRange v,
    )
    | inr (merged, em) ↦
        let (res, e', er, eff, ranged) =
          transform_key-returns re2 laws d merged e key_char ed em (merged-group d merged w em)
            (Inv-InRange v) in
        (res, e', rw (has_transform-some re2 d merged em) er, eff, ranged)
  ]

  get_elem?-some {ℓ} :
      {A : Type ℓ} (xs : List A) (i : ℕ) → i < length xs → (a : A) × (get_elem? xs i ≡ some a)
  get_elem?-some [] i h = absurd (omega arith)
  get_elem?-some (x ∷ xs) zero h = (x, refl)
  get_elem?-some (x ∷ xs) (suc i) h = get_elem?-some xs i (omega arith)

  key_map-some :
      (d : RulesData re2.Regex) (modifiers : ℕ)
      → IsWellFormed re2 d
      → ltb 7 modifiers ≡ false
      → (m : KeyMap) × (get_key_map_by_modifiers re2 d modifiers ≡ some m)
  unfolding get_key_map_by_modifiers
  key_map-some d modifiers w h =
      let found = get_elem?-some d.key_maps modifiers (omega (arith, w.all_maps, small h)) in
      (found.0, rw (below h) found.1)
    where
      small : ltb 7 modifiers ≡ false → modifiers < 8
      small q = ground arith

      below : ltb 7 modifiers ≡ false → ltb modifiers 8 ≡ true
      below q = ground arith

  with_data-Returned :
      (o : Option (RulesData re2.Regex)) (e : Engine re2.Regex) (code : DomCode) (modifiers : ℕ)
      → e.current_data ≡ o
      → DataOk re2 o
      → Inv re2 e
      → Returned e (with_data re2 conv o e code modifiers)
  unfolding with_data
  with_data-Returned none e code modifiers ed w v = fall_back-Returned e
  with_data-Returned (some d) e code modifiers ed w v = elim (Bool-cases (ltb 7 modifiers)) [
    | inl over ↦ rw over (fall_back-Returned e)
    | inr fits ↦
        let (m, em) = key_map-some d modifiers w fits in
        rw (fits, em) (on_key-Returned d e code (find code m) ed w v)
  ]

  effect-Inv :
      {e : Engine re2.Regex} {res : ProcessKeyResult} {e' : Engine re2.Regex}
      → Inv re2 e
      → KeyEffect e res e'
      → InRange re2 e'
      → Inv re2 e'
  effect-Inv v (composes h c t same has) r = record {
    data_ok = subst (DataOk re2) (sym same) v.data_ok;
    in_range = r.now;
    history_in_range = r.history;
    idle = λ n. absurd (has (subst NoTransform same n));
  }
  effect-Inv {e} {e' = e'} v (flushes t left same) r = record {
    data_ok =
        subst (DataOk re2) (sym (ap (λ (x : Engine re2.Regex). x.current_data) same ∙ reset-data e))
          v.data_ok;
    in_range = r.now;
    history_in_range = r.history;
    idle = λ n. ap (λ (x : Engine re2.Regex). x.context) same ∙ reset-context e;
  }
  effect-Inv v (passes h t n same) r = subst (Inv re2) (sym same) v

  -- Let RE2 keep its laws for matches. From a state that satisfies the invariant, `ProcessKey` returns, for every key and every
  -- modifier value: no position is out of range and no pointer is null. The call goes on composing,
  -- or ends the composition and resets the state, or passes the key's text through and changes
  -- nothing; and the invariant holds again.
  pub process_key-returns :
      (e : Engine re2.Regex) (code : DomCode) (modifiers : ℕ)
      → Inv re2 e
      → (res : ProcessKeyResult) × (e' : Engine re2.Regex) × (process_key re2 conv e code modifiers
          ≡ returns (res, e'))
        × KeyEffect e res e'
        × Inv re2 e'
  unfolding process_key
  process_key-returns e code modifiers v =
      let (res, e', er, eff, r) =
        with_data-Returned e.current_data e code modifiers refl v.data_ok v in
      (res, e', er, eff, effect-Inv v eff r)
