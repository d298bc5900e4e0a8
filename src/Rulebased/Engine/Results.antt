-- ===== src/Rulebased/Engine/Results.antt =====
-- What the engine reports for a key: the text that it commits and the text that it composes.
use chromiumos_devenv.Common.{
  ℕ, ◌<◌, ◌≡◌, ◌≢◌, refl, sym, ap, ◌∙◌, subst, true, false, not, ◌&&◌, List, [], ◌∷◌, ◌++◌, Option,
  none, some, Bytes, arith, is_empty, ltb, if◌then◌else◌, inl, inr, ◌⊎◌, Outcome, returns, ◌>>=◌,
  deref, null_pointer,
}
use chromiumos_devenv.Platform.DomCode.{DomCode, code_eq, code_eq_iff, backspace}
use chromiumos_devenv.Platform.Regex.{Re2, MatchLaws}
use chromiumos_devenv.Platform.Text.{Conversions}
use chromiumos_devenv.Rulebased.KeyMap.{KeyMap, find}
use chromiumos_devenv.Rulebased.RulesData.{RulesData, get_key_map_by_modifiers}
use chromiumos_devenv.Rulebased.Engine.{
  ProcessKeyResult, Engine, new_engine, clear_history, reset, fall_back, process_backspace,
  transform_key, on_key, with_data, process_key,
}
use chromiumos_devenv.Rulebased.Engine.Safety.{Inv, has_transform-none, reset-context}
use chromiumos_devenv.Rulebased.Engine.Effects.{
  KeyEffect, composes, flushes, passes, process_key-returns,
}

-- A new engine with the layout and the id of `e`.
abbrev pub as_new : {R : Type 0} → Engine R → Engine R
as_new {R} e = record (new_engine R) { current_data = e.current_data; current_id = e.current_id }

module _ (re2 : Re2) (laws : MatchLaws re2) (conv : Conversions) where
  returned_injective :
      {a b : ProcessKeyResult × Engine re2.Regex}
      → ◌≡◌ {A = Outcome (ProcessKeyResult × Engine re2.Regex)} (returns a) (returns b)
      → a ≡ b
  returned_injective q = cc q

  effect-mirror :
      {e : Engine re2.Regex} {res : ProcessKeyResult} {e' : Engine re2.Regex}
      → Inv re2 e
      → KeyEffect e res e'
      → (res.composition_text ≡ e'.context)
        × ((res.composition_text ≡ []) ⊎ ((res.commit_text ≡ []) × (res.key_handled ≡ true)))
  effect-mirror v (composes h c t same has) = (t, inr (c, h))
  effect-mirror {e} v (flushes t left same) =
      (t ∙ sym (ap (λ (x : Engine re2.Regex). x.context) same ∙ reset-context e), inl t)
  effect-mirror v (passes h t n same) =
      (t ∙ sym (ap (λ (x : Engine re2.Regex). x.context) same ∙ v.idle n), inl t)

  -- Let RE2 keep its laws for matches. From a state with the invariant, whatever `ProcessKey` returns,
  -- the composition text that it reports is the context that the engine holds afterwards; and a call
  -- that reports one that is not empty commits nothing and handles the key.
  pub process_key-composition :
      (e e' : Engine re2.Regex) (code : DomCode) (modifiers : ℕ) (res : ProcessKeyResult)
      → Inv re2 e
      → process_key re2 conv e code modifiers ≡ returns (res, e')
      → (res.composition_text ≡ e'.context)
        × ((res.composition_text ≡ []) ⊎ ((res.commit_text ≡ []) × (res.key_handled ≡ true)))
  process_key-composition e e' code modifiers res v h =
      let (res', e'', er, eff, inv) = process_key-returns re2 laws conv e code modifiers v in
      let same : (res', e'') ≡ (res, e') = returned_injective (sym er ∙ h) in
      subst
        (λ (r : ProcessKeyResult × Engine re2.Regex).
          (r.0.composition_text ≡ r.1.context)
          × ((r.0.composition_text ≡ []) ⊎ ((r.0.commit_text ≡ []) × (r.0.key_handled ≡ true))))
        same (effect-mirror v eff)

  pub unhandled-effect :
      {e : Engine re2.Regex} {res : ProcessKeyResult} {e' : Engine re2.Regex}
      → KeyEffect e res e'
      → res.key_handled ≡ false
      → (res.commit_text ≡ e.context) × (res.composition_text ≡ []) × (e' ≡ as_new e)
  unfolding reset clear_history
  unhandled-effect (composes h c t same has) q = cc
  unhandled-effect (flushes t left same) q = (left q, t, same)
  unhandled-effect (passes h t n same) q = cc

  -- Let RE2 keep its laws for matches. From a state with the invariant, whatever key `ProcessKey` does
  -- not handle, it commits exactly the composition so far and composes nothing, and the engine is then
  -- a new engine with the layout and the id that it had: nothing is left of the composition, the
  -- position of the last transform or the history.
  pub process_key-unhandled :
      (e e' : Engine re2.Regex) (code : DomCode) (modifiers : ℕ) (res : ProcessKeyResult)
      → Inv re2 e
      → process_key re2 conv e code modifiers ≡ returns (res, e')
      → res.key_handled ≡ false
      → (res.commit_text ≡ e.context) × (res.composition_text ≡ []) × (e' ≡ as_new e)
  process_key-unhandled e e' code modifiers res v h q =
      let (res', e'', er, eff, inv) = process_key-returns re2 laws conv e code modifiers v in
      let same : (res', e'') ≡ (res, e') = returned_injective (sym er ∙ h) in
      unhandled-effect
        (subst (λ (r : ProcessKeyResult × Engine re2.Regex). KeyEffect e r.0 r.1) same eff) q

-- A key that the engine leaves to the system: there is no layout, or the modifier value is above 7,
-- or the key map of the modifiers has no such key and it is no backspace into a composition.
abbrev pub IsUnmapped : (re2 : Re2) → Engine re2.Regex → DomCode → ℕ → Type 0
IsUnmapped re2 e code modifiers =
    (e.current_data ≡ none)
    ⊎ (7 < modifiers)
    ⊎ ((d : RulesData re2.Regex) × (m : KeyMap) × (e.current_data ≡ some d)
        × (get_key_map_by_modifiers re2 d modifiers ≡ some m)
        × (find code m ≡ none)
        × ((code_eq code backspace && not (is_empty e.context)) ≡ false))

-- The text that a layout's key maps give for a series of keys, all of them mapped.
pub data Types (re2 : Re2) (d : RulesData re2.Regex) : List (DomCode × ℕ) → Bytes → Type 0 where
  nothing : Types re2 d [] []
  key :
      {code : DomCode} {modifiers : ℕ} {m : KeyMap} {c : Bytes} {keys : List (DomCode × ℕ)}
      {t t' : Bytes}
      → get_key_map_by_modifiers re2 d modifiers ≡ some m
      → find code m ≡ some c
      → Types re2 d keys t
      → t' ≡ c ++ t
      → Types re2 d ((code, modifiers) ∷ keys) t'

module _ (re2 : Re2) (conv : Conversions) where
  with_data-over :
      (o : Option (RulesData re2.Regex)) (e : Engine re2.Regex) (code : DomCode) (modifiers : ℕ)
      → 7 < modifiers
      → with_data re2 conv o e code modifiers ≡ returns (fall_back e)
  unfolding with_data
  with_data-over none e code modifiers h = refl
  with_data-over (some d) e code modifiers h =
      ap (λ b. if b then returns (fall_back e) else with_map d) over
    where
      over : ltb 7 modifiers ≡ true
      over = ground arith

      with_map : RulesData re2.Regex → Outcome (ProcessKeyResult × Engine re2.Regex)
      with_map d' = deref null_pointer (get_key_map_by_modifiers re2 d' modifiers) >>= λ m.
          on_key re2 conv d' e code (find code m)

  map_fits :
      (d : RulesData re2.Regex) (modifiers : ℕ) (m : KeyMap)
      → get_key_map_by_modifiers re2 d modifiers ≡ some m
      → ltb 7 modifiers ≡ false
  unfolding get_key_map_by_modifiers
  map_fits d modifiers m h = ground arith

  -- A key of a layout whose key map for the modifiers is there.
  process_key-on_key :
      (e : Engine re2.Regex) (d : RulesData re2.Regex) (m : KeyMap) (code : DomCode) (modifiers : ℕ)
      → e.current_data ≡ some d
      → get_key_map_by_modifiers re2 d modifiers ≡ some m
      → process_key re2 conv e code modifiers ≡ on_key re2 conv d e code (find code m)
  unfolding process_key with_data
  process_key-on_key e d m code modifiers ed em =
      ap (λ o. with_data re2 conv o e code modifiers) ed
      ∙ ap
          (λ b.
            if b
            then returns (fall_back e)
            else deref null_pointer (get_key_map_by_modifiers re2 d modifiers) >>= λ m'.
                on_key re2 conv d e code (find code m'))
          (map_fits d modifiers m em)
      ∙ ap (λ o. deref null_pointer o >>= λ m'. on_key re2 conv d e code (find code m')) em

  -- An unmapped key falls back.
  pub process_key-IsUnmapped :
      (e : Engine re2.Regex) (code : DomCode) (modifiers : ℕ)
      → IsUnmapped re2 e code modifiers
      → process_key re2 conv e code modifiers
        ≡ returns (
          record { key_handled = false; commit_text = e.context; composition_text = [] },
          reset e,
        )
  unfolding process_key fall_back
  process_key-IsUnmapped e code modifiers (inl no_data) =
      ap (λ o. with_data re2 conv o e code modifiers) no_data
  process_key-IsUnmapped e code modifiers (inr (inl over)) =
      with_data-over e.current_data e code modifiers over
  process_key-IsUnmapped e code modifiers (inr (inr (d, m, ed, em, found, other))) =
      process_key-on_key e d m code modifiers ed em
      ∙ ap (on_key re2 conv d e code) found
      ∙ ap (λ b. if b then returns (process_backspace re2 conv e) else returns (fall_back e)) other

  -- A backspace that no key map takes, into a composition.
  pub process_key-erases :
      (e : Engine re2.Regex) (d : RulesData re2.Regex) (m : KeyMap) (modifiers : ℕ)
      → e.current_data ≡ some d
      → get_key_map_by_modifiers re2 d modifiers ≡ some m
      → find backspace m ≡ none
      → e.context ≢ []
      → process_key re2 conv e backspace modifiers ≡ returns (process_backspace re2 conv e)
  unfolding process_key
  process_key-erases e d m modifiers ed em found full =
      process_key-on_key e d m backspace modifiers ed em
      ∙ ap (on_key re2 conv d e backspace) found
      ∙ ap (λ b. if b then returns (process_backspace re2 conv e) else returns (fall_back e))
          (erases e.context full)
    where
      erases : (xs : Bytes) → xs ≢ [] → (code_eq backspace backspace && not (is_empty xs)) ≡ true
      erases [] h = absurd (h refl)
      erases (x ∷ xs) h = rw ((code_eq_iff backspace backspace).1 refl) refl

  -- The keys one after the other, and all that they commit.
  unfoldable pub process_keys :
      Engine re2.Regex → List (DomCode × ℕ) → Outcome (Bytes × Engine re2.Regex)
  process_keys e [] = returns ([], e)
  process_keys e ((code, modifiers) ∷ keys) = do
    step ← process_key re2 conv e code modifiers
    rest ← process_keys step.1 keys
    returns (step.0.commit_text ++ rest.0, rest.1)

  process_key-plain :
      (e : Engine re2.Regex) (d : RulesData re2.Regex) (m : KeyMap) (code : DomCode) (modifiers : ℕ)
      (c : Bytes)
      → e.current_data ≡ some d
      → d.transform_re_merged ≡ none
      → get_key_map_by_modifiers re2 d modifiers ≡ some m
      → find code m ≡ some c
      → process_key re2 conv e code modifiers
        ≡ returns (record { key_handled = true; commit_text = c; composition_text = [] }, e)
  process_key-plain e d m code modifiers c ed plain em found =
      process_key-on_key e d m code modifiers ed em
      ∙ ap (on_key re2 conv d e code) found
      ∙ (unfold on_key in
          ap
            (λ b.
              if b
              then transform_key re2 d e c
              else returns
                  (record { key_handled = true; commit_text = c; composition_text = [] }, e))
            (has_transform-none re2 d plain))

  -- A layout without transforms types: a series of mapped keys commits exactly the texts of its key
  -- maps, in order, and leaves the engine as it was.
  pub process_keys-Types :
      (e : Engine re2.Regex) (d : RulesData re2.Regex) {keys : List (DomCode × ℕ)} {t : Bytes}
      → e.current_data ≡ some d
      → d.transform_re_merged ≡ none
      → Types re2 d keys t
      → process_keys e keys ≡ returns (t, e)
  unfolding process_keys
  process_keys-Types e d ed plain nothing = refl
  process_keys-Types e d ed plain (key {code} {modifiers} {m} {c} {keys} {t} em found rest joined) =
      rw (process_key-plain e d m code modifiers c ed plain em found)
        (rw (process_keys-Types e d ed plain rest) (ap (λ b. returns (b, e)) (sym joined)))
