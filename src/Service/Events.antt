-- ===== src/Service/Events.antt =====
-- What `ProcessKeyEvent` of the rule-based service does to its state and to the text field.
use chromiumos_devenv.Common.{
  ◌≡◌, ◌⊎◌, refl, sym, ap, ◌∙◌, subst, Bool, true, false, List, [], ◌∷◌, ◌++◌, append-nil, Bytes,
  arith, Bool-cases, inl, inr, Outcome, returns,
}
use chromiumos_devenv.Platform.Regex.{Re2, MatchLaws}
use chromiumos_devenv.Platform.Text.{Units, Conversions}
use chromiumos_devenv.Platform.Host.{
  PhysicalKeyEvent, KeyEventResult, needs_handling_by_system, HostCall,
}
use chromiumos_devenv.Platform.Document.{Document, apply_calls}
use chromiumos_devenv.Rulebased.Engine.{ProcessKeyResult, Engine}
use chromiumos_devenv.Rulebased.Engine.Safety.{Inv}
use chromiumos_devenv.Rulebased.Engine.Effects.{
  KeyEffect, composes, flushes, passes, process_key-returns,
}
use chromiumos_devenv.Rulebased.Engine.Results.{process_key-composition}
use chromiumos_devenv.Service.{
  RuleBasedEngine, commit_call, composition_call, handle_engine_result,
  convert_to_utf16_and_normalize, track_alt_right, is_left_to_system, generate_modifier_value,
  ask_engine, process_key_event, Handled,
}

module _ (re2 : Re2) (conv : Conversions) where
  pub track_alt_right-engine :
      (event : PhysicalKeyEvent) (s : RuleBasedEngine re2.Regex)
      → (track_alt_right event s).engine ≡ s.engine
  unfolding track_alt_right
  track_alt_right-engine event s = ground arith

  abbrev pub shown : Bytes → Units
  shown = convert_to_utf16_and_normalize conv

  -- The text field shows the engine's composition as its preedit.
  abbrev pub Mirrors : Document → Engine re2.Regex → Type 0
  Mirrors doc e = doc.preedit ≡ shown e.context

  on_texts :
      (handled : Bool) (commit composition : Bytes) (doc : Document)
      → shown [] ≡ []
      → (handled ≡ false → commit ≡ [] → doc.preedit ≡ [])
      → (composition ≡ []) ⊎ ((commit ≡ []) × (handled ≡ true))
      → let res : ProcessKeyResult = record {
        key_handled = handled;
        commit_text = commit;
        composition_text = composition;
      } in
        let doc' = apply_calls (commit_call conv res ++ composition_call conv res) doc in
        (doc'.preedit ≡ shown composition) × (doc'.committed ≡ doc.committed ++ shown commit)
  on_texts true [] [] doc empty quiet one = (refl, rw empty (sym (append-nil doc.committed)))
  on_texts false [] [] doc empty quiet one =
      (quiet refl refl ∙ sym empty, rw empty (sym (append-nil doc.committed)))
  on_texts true [] (c ∷ cs) doc empty quiet one = (refl, rw empty (sym (append-nil doc.committed)))
  on_texts false [] (c ∷ cs) doc empty quiet one = (refl, rw empty (sym (append-nil doc.committed)))
  on_texts true (x ∷ xs) [] doc empty quiet one = (sym empty, refl)
  on_texts false (x ∷ xs) [] doc empty quiet one = (sym empty, refl)
  on_texts handled (x ∷ xs) (c ∷ cs) doc empty quiet (inl e) = cc
  on_texts handled (x ∷ xs) (c ∷ cs) doc empty quiet (inr (e, h)) = cc

  -- What the calls for a result do to the text field.
  pub handle-document :
      (res : ProcessKeyResult) (doc : Document)
      → shown [] ≡ []
      → (res.key_handled ≡ false → res.commit_text ≡ [] → doc.preedit ≡ [])
      → (res.composition_text ≡ []) ⊎ ((res.commit_text ≡ []) × (res.key_handled ≡ true))
      → let doc' = apply_calls (handle_engine_result conv res).0 doc in
        (doc'.preedit ≡ shown res.composition_text)
        × (doc'.committed ≡ doc.committed ++ shown res.commit_text)
  unfolding handle_engine_result
  handle-document res doc empty quiet one =
      on_texts res.key_handled res.commit_text res.composition_text doc empty quiet one

  pub quiet_key :
      {e e' : Engine re2.Regex} {res : ProcessKeyResult} (doc : Document)
      → shown [] ≡ []
      → Mirrors doc e
      → KeyEffect e res e'
      → res.key_handled ≡ false
      → res.commit_text ≡ []
      → doc.preedit ≡ []
  quiet_key doc empty mirror (composes h c t same has) no' none' = cc
  quiet_key doc empty mirror (flushes t left same) no' none' =
      mirror ∙ ap shown (sym (left no') ∙ none') ∙ empty
  quiet_key doc empty mirror (passes h t n same) no' none' = cc

  abbrev Asked : Document → Outcome (Handled re2 conv) → Type 0
  Asked doc m =
      (s' : RuleBasedEngine re2.Regex) × (calls : List HostCall) × (result : KeyEventResult) × (m
        ≡ returns (s', calls, result))
      × Inv re2 s'.engine
      × Mirrors (apply_calls calls doc) s'.engine
      × ((added : Units) × ((apply_calls calls doc).committed ≡ doc.committed ++ added))

  -- An event that the engine is asked about.
  ask_engine-Mirrors :
      MatchLaws re2
      → (event : PhysicalKeyEvent) (s : RuleBasedEngine re2.Regex) (doc : Document) → shown [] ≡ []
      → Inv re2 s.engine
      → Mirrors doc s.engine
      → Asked doc (ask_engine re2 conv event s)
  unfolding ask_engine
  ask_engine-Mirrors laws event s doc empty v mirror =
      let mods = generate_modifier_value event.modifier_state s.is_alt_right_key_down in
      let (res, e', er, eff, inv) = process_key-returns re2 laws conv s.engine event.code mods v in
      let (same, one) =
        process_key-composition re2 laws conv s.engine e' event.code mods res v er in
      let shown' = handle-document res doc empty (quiet_key doc empty mirror eff) one in
      (
        record s { engine = e' },
        (handle_engine_result conv res).0,
        (handle_engine_result conv res).1,
        rw er refl,
        inv,
        shown'.0 ∙ ap shown same,
        (shown res.commit_text, shown'.1),
      )

  -- Let RE2 keep its laws for matches, and the conversions map the empty text to itself. From a state
  -- with the engine's invariant, and a text field whose preedit shows the engine's composition,
  -- `ProcessKeyEvent` returns, whatever event arrives, and keeps the invariant; after the host calls
  -- that it made the preedit shows the new composition, and the committed text is the old one with
  -- some text added behind it.
  pub process_key_event-Mirrors :
      MatchLaws re2
      → (event : PhysicalKeyEvent) (s : RuleBasedEngine re2.Regex) (doc : Document) → shown [] ≡ []
      → Inv re2 s.engine
      → Mirrors doc s.engine
      → (s' : RuleBasedEngine re2.Regex) × (calls : List HostCall) × (result : KeyEventResult)
        × (process_key_event re2 conv event s ≡ returns (s', calls, result))
        × Inv re2 s'.engine
        × Mirrors (apply_calls calls doc) s'.engine
        × ((added : Units) × ((apply_calls calls doc).committed ≡ doc.committed ++ added))
  unfolding process_key_event
  process_key_event-Mirrors laws event s doc empty v mirror =
      let s' = track_alt_right event s in
      let same = track_alt_right-engine event s in
      elim (Bool-cases (is_left_to_system event s'.is_alt_right_key_down)) [
        | inl left ↦ (
          s',
          [],
          needs_handling_by_system,
          rw left refl,
          subst (Inv re2) (sym same) v,
          mirror ∙ ap (λ (e : Engine re2.Regex). shown e.context) (sym same),
          ([], sym (append-nil doc.committed)),
        )
        | inr asked ↦ rw asked (
            ask_engine-Mirrors laws event s' doc empty (subst (Inv re2) (sym same) v)
              (mirror ∙ ap (λ (e : Engine re2.Regex). shown e.context) (sym same)))
      ]
