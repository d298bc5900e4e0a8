-- ===== src/Service/Unhandled.antt =====
-- What an event does to the text field if the rule-based service leaves it to the system.
use chromiumos_devenv.Common.{
  ◌≡◌, ◌⊎◌, refl, sym, ap, ◌∙◌, subst, Bool, true, false, List, [], ◌++◌, append-nil, Bool-cases,
  inl, inr, if◌then◌else◌, Outcome, returns,
}
use chromiumos_devenv.Platform.Regex.{Re2, MatchLaws}
use chromiumos_devenv.Platform.Text.{Conversions}
use chromiumos_devenv.Platform.Host.{
  PhysicalKeyEvent, consumed_by_ime, needs_handling_by_system, HostCall,
}
use chromiumos_devenv.Platform.Document.{Document, apply_calls, shown_text}
use chromiumos_devenv.Rulebased.Engine.{ProcessKeyResult, Engine}
use chromiumos_devenv.Rulebased.Engine.Safety.{Inv}
use chromiumos_devenv.Rulebased.Engine.Effects.{KeyEffect, process_key-returns}
use chromiumos_devenv.Rulebased.Engine.Results.{unhandled-effect, as_new}
use chromiumos_devenv.Service.{
  RuleBasedEngine, handle_engine_result, track_alt_right, is_left_to_system,
  generate_modifier_value, ask_engine, process_key_event, Handled,
}
use chromiumos_devenv.Service.Events.{
  track_alt_right-engine, shown, Mirrors, handle-document, quiet_key,
}

module _ (re2 : Re2) (conv : Conversions) where
  -- The calls for a key that is not handled move the composition to the committed text.
  unhandled-text :
      MatchLaws re2
      → {e e' : Engine re2.Regex} {res : ProcessKeyResult} (doc : Document) → shown re2 conv [] ≡ []
      → Mirrors re2 conv doc e
      → KeyEffect e res e'
      → res.key_handled ≡ false
      → shown_text (apply_calls (handle_engine_result conv res).0 doc) ≡ shown_text doc
  unhandled-text laws {e} {e'} {res} doc empty mirror eff q =
      let (commits, nothing, new) = unhandled-effect re2 laws conv eff q in
      let (preedit, committed) =
        handle-document re2 conv res doc empty (quiet_key re2 conv doc empty mirror eff)
          (inl nothing) in
      let doc' = apply_calls (handle_engine_result conv res).0 doc in
      ap (◌++◌ doc'.committed) (preedit ∙ ap (shown re2 conv) nothing ∙ empty)
      ∙ append-nil doc'.committed
      ∙ committed
      ∙ ap (◌++◌ doc.committed) (ap (shown re2 conv) commits ∙ sym mirror)

  needs_handling :
      (res : ProcessKeyResult)
      → (handle_engine_result conv res).1 ≡ needs_handling_by_system
      → res.key_handled ≡ false
  unfolding handle_engine_result
  needs_handling res h = handled res.key_handled h
    where
      handled :
          (b : Bool)
          → (if b then consumed_by_ime else needs_handling_by_system) ≡ needs_handling_by_system
          → b ≡ false
      handled true q = cc
      handled false q = refl

  -- What an event that is left to the system has done: the same text is shown, and the engine is as it was,
  -- or new.
  abbrev Left :
      Document → RuleBasedEngine re2.Regex → RuleBasedEngine re2.Regex → List HostCall → Type 0
  Left doc s s' calls =
      (shown_text (apply_calls calls doc) ≡ shown_text doc)
      × ((s'.engine ≡ s.engine) ⊎ (s'.engine ≡ as_new s.engine))

  handled_injective :
      {a b : Handled re2 conv}
      → ◌≡◌ {A = Outcome (Handled re2 conv)} (returns a) (returns b)
      → a ≡ b
  handled_injective q = cc q

  asked-Left :
      MatchLaws re2
      → (event : PhysicalKeyEvent) (s s' : RuleBasedEngine re2.Regex) (calls : List HostCall)
        (doc : Document)
      → shown re2 conv [] ≡ []
      → Inv re2 s.engine
      → Mirrors re2 conv doc s.engine
      → ask_engine re2 conv event s ≡ returns (s', calls, needs_handling_by_system)
      → Left doc s s' calls
  unfolding ask_engine
  asked-Left laws event s s' calls doc empty v mirror h =
      let mods = generate_modifier_value event.modifier_state s.is_alt_right_key_down in
      let (res, e', er, eff, inv) = process_key-returns re2 laws conv s.engine event.code mods v in
      let ran : ask_engine re2 conv event s
          ≡ returns (
            record s { engine = e' },
            (handle_engine_result conv res).0,
            (handle_engine_result conv res).1,
          ) =
        rw er refl in
      let same = handled_injective (sym ran ∙ h) in
      let unhandled = needs_handling res (ap (λ (t : Handled re2 conv). t.2) same) in
      subst (λ (t : Handled re2 conv). Left doc s t.0 t.1) same
        (
          unhandled-text laws doc empty mirror eff unhandled,
          inr (unhandled-effect re2 laws conv eff unhandled).2,
        )

  -- Let RE2 keep its laws for matches, and the conversions map the empty text to itself. From a state
  -- with the engine's invariant, and a text field whose preedit shows the engine's composition:
  -- whatever event `ProcessKeyEvent` leaves to the system, the text field shows the same text after
  -- the host calls, committed text and preedit together; and the engine either is as it was, or it is a
  -- new engine with the same layout, nothing left of composition and history.
  pub process_key_event-unhandled :
      MatchLaws re2
      → (event : PhysicalKeyEvent) (s s' : RuleBasedEngine re2.Regex) (calls : List HostCall)
        (doc : Document)
      → shown re2 conv [] ≡ []
      → Inv re2 s.engine
      → Mirrors re2 conv doc s.engine
      → process_key_event re2 conv event s ≡ returns (s', calls, needs_handling_by_system)
      → (shown_text (apply_calls calls doc) ≡ shown_text doc)
        × ((s'.engine ≡ s.engine) ⊎ (s'.engine ≡ as_new s.engine))
  unfolding process_key_event
  process_key_event-unhandled laws event s s' calls doc empty v mirror h =
      let s1 = track_alt_right event s in
      let same = track_alt_right-engine re2 conv event s in
      elim (Bool-cases (is_left_to_system event s1.is_alt_right_key_down)) [
        | inl untouched ↦
            subst (λ (t : Handled re2 conv). Left doc s t.0 t.1)
              (handled_injective (rw untouched at h)) (refl, inl same)
        | inr asked ↦
            subst (λ (e : Engine re2.Regex). Left doc (record s { engine = e }) s' calls) same
              (asked-Left laws event s1 s' calls doc empty (subst (Inv re2) (sym same) v)
                (mirror ∙ ap (λ (e : Engine re2.Regex). shown re2 conv e.context) (sym same))
                (rw asked at h))
      ]
