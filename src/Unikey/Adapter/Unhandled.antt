-- ===== src/Unikey/Adapter/Unhandled.antt =====
-- What a key event does to the text field if `UnikeyEngine` leaves it to the system.
use chromiumos_devenv.Common.{
  ℕ, ◌≡◌, ◌⊎◌, refl, sym, ap, ◌∙◌, Bool, List, [], ◌∷◌, ◌++◌, append-nil, is_empty, ◌==◌,
  Bool-cases, inl, inr,
}
use chromiumos_devenv.Platform.DomCode.{DomCode, backspace, code_eq}
use chromiumos_devenv.Platform.Host.{PhysicalKeyEvent, KeyEventResult, needs_handling_by_system}
use chromiumos_devenv.Platform.Document.{Document, apply_calls, shown_text}
use chromiumos_devenv.Unikey.Utf16.{codepoints_to_u16}
use chromiumos_devenv.Unikey.Layout.{KeyChars, us_layout_char}
use chromiumos_devenv.Unikey.Adapter.{
  UkEngine, Adapter, Step, commit_and_reset, on_char, on_layout_key, on_backspace,
  is_left_to_system, press, process_key_event,
}
use chromiumos_devenv.Unikey.Adapter.Composing.{flush_call}
use chromiumos_devenv.Unikey.Adapter.Preedit.{Shows}

module _ (uk : UkEngine) where
  -- The word goes on as it is, or it has ended.
  abbrev pub Left : Document → Adapter uk.Core → Step uk.Core → Type 0
  Left doc a s =
      (shown_text (apply_calls s.1 doc) ≡ shown_text doc)
      × ((s.0 ≡ a) ⊎ (s.0 ≡ record a { composition = []; core = uk.reset a.core }))

  -- If a handler leaves the event to the system.
  abbrev KeepsText : Document → Adapter uk.Core → Step uk.Core × KeyEventResult → Type 0
  KeepsText doc a r = r.1 ≡ needs_handling_by_system → Left doc a r.0

  flush-text :
      (a : Adapter uk.Core) (doc : Document) → Shows doc a → Left doc a (commit_and_reset uk a)
  unfolding commit_and_reset codepoints_to_u16
  flush-text a doc h = (flushed a.composition h, inr refl)
    where
      flushed :
          (cps : List ℕ)
          → doc.preedit ≡ codepoints_to_u16 cps
          → shown_text (apply_calls (flush_call cps) doc) ≡ shown_text doc
      flushed [] e = refl
      flushed (x ∷ cps) e =
          append-nil (doc.committed ++ codepoints_to_u16 (x ∷ cps))
          ∙ ap (◌++◌ doc.committed) (sym e)

  backspace-KeepsText : (a : Adapter uk.Core) (doc : Document) → KeepsText doc a (on_backspace uk a)
  unfolding on_backspace
  backspace-KeepsText a doc = elim (Bool-cases (is_empty a.composition)) [
    | inl none' ↦ rw none' (λ q. (refl, inl refl))
    | inr some' ↦ rw some' (λ q. cc q)
  ]

  layout-KeepsText :
      (kc : KeyChars) (shift caps : Bool) (a : Adapter uk.Core) (doc : Document)
      → Shows doc a
      → KeepsText doc a (on_layout_key uk kc shift caps a)
  unfolding on_layout_key on_char
  layout-KeepsText kc shift caps a doc h = elim (Bool-cases (kc.base == 0)) [
    | inl unmapped ↦ rw unmapped (λ q. flush-text a doc h)
    | inr mapped ↦ rw mapped (λ q. cc q)
  ]

  -- If the text field shows the composition as its preedit, then whatever event is left to the
  -- system, the text field shows the same text after the calls of the host, committed text and preedit
  -- together; and the adapter either is as it was, or has ended the word: its composition is empty and
  -- the vendored engine is reset.
  pub process_key_event-Left :
      (value : DomCode → ℕ) (event : PhysicalKeyEvent) (a : Adapter uk.Core) (doc : Document)
      → Shows doc a
      → (process_key_event uk value event a).1 ≡ needs_handling_by_system
      → Left doc a (process_key_event uk value event a).0
  unfolding process_key_event press
  process_key_event-Left value event a doc h = elim (Bool-cases (is_left_to_system event)) [
    | inl untouched ↦ rw untouched (λ q. (refl, inl refl))
    | inr asked ↦ rw asked (elim (Bool-cases (code_eq event.code backspace)) [
      | inl back ↦ rw back (backspace-KeepsText a doc)
      | inr other ↦ rw other (
          layout-KeepsText (us_layout_char value event.code) event.modifier_state.shift
            event.modifier_state.caps_lock a doc h)
    ])
  ]
