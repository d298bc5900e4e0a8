-- ===== src/Unikey/Adapter/Preedit.antt =====
-- The text field of a connected `UnikeyEngine`: its preedit is the engine's composition, whatever
-- events arrive in whatever order.
use chromiumos_devenv.Common.{
  ℕ, ◌≡◌, ◌⊎◌, refl, ap, ◌∙◌, Bool, true, false, List, [], ◌∷◌, ◌++◌, Bytes, arith, is_empty, ◌==◌,
  Bool-cases, inl, inr,
}
use chromiumos_devenv.Platform.DomCode.{DomCode, backspace, code_eq}
use chromiumos_devenv.Platform.Host.{PhysicalKeyEvent}
use chromiumos_devenv.Platform.Document.{Document, apply_calls}
use chromiumos_devenv.Unikey.Utf8.{decode_utf8, decode_from}
use chromiumos_devenv.Unikey.Utf16.{codepoints_to_u16}
use chromiumos_devenv.Unikey.Layout.{KeyChars, us_layout_char, effective_char, is_word_break_char}
use chromiumos_devenv.Unikey.Adapter.{
  Output, UkEngine, Adapter, Step, Settings, construct, on_focus, on_blur,
  on_composition_canceled_by_system, update_composition, commit_and_reset, typed_composition,
  backspaced_composition, on_char, on_layout_key, on_backspace, is_left_to_system, press,
  process_key_event,
}
use chromiumos_devenv.Unikey.Adapter.Composing.{added, kept, flush_call, typed_composition-kept}

-- The text field shows the composition as its preedit.
abbrev pub Shows : {C : Type 0} → Document → Adapter C → Type 0
Shows doc a = doc.preedit ≡ codepoints_to_u16 a.composition

-- A handler's step leaves the text field showing the composition.
abbrev pub Leaves : {C : Type 0} → Document → Step C → Type 0
Leaves doc s = Shows (apply_calls s.1 doc) s.0

-- The vendored engine puts out something for a character that breaks words, or leaves the character
-- to the caller.
abbrev pub PutsOut : UkEngine → Type 0
PutsOut uk =
    (ch : ℕ) (c : uk.Core)
    → is_word_break_char ch ≡ true
    → (is_empty (uk.process ch c).0.buf ≡ false) ⊎ ((uk.process ch c).0.ret ≡ 0)

decoded-nonempty : (b : Bytes) → is_empty b ≡ false → is_empty (decode_utf8 b) ≡ false
unfolding decode_utf8 decode_from
decoded-nonempty [] h = h
decoded-nonempty (x ∷ b) h = refl

pub append-nonempty : (xs ys : List ℕ) → is_empty ys ≡ false → is_empty (xs ++ ys) ≡ false
append-nonempty [] ys h = h
append-nonempty (x ∷ xs) ys h = refl

pub added-nonempty :
    (out : Output) (ch : ℕ)
    → (is_empty out.buf ≡ false) ⊎ (out.ret ≡ 0)
    → is_empty (added out ch) ≡ false
added-nonempty out ch h = elim (Bool-cases (is_empty out.buf)) [
  | inl quiet ↦ rw quiet (rw (silent quiet h) refl)
  | inr loud ↦ rw loud (decoded-nonempty out.buf loud)
]
  where
    silent :
        is_empty out.buf ≡ true → (is_empty out.buf ≡ false) ⊎ (out.ret ≡ 0) → (out.ret == 0) ≡ true
    silent q o = ground arith

module _ (uk : UkEngine) where
  typed-nonempty :
      (ch : ℕ) (a : Adapter uk.Core)
      → PutsOut uk
      → is_word_break_char ch ≡ true
      → is_empty (typed_composition (uk.process ch a.core).0 ch a.composition) ≡ false
  typed-nonempty ch a puts h =
      let out = (uk.process ch a.core).0 in
      ap (λ (xs : List ℕ). is_empty xs) (typed_composition-kept out ch a.composition)
      ∙ append-nonempty (kept out a.composition) (added out ch)
          (added-nonempty out ch (puts ch a.core h))

  -- A commit ends the preedit, if there is anything to commit or nothing shown.
  flush-Leaves :
      (a : Adapter uk.Core) (doc : Document)
      → (is_empty a.composition ≡ false) ⊎ Shows doc a
      → Leaves doc (commit_and_reset uk a)
  unfolding commit_and_reset codepoints_to_u16
  flush-Leaves a doc h = flushed a.composition h
    where
      flushed :
          (cps : List ℕ)
          → (is_empty cps ≡ false) ⊎ (doc.preedit ≡ codepoints_to_u16 cps)
          → (apply_calls (flush_call cps) doc).preedit ≡ []
      flushed [] (inl full) = cc
      flushed [] (inr shown) = shown
      flushed (x ∷ cps) o = refl

  update-Leaves : (a : Adapter uk.Core) (doc : Document) → Leaves doc (update_composition uk a)
  unfolding update_composition
  update-Leaves a doc = refl

  backspace-Leaves :
      (a : Adapter uk.Core) (doc : Document) → Shows doc a → Leaves doc (on_backspace uk a).0
  unfolding on_backspace
  backspace-Leaves a doc h = elim (Bool-cases (is_empty a.composition)) [
    | inl none' ↦ rw none' h
    | inr some' ↦ rw some' (
        update-Leaves
          (record a {
            core = (uk.process_backspace a.core).1;
            composition = backspaced_composition (uk.process_backspace a.core).0 a.composition;
          })
          doc)
  ]

  -- The adapter after `process` on a character.
  abbrev typed : ℕ → Adapter uk.Core → Adapter uk.Core
  typed ch a = record a {
    core = (uk.process ch a.core).1;
    composition = typed_composition (uk.process ch a.core).0 ch a.composition;
  }

  char-Leaves :
      PutsOut uk → (ch : ℕ) (a : Adapter uk.Core) (doc : Document) → Leaves doc (on_char uk ch a).0
  unfolding on_char
  char-Leaves puts ch a doc = elim (Bool-cases (is_word_break_char ch)) [
    | inl breaks ↦ rw breaks (flush-Leaves (typed ch a) doc (inl (typed-nonempty ch a puts breaks)))
    | inr goes_on ↦ rw goes_on (update-Leaves (typed ch a) doc)
  ]

  layout-Leaves :
      PutsOut uk
      → (kc : KeyChars) (shift caps : Bool) (a : Adapter uk.Core) (doc : Document) → Shows doc a
      → Leaves doc (on_layout_key uk kc shift caps a).0
  unfolding on_layout_key
  layout-Leaves puts kc shift caps a doc h = elim (Bool-cases (kc.base == 0)) [
    | inl unmapped ↦ rw unmapped (flush-Leaves a doc (inr h))
    | inr mapped ↦ rw mapped (char-Leaves puts (effective_char kc shift caps) a doc)
  ]

  pub key-Leaves :
      PutsOut uk
      → (value : DomCode → ℕ) (event : PhysicalKeyEvent) (a : Adapter uk.Core) (doc : Document)
      → Shows doc a
      → Leaves doc (process_key_event uk value event a).0
  unfolding process_key_event press
  key-Leaves puts value event a doc h = elim (Bool-cases (is_left_to_system event)) [
    | inl left ↦ rw left h
    | inr asked ↦ rw asked (elim (Bool-cases (code_eq event.code backspace)) [
      | inl back ↦ rw back (backspace-Leaves a doc h)
      | inr other ↦ rw other (
          layout-Leaves puts (us_layout_char value event.code) event.modifier_state.shift
            event.modifier_state.caps_lock a doc h)
    ])
  ]

-- What a connected engine and the text field it writes to may have come to: the engine is connected
-- to an empty preedit; then key events arrive, the field loses the focus, another field without a
-- preedit gets it, or the system cancels the composition and with it the preedit.
pub data Session (uk : UkEngine) (value : DomCode → ℕ) : Adapter uk.Core → Document → Type 0 where
  connected :
      (modern : Bool) {doc : Document}
      → doc.preedit ≡ []
      → Session uk value (construct uk modern) doc
  key_event :
      {a : Adapter uk.Core} {doc : Document} (event : PhysicalKeyEvent)
      → Session uk value a doc
      → Session uk value
          (process_key_event uk value event a).0.0
          (apply_calls (process_key_event uk value event a).0.1 doc)
  blurred :
      {a : Adapter uk.Core} {doc : Document}
      → Session uk value a doc
      → Session uk value (on_blur uk a).0 (apply_calls (on_blur uk a).1 doc)
  focused :
      {a : Adapter uk.Core} {doc : Document} (settings : Settings) (field : Document)
      → field.preedit ≡ []
      → Session uk value a doc
      → Session uk value (on_focus uk settings a).0 field
  canceled :
      {a : Adapter uk.Core} {doc : Document}
      → Session uk value a doc
      → Session uk value (on_composition_canceled_by_system uk a).0 (record doc { preedit = [] })

-- If the vendored engine puts out something for every character that breaks words, or leaves the
-- character to the caller, then at every point of every session, whatever keys, changes of focus and
-- cancellations went before, the preedit of the text field is the adapter's composition in UTF-16.
pub Session-Shows :
    (uk : UkEngine) (value : DomCode → ℕ) {a : Adapter uk.Core} {doc : Document}
    → PutsOut uk
    → Session uk value a doc
    → Shows doc a
unfolding construct on_focus on_blur on_composition_canceled_by_system codepoints_to_u16
Session-Shows uk value puts (connected modern empty) = empty
Session-Shows uk value puts (key_event {a} {doc} event s) =
    key-Leaves uk puts value event a doc (Session-Shows uk value puts s)
Session-Shows uk value puts (blurred {a} {doc} s) =
    flush-Leaves uk a doc (inr (Session-Shows uk value puts s))
Session-Shows uk value puts (focused settings field empty s) = empty
Session-Shows uk value puts (canceled s) = refl
