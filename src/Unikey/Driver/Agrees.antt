-- ===== src/Unikey/Driver/Agrees.antt =====
-- The adapter against the driver, key by key.
use chromiumos_devenv.Common.{ℕ, ◌≡◌, List, [], ◌++◌, length, if◌then◌else◌}
use chromiumos_devenv.Platform.DomCode.{DomCode}
use chromiumos_devenv.Platform.Document.{Document}
use chromiumos_devenv.Unikey.Utf16.{codepoints_to_u16}
use chromiumos_devenv.Unikey.Layout.{is_word_break_char}
use chromiumos_devenv.Unikey.Adapter.{UkEngine, Adapter, Step}
use chromiumos_devenv.Unikey.Adapter.Composing.{added, kept, span_call, flush_call}
use chromiumos_devenv.Unikey.Driver.Words.{WordLaws}

module _ (uk : UkEngine) (laws : WordLaws uk) where
  -- The adapter with its text field, and the driver, after the same keys, `left` keys before the end.
  pub record InStep (left : ℕ) (a : Adapter uk.Core) (doc : Document) (core : uk.Core)
      (display : List ℕ) : Type 0 where
    pub done : List ℕ
    pub committed : doc.committed ≡ codepoints_to_u16 done
    pub shows : doc.preedit ≡ codepoints_to_u16 a.composition
    pub counted : laws.word a.core ≡ length a.composition
    pub same : laws.Same left a.core core
    pub displayed : display ≡ done ++ a.composition

  abbrev typed_step : ℕ → Adapter uk.Core → Step uk.Core
  typed_step ch a =
      let out = (uk.process ch a.core).0 in
      let core = (uk.process ch a.core).1 in
      let text = kept out a.composition ++ added out ch in
      if is_word_break_char ch
      then (record a { core = uk.reset core; composition = [] }, flush_call text)
      else (record a { core = core; composition = text }, span_call text)
