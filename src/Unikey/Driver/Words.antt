-- ===== src/Unikey/Driver/Words.antt =====
-- What the adapter relies on in the vendored engine to agree with the driver.
use chromiumos_devenv.Common.{
  ℕ, suc, Bool, false, ◌||◌, ◌+◌, ◌-◌, ◌≤◌, ◌≡◌, true, is_empty, length, ◌==◌,
}
use chromiumos_devenv.Unikey.Layout.{is_word_break_char}
use chromiumos_devenv.Unikey.Adapter.{Options, UkEngine}
use chromiumos_devenv.Unikey.Adapter.Composing.{added}
use chromiumos_devenv.Unikey.Adapter.Preedit.{PutsOut}
use chromiumos_devenv.Unikey.Driver.{driver_start}

-- The adapter takes these characters for word ends, too, but the vendored engine goes on with the word:
-- Telex types letters with brackets and braces (`TelexMethodMapping` of inputproc.cpp), and the other
-- three are left out of its `WordBreakSyms`.
abbrev pub goes_on : ℕ → Bool
goes_on ch =
    ch == b'[' || ch == b']' || ch == b'{' || ch == b'}' || ch == b'~' || ch == b'`' || ch == b'^'

-- How many keys the agreement is for. The engine's buffers have room for 128 symbols (`MAX_UK_ENGINE` of
-- ukengine.h), and `prepareBuffer` drops the older half of one that is nearly full; this many keys do
-- not get there.
abbrev pub key_room : ℕ
key_room = 100

-- What the adapter relies on in the vendored engine. `word` is how many code points of the current
-- word are on display, and `Same n` relates engines that will go on alike for `n` keys.
pub record WordLaws (uk : UkEngine) : Type 1 where
  pub word : uk.Core → ℕ
  pub Same : ℕ → uk.Core → uk.Core → Type 0
  -- It puts out something for a character that breaks words, or leaves it to the caller.
  pub puts_out : PutsOut uk
  -- It puts out nothing and takes nothing back exactly if it reports 0.
  pub quiet :
      (ch : ℕ) (c : uk.Core)
      → is_empty (uk.process ch c).0.buf ≡ true
      → ((uk.process ch c).0.ret == 0) ≡ ((uk.process ch c).0.backs == 0)
  -- It takes back no more than the current word, and counts what it puts out.
  pub takes_back : (ch : ℕ) (c : uk.Core) → (uk.process ch c).0.backs ≤ word c
  pub counts :
      (ch : ℕ) (c : uk.Core)
      → word (uk.process ch c).1
        ≡ word c - (uk.process ch c).0.backs + length (added (uk.process ch c).0 ch)
  pub word-reset : (c : uk.Core) → word (uk.reset c) ≡ 0
  pub same_start :
      (options : Options) → Same key_room (driver_start uk options) (driver_start uk options)
  pub same_process :
      (n ch : ℕ) (c c' : uk.Core)
      → goes_on ch ≡ false
      → Same (suc n) c c'
      → ((uk.process ch c).0 ≡ (uk.process ch c').0)
        × Same n (uk.process ch c).1 (uk.process ch c').1
  -- After a character at which the engine, too, ends the word, it goes on as it does after a reset.
  pub same_reset :
      (n ch : ℕ) (c c' : uk.Core)
      → is_word_break_char ch ≡ true
      → goes_on ch ≡ false
      → Same (suc n) c c'
      → Same n (uk.reset (uk.process ch c).1) (uk.process ch c').1
