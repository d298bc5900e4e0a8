-- ===== src/Unikey/Driver.antt =====
-- The desktop driver poc_driver.cc, which runs the vendored engine on the keys of its command line and
-- prints what an application would show.
pub mod Display
pub mod Words
pub mod Typing
pub mod Agrees
use chromiumos_devenv.Common.{
  Option, none, some, ltb, ℕ, ◌-◌, Bool, true, false, not, List, [], ◌∷◌, ◌++◌, Bytes, is_empty,
  init, ◌==◌, if◌then◌else◌,
}
use chromiumos_devenv.Unikey.Utf8.{decode_utf8, encode_utf8}
use chromiumos_devenv.Unikey.Adapter.{Options, Output, UkEngine, pop_backs}

-- The options of the command line; `atoi` of an argument is taken for true if it is not zero.
abbrev pub driver_options : Bool → Bool → Bool → Bool → Options
driver_options modern free_marking spell_check restore = record {
  free_marking = free_marking;
  modern_style = modern;
  macro_enabled = false;
  spell_check_enabled = spell_check;
  auto_non_vn_restore = restore;
  strict_spell_check = false;
  use_unicode_clipboard = false;
  always_macro = false;
}

-- `if (ch == '.') ch = ' '`
abbrev pub driver_char : ℕ → ℕ
driver_char ch = if ch == b'.' then b' ' else ch

-- `display` after `process` on `ch`.
unfoldable pub driver_display : Output → ℕ → List ℕ → List ℕ
driver_display out ch display =
    let kept = pop_backs out.backs display in
    if not (is_empty out.buf)
    then kept ++ decode_utf8 out.buf
    else if out.backs == 0
    then kept ++ ch ∷ []
    else kept

-- Drops one space at the end.
unfoldable pub trim_space : Bytes → Bytes
trim_space [] = []
trim_space (c ∷ []) = if c == b' ' then [] else c ∷ []
trim_space (c ∷ d ∷ out) = c ∷ trim_space (d ∷ out)

module _ (uk : UkEngine) where
  -- The engine before the first key.
  abbrev pub driver_start : Options → uk.Core
  driver_start options = uk.reset (uk.attach (uk.set_options options uk.prepared))

  -- The loop over the keys.
  unfoldable pub driver_run : List ℕ → uk.Core → List ℕ → List ℕ
  unfolding driver_display
  driver_run [] core display = display
  driver_run (key ∷ keys) core display =
      let ch = driver_char key in
      let (out, core') = uk.process ch core in driver_run keys core' (driver_display out ch display)

  -- `main` with the count of its arguments: the exit status, and what it prints on standard output
  -- before the line end. With too few arguments it prints a message on standard error only.
  unfoldable pub driver_main : ℕ → Options → List ℕ → ℕ × Option Bytes
  unfolding driver_run trim_space
  driver_main argc options keys =
      if ltb argc 6
      then (2, none)
      else (0, some (trim_space (encode_utf8 (driver_run keys (driver_start options) []))))
