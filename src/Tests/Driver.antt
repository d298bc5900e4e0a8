-- ===== src/Tests/Driver.antt =====
-- The agreement of the adapter with the desktop driver at a concrete input.
use chromiumos_devenv.Common.{ℕ, suc, false, List, [], ◌∷◌, ◌==◌, if◌then◌else◌}
use chromiumos_devenv.Platform.DomCode.{DomCode, key_a, key_z, space}
use chromiumos_devenv.Platform.Host.{key_down, PhysicalKeyEvent}
use chromiumos_devenv.Unikey.Adapter.{Output, UkEngine}

-- What the engine has of its word: so many code points, or so many and an `a` behind them.
data Word : Type 0 where
  letters after_a : ℕ → Word

abbrev passed : Output
passed = record { ret = 0; backs = 0; buf = [] }

abbrev circumflex : Output
circumflex = record { ret = 1; backs = 1; buf = 0xC3 ∷ 0xA2 ∷ [] }

abbrev next_word : ℕ → ℕ → Word
next_word ch n = if ch == b'a' then after_a n else letters (suc n)

-- A second `a` turns the first into `â`; all else passes.
abbrev process_word : ℕ → Word → Output × Word
process_word ch (letters n) = (passed, next_word ch n)
process_word ch (after_a n) =
    if ch == b'a' then (circumflex, letters (suc n)) else (passed, letters (suc (suc n)))

abbrev doubling : UkEngine
doubling = record {
  Core = Word;
  prepared = letters 0;
  set_options = λ o c. c;
  attach = λ c. c;
  reset = λ c. letters 0;
  process = process_word;
  process_backspace = λ c. (passed, c);
}

abbrev count : Word → ℕ
count (letters n) = n
count (after_a n) = suc n

-- Both have an `a` at the end, or neither.
abbrev Alike : Word → Word → Type 0
Alike (letters n) (letters k) = Unit {0}
Alike (after_a n) (after_a k) = Unit {0}
Alike _ _ = ⊥

abbrev letter_value : DomCode → ℕ
letter_value key_a = 4
letter_value key_z = 29
letter_value _ = 44

abbrev press_of : DomCode → PhysicalKeyEvent
press_of code = record {
  type = key_down;
  code = code;
  modifier_state = record {
    alt = false;
    alt_graph = false;
    caps_lock = false;
    control = false;
    shift = false;
  };
}

abbrev keys : List PhysicalKeyEvent
keys = press_of key_a ∷ press_of key_a ∷ press_of space ∷ press_of key_a ∷ []
