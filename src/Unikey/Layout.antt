-- ===== src/Unikey/Layout.antt =====
-- `UsLayoutChar` and `IsWordBreakChar` of unikey_engine.cc. Characters are their ASCII codes.
use chromiumos_devenv.Common.{ℕ, ◌+◌, ◌-◌, Bool, not, ◌&&◌, ◌||◌, leb, ◌==◌, if◌then◌else◌}
use chromiumos_devenv.Platform.DomCode.{
  DomCode, key_a, key_z, digit_0, digit_1, digit_2, digit_3, digit_4, digit_5, digit_6, digit_7,
  digit_8, digit_9, space, minus, equal, bracket_left, bracket_right, backslash, semicolon, quote,
  backquote, comma, period, slash,
}

pub record KeyChars : Type 0 where
  pub base : ℕ
  pub shifted : ℕ

abbrev pub chars : ℕ → ℕ → KeyChars
chars b s = record { base = b; shifted = s }

-- The `switch`.
symbol_chars : DomCode → KeyChars
symbol_chars digit_0 = chars b'0' b')'
symbol_chars digit_1 = chars b'1' b'!'
symbol_chars digit_2 = chars b'2' b'@'
symbol_chars digit_3 = chars b'3' b'#'
symbol_chars digit_4 = chars b'4' b'$'
symbol_chars digit_5 = chars b'5' b'%'
symbol_chars digit_6 = chars b'6' b'^'
symbol_chars digit_7 = chars b'7' b'&'
symbol_chars digit_8 = chars b'8' b'*'
symbol_chars digit_9 = chars b'9' b'('
symbol_chars space = chars b' ' b' '
symbol_chars minus = chars b'-' b'_'
symbol_chars equal = chars b'=' b'+'
symbol_chars bracket_left = chars b'[' b'{'
symbol_chars bracket_right = chars b']' b'}'
symbol_chars backslash = chars b'\\' b'|'
symbol_chars semicolon = chars b';' b':'
symbol_chars quote = chars b'\'' b'"'
symbol_chars backquote = chars b'`' b'~'
symbol_chars comma = chars b',' b'<'
symbol_chars period = chars b'.' b'>'
symbol_chars slash = chars b'/' b'?'
symbol_chars _ = chars 0 0

-- `static_cast<int>` of a code is the parameter `value`.
unfoldable pub us_layout_char : (DomCode → ℕ) → DomCode → KeyChars
unfolding symbol_chars
us_layout_char value code =
    if leb (value key_a) (value code) && leb (value code) (value key_z)
    then (let c = b'a' + (value code - value key_a) in chars c (c - b'a' + b'A'))
    else symbol_chars code

unfoldable pub is_letter : ℕ → Bool
is_letter c = leb b'a' c && leb c b'z'

unfoldable pub is_word_break_char : ℕ → Bool
is_word_break_char c =
    c == b' '
    || not (c == 0)
      && not (leb b'a' c && leb c b'z' || leb b'A' c && leb c b'Z' || leb b'0' c && leb c b'9')

-- The character of a key under shift and caps lock.
unfoldable pub effective_char : KeyChars → Bool → Bool → ℕ
unfolding is_letter
effective_char kc shift caps =
    if is_letter kc.base
    then (if differs shift caps then kc.shifted else kc.base)
    else if shift
    then kc.shifted
    else kc.base
  where
    differs : Bool → Bool → Bool
    differs a b = if a then not b else b
