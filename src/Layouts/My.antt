-- ===== src/Layouts/My.antt =====
-- The `my` layout: chromium-patches/rulebased-payload/chromeos/ash/services/ime/public/cpp/
-- rulebased/def/my.cc.
use Prim.Native.String.{String}
use chromiumos_devenv.Common.{Bool, false, List, [], ◌∷◌, ℕ, Option, none}

abbrev pub id : String
id = "my"

abbrev pub is_102 : Bool
is_102 = false

abbrev pub normal : List String
normal =
    "ၐ" ∷ "၁" ∷ "၂" ∷ "၃" ∷ "၄" ∷ "၅" ∷ "၆" ∷ "၇" ∷ "၈" ∷ "၉" ∷ "၀" ∷ "-" ∷ "=" ∷ "ဆ" ∷ "တ" ∷ "န"
    ∷ "မ" ∷ "အ" ∷ "ပ" ∷ "က" ∷ "င" ∷ "သ" ∷ "စ" ∷ "ဟ" ∷ "ဩ" ∷ "၏" ∷ "\u{200c}ေ" ∷ "ျ" ∷ "ိ" ∷ "်"
    ∷ "ါ" ∷ "့" ∷ "ြ" ∷ "ု" ∷ "ူ" ∷ "း" ∷ "'" ∷ "ဖ" ∷ "ထ" ∷ "ခ" ∷ "လ" ∷ "ဘ" ∷ "ည" ∷ "ာ" ∷ "," ∷ "."
    ∷ "/" ∷ " " ∷ []

abbrev pub shift : List String
shift =
    "ဎ" ∷ "ဍ" ∷ "ၒ" ∷ "ဋ" ∷ "ၓ" ∷ "ၔ" ∷ "ၕ" ∷ "ရ" ∷ "*" ∷ "(" ∷ ")" ∷ "_" ∷ "+" ∷ "ဈ" ∷ "ဝ" ∷ "ဣ"
    ∷ "၎" ∷ "ဤ" ∷ "၌" ∷ "ဥ" ∷ "၍" ∷ "ဿ" ∷ "ဏ" ∷ "ဧ" ∷ "ဪ" ∷ "ၑ" ∷ "ဗ" ∷ "ှ" ∷ "ီ" ∷ "္" ∷ "ွ" ∷ "ံ"
    ∷ "ဲ" ∷ "ဒ" ∷ "ဓ" ∷ "ဂ" ∷ "\"" ∷ "ဇ" ∷ "ဌ" ∷ "ဃ" ∷ "ဠ" ∷ "ယ" ∷ "ဉ" ∷ "ဦ" ∷ "၊" ∷ "။" ∷ "?" ∷ " "
    ∷ []

abbrev pub alt_gr : List String
alt_gr =
    "ၐ" ∷ "၁" ∷ "၂" ∷ "၃" ∷ "၄" ∷ "၅" ∷ "၆" ∷ "၇" ∷ "၈" ∷ "၉" ∷ "၀" ∷ "-" ∷ "=" ∷ "ဆ" ∷ "တ" ∷ "န"
    ∷ "မ" ∷ "အ" ∷ "ပ" ∷ "က" ∷ "င" ∷ "သ" ∷ "စ" ∷ "ဟ" ∷ "ဩ" ∷ "၏" ∷ "\u{200c}ေ" ∷ "ျ" ∷ "ိ" ∷ "်"
    ∷ "ါ" ∷ "့" ∷ "ြ" ∷ "ု" ∷ "ူ" ∷ "း" ∷ "'" ∷ "ဖ" ∷ "ထ" ∷ "ခ" ∷ "လ" ∷ "ဘ" ∷ "ည" ∷ "ာ" ∷ "," ∷ "."
    ∷ "/" ∷ " " ∷ []

abbrev pub capslock : List String
capslock =
    "`" ∷ "1" ∷ "2" ∷ "3" ∷ "4" ∷ "5" ∷ "6" ∷ "7" ∷ "8" ∷ "9" ∷ "0" ∷ "-" ∷ "=" ∷ "q" ∷ "w" ∷ "e"
    ∷ "r" ∷ "t" ∷ "y" ∷ "u" ∷ "i" ∷ "o" ∷ "p" ∷ "[" ∷ "]" ∷ "\\" ∷ "a" ∷ "s" ∷ "d" ∷ "f" ∷ "g" ∷ "h"
    ∷ "j" ∷ "k" ∷ "l" ∷ ";" ∷ "'" ∷ "z" ∷ "x" ∷ "c" ∷ "v" ∷ "b" ∷ "n" ∷ "m" ∷ "," ∷ "." ∷ "/" ∷ " "
    ∷ []

abbrev pub shift_alt_gr : List String
shift_alt_gr =
    "ဎ" ∷ "ဍ" ∷ "ၒ" ∷ "ဋ" ∷ "ၓ" ∷ "ၔ" ∷ "ၕ" ∷ "ရ" ∷ "*" ∷ "(" ∷ ")" ∷ "_" ∷ "+" ∷ "ဈ" ∷ "ဝ" ∷ "ဣ"
    ∷ "၎" ∷ "ဤ" ∷ "၌" ∷ "ဥ" ∷ "၍" ∷ "ဿ" ∷ "ဏ" ∷ "ဧ" ∷ "ဪ" ∷ "ၑ" ∷ "ဗ" ∷ "ှ" ∷ "ီ" ∷ "္" ∷ "ွ" ∷ "ံ"
    ∷ "ဲ" ∷ "ဒ" ∷ "ဓ" ∷ "ဂ" ∷ "\"" ∷ "ဇ" ∷ "ဌ" ∷ "ဃ" ∷ "ဠ" ∷ "ယ" ∷ "ဉ" ∷ "ဦ" ∷ "၊" ∷ "။" ∷ "?" ∷ " "
    ∷ []

abbrev pub altgr_capslock : List String
altgr_capslock =
    "`" ∷ "1" ∷ "2" ∷ "3" ∷ "4" ∷ "5" ∷ "6" ∷ "7" ∷ "8" ∷ "9" ∷ "0" ∷ "-" ∷ "=" ∷ "q" ∷ "w" ∷ "e"
    ∷ "r" ∷ "t" ∷ "y" ∷ "u" ∷ "i" ∷ "o" ∷ "p" ∷ "[" ∷ "]" ∷ "\\" ∷ "a" ∷ "s" ∷ "d" ∷ "f" ∷ "g" ∷ "h"
    ∷ "j" ∷ "k" ∷ "l" ∷ ";" ∷ "'" ∷ "z" ∷ "x" ∷ "c" ∷ "v" ∷ "b" ∷ "n" ∷ "m" ∷ "," ∷ "." ∷ "/" ∷ " "
    ∷ []

abbrev pub shift_capslock : List String
shift_capslock =
    "~" ∷ "!" ∷ "@" ∷ "#" ∷ "$" ∷ "%" ∷ "^" ∷ "&" ∷ "*" ∷ "(" ∷ ")" ∷ "_" ∷ "+" ∷ "Q" ∷ "W" ∷ "E"
    ∷ "R" ∷ "T" ∷ "Y" ∷ "U" ∷ "I" ∷ "O" ∷ "P" ∷ "{" ∷ "}" ∷ "|" ∷ "A" ∷ "S" ∷ "D" ∷ "F" ∷ "G" ∷ "H"
    ∷ "J" ∷ "K" ∷ "L" ∷ ":" ∷ "\"" ∷ "Z" ∷ "X" ∷ "C" ∷ "V" ∷ "B" ∷ "N" ∷ "M" ∷ "<" ∷ ">" ∷ "?" ∷ " "
    ∷ []

abbrev pub shift_alt_gr_capslock : List String
shift_alt_gr_capslock =
    "~" ∷ "!" ∷ "@" ∷ "#" ∷ "$" ∷ "%" ∷ "^" ∷ "&" ∷ "*" ∷ "(" ∷ ")" ∷ "_" ∷ "+" ∷ "Q" ∷ "W" ∷ "E"
    ∷ "R" ∷ "T" ∷ "Y" ∷ "U" ∷ "I" ∷ "O" ∷ "P" ∷ "{" ∷ "}" ∷ "|" ∷ "A" ∷ "S" ∷ "D" ∷ "F" ∷ "G" ∷ "H"
    ∷ "J" ∷ "K" ∷ "L" ∷ ":" ∷ "\"" ∷ "Z" ∷ "X" ∷ "C" ∷ "V" ∷ "B" ∷ "N" ∷ "M" ∷ "<" ∷ ">" ∷ "?" ∷ " "
    ∷ []

abbrev pub transforms : List String
transforms =
    "\u{200c}ေ([က-ဪဿ၎])" ∷ "\\1ေ" ∷ "([ြ-ှ]*ေ)\u{1d}ျ" ∷ "ျ\\1" ∷ "([ျ]*)([ွ-ှ]*)ေ\u{1d}ြ"
    ∷ "\\1ြ\\2ေ" ∷ "([ျြ]*)([ှ]*)ေ\u{1d}ွ" ∷ "\\1ွ\\2ေ" ∷ "([ျ-ွ]*)ေ\u{1d}ှ" ∷ "\\1ှေ"
    ∷ "([ြ-ှ]+)\u{1d}?ျ" ∷ "ျ\\1" ∷ "([ျ]*)([ွ-ှ]+)\u{1d}?ြ" ∷ "\\1ြ\\2" ∷ "([ျြ]*)([ှ]+)\u{1d}?ွ"
    ∷ "\\1ွ\\2" ∷ "ငေ\u{1d}်" ∷ "င်ေ" ∷ "င်ေ\u{1d}္" ∷ "င်္ေ" ∷ "င်္ေ\u{1d}([က-ဪဿ၎])" ∷ "င်္\\1ေ"
    ∷ "([က-ဪဿ၎])ေ\u{1d}္" ∷ "\\1္ေ" ∷ "္ေ\u{1d}([က-မလသဠအ])" ∷ "္\\1ေ" ∷ []

abbrev pub key_map : List (List String)
key_map =
    normal ∷ shift ∷ alt_gr ∷ shift_alt_gr ∷ capslock ∷ shift_capslock ∷ altgr_capslock
    ∷ shift_alt_gr_capslock ∷ []

abbrev pub transforms_len : ℕ
transforms_len = 26

abbrev pub history_prune : Option String
history_prune = none
