-- ===== src/Layouts/TaTamil99.antt =====
-- The `ta_tamil99` layout: chromium-patches/rulebased-payload/chromeos/ash/services/ime/public/cpp/
-- rulebased/def/ta_tamil99.cc.
use Prim.Native.String.{String}
use chromiumos_devenv.Common.{Bool, false, List, [], ◌∷◌, ℕ, Option, none}

abbrev pub id : String
id = "ta_tamil99"

abbrev pub is_102 : Bool
is_102 = false

abbrev pub normal : List String
normal =
    "`" ∷ "1" ∷ "2" ∷ "3" ∷ "4" ∷ "5" ∷ "6" ∷ "7" ∷ "8" ∷ "9" ∷ "0" ∷ "-" ∷ "=" ∷ "ஆ" ∷ "ஈ" ∷ "ஊ"
    ∷ "ஐ" ∷ "ஏ" ∷ "ள" ∷ "ற" ∷ "ன" ∷ "ட" ∷ "ண" ∷ "ச" ∷ "ஞ" ∷ "\\" ∷ "அ" ∷ "இ" ∷ "உ" ∷ "்" ∷ "எ" ∷ "க"
    ∷ "ப" ∷ "ம" ∷ "த" ∷ "ந" ∷ "ய" ∷ "ஔ" ∷ "ஓ" ∷ "ஒ" ∷ "வ" ∷ "ங" ∷ "ல" ∷ "ர" ∷ "," ∷ "." ∷ "ழ" ∷ " "
    ∷ []

abbrev pub shift : List String
shift =
    "~" ∷ "!" ∷ "@" ∷ "#" ∷ "$" ∷ "%" ∷ "^" ∷ "&" ∷ "*" ∷ "(" ∷ ")" ∷ "_" ∷ "+" ∷ "ஸ" ∷ "ஷ" ∷ "ஜ"
    ∷ "ஹ" ∷ "ஸ்ரீ" ∷ "க்ஷ" ∷ "" ∷ "" ∷ "[" ∷ "]" ∷ "{" ∷ "}" ∷ "|" ∷ "௹" ∷ "௺" ∷ "௸" ∷ "ஃ" ∷ "" ∷ ""
    ∷ "" ∷ "\"" ∷ ":" ∷ ";" ∷ "'" ∷ "௳" ∷ "௴" ∷ "௵" ∷ "௶" ∷ "௷" ∷ "" ∷ "/" ∷ "<" ∷ ">" ∷ "?" ∷ " "
    ∷ []

abbrev pub alt_gr : List String
alt_gr =
    "`" ∷ "1" ∷ "2" ∷ "3" ∷ "4" ∷ "5" ∷ "6" ∷ "7" ∷ "8" ∷ "9" ∷ "0" ∷ "-" ∷ "=" ∷ "ஆ" ∷ "ஈ" ∷ "ஊ"
    ∷ "ஐ" ∷ "ஏ" ∷ "ள" ∷ "ற" ∷ "ன" ∷ "ட" ∷ "ண" ∷ "ச" ∷ "ஞ" ∷ "\\" ∷ "அ" ∷ "இ" ∷ "உ" ∷ "்" ∷ "எ" ∷ "க"
    ∷ "ப" ∷ "ம" ∷ "த" ∷ "ந" ∷ "ய" ∷ "ஔ" ∷ "ஓ" ∷ "ஒ" ∷ "வ" ∷ "ங" ∷ "ல" ∷ "ர" ∷ "," ∷ "." ∷ "ழ" ∷ " "
    ∷ []

abbrev pub capslock : List String
capslock =
    "`" ∷ "1" ∷ "2" ∷ "3" ∷ "4" ∷ "5" ∷ "6" ∷ "7" ∷ "8" ∷ "9" ∷ "0" ∷ "-" ∷ "=" ∷ "Q" ∷ "W" ∷ "E"
    ∷ "R" ∷ "T" ∷ "Y" ∷ "U" ∷ "I" ∷ "O" ∷ "P" ∷ "[" ∷ "]" ∷ "\\" ∷ "A" ∷ "S" ∷ "D" ∷ "F" ∷ "G" ∷ "H"
    ∷ "J" ∷ "K" ∷ "L" ∷ ";" ∷ "'" ∷ "Z" ∷ "X" ∷ "C" ∷ "V" ∷ "B" ∷ "N" ∷ "M" ∷ "," ∷ "." ∷ "/" ∷ " "
    ∷ []

abbrev pub shift_alt_gr : List String
shift_alt_gr =
    "~" ∷ "!" ∷ "@" ∷ "#" ∷ "$" ∷ "%" ∷ "^" ∷ "&" ∷ "*" ∷ "(" ∷ ")" ∷ "_" ∷ "+" ∷ "ஸ" ∷ "ஷ" ∷ "ஜ"
    ∷ "ஹ" ∷ "ஸ்ரீ" ∷ "க்ஷ" ∷ "" ∷ "" ∷ "[" ∷ "]" ∷ "{" ∷ "}" ∷ "|" ∷ "௹" ∷ "௺" ∷ "௸" ∷ "ஃ" ∷ "" ∷ ""
    ∷ "" ∷ "\"" ∷ ":" ∷ ";" ∷ "'" ∷ "௳" ∷ "௴" ∷ "௵" ∷ "௶" ∷ "௷" ∷ "" ∷ "/" ∷ "<" ∷ ">" ∷ "?" ∷ " "
    ∷ []

abbrev pub altgr_capslock : List String
altgr_capslock =
    "`" ∷ "1" ∷ "2" ∷ "3" ∷ "4" ∷ "5" ∷ "6" ∷ "7" ∷ "8" ∷ "9" ∷ "0" ∷ "-" ∷ "=" ∷ "Q" ∷ "W" ∷ "E"
    ∷ "R" ∷ "T" ∷ "Y" ∷ "U" ∷ "I" ∷ "O" ∷ "P" ∷ "[" ∷ "]" ∷ "\\" ∷ "A" ∷ "S" ∷ "D" ∷ "F" ∷ "G" ∷ "H"
    ∷ "J" ∷ "K" ∷ "L" ∷ ";" ∷ "'" ∷ "Z" ∷ "X" ∷ "C" ∷ "V" ∷ "B" ∷ "N" ∷ "M" ∷ "," ∷ "." ∷ "/" ∷ " "
    ∷ []

abbrev pub shift_capslock : List String
shift_capslock =
    "~" ∷ "!" ∷ "@" ∷ "#" ∷ "$" ∷ "%" ∷ "^" ∷ "&" ∷ "*" ∷ "(" ∷ ")" ∷ "_" ∷ "+" ∷ "q" ∷ "w" ∷ "e"
    ∷ "r" ∷ "t" ∷ "y" ∷ "u" ∷ "i" ∷ "o" ∷ "p" ∷ "{" ∷ "}" ∷ "|" ∷ "a" ∷ "s" ∷ "d" ∷ "f" ∷ "g" ∷ "h"
    ∷ "j" ∷ "k" ∷ "l" ∷ ":" ∷ "\"" ∷ "z" ∷ "x" ∷ "c" ∷ "v" ∷ "b" ∷ "n" ∷ "m" ∷ "<" ∷ ">" ∷ "?" ∷ " "
    ∷ []

abbrev pub shift_alt_gr_capslock : List String
shift_alt_gr_capslock =
    "~" ∷ "!" ∷ "@" ∷ "#" ∷ "$" ∷ "%" ∷ "^" ∷ "&" ∷ "*" ∷ "(" ∷ ")" ∷ "_" ∷ "+" ∷ "q" ∷ "w" ∷ "e"
    ∷ "r" ∷ "t" ∷ "y" ∷ "u" ∷ "i" ∷ "o" ∷ "p" ∷ "{" ∷ "}" ∷ "|" ∷ "a" ∷ "s" ∷ "d" ∷ "f" ∷ "g" ∷ "h"
    ∷ "j" ∷ "k" ∷ "l" ∷ ":" ∷ "\"" ∷ "z" ∷ "x" ∷ "c" ∷ "v" ∷ "b" ∷ "n" ∷ "m" ∷ "<" ∷ ">" ∷ "?" ∷ " "
    ∷ []

abbrev pub transforms : List String
transforms =
    "([க-ஹ])அ" ∷ "\\1\u{200d}" ∷ "([க-ஹ])ஆ" ∷ "\\1ா" ∷ "([க-ஹ])இ" ∷ "\\1ி" ∷ "([க-ஹ])ஈ" ∷ "\\1ீ"
    ∷ "([க-ஹ])உ" ∷ "\\1ு" ∷ "([க-ஹ])ஊ" ∷ "\\1ூ" ∷ "([க-ஹ])எ" ∷ "\\1ெ" ∷ "([க-ஹ])ஏ" ∷ "\\1ே"
    ∷ "([க-ஹ])ஐ" ∷ "\\1ை" ∷ "([க-ஹ])ஒ" ∷ "\\1ொ" ∷ "([க-ஹ])ஓ" ∷ "\\1ோ" ∷ "([க-ஹ])ஔ" ∷ "\\1ௌ" ∷ []

abbrev pub key_map : List (List String)
key_map =
    normal ∷ shift ∷ alt_gr ∷ shift_alt_gr ∷ capslock ∷ shift_capslock ∷ altgr_capslock
    ∷ shift_alt_gr_capslock ∷ []

abbrev pub transforms_len : ℕ
transforms_len = 24

abbrev pub history_prune : Option String
history_prune = none
