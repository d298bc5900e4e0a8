-- ===== src/Layouts/TaPhone.antt =====
-- The `ta_phone` layout: chromium-patches/rulebased-payload/chromeos/ash/services/ime/public/cpp/
-- rulebased/def/ta_phone.cc.
use Prim.Native.String.{String}
use chromiumos_devenv.Common.{Bool, false, List, [], ◌∷◌, ◌++◌, ℕ, Option, some}

abbrev pub id : String
id = "ta_phone"

abbrev pub is_102 : Bool
is_102 = false

abbrev pub normal : List String
normal =
    "`" ∷ "1" ∷ "2" ∷ "3" ∷ "4" ∷ "5" ∷ "6" ∷ "7" ∷ "8" ∷ "9" ∷ "0" ∷ "-" ∷ "=" ∷ "q" ∷ "w" ∷ "e"
    ∷ "r" ∷ "t" ∷ "y" ∷ "u" ∷ "i" ∷ "o" ∷ "p" ∷ "[" ∷ "]" ∷ "\\" ∷ "a" ∷ "s" ∷ "d" ∷ "f" ∷ "g" ∷ "h"
    ∷ "j" ∷ "k" ∷ "l" ∷ ";" ∷ "'" ∷ "z" ∷ "x" ∷ "c" ∷ "v" ∷ "b" ∷ "n" ∷ "m" ∷ "," ∷ "." ∷ "/" ∷ " "
    ∷ []

abbrev pub shift : List String
shift =
    "~" ∷ "!" ∷ "@" ∷ "#" ∷ "$" ∷ "%" ∷ "^" ∷ "&" ∷ "*" ∷ "(" ∷ ")" ∷ "_" ∷ "+" ∷ "Q" ∷ "W" ∷ "E"
    ∷ "R" ∷ "T" ∷ "Y" ∷ "U" ∷ "I" ∷ "O" ∷ "P" ∷ "{" ∷ "}" ∷ "|" ∷ "A" ∷ "S" ∷ "D" ∷ "F" ∷ "G" ∷ "H"
    ∷ "J" ∷ "K" ∷ "L" ∷ ":" ∷ "\"" ∷ "Z" ∷ "X" ∷ "C" ∷ "V" ∷ "B" ∷ "N" ∷ "M" ∷ "<" ∷ ">" ∷ "?" ∷ " "
    ∷ []

abbrev pub alt_gr : List String
alt_gr =
    "ஂ" ∷ "௳" ∷ "௴" ∷ "௵" ∷ "௶" ∷ "௷" ∷ "௸" ∷ "௺" ∷ "௰" ∷ "௱" ∷ "௲" ∷ "௹" ∷ "௦" ∷ "௧" ∷ "௨" ∷ "௩"
    ∷ "௪" ∷ "௫" ∷ "௬" ∷ "௭" ∷ "௮" ∷ "௯" ∷ "ௐ" ∷ "ஃ" ∷ "அ" ∷ "ஆ" ∷ "இ" ∷ "ஈ" ∷ "உ" ∷ "ஊ" ∷ "எ" ∷ "ஏ"
    ∷ "ஐ" ∷ "ஒ" ∷ "ஓ" ∷ "ஔ" ∷ "க" ∷ "ங" ∷ "ச" ∷ "ஜ" ∷ "ஞ" ∷ "ட" ∷ "ண" ∷ "த" ∷ "ந" ∷ "ன" ∷ "ப" ∷ " "
    ∷ []

abbrev pub capslock : List String
capslock =
    "`" ∷ "1" ∷ "2" ∷ "3" ∷ "4" ∷ "5" ∷ "6" ∷ "7" ∷ "8" ∷ "9" ∷ "0" ∷ "-" ∷ "=" ∷ "Q" ∷ "W" ∷ "E"
    ∷ "R" ∷ "T" ∷ "Y" ∷ "U" ∷ "I" ∷ "O" ∷ "P" ∷ "[" ∷ "]" ∷ "\\" ∷ "A" ∷ "S" ∷ "D" ∷ "F" ∷ "G" ∷ "H"
    ∷ "J" ∷ "K" ∷ "L" ∷ ";" ∷ "'" ∷ "Z" ∷ "X" ∷ "C" ∷ "V" ∷ "B" ∷ "N" ∷ "M" ∷ "," ∷ "." ∷ "/" ∷ " "
    ∷ []

abbrev pub shift_alt_gr : List String
shift_alt_gr =
    "ம" ∷ "ய" ∷ "ர" ∷ "ற" ∷ "ல" ∷ "ள" ∷ "ழ" ∷ "வ" ∷ "ஶ" ∷ "ஷ" ∷ "ஸ" ∷ "ஹ" ∷ "ா" ∷ "ி" ∷ "ீ" ∷ "ு"
    ∷ "ூ" ∷ "ெ" ∷ "ே" ∷ "ை" ∷ "ொ" ∷ "ோ" ∷ "ௌ" ∷ "்" ∷ "ௗ" ∷ "" ∷ "" ∷ "" ∷ "" ∷ "" ∷ "" ∷ "" ∷ ""
    ∷ "" ∷ "" ∷ "" ∷ "" ∷ "" ∷ "" ∷ "" ∷ "" ∷ "" ∷ "" ∷ "" ∷ "" ∷ "" ∷ "" ∷ " " ∷ []

abbrev pub shift_capslock : List String
shift_capslock =
    "~" ∷ "!" ∷ "@" ∷ "#" ∷ "$" ∷ "%" ∷ "^" ∷ "&" ∷ "*" ∷ "(" ∷ ")" ∷ "_" ∷ "+" ∷ "q" ∷ "w" ∷ "e"
    ∷ "r" ∷ "t" ∷ "y" ∷ "u" ∷ "i" ∷ "o" ∷ "p" ∷ "{" ∷ "}" ∷ "|" ∷ "a" ∷ "s" ∷ "d" ∷ "f" ∷ "g" ∷ "h"
    ∷ "j" ∷ "k" ∷ "l" ∷ ":" ∷ "\"" ∷ "z" ∷ "x" ∷ "c" ∷ "v" ∷ "b" ∷ "n" ∷ "m" ∷ "<" ∷ ">" ∷ "?" ∷ " "
    ∷ []

abbrev transforms_1 : List String
transforms_1 =
    "்ற்ற்\u{1d}?i" ∷ "்ரி" ∷ "்ற்\u{1d}?\\^i" ∷ "்ரி" ∷ "்ற்ற்\u{1d}?I" ∷ "்ரி" ∷ "்ற்\u{1d}?\\^I"
    ∷ "்ரி" ∷ "்அ\u{1d}?a" ∷ "ா" ∷ "ி\u{1d}?i" ∷ "ீ" ∷ "ெ\u{1d}?e" ∷ "ீ" ∷ "ு\u{1d}?u" ∷ "ூ"
    ∷ "ொ\u{1d}?o" ∷ "ூ" ∷ "்அ\u{1d}?i" ∷ "ை" ∷ "்அ\u{1d}?u" ∷ "ௌ" ∷ "ொ\u{1d}?u" ∷ "ௌ" ∷ "்\u{1d}?a"
    ∷ "" ∷ "்\u{1d}?A" ∷ "ா" ∷ "்\u{1d}?i" ∷ "ி" ∷ "்\u{1d}?I" ∷ "ீ" ∷ "்\u{1d}?u" ∷ "ு"
    ∷ "்\u{1d}?U" ∷ "ூ" ∷ "்\u{1d}?e" ∷ "ெ" ∷ "்\u{1d}?E" ∷ "ே" ∷ "்\u{1d}?o" ∷ "ொ" ∷ "்\u{1d}?O"
    ∷ "ோ" ∷ "ன்\u{1d}?ch" ∷ "ஞ்ச்" ∷ "க்ச்\u{1d}?h" ∷ "க்ஷ்" ∷ "ச்ர்\u{1d}?i" ∷ "ஸ்ரீ"
    ∷ "ட்ட்\u{1d}?r" ∷ "ற்ற்" ∷ "அ\u{1d}?a" ∷ "ஆ" ∷ "இ\u{1d}?i" ∷ "ஈ" ∷ "எ\u{1d}?e" ∷ "ஈ"
    ∷ "உ\u{1d}?u" ∷ "ஊ" ∷ "ஒ\u{1d}?o" ∷ "ஊ" ∷ "அ\u{1d}?i" ∷ "ஐ" ∷ "அ\u{1d}?u" ∷ "ஔ" ∷ "ஒ\u{1d}?u"
    ∷ "ஔ" ∷ "ன்\u{1d}?g" ∷ "ங்" ∷ "ch" ∷ "ச்" ∷ "ன்\u{1d}?j" ∷ "ஞ்" ∷ "ட்\u{1d}?h" ∷ "த்"
    ∷ "ச்\u{1d}?h" ∷ "ஷ்" ∷ "ஸ்\u{1d}?h" ∷ "ஶ்" ∷ "ழ்\u{1d}?h" ∷ "ழ்" ∷ "க்\u{1d}?S" ∷ "க்ஷ்"
    ∷ "ட்\u{1d}?r" ∷ "ற்ற்" ∷ "_" ∷ "\u{200b}" ∷ "M" ∷ "ஂ" ∷ "H" ∷ "ஃ" ∷ "a" ∷ "அ" ∷ "A" ∷ "ஆ" ∷ "i"
    ∷ "இ" ∷ "I" ∷ "ஈ" ∷ "u" ∷ "உ" ∷ "U" ∷ "ஊ" ∷ "e" ∷ "எ" ∷ "E" ∷ "ஏ" ∷ "o" ∷ "ஒ" ∷ "O" ∷ "ஓ" ∷ "k"
    ∷ "க்" ∷ "g" ∷ "க்" ∷ "q" ∷ "க்" ∷ []

abbrev transforms_2 : List String
transforms_2 =
    "G" ∷ "க்" ∷ "s" ∷ "ச்" ∷ "j" ∷ "ஜ்" ∷ "J" ∷ "ஜ்" ∷ "t" ∷ "ட்" ∷ "T" ∷ "ட்" ∷ "d" ∷ "ட்" ∷ "D"
    ∷ "ட்" ∷ "N" ∷ "ண்" ∷ "n" ∷ "ன்" ∷ "p" ∷ "ப்" ∷ "b" ∷ "ப்" ∷ "f" ∷ "ப்" ∷ "m" ∷ "ம்" ∷ "y"
    ∷ "ய்" ∷ "Y" ∷ "ய்" ∷ "r" ∷ "ர்" ∷ "l" ∷ "ல்" ∷ "L" ∷ "ள்" ∷ "v" ∷ "வ்" ∷ "w" ∷ "வ்" ∷ "S"
    ∷ "ஸ்" ∷ "h" ∷ "ஹ்" ∷ "z" ∷ "ழ்" ∷ "R" ∷ "ற்" ∷ "x" ∷ "க்ஷ்" ∷ "([க-ஹ])\u{1d}?a" ∷ "\\1ா"
    ∷ "([க-ஹ])\u{1d}?i" ∷ "\\1ை" ∷ "([க-ஹ])\u{1d}?u" ∷ "\\1ௌ" ∷ "([^\u{b80}-\u{bff}]|^)ன்\u{1d}?a"
    ∷ "\\1ந" ∷ "([^\u{b80}-\u{bff}]|^)ன்\u{1d}?A" ∷ "\\1நா" ∷ "([^\u{b80}-\u{bff}]|^)ன்\u{1d}?i"
    ∷ "\\1நி" ∷ "([^\u{b80}-\u{bff}]|^)ன்\u{1d}?I" ∷ "\\1நீ" ∷ "([^\u{b80}-\u{bff}]|^)ன்\u{1d}?u"
    ∷ "\\1நு" ∷ "([^\u{b80}-\u{bff}]|^)ன்\u{1d}?U" ∷ "\\1நூ" ∷ "([^\u{b80}-\u{bff}]|^)ன்\u{1d}?e"
    ∷ "\\1நெ" ∷ "([^\u{b80}-\u{bff}]|^)ன்\u{1d}?E" ∷ "\\1நே" ∷ "([^\u{b80}-\u{bff}]|^)ன்\u{1d}?o"
    ∷ "\\1நொ" ∷ "([^\u{b80}-\u{bff}]|^)ன்\u{1d}?O" ∷ "\\1நோ" ∷ "ன்\u{1d}?dha" ∷ "ந்த"
    ∷ "ன்\u{1d}?dhA" ∷ "ந்தா" ∷ "ன்\u{1d}?dhi" ∷ "ந்தி" ∷ "ன்\u{1d}?dhI" ∷ "ந்தீ" ∷ "ன்\u{1d}?dhu"
    ∷ "ந்து" ∷ "ன்\u{1d}?dhU" ∷ "ந்தூ" ∷ "ன்\u{1d}?dhe" ∷ "ந்தெ" ∷ "ன்\u{1d}?dhE" ∷ "ந்தே"
    ∷ "ன்\u{1d}?dho" ∷ "ந்தொ" ∷ "ன்\u{1d}?dhO" ∷ "ந்தோ" ∷ "([\u{b80}-\u{bff}])ன்\u{1d}?g"
    ∷ "\\1ங்க்" ∷ "([\u{b80}-\u{bff}])ன்\u{1d}?j" ∷ "\\1ஞ்ச்" ∷ "([^\u{b80}-\u{bff}]|^)ன்\u{1d}?y"
    ∷ "\\1ஞ்" ∷ "ன்\u{1d}?[dt]" ∷ "ண்ட்" ∷ "ண்ட்\u{1d}?h" ∷ "ந்த்" ∷ "ன்\u{1d}?dh" ∷ "ந்"
    ∷ "ன்\u{1d}?tr" ∷ "ன்ட்ர்" ∷ "ண்ட்\u{1d}?r" ∷ "ன்ற்" ∷ []

-- The table, of which each part above is a run of lines.
abbrev pub transforms : List String
transforms = transforms_1 ++ transforms_2

abbrev pub key_map : List (List String)
key_map =
    normal ∷ shift ∷ alt_gr ∷ shift_alt_gr ∷ capslock ∷ shift_capslock ∷ alt_gr ∷ shift_alt_gr ∷ []

abbrev pub transforms_len : ℕ
transforms_len = 232

abbrev pub history_prune : Option String
history_prune = some "t|dh|d"
