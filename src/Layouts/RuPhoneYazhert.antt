-- ===== src/Layouts/RuPhoneYazhert.antt =====
-- The `ru_phone_yazhert` layout: chromium-patches/rulebased-payload/chromeos/ash/services/ime/public/cpp/
-- rulebased/def/ru_phone_yazhert.cc.
use Prim.Native.String.{String}
use chromiumos_devenv.Common.{Bool, false, List, [], ◌∷◌}

abbrev pub id : String
id = "ru_phone_yazhert"

abbrev pub is_102 : Bool
is_102 = false

abbrev pub normal : List String
normal =
    "ю" ∷ "1" ∷ "2" ∷ "3" ∷ "4" ∷ "5" ∷ "6" ∷ "7" ∷ "8" ∷ "9" ∷ "0" ∷ "-" ∷ "ь" ∷ "я" ∷ "ж" ∷ "е"
    ∷ "р" ∷ "т" ∷ "ы" ∷ "у" ∷ "и" ∷ "о" ∷ "п" ∷ "ш" ∷ "щ" ∷ "э" ∷ "а" ∷ "с" ∷ "д" ∷ "ф" ∷ "г" ∷ "ч"
    ∷ "й" ∷ "к" ∷ "л" ∷ ";" ∷ "'" ∷ "з" ∷ "х" ∷ "ц" ∷ "в" ∷ "б" ∷ "н" ∷ "м" ∷ "," ∷ "." ∷ "/" ∷ " "
    ∷ []

abbrev pub shift : List String
shift =
    "Ю" ∷ "!" ∷ "ъ" ∷ "Ъ" ∷ "$" ∷ "%" ∷ "ё" ∷ "Ё" ∷ "*" ∷ "(" ∷ ")" ∷ "_" ∷ "Ь" ∷ "Я" ∷ "Ж" ∷ "Е"
    ∷ "Р" ∷ "Т" ∷ "Ы" ∷ "У" ∷ "И" ∷ "О" ∷ "П" ∷ "Ш" ∷ "Щ" ∷ "Э" ∷ "А" ∷ "С" ∷ "Д" ∷ "Ф" ∷ "Г" ∷ "Ч"
    ∷ "Й" ∷ "К" ∷ "Л" ∷ ":" ∷ "\"" ∷ "З" ∷ "Х" ∷ "Ц" ∷ "В" ∷ "Б" ∷ "Н" ∷ "М" ∷ "<" ∷ ">" ∷ "?" ∷ " "
    ∷ []

abbrev pub alt_gr : List String
alt_gr =
    "`" ∷ "1" ∷ "2" ∷ "3" ∷ "4" ∷ "5" ∷ "6" ∷ "7" ∷ "8" ∷ "9" ∷ "0" ∷ "-" ∷ "=" ∷ "q" ∷ "w" ∷ "e"
    ∷ "r" ∷ "t" ∷ "y" ∷ "u" ∷ "i" ∷ "o" ∷ "p" ∷ "[" ∷ "]" ∷ "\\" ∷ "a" ∷ "s" ∷ "d" ∷ "f" ∷ "g" ∷ "h"
    ∷ "j" ∷ "k" ∷ "l" ∷ ";" ∷ "'" ∷ "z" ∷ "x" ∷ "c" ∷ "v" ∷ "b" ∷ "n" ∷ "m" ∷ "," ∷ "." ∷ "/" ∷ " "
    ∷ []

abbrev pub capslock : List String
capslock =
    "Ю" ∷ "1" ∷ "2" ∷ "3" ∷ "4" ∷ "5" ∷ "6" ∷ "7" ∷ "8" ∷ "9" ∷ "0" ∷ "-" ∷ "Ь" ∷ "Я" ∷ "Ж" ∷ "Е"
    ∷ "Р" ∷ "Т" ∷ "Ы" ∷ "У" ∷ "И" ∷ "О" ∷ "П" ∷ "Ш" ∷ "Щ" ∷ "Э" ∷ "А" ∷ "С" ∷ "Д" ∷ "Ф" ∷ "Г" ∷ "Ч"
    ∷ "Й" ∷ "К" ∷ "Л" ∷ ";" ∷ "'" ∷ "З" ∷ "Х" ∷ "Ц" ∷ "В" ∷ "Б" ∷ "Н" ∷ "М" ∷ "," ∷ "." ∷ "/" ∷ " "
    ∷ []

abbrev pub shift_alt_gr : List String
shift_alt_gr =
    "~" ∷ "!" ∷ "@" ∷ "#" ∷ "$" ∷ "%" ∷ "^" ∷ "&" ∷ "*" ∷ "(" ∷ ")" ∷ "_" ∷ "+" ∷ "Q" ∷ "W" ∷ "E"
    ∷ "R" ∷ "T" ∷ "Y" ∷ "U" ∷ "I" ∷ "O" ∷ "P" ∷ "{" ∷ "}" ∷ "|" ∷ "A" ∷ "S" ∷ "D" ∷ "F" ∷ "G" ∷ "H"
    ∷ "J" ∷ "K" ∷ "L" ∷ ":" ∷ "\"" ∷ "Z" ∷ "X" ∷ "C" ∷ "V" ∷ "B" ∷ "N" ∷ "M" ∷ "<" ∷ ">" ∷ "?" ∷ " "
    ∷ []

abbrev pub altgr_capslock : List String
altgr_capslock =
    "`" ∷ "1" ∷ "2" ∷ "3" ∷ "4" ∷ "5" ∷ "6" ∷ "7" ∷ "8" ∷ "9" ∷ "0" ∷ "-" ∷ "=" ∷ "Q" ∷ "W" ∷ "E"
    ∷ "R" ∷ "T" ∷ "Y" ∷ "U" ∷ "I" ∷ "O" ∷ "P" ∷ "[" ∷ "]" ∷ "\\" ∷ "A" ∷ "S" ∷ "D" ∷ "F" ∷ "G" ∷ "H"
    ∷ "J" ∷ "K" ∷ "L" ∷ ";" ∷ "'" ∷ "Z" ∷ "X" ∷ "C" ∷ "V" ∷ "B" ∷ "N" ∷ "M" ∷ "," ∷ "." ∷ "/" ∷ " "
    ∷ []

abbrev pub shift_capslock : List String
shift_capslock =
    "ю" ∷ "!" ∷ "ъ" ∷ "Ъ" ∷ "$" ∷ "%" ∷ "ё" ∷ "Ё" ∷ "*" ∷ "(" ∷ ")" ∷ "_" ∷ "ь" ∷ "я" ∷ "ж" ∷ "е"
    ∷ "р" ∷ "т" ∷ "ы" ∷ "у" ∷ "и" ∷ "о" ∷ "п" ∷ "ш" ∷ "щ" ∷ "э" ∷ "а" ∷ "с" ∷ "д" ∷ "ф" ∷ "г" ∷ "ч"
    ∷ "й" ∷ "к" ∷ "л" ∷ ":" ∷ "\"" ∷ "з" ∷ "х" ∷ "ц" ∷ "в" ∷ "б" ∷ "н" ∷ "м" ∷ "<" ∷ ">" ∷ "?" ∷ " "
    ∷ []

abbrev pub shift_alt_gr_capslock : List String
shift_alt_gr_capslock =
    "~" ∷ "!" ∷ "@" ∷ "#" ∷ "$" ∷ "%" ∷ "^" ∷ "&" ∷ "*" ∷ "(" ∷ ")" ∷ "_" ∷ "+" ∷ "q" ∷ "w" ∷ "e"
    ∷ "r" ∷ "t" ∷ "y" ∷ "u" ∷ "i" ∷ "o" ∷ "p" ∷ "{" ∷ "}" ∷ "|" ∷ "a" ∷ "s" ∷ "d" ∷ "f" ∷ "g" ∷ "h"
    ∷ "j" ∷ "k" ∷ "l" ∷ ":" ∷ "\"" ∷ "z" ∷ "x" ∷ "c" ∷ "v" ∷ "b" ∷ "n" ∷ "m" ∷ "<" ∷ ">" ∷ "?" ∷ " "
    ∷ []

abbrev pub key_map : List (List String)
key_map =
    normal ∷ shift ∷ alt_gr ∷ shift_alt_gr ∷ capslock ∷ shift_capslock ∷ altgr_capslock
    ∷ shift_alt_gr_capslock ∷ []
