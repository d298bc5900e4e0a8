-- ===== src/Layouts/ViTelex.antt =====
-- The `vi_telex` layout: chromium-patches/rulebased-payload/chromeos/ash/services/ime/public/cpp/
-- rulebased/def/vi_telex.cc.
use Prim.Native.String.{String}
use chromiumos_devenv.Common.{Bool, false, List, [], ◌∷◌, ℕ, Option, none}

abbrev pub id : String
id = "vi_telex"

abbrev pub is_102 : Bool
is_102 = false

abbrev pub transforms : List String
transforms =
    "[uU]\u{1d}?[oO]\u{1d}?[wW]" ∷ "ươ" ∷ "[uU]\u{1d}?[oO]\u{1d}?[nN]\u{1d}?[gG]\u{1d}?[wW]"
    ∷ "ương" ∷ "ư\u{1d}[wW]" ∷ "uw" ∷ "ă\u{1d}[wW]" ∷ "aw" ∷ "ơ\u{1d}[wW]" ∷ "ow" ∷ "d\u{1d}?d"
    ∷ "đ" ∷ "a\u{1d}?a" ∷ "â" ∷ "e\u{1d}?e" ∷ "ê" ∷ "o\u{1d}?o" ∷ "ô" ∷ "a\u{1d}?w" ∷ "ă"
    ∷ "o\u{1d}?w" ∷ "ơ" ∷ "u\u{1d}?w" ∷ "ư" ∷ "D\u{1d}?[Dd]" ∷ "Đ" ∷ "A\u{1d}?[aA]" ∷ "Â"
    ∷ "E\u{1d}?[eE]" ∷ "Ê" ∷ "O\u{1d}?[oO]" ∷ "Ô" ∷ "A\u{1d}?[wW]" ∷ "Ă" ∷ "O\u{1d}?[wW]" ∷ "Ơ"
    ∷ "U\u{1d}?[wW]" ∷ "Ư" ∷ "đ\u{1d}d" ∷ "dd" ∷ "Đ\u{1d}D" ∷ "DD" ∷ "â\u{1d}a" ∷ "aa" ∷ "ê\u{1d}e"
    ∷ "ee" ∷ "ô\u{1d}o" ∷ "oo" ∷ "Â\u{1d}A" ∷ "AA" ∷ "Ê\u{1d}E" ∷ "EE" ∷ "Ô\u{1d}O" ∷ "OO"
    ∷ "(([qQ][uU]|[gG][iI])?[aeiouyAEIOUY])([aeiouyAEIOUY]?|[bcdghklmnpqtvBCDGHKLMNPQTV]+)\u{1d}?[fF]"
    ∷ "\\1̀\\3"
    ∷ "(([qQ][uU]|[gG][iI])?[aeiouyAEIOUY])([aeiouyAEIOUY]?|[bcdghklmnpqtvBCDGHKLMNPQTV]+)\u{1d}?[sS]"
    ∷ "\\1́\\3"
    ∷ "(([qQ][uU]|[gG][iI])?[aeiouyAEIOUY])([aeiouyAEIOUY]?|[bcdghklmnpqtvBCDGHKLMNPQTV]+)\u{1d}?[rR]"
    ∷ "\\1̉\\3"
    ∷ "(([qQ][uU]|[gG][iI])?[aeiouyAEIOUY])([aeiouyAEIOUY]?|[bcdghklmnpqtvBCDGHKLMNPQTV]+)\u{1d}?[xX]"
    ∷ "\\1̃\\3"
    ∷ "(([qQ][uU]|[gG][iI])?[aeiouyAEIOUY])([aeiouyAEIOUY]?|[bcdghklmnpqtvBCDGHKLMNPQTV]+)\u{1d}?[jJ]"
    ∷ "\\1̣\\3" ∷ "([ăâêôơưĂÂÊÔƠƯ])\u{1d}?([a-zA-Z]*)[fF]" ∷ "\\1̀\\2"
    ∷ "([ăâêôơưĂÂÊÔƠƯ])\u{1d}?([a-zA-Z]*)[sS]" ∷ "\\1́\\2"
    ∷ "([ăâêôơưĂÂÊÔƠƯ])\u{1d}?([a-zA-Z]*)[rR]" ∷ "\\1̉\\2"
    ∷ "([ăâêôơưĂÂÊÔƠƯ])\u{1d}?([a-zA-Z]*)[xX]" ∷ "\\1̃\\2"
    ∷ "([ăâêôơưĂÂÊÔƠƯ])\u{1d}?([a-zA-Z]*)[jJ]" ∷ "\\1̣\\2" ∷ "([̣̀́̉̃])([a-yA-Y\u{1d}]*)([zZ])"
    ∷ "\\2" ∷ "(̀)([a-zA-Z\u{1d}]*)([fF])" ∷ "\\2\\3" ∷ "(́)([a-zA-Z\u{1d}]*)([sS])" ∷ "\\2\\3"
    ∷ "(̉)([a-zA-Z\u{1d}]*)([rR])" ∷ "\\2\\3" ∷ "(̃)([a-zA-Z\u{1d}]*)([xX])" ∷ "\\2\\3"
    ∷ "(̣)([a-zA-Z\u{1d}]*)([jJ])" ∷ "\\2\\3" ∷ "^(.*)([̣́̉̃])([a-zA-Z\u{1d}]*)([fF])" ∷ "\\1̀\\3"
    ∷ "^(.*)([̣̀̉̃])([a-zA-Z\u{1d}]*)([sS])" ∷ "\\1́\\3" ∷ "^(.*)([̣̀́̃])([a-zA-Z\u{1d}]*)([rR])"
    ∷ "\\1̉\\3" ∷ "^(.*)([̣̀́̉])([a-zA-Z\u{1d}]*)([xX])" ∷ "\\1̃\\3"
    ∷ "^(.*)([̀́̉̃])([a-zA-Z\u{1d}]*)([jJ])" ∷ "\\1̣\\3"
    ∷ "(([qQ][uU]|[gG][iI])?[aeiouyAEIOUY]+)([̣̀́̃̉])\u{1d}?([aeiouyAEIOUY])\u{1d}?([a-eg-ik-qtuvyA-EG-IK-QTUVY])"
    ∷ "\\1\\4\\3\\5" ∷ "([̣̀́̃̉])([ăâêôơưĂÂÊÔƠƯ])\u{1d}?([a-zA-Z])" ∷ "\\2\\1\\3" ∷ []

abbrev pub transforms_len : ℕ
transforms_len = 100

abbrev pub history_prune : Option String
history_prune = none
