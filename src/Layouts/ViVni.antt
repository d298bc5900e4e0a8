-- ===== src/Layouts/ViVni.antt =====
-- The `vi_vni` layout: chromium-patches/rulebased-payload/chromeos/ash/services/ime/public/cpp/
-- rulebased/def/vi_vni.cc.
use Prim.Native.String.{String}
use chromiumos_devenv.Common.{Bool, false, List, [], ◌∷◌, ℕ, Option, none}

abbrev pub id : String
id = "vi_vni"

abbrev pub is_102 : Bool
is_102 = false

abbrev pub transforms : List String
transforms =
    "d\u{1d}?9" ∷ "đ" ∷ "D\u{1d}?9" ∷ "Đ" ∷ "(\\w*)a\u{1d}?6" ∷ "\\1â" ∷ "(\\w*)e\u{1d}?6" ∷ "\\1ê"
    ∷ "(\\w*)o\u{1d}?6" ∷ "\\1ô" ∷ "(\\w*)a\u{1d}?8" ∷ "\\1ă" ∷ "(\\w*)[uU]\u{1d}?[oO]\u{1d}?7"
    ∷ "\\1ươ" ∷ "(\\w*)o\u{1d}?7" ∷ "\\1ơ" ∷ "(\\w*)u\u{1d}?7" ∷ "\\1ư" ∷ "(\\w*)A\u{1d}?6" ∷ "\\1Â"
    ∷ "(\\w*)E\u{1d}?6" ∷ "\\1Ê" ∷ "(\\w*)O\u{1d}?6" ∷ "\\1Ô" ∷ "(\\w*)A\u{1d}?8" ∷ "\\1Ă"
    ∷ "(\\w*)O\u{1d}?7" ∷ "\\1Ơ" ∷ "(\\w*)U\u{1d}?7" ∷ "\\1Ư"
    ∷ "(([qQ][uU]|[gG][iI])?[aeiouyAEIOUY])([aeiouyAEIOUY]?|[bcdghklmnpqtvBCDGHKLMNPQTV]+)\u{1d}?2"
    ∷ "\\1̀\\3"
    ∷ "(([qQ][uU]|[gG][iI])?[aeiouyAEIOUY])([aeiouyAEIOUY]?|[bcdghklmnpqtvBCDGHKLMNPQTV]+)\u{1d}?1"
    ∷ "\\1́\\3"
    ∷ "(([qQ][uU]|[gG][iI])?[aeiouyAEIOUY])([aeiouyAEIOUY]?|[bcdghklmnpqtvBCDGHKLMNPQTV]+)\u{1d}?3"
    ∷ "\\1̉\\3"
    ∷ "(([qQ][uU]|[gG][iI])?[aeiouyAEIOUY])([aeiouyAEIOUY]?|[bcdghklmnpqtvBCDGHKLMNPQTV]+)\u{1d}?4"
    ∷ "\\1̃\\3"
    ∷ "(([qQ][uU]|[gG][iI])?[aeiouyAEIOUY])([aeiouyAEIOUY]?|[bcdghklmnpqtvBCDGHKLMNPQTV]+)\u{1d}?5"
    ∷ "\\1̣\\3" ∷ "([ăâêôơưĂÂÊÔƠƯ])\u{1d}?([a-zA-Z]*)2" ∷ "\\1̀\\2"
    ∷ "([ăâêôơưĂÂÊÔƠƯ])\u{1d}?([a-zA-Z]*)1" ∷ "\\1́\\2" ∷ "([ăâêôơưĂÂÊÔƠƯ])\u{1d}?([a-zA-Z]*)3"
    ∷ "\\1̉\\2" ∷ "([ăâêôơưĂÂÊÔƠƯ])\u{1d}?([a-zA-Z]*)4" ∷ "\\1̃\\2"
    ∷ "([ăâêôơưĂÂÊÔƠƯ])\u{1d}?([a-zA-Z]*)5" ∷ "\\1̣\\2"
    ∷ "(([qQ][uU]|[gG][iI])?[aeiouyAEIOUY]+)([̣̀́̃̉])\u{1d}?([aeiouyAEIOUY])\u{1d}?([a-eg-ik-qtuvyA-EG-IK-QTUVY])"
    ∷ "\\1\\4\\3\\5" ∷ "([̣̀́̃̉])([ăâêôơưĂÂÊÔƠƯ])\u{1d}?([a-zA-Z])" ∷ "\\2\\1\\3"
    ∷ "^(.*)([̣́̉̃])([a-zA-Z\u{1d}]*)(2)" ∷ "\\1̀\\3" ∷ "^(.*)([̣̀̉̃])([a-zA-Z\u{1d}]*)(1)"
    ∷ "\\1́\\3" ∷ "^(.*)([̣̀́̃])([a-zA-Z\u{1d}]*)(3)" ∷ "\\1̉\\3"
    ∷ "^(.*)([̣̀́̉])([a-zA-Z\u{1d}]*)(4)" ∷ "\\1̃\\3" ∷ "^(.*)([̀́̉̃])([a-zA-Z\u{1d}]*)(5)"
    ∷ "\\1̣\\3" ∷ []

abbrev pub transforms_len : ℕ
transforms_len = 64

abbrev pub history_prune : Option String
history_prune = none
