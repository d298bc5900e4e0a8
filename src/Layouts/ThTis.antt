-- ===== src/Layouts/ThTis.antt =====
-- The `th_tis` layout: chromium-patches/rulebased-payload/chromeos/ash/services/ime/public/cpp/
-- rulebased/def/th_tis.cc.
use Prim.Native.String.{String}
use chromiumos_devenv.Common.{Bool, false, List, [], ◌∷◌}

abbrev pub id : String
id = "th_tis"

abbrev pub is_102 : Bool
is_102 = false

abbrev pub normal : List String
normal =
    "_" ∷ "ๅ" ∷ "/" ∷ "-" ∷ "ภ" ∷ "ถ" ∷ "ุ" ∷ "ึ" ∷ "ค" ∷ "ต" ∷ "จ" ∷ "ข" ∷ "ช" ∷ "ๆ" ∷ "ไ" ∷ "ำ"
    ∷ "พ" ∷ "ะ" ∷ "ั" ∷ "ี" ∷ "ร" ∷ "น" ∷ "ย" ∷ "บ" ∷ "ล" ∷ "ฃ" ∷ "ฟ" ∷ "ห" ∷ "ก" ∷ "ด" ∷ "เ" ∷ "้"
    ∷ "่" ∷ "า" ∷ "ส" ∷ "ว" ∷ "ง" ∷ "ผ" ∷ "ป" ∷ "แ" ∷ "อ" ∷ "ิ" ∷ "ื" ∷ "ท" ∷ "ม" ∷ "ใ" ∷ "ฝ" ∷ " "
    ∷ []

abbrev pub shift : List String
shift =
    "%" ∷ "+" ∷ "๑" ∷ "๒" ∷ "๓" ∷ "๔" ∷ "ู" ∷ "฿" ∷ "๕" ∷ "๖" ∷ "๗" ∷ "๘" ∷ "๙" ∷ "๐" ∷ "\"" ∷ "ฎ"
    ∷ "ฑ" ∷ "ธ" ∷ "ํ" ∷ "๊" ∷ "ณ" ∷ "ฯ" ∷ "ญ" ∷ "ฐ" ∷ "," ∷ "ฅ" ∷ "ฤ" ∷ "ฆ" ∷ "ฏ" ∷ "โ" ∷ "ฌ" ∷ "็"
    ∷ "๋" ∷ "ษ" ∷ "ศ" ∷ "ซ" ∷ "." ∷ "(" ∷ ")" ∷ "ฉ" ∷ "ฮ" ∷ "ฺ" ∷ "์" ∷ "?" ∷ "ฒ" ∷ "ฬ" ∷ "ฦ" ∷ " "
    ∷ []

abbrev pub alt_gr : List String
alt_gr =
    "_" ∷ "ๅ" ∷ "/" ∷ "-" ∷ "ภ" ∷ "ถ" ∷ "ุ" ∷ "ึ" ∷ "ค" ∷ "ต" ∷ "จ" ∷ "ข" ∷ "ช" ∷ "ๆ" ∷ "ไ" ∷ "ำ"
    ∷ "พ" ∷ "ะ" ∷ "ั" ∷ "ี" ∷ "ร" ∷ "น" ∷ "ย" ∷ "บ" ∷ "ล" ∷ "ฃ" ∷ "ฟ" ∷ "ห" ∷ "ก" ∷ "ด" ∷ "เ" ∷ "้"
    ∷ "่" ∷ "า" ∷ "ส" ∷ "ว" ∷ "ง" ∷ "ผ" ∷ "ป" ∷ "แ" ∷ "อ" ∷ "ิ" ∷ "ื" ∷ "ท" ∷ "ม" ∷ "ใ" ∷ "ฝ" ∷ " "
    ∷ []

abbrev pub capslock : List String
capslock =
    "%" ∷ "+" ∷ "๑" ∷ "๒" ∷ "๓" ∷ "๔" ∷ "ู" ∷ "฿" ∷ "๕" ∷ "๖" ∷ "๗" ∷ "๘" ∷ "๙" ∷ "๐" ∷ "\"" ∷ "ฎ"
    ∷ "ฑ" ∷ "ธ" ∷ "ํ" ∷ "๊" ∷ "ณ" ∷ "ฯ" ∷ "ญ" ∷ "ฐ" ∷ "," ∷ "ฅ" ∷ "ฤ" ∷ "ฆ" ∷ "ฏ" ∷ "โ" ∷ "ฌ" ∷ "็"
    ∷ "๋" ∷ "ษ" ∷ "ศ" ∷ "ซ" ∷ "." ∷ "(" ∷ ")" ∷ "ฉ" ∷ "ฮ" ∷ "ฺ" ∷ "์" ∷ "?" ∷ "ฒ" ∷ "ฬ" ∷ "ฦ" ∷ " "
    ∷ []

abbrev pub shift_alt_gr : List String
shift_alt_gr =
    "%" ∷ "+" ∷ "๑" ∷ "๒" ∷ "๓" ∷ "๔" ∷ "ู" ∷ "฿" ∷ "๕" ∷ "๖" ∷ "๗" ∷ "๘" ∷ "๙" ∷ "๐" ∷ "\"" ∷ "ฎ"
    ∷ "ฑ" ∷ "ธ" ∷ "ํ" ∷ "๊" ∷ "ณ" ∷ "ฯ" ∷ "ญ" ∷ "ฐ" ∷ "," ∷ "ฅ" ∷ "ฤ" ∷ "ฆ" ∷ "ฏ" ∷ "โ" ∷ "ฌ" ∷ "็"
    ∷ "๋" ∷ "ษ" ∷ "ศ" ∷ "ซ" ∷ "." ∷ "(" ∷ ")" ∷ "ฉ" ∷ "ฮ" ∷ "ฺ" ∷ "์" ∷ "?" ∷ "ฒ" ∷ "ฬ" ∷ "ฦ" ∷ " "
    ∷ []

abbrev pub altgr_capslock : List String
altgr_capslock =
    "%" ∷ "+" ∷ "๑" ∷ "๒" ∷ "๓" ∷ "๔" ∷ "ู" ∷ "฿" ∷ "๕" ∷ "๖" ∷ "๗" ∷ "๘" ∷ "๙" ∷ "๐" ∷ "\"" ∷ "ฎ"
    ∷ "ฑ" ∷ "ธ" ∷ "ํ" ∷ "๊" ∷ "ณ" ∷ "ฯ" ∷ "ญ" ∷ "ฐ" ∷ "," ∷ "ฅ" ∷ "ฤ" ∷ "ฆ" ∷ "ฏ" ∷ "โ" ∷ "ฌ" ∷ "็"
    ∷ "๋" ∷ "ษ" ∷ "ศ" ∷ "ซ" ∷ "." ∷ "(" ∷ ")" ∷ "ฉ" ∷ "ฮ" ∷ "ฺ" ∷ "์" ∷ "?" ∷ "ฒ" ∷ "ฬ" ∷ "ฦ" ∷ " "
    ∷ []

abbrev pub shift_capslock : List String
shift_capslock =
    "_" ∷ "ๅ" ∷ "/" ∷ "-" ∷ "ภ" ∷ "ถ" ∷ "ุ" ∷ "ึ" ∷ "ค" ∷ "ต" ∷ "จ" ∷ "ข" ∷ "ช" ∷ "ๆ" ∷ "ไ" ∷ "ำ"
    ∷ "พ" ∷ "ะ" ∷ "ั" ∷ "ี" ∷ "ร" ∷ "น" ∷ "ย" ∷ "บ" ∷ "ล" ∷ "ฃ" ∷ "ฟ" ∷ "ห" ∷ "ก" ∷ "ด" ∷ "เ" ∷ "้"
    ∷ "่" ∷ "า" ∷ "ส" ∷ "ว" ∷ "ง" ∷ "ผ" ∷ "ป" ∷ "แ" ∷ "อ" ∷ "ิ" ∷ "ื" ∷ "ท" ∷ "ม" ∷ "ใ" ∷ "ฝ" ∷ " "
    ∷ []

abbrev pub shift_alt_gr_capslock : List String
shift_alt_gr_capslock =
    "_" ∷ "ๅ" ∷ "/" ∷ "-" ∷ "ภ" ∷ "ถ" ∷ "ุ" ∷ "ึ" ∷ "ค" ∷ "ต" ∷ "จ" ∷ "ข" ∷ "ช" ∷ "ๆ" ∷ "ไ" ∷ "ำ"
    ∷ "พ" ∷ "ะ" ∷ "ั" ∷ "ี" ∷ "ร" ∷ "น" ∷ "ย" ∷ "บ" ∷ "ล" ∷ "ฃ" ∷ "ฟ" ∷ "ห" ∷ "ก" ∷ "ด" ∷ "เ" ∷ "้"
    ∷ "่" ∷ "า" ∷ "ส" ∷ "ว" ∷ "ง" ∷ "ผ" ∷ "ป" ∷ "แ" ∷ "อ" ∷ "ิ" ∷ "ื" ∷ "ท" ∷ "ม" ∷ "ใ" ∷ "ฝ" ∷ " "
    ∷ []

abbrev pub key_map : List (List String)
key_map =
    normal ∷ shift ∷ alt_gr ∷ shift_alt_gr ∷ capslock ∷ shift_capslock ∷ altgr_capslock
    ∷ shift_alt_gr_capslock ∷ []
