-- ===== src/Layouts/ThPattajoti.antt =====
-- The `th_pattajoti` layout: chromium-patches/rulebased-payload/chromeos/ash/services/ime/public/cpp/
-- rulebased/def/th_pattajoti.cc.
use Prim.Native.String.{String}
use chromiumos_devenv.Common.{Bool, false, List, [], ◌∷◌}

abbrev pub id : String
id = "th_pattajoti"

abbrev pub is_102 : Bool
is_102 = false

abbrev pub normal : List String
normal =
    "_" ∷ "=" ∷ "๒" ∷ "๓" ∷ "๔" ∷ "๕" ∷ "ู" ∷ "๗" ∷ "๘" ∷ "๙" ∷ "๐" ∷ "๑" ∷ "๖" ∷ "็" ∷ "ต" ∷ "ย"
    ∷ "อ" ∷ "ร" ∷ "่" ∷ "ด" ∷ "ม" ∷ "ว" ∷ "แ" ∷ "ใ" ∷ "ฌ" ∷ "ฺ" ∷ "้" ∷ "ท" ∷ "ง" ∷ "ก" ∷ "ั" ∷ "ี"
    ∷ "า" ∷ "น" ∷ "เ" ∷ "ไ" ∷ "ข" ∷ "บ" ∷ "ป" ∷ "ล" ∷ "ห" ∷ "ิ" ∷ "ค" ∷ "ส" ∷ "ะ" ∷ "จ" ∷ "พ" ∷ " "
    ∷ []

abbrev pub shift : List String
shift =
    "฿" ∷ "+" ∷ "\"" ∷ "/" ∷ "," ∷ "?" ∷ "ุ" ∷ "ๅ" ∷ "." ∷ "(" ∷ ")" ∷ "-" ∷ "%" ∷ "๊" ∷ "ฤ" ∷ "ๆ"
    ∷ "ญ" ∷ "ษ" ∷ "ึ" ∷ "ฝ" ∷ "ซ" ∷ "ถ" ∷ "ฒ" ∷ "ฯ" ∷ "ฦ" ∷ "ํ" ∷ "๋" ∷ "ธ" ∷ "ำ" ∷ "ณ" ∷ "์" ∷ "ื"
    ∷ "ผ" ∷ "ช" ∷ "โ" ∷ "ฆ" ∷ "ฑ" ∷ "ฎ" ∷ "ฏ" ∷ "ฐ" ∷ "ภ" ∷ "ั้" ∷ "ศ" ∷ "ฮ" ∷ "ฟ" ∷ "ฉ" ∷ "ฬ" ∷ " "
    ∷ []

abbrev pub alt_gr : List String
alt_gr =
    "_" ∷ "=" ∷ "๒" ∷ "๓" ∷ "๔" ∷ "๕" ∷ "ู" ∷ "๗" ∷ "๘" ∷ "๙" ∷ "๐" ∷ "๑" ∷ "๖" ∷ "็" ∷ "ต" ∷ "ย"
    ∷ "อ" ∷ "ร" ∷ "่" ∷ "ด" ∷ "ม" ∷ "ว" ∷ "แ" ∷ "ใ" ∷ "ฌ" ∷ "ฺ" ∷ "้" ∷ "ท" ∷ "ง" ∷ "ก" ∷ "ั" ∷ "ี"
    ∷ "า" ∷ "น" ∷ "เ" ∷ "ไ" ∷ "ข" ∷ "บ" ∷ "ป" ∷ "ล" ∷ "ห" ∷ "ิ" ∷ "ค" ∷ "ส" ∷ "ะ" ∷ "จ" ∷ "พ" ∷ " "
    ∷ []

abbrev pub capslock : List String
capslock =
    "฿" ∷ "+" ∷ "\"" ∷ "/" ∷ "," ∷ "?" ∷ "ุ" ∷ "ๅ" ∷ "." ∷ "(" ∷ ")" ∷ "-" ∷ "%" ∷ "๊" ∷ "ฤ" ∷ "ๆ"
    ∷ "ญ" ∷ "ษ" ∷ "ึ" ∷ "ฝ" ∷ "ซ" ∷ "ถ" ∷ "ฒ" ∷ "ฯ" ∷ "ฦ" ∷ "ํ" ∷ "๋" ∷ "ธ" ∷ "ำ" ∷ "ณ" ∷ "์" ∷ "ื"
    ∷ "ผ" ∷ "ช" ∷ "โ" ∷ "ฆ" ∷ "ฑ" ∷ "ฎ" ∷ "ฏ" ∷ "ฐ" ∷ "ภ" ∷ "ั้" ∷ "ศ" ∷ "ฮ" ∷ "ฟ" ∷ "ฉ" ∷ "ฬ" ∷ " "
    ∷ []

abbrev pub shift_alt_gr : List String
shift_alt_gr =
    "฿" ∷ "+" ∷ "\"" ∷ "/" ∷ "," ∷ "?" ∷ "ุ" ∷ "ๅ" ∷ "." ∷ "(" ∷ ")" ∷ "-" ∷ "%" ∷ "๊" ∷ "ฤ" ∷ "ๆ"
    ∷ "ญ" ∷ "ษ" ∷ "ึ" ∷ "ฝ" ∷ "ซ" ∷ "ถ" ∷ "ฒ" ∷ "ฯ" ∷ "ฦ" ∷ "ํ" ∷ "๋" ∷ "ธ" ∷ "ำ" ∷ "ณ" ∷ "์" ∷ "ื"
    ∷ "ผ" ∷ "ช" ∷ "โ" ∷ "ฆ" ∷ "ฑ" ∷ "ฎ" ∷ "ฏ" ∷ "ฐ" ∷ "ภ" ∷ "ั้" ∷ "ศ" ∷ "ฮ" ∷ "ฟ" ∷ "ฉ" ∷ "ฬ" ∷ " "
    ∷ []

abbrev pub altgr_capslock : List String
altgr_capslock =
    "฿" ∷ "+" ∷ "\"" ∷ "/" ∷ "," ∷ "?" ∷ "ุ" ∷ "ๅ" ∷ "." ∷ "(" ∷ ")" ∷ "-" ∷ "%" ∷ "๊" ∷ "ฤ" ∷ "ๆ"
    ∷ "ญ" ∷ "ษ" ∷ "ึ" ∷ "ฝ" ∷ "ซ" ∷ "ถ" ∷ "ฒ" ∷ "ฯ" ∷ "ฦ" ∷ "ํ" ∷ "๋" ∷ "ธ" ∷ "ำ" ∷ "ณ" ∷ "์" ∷ "ื"
    ∷ "ผ" ∷ "ช" ∷ "โ" ∷ "ฆ" ∷ "ฑ" ∷ "ฎ" ∷ "ฏ" ∷ "ฐ" ∷ "ภ" ∷ "ั้" ∷ "ศ" ∷ "ฮ" ∷ "ฟ" ∷ "ฉ" ∷ "ฬ" ∷ " "
    ∷ []

abbrev pub shift_capslock : List String
shift_capslock =
    "_" ∷ "=" ∷ "๒" ∷ "๓" ∷ "๔" ∷ "๕" ∷ "ู" ∷ "๗" ∷ "๘" ∷ "๙" ∷ "๐" ∷ "๑" ∷ "๖" ∷ "็" ∷ "ต" ∷ "ย"
    ∷ "อ" ∷ "ร" ∷ "่" ∷ "ด" ∷ "ม" ∷ "ว" ∷ "แ" ∷ "ใ" ∷ "ฌ" ∷ "ฺ" ∷ "้" ∷ "ท" ∷ "ง" ∷ "ก" ∷ "ั" ∷ "ี"
    ∷ "า" ∷ "น" ∷ "เ" ∷ "ไ" ∷ "ข" ∷ "บ" ∷ "ป" ∷ "ล" ∷ "ห" ∷ "ิ" ∷ "ค" ∷ "ส" ∷ "ะ" ∷ "จ" ∷ "พ" ∷ " "
    ∷ []

abbrev pub shift_alt_gr_capslock : List String
shift_alt_gr_capslock =
    "_" ∷ "=" ∷ "๒" ∷ "๓" ∷ "๔" ∷ "๕" ∷ "ู" ∷ "๗" ∷ "๘" ∷ "๙" ∷ "๐" ∷ "๑" ∷ "๖" ∷ "็" ∷ "ต" ∷ "ย"
    ∷ "อ" ∷ "ร" ∷ "่" ∷ "ด" ∷ "ม" ∷ "ว" ∷ "แ" ∷ "ใ" ∷ "ฌ" ∷ "ฺ" ∷ "้" ∷ "ท" ∷ "ง" ∷ "ก" ∷ "ั" ∷ "ี"
    ∷ "า" ∷ "น" ∷ "เ" ∷ "ไ" ∷ "ข" ∷ "บ" ∷ "ป" ∷ "ล" ∷ "ห" ∷ "ิ" ∷ "ค" ∷ "ส" ∷ "ะ" ∷ "จ" ∷ "พ" ∷ " "
    ∷ []

abbrev pub key_map : List (List String)
key_map =
    normal ∷ shift ∷ alt_gr ∷ shift_alt_gr ∷ capslock ∷ shift_capslock ∷ altgr_capslock
    ∷ shift_alt_gr_capslock ∷ []
