-- ===== src/Layouts/Lo.antt =====
-- The `lo` layout: chromium-patches/rulebased-payload/chromeos/ash/services/ime/public/cpp/
-- rulebased/def/lo.cc.
use Prim.Native.String.{String}
use chromiumos_devenv.Common.{Bool, false, List, [], ◌∷◌}

abbrev pub id : String
id = "lo"

abbrev pub is_102 : Bool
is_102 = false

abbrev pub normal : List String
normal =
    "*" ∷ "ຢ" ∷ "ຟ" ∷ "ໂ" ∷ "ຖ" ∷ "ຸ" ∷ "ູ" ∷ "ຄ" ∷ "ຕ" ∷ "ຈ" ∷ "ຂ" ∷ "ຊ" ∷ "ໍ" ∷ "ົ" ∷ "ໄ" ∷ "ຳ"
    ∷ "ພ" ∷ "ະ" ∷ "ິ" ∷ "ີ" ∷ "ຮ" ∷ "ນ" ∷ "ຍ" ∷ "ບ" ∷ "ລ" ∷ "“" ∷ "ັ" ∷ "ຫ" ∷ "ກ" ∷ "ດ" ∷ "ເ" ∷ "້"
    ∷ "່" ∷ "າ" ∷ "ສ" ∷ "ວ" ∷ "ງ" ∷ "ຜ" ∷ "ປ" ∷ "ແ" ∷ "ອ" ∷ "ຶ" ∷ "ື" ∷ "ທ" ∷ "ມ" ∷ "ໃ" ∷ "ຝ" ∷ " "
    ∷ []

abbrev pub shift : List String
shift =
    "/" ∷ "1" ∷ "2" ∷ "3" ∷ "4" ∷ "໌" ∷ "ຼ" ∷ "5" ∷ "6" ∷ "7" ∷ "8" ∷ "9" ∷ "ໍ່" ∷ "ົ້" ∷ "0" ∷ "ຳ້"
    ∷ "_" ∷ "+" ∷ "ິ້" ∷ "ີ້" ∷ "ຣ" ∷ "ໜ" ∷ "ຽ" ∷ "-" ∷ "ຫຼ" ∷ "”" ∷ "ັ້" ∷ ";" ∷ "." ∷ "," ∷ ":"
    ∷ "໊" ∷ "໋" ∷ "!" ∷ "?" ∷ "%" ∷ "=" ∷ "₭" ∷ "(" ∷ "ຯ" ∷ "x" ∷ "ຶ້" ∷ "ື້" ∷ "ໆ" ∷ "ໝ" ∷ "$"
    ∷ ")" ∷ " " ∷ []

abbrev pub alt_gr : List String
alt_gr =
    "" ∷ "໑" ∷ "໒" ∷ "໓" ∷ "໔" ∷ "໕" ∷ "໖" ∷ "໗" ∷ "໘" ∷ "໙" ∷ "໐" ∷ "" ∷ "" ∷ "" ∷ "" ∷ "" ∷ ""
    ∷ "" ∷ "" ∷ "" ∷ "" ∷ "" ∷ "" ∷ "" ∷ "" ∷ "" ∷ "" ∷ "" ∷ "" ∷ "" ∷ "" ∷ "" ∷ "" ∷ "" ∷ "" ∷ ""
    ∷ "" ∷ "" ∷ "" ∷ "" ∷ "" ∷ "" ∷ "" ∷ "" ∷ "" ∷ "" ∷ "" ∷ " " ∷ []

abbrev pub capslock : List String
capslock =
    "*" ∷ "ຢ" ∷ "ຟ" ∷ "ໂ" ∷ "ຖ" ∷ "ຸ" ∷ "ູ" ∷ "ຄ" ∷ "ຕ" ∷ "ຈ" ∷ "ຂ" ∷ "ຊ" ∷ "ໍ" ∷ "ົ" ∷ "ໄ" ∷ "ຳ"
    ∷ "ພ" ∷ "ະ" ∷ "ິ" ∷ "ີ" ∷ "ຮ" ∷ "ນ" ∷ "ຍ" ∷ "ບ" ∷ "ລ" ∷ "“" ∷ "ັ" ∷ "ຫ" ∷ "ກ" ∷ "ດ" ∷ "ເ" ∷ "້"
    ∷ "່" ∷ "າ" ∷ "ສ" ∷ "ວ" ∷ "ງ" ∷ "ຜ" ∷ "ປ" ∷ "ແ" ∷ "ອ" ∷ "ຶ" ∷ "ື" ∷ "ທ" ∷ "ມ" ∷ "ໃ" ∷ "ຝ" ∷ " "
    ∷ []

abbrev pub altgr_capslock : List String
altgr_capslock =
    "" ∷ "໑" ∷ "໒" ∷ "໓" ∷ "໔" ∷ "໕" ∷ "໖" ∷ "໗" ∷ "໘" ∷ "໙" ∷ "໐" ∷ "" ∷ "" ∷ "" ∷ "" ∷ "" ∷ ""
    ∷ "" ∷ "" ∷ "" ∷ "" ∷ "" ∷ "" ∷ "" ∷ "" ∷ "" ∷ "" ∷ "" ∷ "" ∷ "" ∷ "" ∷ "" ∷ "" ∷ "" ∷ "" ∷ ""
    ∷ "" ∷ "" ∷ "" ∷ "" ∷ "" ∷ "" ∷ "" ∷ "" ∷ "" ∷ "" ∷ "" ∷ " " ∷ []

abbrev pub shift_capslock : List String
shift_capslock =
    "/" ∷ "1" ∷ "2" ∷ "3" ∷ "4" ∷ "໌" ∷ "ຼ" ∷ "5" ∷ "6" ∷ "7" ∷ "8" ∷ "9" ∷ "ໍ່" ∷ "ົ້" ∷ "0" ∷ "ຳ້"
    ∷ "_" ∷ "+" ∷ "ິ້" ∷ "ີ້" ∷ "ຣ" ∷ "ໜ" ∷ "ຽ" ∷ "-" ∷ "ຫຼ" ∷ "”" ∷ "ັ້" ∷ ";" ∷ "." ∷ "," ∷ ":"
    ∷ "໊" ∷ "໋" ∷ "!" ∷ "?" ∷ "%" ∷ "=" ∷ "₭" ∷ "(" ∷ "ຯ" ∷ "x" ∷ "ຶ້" ∷ "ື້" ∷ "ໆ" ∷ "ໝ" ∷ "$"
    ∷ ")" ∷ " " ∷ []

abbrev pub key_map : List (List String)
key_map =
    normal ∷ shift ∷ alt_gr ∷ alt_gr ∷ capslock ∷ shift_capslock ∷ altgr_capslock ∷ altgr_capslock
    ∷ []
