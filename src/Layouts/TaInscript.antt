-- ===== src/Layouts/TaInscript.antt =====
-- The `ta_inscript` layout: chromium-patches/rulebased-payload/chromeos/ash/services/ime/public/cpp/
-- rulebased/def/ta_inscript.cc.
use Prim.Native.String.{String}
use chromiumos_devenv.Common.{Bool, false, List, [], ◌∷◌}

abbrev pub id : String
id = "ta_inscript"

abbrev pub is_102 : Bool
is_102 = false

abbrev pub normal : List String
normal =
    "ொ" ∷ "1" ∷ "2" ∷ "3" ∷ "4" ∷ "5" ∷ "6" ∷ "7" ∷ "8" ∷ "9" ∷ "0" ∷ "-" ∷ "௲" ∷ "ௌ" ∷ "ை" ∷ "ா"
    ∷ "ீ" ∷ "ூ" ∷ "ப" ∷ "ஹ" ∷ "க" ∷ "த" ∷ "ஜ" ∷ "ட" ∷ "ஞ" ∷ "ட" ∷ "ோ" ∷ "ே" ∷ "்" ∷ "ி" ∷ "ு" ∷ "ப"
    ∷ "ர" ∷ "க" ∷ "த" ∷ "ச" ∷ "ட" ∷ "ெ" ∷ "ஂ" ∷ "ம" ∷ "ந" ∷ "வ" ∷ "ல" ∷ "ஸ" ∷ "," ∷ "." ∷ "ய" ∷ " "
    ∷ []

abbrev pub shift : List String
shift =
    "ஒ" ∷ "க" ∷ "௨" ∷ "்ர" ∷ "₹" ∷ "ஜ்ஞ" ∷ "த்ர" ∷ "க்ஷ" ∷ "ஶ்ர" ∷ "(" ∷ ")" ∷ "ஃ" ∷ "" ∷ "ஔ" ∷ "ஐ"
    ∷ "ஆ" ∷ "ஈ" ∷ "ஊ" ∷ "" ∷ "ங" ∷ "" ∷ "" ∷ "ச" ∷ "" ∷ "" ∷ "" ∷ "ஓ" ∷ "ஏ" ∷ "அ" ∷ "இ" ∷ "உ" ∷ ""
    ∷ "ற" ∷ "" ∷ "" ∷ "" ∷ "" ∷ "எ" ∷ "" ∷ "ண" ∷ "ன" ∷ "ழ" ∷ "ள" ∷ "ஶ" ∷ "ஷ" ∷ "ஸ்ரீ" ∷ "?" ∷ " "
    ∷ []

abbrev pub alt_gr : List String
alt_gr =
    "" ∷ "௧" ∷ "௨" ∷ "௩" ∷ "௪" ∷ "௫" ∷ "௬" ∷ "௭" ∷ "௮" ∷ "௯" ∷ "௦" ∷ "" ∷ "௲" ∷ "" ∷ "" ∷ "" ∷ ""
    ∷ "" ∷ "" ∷ "" ∷ "" ∷ "" ∷ "" ∷ "" ∷ "" ∷ "" ∷ "" ∷ "" ∷ "" ∷ "" ∷ "" ∷ "" ∷ "" ∷ "" ∷ "" ∷ ""
    ∷ "" ∷ "" ∷ "" ∷ "" ∷ "" ∷ "" ∷ "" ∷ "" ∷ "" ∷ "" ∷ "" ∷ " " ∷ []

abbrev pub capslock : List String
capslock =
    "ொ" ∷ "1" ∷ "2" ∷ "3" ∷ "4" ∷ "5" ∷ "6" ∷ "7" ∷ "8" ∷ "9" ∷ "0" ∷ "-" ∷ "௲" ∷ "ௌ" ∷ "ை" ∷ "ா"
    ∷ "ீ" ∷ "ூ" ∷ "ப" ∷ "ஹ" ∷ "க" ∷ "த" ∷ "ஜ" ∷ "ட" ∷ "ஞ" ∷ "ட" ∷ "ோ" ∷ "ே" ∷ "்" ∷ "ி" ∷ "ு" ∷ "ப"
    ∷ "ர" ∷ "க" ∷ "த" ∷ "ச" ∷ "ட" ∷ "ெ" ∷ "ஂ" ∷ "ம" ∷ "ந" ∷ "வ" ∷ "ல" ∷ "ஸ" ∷ "," ∷ "." ∷ "ய" ∷ " "
    ∷ []

abbrev pub shift_capslock : List String
shift_capslock =
    "ஒ" ∷ "க" ∷ "௨" ∷ "்ர" ∷ "₹" ∷ "ஜ்ஞ" ∷ "த்ர" ∷ "க்ஷ" ∷ "ஶ்ர" ∷ "(" ∷ ")" ∷ "ஃ" ∷ "" ∷ "ஔ" ∷ "ஐ"
    ∷ "ஆ" ∷ "ஈ" ∷ "ஊ" ∷ "" ∷ "ங" ∷ "" ∷ "" ∷ "ச" ∷ "" ∷ "" ∷ "" ∷ "ஓ" ∷ "ஏ" ∷ "அ" ∷ "இ" ∷ "உ" ∷ ""
    ∷ "ற" ∷ "" ∷ "" ∷ "" ∷ "" ∷ "எ" ∷ "" ∷ "ண" ∷ "ன" ∷ "ழ" ∷ "ள" ∷ "ஶ" ∷ "ஷ" ∷ "ஸ்ரீ" ∷ "?" ∷ " "
    ∷ []

abbrev pub key_map : List (List String)
key_map =
    normal ∷ shift ∷ alt_gr ∷ alt_gr ∷ capslock ∷ shift_capslock ∷ alt_gr ∷ shift_capslock ∷ []
