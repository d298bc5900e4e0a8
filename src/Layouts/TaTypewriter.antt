-- ===== src/Layouts/TaTypewriter.antt =====
-- The `ta_typewriter` layout: chromium-patches/rulebased-payload/chromeos/ash/services/ime/public/cpp/
-- rulebased/def/ta_typewriter.cc.
use Prim.Native.String.{String}
use chromiumos_devenv.Common.{Bool, false, List, [], ◌∷◌}

abbrev pub id : String
id = "ta_typewriter"

abbrev pub is_102 : Bool
is_102 = false

abbrev pub normal : List String
normal =
    "ஃ" ∷ "1" ∷ "2" ∷ "3" ∷ "4" ∷ "5" ∷ "6" ∷ "7" ∷ "8" ∷ "9" ∷ "0" ∷ "/" ∷ "=" ∷ "ணு" ∷ "ற" ∷ "ந"
    ∷ "ச" ∷ "வ" ∷ "ல" ∷ "ர" ∷ "ை" ∷ "டி" ∷ "ி" ∷ "ு" ∷ "ஹ" ∷ "க்ஷ" ∷ "ய" ∷ "ள" ∷ "ன" ∷ "க" ∷ "ப"
    ∷ "ா" ∷ "த" ∷ "ம" ∷ "ட" ∷ "்" ∷ "ங" ∷ "ண" ∷ "ஒ" ∷ "உ" ∷ "எ" ∷ "ெ" ∷ "ே" ∷ "அ" ∷ "இ" ∷ "," ∷ "."
    ∷ " " ∷ []

abbrev pub shift : List String
shift =
    "'" ∷ "ஸ" ∷ "\"" ∷ "%" ∷ "ஜ" ∷ "ஶ" ∷ "ஷ" ∷ "" ∷ "" ∷ "(" ∷ ")" ∷ "ஸ்ரீ" ∷ "+" ∷ "" ∷ "று" ∷ "நு"
    ∷ "சு" ∷ "கூ" ∷ "லு" ∷ "ரு" ∷ "ஐ" ∷ "டீ" ∷ "ீ" ∷ "ூ" ∷ "ௌ" ∷ "௸" ∷ "" ∷ "ளு" ∷ "னு" ∷ "கு"
    ∷ "ழு" ∷ "ழ" ∷ "து" ∷ "மு" ∷ "டு" ∷ "\\" ∷ "ஞ" ∷ "ஷ" ∷ "ஓ" ∷ "ஊ" ∷ "ஏ" ∷ "க்ஷ" ∷ "சூ" ∷ "ஆ"
    ∷ "ஈ" ∷ "?" ∷ "-" ∷ " " ∷ []

abbrev pub capslock : List String
capslock =
    "'" ∷ "ஸ" ∷ "\"" ∷ "%" ∷ "ஜ" ∷ "ஶ" ∷ "ஷ" ∷ "" ∷ "" ∷ "(" ∷ ")" ∷ "ஸ்ரீ" ∷ "+" ∷ "" ∷ "று" ∷ "நு"
    ∷ "சு" ∷ "கூ" ∷ "லு" ∷ "ரு" ∷ "ஐ" ∷ "டீ" ∷ "ீ" ∷ "ூ" ∷ "ௌ" ∷ "௸" ∷ "" ∷ "ளு" ∷ "னு" ∷ "கு"
    ∷ "ழு" ∷ "ழ" ∷ "து" ∷ "மு" ∷ "டு" ∷ "\\" ∷ "ஞ" ∷ "ஷ" ∷ "ஓ" ∷ "ஊ" ∷ "ஏ" ∷ "க்ஷ" ∷ "சூ" ∷ "ஆ"
    ∷ "ஈ" ∷ "?" ∷ "-" ∷ " " ∷ []

abbrev pub shift_capslock : List String
shift_capslock =
    "ஃ" ∷ "1" ∷ "2" ∷ "3" ∷ "4" ∷ "5" ∷ "6" ∷ "7" ∷ "8" ∷ "9" ∷ "0" ∷ "/" ∷ "=" ∷ "ணு" ∷ "ற" ∷ "ந"
    ∷ "ச" ∷ "வ" ∷ "ல" ∷ "ர" ∷ "ை" ∷ "டி" ∷ "ி" ∷ "ு" ∷ "ஹ" ∷ "க்ஷ" ∷ "ய" ∷ "ள" ∷ "ன" ∷ "க" ∷ "ப"
    ∷ "ா" ∷ "த" ∷ "ம" ∷ "ட" ∷ "்" ∷ "ங" ∷ "ண" ∷ "ஒ" ∷ "உ" ∷ "எ" ∷ "ெ" ∷ "ே" ∷ "அ" ∷ "இ" ∷ "," ∷ "."
    ∷ " " ∷ []

abbrev pub key_map : List (List String)
key_map =
    normal ∷ shift ∷ normal ∷ shift ∷ capslock ∷ shift_capslock ∷ capslock ∷ shift_capslock ∷ []
