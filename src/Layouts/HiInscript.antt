-- ===== src/Layouts/HiInscript.antt =====
-- The `hi_inscript` layout: chromium-patches/rulebased-payload/chromeos/ash/services/ime/public/cpp/
-- rulebased/def/hi_inscript.cc.
use Prim.Native.String.{String}
use chromiumos_devenv.Common.{Bool, false, List, [], ◌∷◌}

abbrev pub id : String
id = "hi_inscript"

abbrev pub is_102 : Bool
is_102 = false

abbrev pub normal : List String
normal =
    "ॊ" ∷ "1" ∷ "2" ∷ "3" ∷ "4" ∷ "5" ∷ "6" ∷ "7" ∷ "8" ∷ "9" ∷ "0" ∷ "-" ∷ "ृ" ∷ "ौ" ∷ "ै" ∷ "ा"
    ∷ "ी" ∷ "ू" ∷ "ब" ∷ "ह" ∷ "ग" ∷ "द" ∷ "ज" ∷ "ड" ∷ "़" ∷ "ॉ" ∷ "ो" ∷ "े" ∷ "्" ∷ "ि" ∷ "ु" ∷ "प"
    ∷ "र" ∷ "क" ∷ "त" ∷ "च" ∷ "ट" ∷ "ॆ" ∷ "ं" ∷ "म" ∷ "न" ∷ "व" ∷ "ल" ∷ "स" ∷ "," ∷ "." ∷ "य" ∷ " "
    ∷ []

abbrev pub shift : List String
shift =
    "ऒ" ∷ "ऍ" ∷ "ॅ" ∷ "्र" ∷ "र्" ∷ "ज्ञ" ∷ "त्र" ∷ "क्ष" ∷ "श्र" ∷ "(" ∷ ")" ∷ "ः" ∷ "ऋ" ∷ "औ"
    ∷ "ऐ" ∷ "आ" ∷ "ई" ∷ "ऊ" ∷ "भ" ∷ "ङ" ∷ "घ" ∷ "ध" ∷ "झ" ∷ "ढ" ∷ "ञ" ∷ "ऑ" ∷ "ओ" ∷ "ए" ∷ "अ" ∷ "इ"
    ∷ "उ" ∷ "फ" ∷ "ऱ" ∷ "ख" ∷ "थ" ∷ "छ" ∷ "ठ" ∷ "ऎ" ∷ "ँ" ∷ "ण" ∷ "ऩ" ∷ "ऴ" ∷ "ळ" ∷ "श" ∷ "ष" ∷ "।"
    ∷ "य़" ∷ " " ∷ []

abbrev pub alt_gr : List String
alt_gr =
    "" ∷ "\u{200d}" ∷ "\u{200c}" ∷ "" ∷ "₹" ∷ "" ∷ "" ∷ "" ∷ "" ∷ "" ∷ "" ∷ "" ∷ "ॄ" ∷ "" ∷ "" ∷ ""
    ∷ "ॣ" ∷ "" ∷ "" ∷ "" ∷ "ग़" ∷ "" ∷ "ज़" ∷ "ड़" ∷ "" ∷ "" ∷ "" ∷ "" ∷ "" ∷ "ॢ" ∷ "" ∷ "" ∷ "" ∷ "क़"
    ∷ "" ∷ "" ∷ "" ∷ "" ∷ "" ∷ "" ∷ "" ∷ "" ∷ "" ∷ "" ∷ "॰" ∷ "॥" ∷ "" ∷ "" ∷ []

abbrev pub shift_alt_gr : List String
shift_alt_gr =
    "" ∷ "" ∷ "" ∷ "" ∷ "" ∷ "" ∷ "" ∷ "" ∷ "" ∷ "" ∷ "" ∷ "" ∷ "ॠ" ∷ "" ∷ "" ∷ "" ∷ "ॡ" ∷ "" ∷ ""
    ∷ "" ∷ "" ∷ "" ∷ "" ∷ "ढ़" ∷ "" ∷ "" ∷ "" ∷ "" ∷ "" ∷ "ऌ" ∷ "" ∷ "फ़" ∷ "" ∷ "ख़" ∷ "" ∷ "" ∷ ""
    ∷ "" ∷ "ॐ" ∷ "" ∷ "" ∷ "" ∷ "" ∷ "" ∷ "" ∷ "ऽ" ∷ "" ∷ "" ∷ []

abbrev pub capslock : List String
capslock =
    "ॊ" ∷ "१" ∷ "२" ∷ "३" ∷ "४" ∷ "५" ∷ "६" ∷ "७" ∷ "८" ∷ "९" ∷ "०" ∷ "-" ∷ "ृ" ∷ "ौ" ∷ "ै" ∷ "ा"
    ∷ "ी" ∷ "ू" ∷ "ब" ∷ "ह" ∷ "ग" ∷ "द" ∷ "ज" ∷ "ड" ∷ "़" ∷ "ॉ" ∷ "ो" ∷ "े" ∷ "्" ∷ "ि" ∷ "ु" ∷ "प"
    ∷ "र" ∷ "क" ∷ "त" ∷ "च" ∷ "ट" ∷ "ॆ" ∷ "ं" ∷ "म" ∷ "न" ∷ "व" ∷ "ल" ∷ "स" ∷ "," ∷ "." ∷ "य" ∷ " "
    ∷ []

abbrev pub key_map : List (List String)
key_map = normal ∷ shift ∷ alt_gr ∷ shift_alt_gr ∷ capslock ∷ shift ∷ alt_gr ∷ shift_alt_gr ∷ []
