-- ===== src/Layouts/NeInscript.antt =====
-- The `ne_inscript` layout: chromium-patches/rulebased-payload/chromeos/ash/services/ime/public/cpp/
-- rulebased/def/ne_inscript.cc.
use Prim.Native.String.{String}
use chromiumos_devenv.Common.{Bool, false, List, [], ◌∷◌}

abbrev pub id : String
id = "ne_inscript"

abbrev pub is_102 : Bool
is_102 = false

abbrev pub normal : List String
normal =
    "ञ" ∷ "१" ∷ "२" ∷ "३" ∷ "४" ∷ "५" ∷ "६" ∷ "७" ∷ "८" ∷ "९" ∷ "०" ∷ "औ" ∷ "\u{200d}" ∷ "त्र" ∷ "ध"
    ∷ "भ" ∷ "च" ∷ "त" ∷ "थ" ∷ "ग" ∷ "ष" ∷ "य" ∷ "उ" ∷ "र्" ∷ "े" ∷ "्" ∷ "ब" ∷ "क" ∷ "म" ∷ "ा" ∷ "न"
    ∷ "ज" ∷ "व" ∷ "प" ∷ "ि" ∷ "स" ∷ "ु" ∷ "श" ∷ "ह" ∷ "अ" ∷ "ख" ∷ "द" ∷ "ल" ∷ "ः" ∷ "ऽ" ∷ "।" ∷ "र"
    ∷ " " ∷ []

abbrev pub shift : List String
shift =
    "॥" ∷ "ज्ञ" ∷ "ई" ∷ "घ" ∷ "$" ∷ "छ" ∷ "ट" ∷ "ठ" ∷ "ड" ∷ "ढ" ∷ "ण" ∷ "ओ" ∷ "\u{200c}" ∷ "त्त"
    ∷ "ड्ढ" ∷ "ऐ" ∷ "द्व" ∷ "ट्ट" ∷ "ठ्ठ" ∷ "ऊ" ∷ "क्ष" ∷ "इ" ∷ "ए" ∷ "ृ" ∷ "ै" ∷ "ं" ∷ "आ" ∷ "ङ्क"
    ∷ "ङ्ग" ∷ "ँ" ∷ "द्द" ∷ "झ" ∷ "ो" ∷ "फ" ∷ "ी" ∷ "ट्ठ" ∷ "ू" ∷ "क्क" ∷ "ह्म" ∷ "ऋ" ∷ "ॐ" ∷ "ौ"
    ∷ "द्य" ∷ "ड्ड" ∷ "ङ" ∷ "श्र" ∷ "रु" ∷ " " ∷ []

abbrev pub capslock : List String
capslock =
    "ञ" ∷ "१" ∷ "२" ∷ "३" ∷ "४" ∷ "५" ∷ "६" ∷ "७" ∷ "८" ∷ "९" ∷ "०" ∷ "औ" ∷ "\u{200d}" ∷ "त्र" ∷ "ध"
    ∷ "भ" ∷ "च" ∷ "त" ∷ "थ" ∷ "ग" ∷ "ष" ∷ "य" ∷ "उ" ∷ "र्" ∷ "े" ∷ "्" ∷ "ब" ∷ "क" ∷ "म" ∷ "ा" ∷ "न"
    ∷ "ज" ∷ "व" ∷ "प" ∷ "ि" ∷ "स" ∷ "ु" ∷ "श" ∷ "ह" ∷ "अ" ∷ "ख" ∷ "द" ∷ "ल" ∷ "ः" ∷ "ऽ" ∷ "।" ∷ "र"
    ∷ " " ∷ []

abbrev pub shift_capslock : List String
shift_capslock =
    "॥" ∷ "ज्ञ" ∷ "ई" ∷ "घ" ∷ "$" ∷ "छ" ∷ "ट" ∷ "ठ" ∷ "ड" ∷ "ढ" ∷ "ण" ∷ "ओ" ∷ "\u{200c}" ∷ "त्त"
    ∷ "ड्ढ" ∷ "ऐ" ∷ "द्व" ∷ "ट्ट" ∷ "ठ्ठ" ∷ "ऊ" ∷ "क्ष" ∷ "इ" ∷ "ए" ∷ "ृ" ∷ "ै" ∷ "ं" ∷ "आ" ∷ "ङ्क"
    ∷ "ङ्ग" ∷ "ँ" ∷ "द्द" ∷ "झ" ∷ "ो" ∷ "फ" ∷ "ी" ∷ "ट्ठ" ∷ "ू" ∷ "क्क" ∷ "ह्म" ∷ "ऋ" ∷ "ॐ" ∷ "ौ"
    ∷ "द्य" ∷ "ड्ड" ∷ "ङ" ∷ "श्र" ∷ "रु" ∷ " " ∷ []

abbrev pub key_map : List (List String)
key_map =
    normal ∷ shift ∷ normal ∷ shift ∷ capslock ∷ shift_capslock ∷ capslock ∷ shift_capslock ∷ []
