-- ===== src/Layouts/NePhone.antt =====
-- The `ne_phone` layout: chromium-patches/rulebased-payload/chromeos/ash/services/ime/public/cpp/
-- rulebased/def/ne_phone.cc.
use Prim.Native.String.{String}
use chromiumos_devenv.Common.{Bool, false, List, [], ◌∷◌}

abbrev pub id : String
id = "ne_phone"

abbrev pub is_102 : Bool
is_102 = false

abbrev pub normal : List String
normal =
    "़" ∷ "१" ∷ "२" ∷ "३" ∷ "४" ∷ "५" ∷ "६" ∷ "७" ∷ "८" ∷ "९" ∷ "०" ∷ "-" ∷ "\u{200d}" ∷ "ट" ∷ "ौ"
    ∷ "े" ∷ "र" ∷ "त" ∷ "य" ∷ "ु" ∷ "ि" ∷ "ो" ∷ "प" ∷ "इ" ∷ "ए" ∷ "ॐ" ∷ "ा" ∷ "स" ∷ "द" ∷ "उ" ∷ "ग"
    ∷ "ह" ∷ "ज" ∷ "क" ∷ "ल" ∷ ";" ∷ "'" ∷ "ष" ∷ "ड" ∷ "च" ∷ "व" ∷ "ब" ∷ "न" ∷ "म" ∷ "," ∷ "।" ∷ "्"
    ∷ " " ∷ []

abbrev pub shift : List String
shift =
    "ऽ" ∷ "!" ∷ "@" ∷ "#" ∷ "रु." ∷ "%" ∷ "^" ∷ "&" ∷ "*" ∷ "(" ∷ ")" ∷ "_" ∷ "\u{200c}" ∷ "ठ" ∷ "औ"
    ∷ "ै" ∷ "ृ" ∷ "थ" ∷ "ञ" ∷ "ू" ∷ "ी" ∷ "ओ" ∷ "फ" ∷ "ई" ∷ "ऐ" ∷ "ः" ∷ "आ" ∷ "श" ∷ "ध" ∷ "ऊ" ∷ "घ"
    ∷ "अ" ∷ "झ" ∷ "ख" ∷ "॥" ∷ ":" ∷ "\"" ∷ "ऋ" ∷ "ढ" ∷ "छ" ∷ "ँ" ∷ "भ" ∷ "ण" ∷ "ं" ∷ "ङ" ∷ "." ∷ "?"
    ∷ " " ∷ []

abbrev pub capslock : List String
capslock =
    "़" ∷ "१" ∷ "२" ∷ "३" ∷ "४" ∷ "५" ∷ "६" ∷ "७" ∷ "८" ∷ "९" ∷ "०" ∷ "-" ∷ "\u{200d}" ∷ "ट" ∷ "ौ"
    ∷ "े" ∷ "र" ∷ "त" ∷ "य" ∷ "ु" ∷ "ि" ∷ "ो" ∷ "प" ∷ "इ" ∷ "ए" ∷ "ॐ" ∷ "ा" ∷ "स" ∷ "द" ∷ "उ" ∷ "ग"
    ∷ "ह" ∷ "ज" ∷ "क" ∷ "ल" ∷ ";" ∷ "'" ∷ "ष" ∷ "ड" ∷ "च" ∷ "व" ∷ "ब" ∷ "न" ∷ "म" ∷ "," ∷ "।" ∷ "्"
    ∷ " " ∷ []

abbrev pub shift_capslock : List String
shift_capslock =
    "ऽ" ∷ "!" ∷ "@" ∷ "#" ∷ "रु." ∷ "%" ∷ "^" ∷ "&" ∷ "*" ∷ "(" ∷ ")" ∷ "_" ∷ "\u{200c}" ∷ "ठ" ∷ "औ"
    ∷ "ै" ∷ "ृ" ∷ "थ" ∷ "ञ" ∷ "ू" ∷ "ी" ∷ "ओ" ∷ "फ" ∷ "ई" ∷ "ऐ" ∷ "ः" ∷ "आ" ∷ "श" ∷ "ध" ∷ "ऊ" ∷ "घ"
    ∷ "अ" ∷ "झ" ∷ "ख" ∷ "॥" ∷ ":" ∷ "\"" ∷ "ऋ" ∷ "ढ" ∷ "छ" ∷ "ँ" ∷ "भ" ∷ "ण" ∷ "ं" ∷ "ङ" ∷ "." ∷ "?"
    ∷ " " ∷ []

abbrev pub key_map : List (List String)
key_map =
    normal ∷ shift ∷ normal ∷ shift ∷ capslock ∷ shift_capslock ∷ capslock ∷ shift_capslock ∷ []
