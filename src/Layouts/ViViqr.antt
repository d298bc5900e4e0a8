-- ===== src/Layouts/ViViqr.antt =====
-- The `vi_viqr` layout: chromium-patches/rulebased-payload/chromeos/ash/services/ime/public/cpp/
-- rulebased/def/vi_viqr.cc.
use Prim.Native.String.{String}
use chromiumos_devenv.Common.{Bool, false, List, [], ◌∷◌, ℕ, Option, none}

abbrev pub id : String
id = "vi_viqr"

abbrev pub is_102 : Bool
is_102 = false

abbrev pub transforms : List String
transforms =
    "dd" ∷ "đ" ∷ "D[dD]" ∷ "Đ" ∷ "a\\(" ∷ "ă" ∷ "a\\^" ∷ "â" ∷ "e\\^" ∷ "ê" ∷ "o\\^" ∷ "ô" ∷ "o\\+"
    ∷ "ơ" ∷ "u\\+" ∷ "ư" ∷ "A\\(" ∷ "Ă" ∷ "A\\^" ∷ "Â" ∷ "E\\^" ∷ "Ê" ∷ "O\\^" ∷ "Ô" ∷ "O\\+" ∷ "Ơ"
    ∷ "U\\+" ∷ "Ư" ∷ "\\\\\\(" ∷ "(" ∷ "\\\\\\^" ∷ "^" ∷ "\\\\\\+" ∷ "+" ∷ "\\\\\\`" ∷ "`"
    ∷ "\\\\\\'" ∷ "'" ∷ "\\\\\\?" ∷ "?" ∷ "\\\\\\~" ∷ "~" ∷ "\\\\\\." ∷ "." ∷ "\\`" ∷ "̀" ∷ "\\'"
    ∷ "́" ∷ "\\?" ∷ "̉" ∷ "\\~" ∷ "̃" ∷ "\\." ∷ "̣" ∷ []

abbrev pub transforms_len : ℕ
transforms_len = 54

abbrev pub history_prune : Option String
history_prune = none
