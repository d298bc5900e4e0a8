-- ===== src/Layouts/CkbAr.antt =====
-- The `ckb_ar` layout: chromium-patches/rulebased-payload/chromeos/ash/services/ime/public/cpp/
-- rulebased/def/ckb_ar.cc.
use Prim.Native.String.{String}
use chromiumos_devenv.Common.{Bool, false, List, [], ◌∷◌}

abbrev pub id : String
id = "ckb_ar"

abbrev pub is_102 : Bool
is_102 = false

abbrev pub normal : List String
normal =
    "\u{698}" ∷ "\u{661}" ∷ "\u{662}" ∷ "\u{663}" ∷ "\u{664}" ∷ "\u{665}" ∷ "\u{666}" ∷ "\u{667}"
    ∷ "\u{668}" ∷ "\u{669}" ∷ "\u{660}" ∷ "-" ∷ "=" ∷ "\u{686}" ∷ "\u{635}" ∷ "\u{67e}" ∷ "\u{642}"
    ∷ "\u{641}" ∷ "\u{63a}" ∷ "\u{639}" ∷ "\u{647}" ∷ "\u{62e}" ∷ "\u{62d}" ∷ "\u{62c}" ∷ "\u{62f}"
    ∷ "\\" ∷ "\u{634}" ∷ "\u{633}" ∷ "\u{6cc}" ∷ "\u{628}" ∷ "\u{644}" ∷ "\u{627}" ∷ "\u{62a}"
    ∷ "\u{646}" ∷ "\u{645}" ∷ "\u{6a9}" ∷ "\u{6af}" ∷ "\u{626}" ∷ "\u{621}" ∷ "\u{6c6}" ∷ "\u{631}"
    ∷ "\u{644}\u{627}" ∷ "\u{649}" ∷ "\u{647}\u{200c}" ∷ "\u{648}" ∷ "\u{632}" ∷ "/" ∷ " " ∷ []

abbrev pub shift : List String
shift =
    "~" ∷ "!" ∷ "@" ∷ "#" ∷ "$" ∷ "%" ∷ "»" ∷ "«" ∷ "*" ∷ ")" ∷ "(" ∷ "_" ∷ "+" ∷ "\u{636}" ∷ "}"
    ∷ "\u{62b}" ∷ "{" ∷ "\u{6a4}" ∷ "\u{625}" ∷ "" ∷ "'" ∷ "\"" ∷ "\u{61b}" ∷ ">" ∷ "<" ∷ "|" ∷ "]"
    ∷ "[" ∷ "\u{6ce}" ∷ "" ∷ "\u{6b5}" ∷ "\u{623}" ∷ "\u{640}" ∷ "،" ∷ "/" ∷ ":" ∷ "\u{637}" ∷ "⤄"
    ∷ "\u{648}\u{648}" ∷ "\u{624}" ∷ "\u{695}" ∷ "\u{6b5}\u{627}" ∷ "\u{622}" ∷ "\u{629}" ∷ ","
    ∷ "." ∷ "\u{61f}" ∷ "\u{200c}" ∷ []

abbrev pub key_map : List (List String)
key_map = normal ∷ shift ∷ normal ∷ shift ∷ normal ∷ shift ∷ normal ∷ shift ∷ []
