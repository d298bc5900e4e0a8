-- ===== src/Layouts/CkbEn.antt =====
-- The `ckb_en` layout: chromium-patches/rulebased-payload/chromeos/ash/services/ime/public/cpp/
-- rulebased/def/ckb_en.cc.
use Prim.Native.String.{String}
use chromiumos_devenv.Common.{Bool, false, List, [], ◌∷◌}

abbrev pub id : String
id = "ckb_en"

abbrev pub is_102 : Bool
is_102 = false

abbrev pub normal : List String
normal =
    "€" ∷ "\u{661}" ∷ "\u{662}" ∷ "\u{663}" ∷ "\u{664}" ∷ "\u{665}" ∷ "\u{666}" ∷ "\u{667}"
    ∷ "\u{668}" ∷ "\u{669}" ∷ "\u{660}" ∷ "-" ∷ "=" ∷ "\u{642}" ∷ "\u{648}" ∷ "\u{6d5}" ∷ "\u{631}"
    ∷ "\u{62a}" ∷ "\u{6cc}" ∷ "\u{626}" ∷ "\u{62d}" ∷ "\u{6c6}" ∷ "\u{67e}" ∷ "}" ∷ "{" ∷ "\\"
    ∷ "\u{627}" ∷ "\u{633}" ∷ "\u{62f}" ∷ "\u{641}" ∷ "\u{6af}" ∷ "\u{647}" ∷ "\u{698}" ∷ "\u{6a9}"
    ∷ "\u{644}" ∷ "\u{61b}" ∷ "'" ∷ "\u{632}" ∷ "\u{62e}" ∷ "\u{62c}" ∷ "\u{6a4}" ∷ "\u{628}"
    ∷ "\u{646}" ∷ "\u{645}" ∷ "،" ∷ "." ∷ "/" ∷ " " ∷ []

abbrev pub shift : List String
shift =
    "~" ∷ "!" ∷ "@" ∷ "#" ∷ "$" ∷ "%" ∷ "»" ∷ "«" ∷ "*" ∷ ")" ∷ "(" ∷ "_" ∷ "+" ∷ "`"
    ∷ "\u{648}\u{648}" ∷ "\u{64a}" ∷ "\u{695}" ∷ "\u{637}" ∷ "\u{6ce}" ∷ "\u{621}" ∷ "\u{639}"
    ∷ "\u{624}" ∷ "\u{62b}" ∷ "]" ∷ "[" ∷ "|" ∷ "\u{622}" ∷ "\u{634}" ∷ "\u{630}" ∷ "\u{625}"
    ∷ "\u{63a}" ∷ "\u{200c}" ∷ "\u{623}" ∷ "\u{643}" ∷ "\u{6b5}" ∷ ":" ∷ "\"" ∷ "\u{636}"
    ∷ "\u{635}" ∷ "\u{686}" ∷ "\u{638}" ∷ "\u{649}" ∷ "\u{629}" ∷ "\u{640}" ∷ ">" ∷ "<" ∷ "\u{61f}"
    ∷ "\u{200c}" ∷ []

abbrev pub key_map : List (List String)
key_map = normal ∷ shift ∷ normal ∷ shift ∷ normal ∷ shift ∷ normal ∷ shift ∷ []
