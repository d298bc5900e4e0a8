-- ===== src/Layouts/Ar.antt =====
-- The `ar` layout: chromium-patches/rulebased-payload/chromeos/ash/services/ime/public/cpp/
-- rulebased/def/ar.cc.
use Prim.Native.String.{String}
use chromiumos_devenv.Common.{Bool, false, List, [], ◌∷◌}

abbrev pub id : String
id = "ar"

abbrev pub is_102 : Bool
is_102 = false

abbrev pub normal : List String
normal =
    "\u{630}" ∷ "\u{661}" ∷ "\u{662}" ∷ "\u{663}" ∷ "\u{664}" ∷ "\u{665}" ∷ "\u{666}" ∷ "\u{667}"
    ∷ "\u{668}" ∷ "\u{669}" ∷ "\u{660}" ∷ "-" ∷ "=" ∷ "\u{636}" ∷ "\u{635}" ∷ "\u{62b}" ∷ "\u{642}"
    ∷ "\u{641}" ∷ "\u{63a}" ∷ "\u{639}" ∷ "\u{647}" ∷ "\u{62e}" ∷ "\u{62d}" ∷ "\u{62c}" ∷ "\u{62f}"
    ∷ "\\" ∷ "\u{634}" ∷ "\u{633}" ∷ "\u{64a}" ∷ "\u{628}" ∷ "\u{644}" ∷ "\u{627}" ∷ "\u{62a}"
    ∷ "\u{646}" ∷ "\u{645}" ∷ "\u{643}" ∷ "\u{637}" ∷ "\u{626}" ∷ "\u{621}" ∷ "\u{624}" ∷ "\u{631}"
    ∷ "\u{644}\u{627}" ∷ "\u{649}" ∷ "\u{629}" ∷ "\u{648}" ∷ "\u{632}" ∷ "\u{638}" ∷ " " ∷ []

abbrev pub shift : List String
shift =
    "ّ" ∷ "!" ∷ "\"" ∷ "#" ∷ "$" ∷ "%" ∷ "^" ∷ "&" ∷ "*" ∷ ")" ∷ "(" ∷ "_" ∷ "+" ∷ "َ" ∷ "ً" ∷ "ُ"
    ∷ "ٌ" ∷ "\u{644}\u{625}" ∷ "\u{625}" ∷ "‘" ∷ "÷" ∷ "×" ∷ "\u{61b}" ∷ "<" ∷ ">" ∷ "|" ∷ "ِ" ∷ "ٍ"
    ∷ "]" ∷ "[" ∷ "\u{644}\u{623}" ∷ "\u{623}" ∷ "\u{640}" ∷ "،" ∷ "/" ∷ ":" ∷ "@" ∷ "~" ∷ "ْ" ∷ "}"
    ∷ "{" ∷ "\u{644}\u{622}" ∷ "\u{622}" ∷ "’" ∷ "," ∷ "." ∷ "\u{61f}" ∷ " " ∷ []

abbrev pub alt_gr : List String
alt_gr =
    "\u{630}" ∷ "\u{661}" ∷ "\u{662}" ∷ "\u{663}" ∷ "\u{664}" ∷ "\u{665}" ∷ "\u{666}" ∷ "\u{667}"
    ∷ "\u{668}" ∷ "\u{669}" ∷ "\u{660}" ∷ "-" ∷ "=" ∷ "\u{636}" ∷ "\u{635}" ∷ "\u{62b}" ∷ "\u{642}"
    ∷ "\u{641}" ∷ "\u{63a}" ∷ "\u{639}" ∷ "\u{647}" ∷ "\u{62e}" ∷ "\u{62d}" ∷ "\u{62c}" ∷ "\u{62f}"
    ∷ "\\" ∷ "\u{634}" ∷ "\u{633}" ∷ "\u{64a}" ∷ "\u{628}" ∷ "\u{644}" ∷ "\u{627}" ∷ "\u{62a}"
    ∷ "\u{646}" ∷ "\u{645}" ∷ "\u{643}" ∷ "\u{637}" ∷ "\u{626}" ∷ "\u{621}" ∷ "\u{624}" ∷ "\u{631}"
    ∷ "\u{644}\u{627}" ∷ "\u{649}" ∷ "\u{629}" ∷ "\u{648}" ∷ "\u{632}" ∷ "\u{638}" ∷ " " ∷ []

abbrev pub capslock : List String
capslock =
    "\u{630}" ∷ "\u{661}" ∷ "\u{662}" ∷ "\u{663}" ∷ "\u{664}" ∷ "\u{665}" ∷ "\u{666}" ∷ "\u{667}"
    ∷ "\u{668}" ∷ "\u{669}" ∷ "\u{660}" ∷ "-" ∷ "=" ∷ "\u{636}" ∷ "\u{635}" ∷ "\u{62b}" ∷ "\u{642}"
    ∷ "\u{641}" ∷ "\u{63a}" ∷ "\u{639}" ∷ "\u{647}" ∷ "\u{62e}" ∷ "\u{62d}" ∷ "\u{62c}" ∷ "\u{62f}"
    ∷ "\\" ∷ "\u{634}" ∷ "\u{633}" ∷ "\u{64a}" ∷ "\u{628}" ∷ "\u{644}" ∷ "\u{627}" ∷ "\u{62a}"
    ∷ "\u{646}" ∷ "\u{645}" ∷ "\u{643}" ∷ "\u{637}" ∷ "\u{626}" ∷ "\u{621}" ∷ "\u{624}" ∷ "\u{631}"
    ∷ "\u{644}\u{627}" ∷ "\u{649}" ∷ "\u{629}" ∷ "\u{648}" ∷ "\u{632}" ∷ "\u{638}" ∷ " " ∷ []

abbrev pub shift_alt_gr : List String
shift_alt_gr =
    "ّ" ∷ "!" ∷ "\"" ∷ "#" ∷ "$" ∷ "%" ∷ "^" ∷ "&" ∷ "*" ∷ ")" ∷ "(" ∷ "_" ∷ "+" ∷ "َ" ∷ "ً" ∷ "ُ"
    ∷ "ٌ" ∷ "\u{644}\u{625}" ∷ "\u{625}" ∷ "‘" ∷ "÷" ∷ "×" ∷ "\u{61b}" ∷ "<" ∷ ">" ∷ "|" ∷ "ِ" ∷ "ٍ"
    ∷ "]" ∷ "[" ∷ "\u{644}\u{623}" ∷ "\u{623}" ∷ "\u{640}" ∷ "،" ∷ "/" ∷ ":" ∷ "@" ∷ "~" ∷ "ْ" ∷ "}"
    ∷ "{" ∷ "\u{644}\u{622}" ∷ "\u{622}" ∷ "’" ∷ "," ∷ "." ∷ "\u{61f}" ∷ " " ∷ []

abbrev pub altgr_capslock : List String
altgr_capslock =
    "\u{630}" ∷ "\u{661}" ∷ "\u{662}" ∷ "\u{663}" ∷ "\u{664}" ∷ "\u{665}" ∷ "\u{666}" ∷ "\u{667}"
    ∷ "\u{668}" ∷ "\u{669}" ∷ "\u{660}" ∷ "-" ∷ "=" ∷ "\u{636}" ∷ "\u{635}" ∷ "\u{62b}" ∷ "\u{642}"
    ∷ "\u{641}" ∷ "\u{63a}" ∷ "\u{639}" ∷ "\u{647}" ∷ "\u{62e}" ∷ "\u{62d}" ∷ "\u{62c}" ∷ "\u{62f}"
    ∷ "\\" ∷ "\u{634}" ∷ "\u{633}" ∷ "\u{64a}" ∷ "\u{628}" ∷ "\u{644}" ∷ "\u{627}" ∷ "\u{62a}"
    ∷ "\u{646}" ∷ "\u{645}" ∷ "\u{643}" ∷ "\u{637}" ∷ "\u{626}" ∷ "\u{621}" ∷ "\u{624}" ∷ "\u{631}"
    ∷ "\u{644}\u{627}" ∷ "\u{649}" ∷ "\u{629}" ∷ "\u{648}" ∷ "\u{632}" ∷ "\u{638}" ∷ " " ∷ []

abbrev pub shift_capslock : List String
shift_capslock =
    "ّ" ∷ "!" ∷ "\"" ∷ "#" ∷ "$" ∷ "%" ∷ "^" ∷ "&" ∷ "*" ∷ ")" ∷ "(" ∷ "_" ∷ "+" ∷ "َ" ∷ "ً" ∷ "ُ"
    ∷ "ٌ" ∷ "\u{644}\u{625}" ∷ "\u{625}" ∷ "‘" ∷ "÷" ∷ "×" ∷ "\u{61b}" ∷ "<" ∷ ">" ∷ "|" ∷ "ِ" ∷ "ٍ"
    ∷ "]" ∷ "[" ∷ "\u{644}\u{623}" ∷ "\u{623}" ∷ "\u{640}" ∷ "،" ∷ "/" ∷ ":" ∷ "@" ∷ "~" ∷ "ْ" ∷ "}"
    ∷ "{" ∷ "\u{644}\u{622}" ∷ "\u{622}" ∷ "’" ∷ "," ∷ "." ∷ "\u{61f}" ∷ " " ∷ []

abbrev pub shift_alt_gr_capslock : List String
shift_alt_gr_capslock =
    "ّ" ∷ "!" ∷ "\"" ∷ "#" ∷ "$" ∷ "%" ∷ "^" ∷ "&" ∷ "*" ∷ ")" ∷ "(" ∷ "_" ∷ "+" ∷ "َ" ∷ "ً" ∷ "ُ"
    ∷ "ٌ" ∷ "\u{644}\u{625}" ∷ "\u{625}" ∷ "‘" ∷ "÷" ∷ "×" ∷ "\u{61b}" ∷ "<" ∷ ">" ∷ "|" ∷ "ِ" ∷ "ٍ"
    ∷ "]" ∷ "[" ∷ "\u{644}\u{623}" ∷ "\u{623}" ∷ "\u{640}" ∷ "،" ∷ "/" ∷ ":" ∷ "@" ∷ "~" ∷ "ْ" ∷ "}"
    ∷ "{" ∷ "\u{644}\u{622}" ∷ "\u{622}" ∷ "’" ∷ "," ∷ "." ∷ "\u{61f}" ∷ " " ∷ []

abbrev pub key_map : List (List String)
key_map =
    normal ∷ shift ∷ alt_gr ∷ shift_alt_gr ∷ capslock ∷ shift_capslock ∷ altgr_capslock
    ∷ shift_alt_gr_capslock ∷ []
