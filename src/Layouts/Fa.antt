-- ===== src/Layouts/Fa.antt =====
-- The `fa` layout: chromium-patches/rulebased-payload/chromeos/ash/services/ime/public/cpp/
-- rulebased/def/fa.cc.
use Prim.Native.String.{String}
use chromiumos_devenv.Common.{Bool, false, List, [], ◌∷◌}

abbrev pub id : String
id = "fa"

abbrev pub is_102 : Bool
is_102 = false

abbrev pub normal : List String
normal =
    "\u{200d}" ∷ "۱" ∷ "۲" ∷ "۳" ∷ "۴" ∷ "۵" ∷ "۶" ∷ "۷" ∷ "۸" ∷ "۹" ∷ "۰" ∷ "-" ∷ "=" ∷ "\u{636}"
    ∷ "\u{635}" ∷ "\u{62b}" ∷ "\u{642}" ∷ "\u{641}" ∷ "\u{63a}" ∷ "\u{639}" ∷ "\u{647}" ∷ "\u{62e}"
    ∷ "\u{62d}" ∷ "\u{62c}" ∷ "\u{686}" ∷ "\\" ∷ "\u{634}" ∷ "\u{633}" ∷ "\u{6cc}" ∷ "\u{628}"
    ∷ "\u{644}" ∷ "\u{627}" ∷ "\u{62a}" ∷ "\u{646}" ∷ "\u{645}" ∷ "\u{6a9}" ∷ "\u{6af}" ∷ "\u{638}"
    ∷ "\u{637}" ∷ "\u{632}" ∷ "\u{631}" ∷ "\u{630}" ∷ "\u{62f}" ∷ "\u{67e}" ∷ "\u{648}" ∷ "." ∷ "/"
    ∷ " " ∷ []

abbrev pub shift : List String
shift =
    "" ∷ "!" ∷ "\u{66c}" ∷ "\u{66b}" ∷ "\u{631}\u{6cc}\u{627}\u{644}" ∷ "٪" ∷ "×" ∷ "،" ∷ "*" ∷ ")"
    ∷ "(" ∷ "\u{640}" ∷ "+" ∷ "ْ" ∷ "ٌ" ∷ "ٍ" ∷ "ً" ∷ "ُ" ∷ "ِ" ∷ "َ" ∷ "ّ" ∷ "]" ∷ "[" ∷ "}" ∷ "{"
    ∷ "|" ∷ "\u{624}" ∷ "\u{626}" ∷ "\u{64a}" ∷ "\u{625}" ∷ "\u{623}" ∷ "\u{622}" ∷ "\u{629}" ∷ "»"
    ∷ "«" ∷ ":" ∷ "\u{61b}" ∷ "\u{643}" ∷ "" ∷ "\u{698}" ∷ "" ∷ "\u{200c}" ∷ "" ∷ "\u{621}" ∷ "<"
    ∷ ">" ∷ "\u{61f}" ∷ "\u{200c}" ∷ []

abbrev pub alt_gr : List String
alt_gr =
    "~" ∷ "`" ∷ "@" ∷ "#" ∷ "$" ∷ "%" ∷ "^" ∷ "&" ∷ "•" ∷ "\u{200e}" ∷ "\u{200f}" ∷ "_" ∷ "−" ∷ "°"
    ∷ "" ∷ "€" ∷ "" ∷ "" ∷ "" ∷ "" ∷ "\u{202d}" ∷ "\u{202e}" ∷ "\u{202c}" ∷ "\u{202a}" ∷ "\u{202b}"
    ∷ "‐" ∷ "" ∷ "" ∷ "\u{649}" ∷ "" ∷ "" ∷ "\u{671}" ∷ "" ∷ "﴾" ∷ "﴿" ∷ ";" ∷ "\"" ∷ "\u{a0}" ∷ ""
    ∷ "" ∷ "ٖ" ∷ "\u{200d}" ∷ "ٕ" ∷ "…" ∷ "," ∷ "'" ∷ "?" ∷ " " ∷ []

abbrev pub capslock : List String
capslock =
    "\u{200d}" ∷ "۱" ∷ "۲" ∷ "۳" ∷ "۴" ∷ "۵" ∷ "۶" ∷ "۷" ∷ "۸" ∷ "۹" ∷ "۰" ∷ "-" ∷ "=" ∷ "\u{636}"
    ∷ "\u{635}" ∷ "\u{62b}" ∷ "\u{642}" ∷ "\u{641}" ∷ "\u{63a}" ∷ "\u{639}" ∷ "\u{647}" ∷ "\u{62e}"
    ∷ "\u{62d}" ∷ "\u{62c}" ∷ "\u{686}" ∷ "\\" ∷ "\u{634}" ∷ "\u{633}" ∷ "\u{6cc}" ∷ "\u{628}"
    ∷ "\u{644}" ∷ "\u{627}" ∷ "\u{62a}" ∷ "\u{646}" ∷ "\u{645}" ∷ "\u{6a9}" ∷ "\u{6af}" ∷ "\u{638}"
    ∷ "\u{637}" ∷ "\u{632}" ∷ "\u{631}" ∷ "\u{630}" ∷ "\u{62f}" ∷ "\u{67e}" ∷ "\u{648}" ∷ "." ∷ "/"
    ∷ " " ∷ []

abbrev pub shift_capslock : List String
shift_capslock =
    "" ∷ "!" ∷ "\u{66c}" ∷ "\u{66b}" ∷ "\u{631}\u{6cc}\u{627}\u{644}" ∷ "٪" ∷ "×" ∷ "،" ∷ "*" ∷ ")"
    ∷ "(" ∷ "\u{640}" ∷ "+" ∷ "ْ" ∷ "ٌ" ∷ "ٍ" ∷ "ً" ∷ "ُ" ∷ "ِ" ∷ "َ" ∷ "ّ" ∷ "]" ∷ "[" ∷ "}" ∷ "{"
    ∷ "|" ∷ "\u{624}" ∷ "\u{626}" ∷ "\u{64a}" ∷ "\u{625}" ∷ "\u{623}" ∷ "\u{622}" ∷ "\u{629}" ∷ "»"
    ∷ "«" ∷ ":" ∷ "\u{61b}" ∷ "\u{643}" ∷ "" ∷ "\u{698}" ∷ "" ∷ "\u{200c}" ∷ "" ∷ "\u{621}" ∷ "<"
    ∷ ">" ∷ "\u{61f}" ∷ "\u{200c}" ∷ []

abbrev pub key_map : List (List String)
key_map =
    normal ∷ shift ∷ alt_gr ∷ alt_gr ∷ capslock ∷ shift_capslock ∷ alt_gr ∷ shift_capslock ∷ []
