-- ===== src/Layouts/Km.antt =====
-- The `km` layout: chromium-patches/rulebased-payload/chromeos/ash/services/ime/public/cpp/
-- rulebased/def/km.cc.
use Prim.Native.String.{String}
use chromiumos_devenv.Common.{Bool, false, List, [], ◌∷◌}

abbrev pub id : String
id = "km"

abbrev pub is_102 : Bool
is_102 = false

abbrev pub normal : List String
normal =
    "«" ∷ "១" ∷ "២" ∷ "៣" ∷ "៤" ∷ "៥" ∷ "៦" ∷ "៧" ∷ "៨" ∷ "៩" ∷ "០" ∷ "ឥ" ∷ "ឲ" ∷ "ឆ" ∷ "ឹ" ∷ "េ"
    ∷ "រ" ∷ "ត" ∷ "យ" ∷ "ុ" ∷ "ិ" ∷ "ោ" ∷ "ផ" ∷ "ៀ" ∷ "ឪ" ∷ "ឮ" ∷ "ា" ∷ "ស" ∷ "ដ" ∷ "ថ" ∷ "ង" ∷ "ហ"
    ∷ "្" ∷ "ក" ∷ "ល" ∷ "ើ" ∷ "់" ∷ "ឋ" ∷ "ខ" ∷ "ច" ∷ "វ" ∷ "ប" ∷ "ន" ∷ "ម" ∷ "ុំ" ∷ "។" ∷ "៊"
    ∷ "\u{200b}" ∷ []

abbrev pub shift : List String
shift =
    "»" ∷ "!" ∷ "ៗ" ∷ "\"" ∷ "៛" ∷ "%" ∷ "៍" ∷ "័" ∷ "៏" ∷ "(" ∷ ")" ∷ "៌" ∷ "=" ∷ "ឈ" ∷ "ឺ" ∷ "ែ"
    ∷ "ឬ" ∷ "ទ" ∷ "ួ" ∷ "ូ" ∷ "ី" ∷ "ៅ" ∷ "ភ" ∷ "ឿ" ∷ "ឧ" ∷ "ឭ" ∷ "ាំ" ∷ "ៃ" ∷ "ឌ" ∷ "ធ" ∷ "អ" ∷ "ះ"
    ∷ "ញ" ∷ "គ" ∷ "ឡ" ∷ "ោះ" ∷ "៉" ∷ "ឍ" ∷ "ឃ" ∷ "ជ" ∷ "េះ" ∷ "ព" ∷ "ណ" ∷ "ំ" ∷ "ុះ" ∷ "៕" ∷ "?"
    ∷ " " ∷ []

abbrev pub alt_gr : List String
alt_gr =
    "\u{200d}" ∷ "\u{200c}" ∷ "@" ∷ "៑" ∷ "$" ∷ "€" ∷ "៙" ∷ "៚" ∷ "*" ∷ "{" ∷ "}" ∷ "×" ∷ "៎" ∷ "ៜ"
    ∷ "៝" ∷ "ឯ" ∷ "ឫ" ∷ "ឨ" ∷ "" ∷ "" ∷ "ឦ" ∷ "ឱ" ∷ "ឰ" ∷ "ឩ" ∷ "ឳ" ∷ "\\" ∷ "+" ∷ "-" ∷ "" ∷ ""
    ∷ "" ∷ "" ∷ "" ∷ "ឝ" ∷ "" ∷ "៖" ∷ "ៈ" ∷ "" ∷ "" ∷ "" ∷ "" ∷ "ឞ" ∷ "" ∷ "" ∷ "," ∷ "." ∷ "/"
    ∷ " " ∷ []

abbrev pub capslock : List String
capslock =
    "»" ∷ "!" ∷ "ៗ" ∷ "\"" ∷ "៛" ∷ "%" ∷ "៍" ∷ "័" ∷ "៏" ∷ "(" ∷ ")" ∷ "៌" ∷ "=" ∷ "ឈ" ∷ "ឺ" ∷ "ែ"
    ∷ "ឬ" ∷ "ទ" ∷ "ួ" ∷ "ូ" ∷ "ី" ∷ "ៅ" ∷ "ភ" ∷ "ឿ" ∷ "ឧ" ∷ "ឭ" ∷ "ាំ" ∷ "ៃ" ∷ "ឌ" ∷ "ធ" ∷ "អ" ∷ "ះ"
    ∷ "ញ" ∷ "គ" ∷ "ឡ" ∷ "ោះ" ∷ "៉" ∷ "ឍ" ∷ "ឃ" ∷ "ជ" ∷ "េះ" ∷ "ព" ∷ "ណ" ∷ "ំ" ∷ "ុះ" ∷ "៕" ∷ "?"
    ∷ " " ∷ []

abbrev pub shift_alt_gr : List String
shift_alt_gr =
    "" ∷ "៱" ∷ "៲" ∷ "៳" ∷ "៴" ∷ "៵" ∷ "៶" ∷ "៷" ∷ "៸" ∷ "៹" ∷ "៰" ∷ "" ∷ "" ∷ "᧠" ∷ "᧡" ∷ "᧢" ∷ "᧣"
    ∷ "᧤" ∷ "᧥" ∷ "᧦" ∷ "᧧" ∷ "᧨" ∷ "᧩" ∷ "᧪" ∷ "᧫" ∷ "" ∷ "᧬" ∷ "᧭" ∷ "᧮" ∷ "᧯" ∷ "᧰" ∷ "᧱" ∷ "᧲"
    ∷ "᧳" ∷ "᧴" ∷ "᧵" ∷ "᧶" ∷ "᧷" ∷ "᧸" ∷ "᧹" ∷ "᧺" ∷ "᧻" ∷ "᧼" ∷ "᧽" ∷ "᧾" ∷ "᧿" ∷ "" ∷ " " ∷ []

abbrev pub altgr_capslock : List String
altgr_capslock =
    "" ∷ "៱" ∷ "៲" ∷ "៳" ∷ "៴" ∷ "៵" ∷ "៶" ∷ "៷" ∷ "៸" ∷ "៹" ∷ "៰" ∷ "" ∷ "" ∷ "᧠" ∷ "᧡" ∷ "᧢" ∷ "᧣"
    ∷ "᧤" ∷ "᧥" ∷ "᧦" ∷ "᧧" ∷ "᧨" ∷ "᧩" ∷ "᧪" ∷ "᧫" ∷ "" ∷ "᧬" ∷ "᧭" ∷ "᧮" ∷ "᧯" ∷ "᧰" ∷ "᧱" ∷ "᧲"
    ∷ "᧳" ∷ "᧴" ∷ "᧵" ∷ "᧶" ∷ "᧷" ∷ "᧸" ∷ "᧹" ∷ "᧺" ∷ "᧻" ∷ "᧼" ∷ "᧽" ∷ "᧾" ∷ "᧿" ∷ "" ∷ " " ∷ []

abbrev pub shift_capslock : List String
shift_capslock =
    "«" ∷ "១" ∷ "២" ∷ "៣" ∷ "៤" ∷ "៥" ∷ "៦" ∷ "៧" ∷ "៨" ∷ "៩" ∷ "០" ∷ "ឥ" ∷ "ឲ" ∷ "ឆ" ∷ "ឹ" ∷ "េ"
    ∷ "រ" ∷ "ត" ∷ "យ" ∷ "ុ" ∷ "ិ" ∷ "ោ" ∷ "ផ" ∷ "ៀ" ∷ "ឪ" ∷ "ឮ" ∷ "ា" ∷ "ស" ∷ "ដ" ∷ "ថ" ∷ "ង" ∷ "ហ"
    ∷ "្" ∷ "ក" ∷ "ល" ∷ "ើ" ∷ "់" ∷ "ឋ" ∷ "ខ" ∷ "ច" ∷ "វ" ∷ "ប" ∷ "ន" ∷ "ម" ∷ "ុំ" ∷ "។" ∷ "៊"
    ∷ "\u{200b}" ∷ []

abbrev pub shift_alt_gr_capslock : List String
shift_alt_gr_capslock =
    "\u{200d}" ∷ "\u{200c}" ∷ "@" ∷ "៑" ∷ "$" ∷ "€" ∷ "៙" ∷ "៚" ∷ "*" ∷ "{" ∷ "}" ∷ "×" ∷ "៎" ∷ "ៜ"
    ∷ "៝" ∷ "ឯ" ∷ "ឫ" ∷ "ឨ" ∷ "" ∷ "" ∷ "ឦ" ∷ "ឱ" ∷ "ឰ" ∷ "ឩ" ∷ "ឳ" ∷ "\\" ∷ "+" ∷ "-" ∷ "" ∷ ""
    ∷ "" ∷ "" ∷ "" ∷ "ឝ" ∷ "" ∷ "៖" ∷ "ៈ" ∷ "" ∷ "" ∷ "" ∷ "" ∷ "ឞ" ∷ "" ∷ "" ∷ "," ∷ "." ∷ "/"
    ∷ " " ∷ []

abbrev pub key_map : List (List String)
key_map =
    normal ∷ shift ∷ alt_gr ∷ shift_alt_gr ∷ capslock ∷ shift_capslock ∷ altgr_capslock
    ∷ shift_alt_gr_capslock ∷ []
