-- ===== src/Layouts/Si.antt =====
-- The `si` layout: chromium-patches/rulebased-payload/chromeos/ash/services/ime/public/cpp/
-- rulebased/def/si.cc.
use Prim.Native.String.{String}
use chromiumos_devenv.Common.{Bool, false, List, [], ◌∷◌, ℕ, Option, none}

abbrev pub id : String
id = "si"

abbrev pub is_102 : Bool
is_102 = false

abbrev pub normal : List String
normal =
    "්\u{200d}ර" ∷ "1" ∷ "2" ∷ "3" ∷ "4" ∷ "5" ∷ "6" ∷ "7" ∷ "8" ∷ "9" ∷ "0" ∷ "-" ∷ "=" ∷ "ු" ∷ "අ"
    ∷ "ැ" ∷ "ර" ∷ "එ" ∷ "හ" ∷ "ම" ∷ "ස" ∷ "ද" ∷ "ච" ∷ "ඤ" ∷ ";" ∷ "\u{200d}්" ∷ "්" ∷ "ි" ∷ "ා"
    ∷ "ෙ" ∷ "ට" ∷ "ය" ∷ "ව" ∷ "න" ∷ "ක" ∷ "ත" ∷ "." ∷ "'" ∷ "ං" ∷ "ජ" ∷ "ඩ" ∷ "ඉ" ∷ "බ" ∷ "ප" ∷ "ල"
    ∷ "ග" ∷ "?" ∷ " " ∷ []

abbrev pub shift : List String
shift =
    "ර්\u{200d}" ∷ "!" ∷ "@" ∷ "#" ∷ "$" ∷ "%" ∷ "^" ∷ "&" ∷ "*" ∷ "(" ∷ ")" ∷ "_" ∷ "+" ∷ "ූ" ∷ "උ"
    ∷ "ෑ" ∷ "ඍ" ∷ "ඔ" ∷ "ශ" ∷ "ඹ" ∷ "ෂ" ∷ "ධ" ∷ "ඡ" ∷ "ඥ" ∷ ":" ∷ "්\u{200d}" ∷ "ෟ" ∷ "ී" ∷ "ෘ"
    ∷ "ෆ" ∷ "ඨ" ∷ "්\u{200d}ය" ∷ "" ∷ "ණ" ∷ "ඛ" ∷ "ථ" ∷ "," ∷ "\"" ∷ "ඞ" ∷ "ඣ" ∷ "ඪ" ∷ "ඊ" ∷ "භ"
    ∷ "ඵ" ∷ "ළ" ∷ "ඝ" ∷ "/" ∷ " " ∷ []

abbrev pub alt_gr : List String
alt_gr =
    "" ∷ "" ∷ "" ∷ "" ∷ "" ∷ "" ∷ "" ∷ "" ∷ "" ∷ "" ∷ "" ∷ "" ∷ "" ∷ "" ∷ "" ∷ "" ∷ "" ∷ "" ∷ ""
    ∷ "" ∷ "" ∷ "ඳ" ∷ "" ∷ "" ∷ "" ∷ "" ∷ "ෳ" ∷ "" ∷ "" ∷ "" ∷ "" ∷ "" ∷ "" ∷ "" ∷ "" ∷ "" ∷ "෴"
    ∷ "\u{d80}" ∷ "ඃ" ∷ "ඦ" ∷ "ඬ" ∷ "" ∷ "" ∷ "" ∷ "ඏ" ∷ "ඟ" ∷ "" ∷ " " ∷ []

abbrev pub capslock : List String
capslock =
    "ර්\u{200d}" ∷ "!" ∷ "@" ∷ "#" ∷ "$" ∷ "%" ∷ "^" ∷ "&" ∷ "*" ∷ "(" ∷ ")" ∷ "_" ∷ "+" ∷ "ූ" ∷ "උ"
    ∷ "ෑ" ∷ "ඍ" ∷ "ඔ" ∷ "ශ" ∷ "ඹ" ∷ "ෂ" ∷ "ධ" ∷ "ඡ" ∷ "ඥ" ∷ ":" ∷ "්\u{200d}" ∷ "ෟ" ∷ "ී" ∷ "ෘ"
    ∷ "ෆ" ∷ "ඨ" ∷ "්\u{200d}ය" ∷ "" ∷ "ණ" ∷ "ඛ" ∷ "ථ" ∷ "," ∷ "\"" ∷ "ඞ" ∷ "ඣ" ∷ "ඪ" ∷ "ඊ" ∷ "භ"
    ∷ "ඵ" ∷ "ළ" ∷ "ඝ" ∷ "/" ∷ " " ∷ []

abbrev pub shift_alt_gr : List String
shift_alt_gr =
    "" ∷ "" ∷ "" ∷ "" ∷ "" ∷ "" ∷ "" ∷ "" ∷ "" ∷ "" ∷ "" ∷ "" ∷ "" ∷ "" ∷ "" ∷ "" ∷ "" ∷ "" ∷ ""
    ∷ "" ∷ "" ∷ "ඳ" ∷ "" ∷ "" ∷ "" ∷ "" ∷ "ෳ" ∷ "" ∷ "" ∷ "" ∷ "" ∷ "" ∷ "" ∷ "" ∷ "" ∷ "" ∷ "෴"
    ∷ "\u{d80}" ∷ "ඃ" ∷ "ඦ" ∷ "ඬ" ∷ "" ∷ "" ∷ "" ∷ "ඏ" ∷ "ඟ" ∷ "" ∷ " " ∷ []

abbrev pub altgr_capslock : List String
altgr_capslock =
    "" ∷ "" ∷ "" ∷ "" ∷ "" ∷ "" ∷ "" ∷ "" ∷ "" ∷ "" ∷ "" ∷ "" ∷ "" ∷ "" ∷ "" ∷ "" ∷ "" ∷ "" ∷ ""
    ∷ "" ∷ "" ∷ "ඳ" ∷ "" ∷ "" ∷ "" ∷ "" ∷ "ෳ" ∷ "" ∷ "" ∷ "" ∷ "" ∷ "" ∷ "" ∷ "" ∷ "" ∷ "" ∷ "෴"
    ∷ "\u{d80}" ∷ "ඃ" ∷ "ඦ" ∷ "ඬ" ∷ "" ∷ "" ∷ "" ∷ "ඏ" ∷ "ඟ" ∷ "" ∷ " " ∷ []

abbrev pub shift_capslock : List String
shift_capslock =
    "්\u{200d}ර" ∷ "1" ∷ "2" ∷ "3" ∷ "4" ∷ "5" ∷ "6" ∷ "7" ∷ "8" ∷ "9" ∷ "0" ∷ "-" ∷ "=" ∷ "ු" ∷ "අ"
    ∷ "ැ" ∷ "ර" ∷ "එ" ∷ "හ" ∷ "ම" ∷ "ස" ∷ "ද" ∷ "ච" ∷ "ඤ" ∷ ";" ∷ "\u{200d}්" ∷ "්" ∷ "ි" ∷ "ා"
    ∷ "ෙ" ∷ "ට" ∷ "ය" ∷ "ව" ∷ "න" ∷ "ක" ∷ "ත" ∷ "." ∷ "'" ∷ "ං" ∷ "ජ" ∷ "ඩ" ∷ "ඉ" ∷ "බ" ∷ "ප" ∷ "ල"
    ∷ "ග" ∷ "?" ∷ " " ∷ []

abbrev pub shift_alt_gr_capslock : List String
shift_alt_gr_capslock =
    "" ∷ "" ∷ "" ∷ "" ∷ "" ∷ "" ∷ "" ∷ "" ∷ "" ∷ "" ∷ "" ∷ "" ∷ "" ∷ "" ∷ "" ∷ "" ∷ "" ∷ "" ∷ ""
    ∷ "" ∷ "" ∷ "ඳ" ∷ "" ∷ "" ∷ "" ∷ "" ∷ "ෳ" ∷ "" ∷ "" ∷ "" ∷ "" ∷ "" ∷ "" ∷ "" ∷ "" ∷ "" ∷ "෴"
    ∷ "\u{d80}" ∷ "ඃ" ∷ "ඦ" ∷ "ඬ" ∷ "" ∷ "" ∷ "" ∷ "ඏ" ∷ "ඟ" ∷ "" ∷ " " ∷ []

abbrev pub transforms : List String
transforms =
    "අා" ∷ "ආ" ∷ "අැ" ∷ "ඇ" ∷ "අෑ" ∷ "ඈ" ∷ "උෟ" ∷ "ඌ" ∷ "ඍෘ" ∷ "ඎ" ∷ "එ්" ∷ "ඒ" ∷ "ෙඑ" ∷ "ඓ" ∷ "ඔ්"
    ∷ "ඕ" ∷ "ඔෟ" ∷ "ඖ" ∷ "([ක-ෆ])ෘෘ" ∷ "\\1ෲ" ∷ "ෙ([ක-ෆ])" ∷ "\\1ෙ" ∷ "([ක-ෆ])ෙ\u{1d}්" ∷ "\\1ේ"
    ∷ "ෙෙ([ක-ෆ])" ∷ "\\1ෛ" ∷ "([ක-ෆ])ෙ\u{1d}ා" ∷ "\\1ො" ∷ "([ක-ෆ])ො\u{1d}්" ∷ "\\1ෝ"
    ∷ "([ක-ෆ])ෙ\u{1d}ෟ" ∷ "\\1ෞ" ∷ "([ක-ෆ])(ෙ)\u{1d}((්\u{200d}[යර])|(ර්\u{200d}))" ∷ "\\1\\3\\2"
    ∷ "([ක-ෆ](්\u{200d}[යර])|(ර්\u{200d}))ෙ\u{1d}්" ∷ "\\1ේ"
    ∷ "([ක-ෆ](්\u{200d}[යර])|(ර්\u{200d}))ෙ\u{1d}ා" ∷ "\\1ො"
    ∷ "([ක-ෆ](්\u{200d}[යර])|(ර්\u{200d}))ො\u{1d}්" ∷ "\\1ෝ" ∷ []

abbrev pub key_map : List (List String)
key_map =
    normal ∷ shift ∷ alt_gr ∷ shift_alt_gr ∷ capslock ∷ shift_capslock ∷ altgr_capslock
    ∷ shift_alt_gr_capslock ∷ []

abbrev pub transforms_len : ℕ
transforms_len = 40

abbrev pub history_prune : Option String
history_prune = none
