-- ===== src/Layouts/Ethi.antt =====
-- The `ethi` layout: chromium-patches/rulebased-payload/chromeos/ash/services/ime/public/cpp/
-- rulebased/def/ethi.cc.
use Prim.Native.String.{String}
use chromiumos_devenv.Common.{Bool, false, List, [], ◌∷◌, ◌++◌, ℕ, Option, none}

abbrev pub id : String
id = "ethi"

abbrev pub is_102 : Bool
is_102 = false

abbrev pub normal : List String
normal =
    "`" ∷ "1" ∷ "2" ∷ "3" ∷ "4" ∷ "5" ∷ "6" ∷ "7" ∷ "8" ∷ "9" ∷ "0" ∷ "-" ∷ "=" ∷ "ቅ" ∷ "ው" ∷ "እ"
    ∷ "ር" ∷ "ት" ∷ "ይ" ∷ "ኡ" ∷ "ኢ" ∷ "ኦ" ∷ "ፕ" ∷ "[" ∷ "]" ∷ "\\" ∷ "አ" ∷ "ስ" ∷ "ድ" ∷ "ፍ" ∷ "ግ" ∷ "ህ"
    ∷ "ጅ" ∷ "ክ" ∷ "ል" ∷ "፤" ∷ "'" ∷ "ዝ" ∷ "ሽ" ∷ "ች" ∷ "ቭ" ∷ "ብ" ∷ "ን" ∷ "ም" ∷ "፣" ∷ "." ∷ "/" ∷ " "
    ∷ []

abbrev pub shift : List String
shift =
    "~" ∷ "!" ∷ "@" ∷ "#" ∷ "$" ∷ "%" ∷ "^" ∷ "&" ∷ "*" ∷ "(" ∷ ")" ∷ "_" ∷ "+" ∷ "ቅ" ∷ "ው" ∷ "ኤ"
    ∷ "ር" ∷ "ጥ" ∷ "ይ" ∷ "ኡ" ∷ "እ" ∷ "ኦ" ∷ "ጵ" ∷ "{" ∷ "}" ∷ "|" ∷ "ዐ" ∷ "ጽ" ∷ "ድ" ∷ "ፍ" ∷ "ግ" ∷ "ሕ"
    ∷ "ጅ" ∷ "ኽ" ∷ "ል" ∷ "፡" ∷ "\"" ∷ "ዥ" ∷ "ሽ" ∷ "ጭ" ∷ "ቭ" ∷ "ብ" ∷ "ኝ" ∷ "ም" ∷ "‹" ∷ "›" ∷ "?" ∷ " "
    ∷ []

abbrev pub alt_gr : List String
alt_gr =
    "`" ∷ "፩" ∷ "፪" ∷ "፫" ∷ "፬" ∷ "፭" ∷ "፮" ∷ "፯" ∷ "፰" ∷ "፱" ∷ "0" ∷ "-" ∷ "=" ∷ "ቕ" ∷ "ው" ∷ "እ"
    ∷ "ር" ∷ "ት" ∷ "ይ" ∷ "ኡ" ∷ "ኢ" ∷ "ኦ" ∷ "ፕ" ∷ "[" ∷ "]" ∷ "\\" ∷ "አ" ∷ "ሥ" ∷ "ዽ" ∷ "ፍ" ∷ "ጝ" ∷ "ኅ"
    ∷ "ጅ" ∷ "ⷍ" ∷ "ል" ∷ "፤" ∷ "'" ∷ "ⶵ" ∷ "ⶥ" ∷ "ⶭ" ∷ "ቭ" ∷ "ብ" ∷ "ን" ∷ "ም" ∷ "፣" ∷ "." ∷ "/" ∷ " "
    ∷ []

abbrev pub capslock : List String
capslock =
    "`" ∷ "1" ∷ "2" ∷ "3" ∷ "4" ∷ "5" ∷ "6" ∷ "7" ∷ "8" ∷ "9" ∷ "0" ∷ "-" ∷ "=" ∷ "ቅ" ∷ "ው" ∷ "ኤ"
    ∷ "ር" ∷ "ጥ" ∷ "ይ" ∷ "ኡ" ∷ "እ" ∷ "ኦ" ∷ "ጵ" ∷ "[" ∷ "]" ∷ "\\" ∷ "ዐ" ∷ "ጽ" ∷ "ድ" ∷ "ፍ" ∷ "ግ" ∷ "ሕ"
    ∷ "ጅ" ∷ "ኽ" ∷ "ል" ∷ "፡" ∷ "'" ∷ "ዥ" ∷ "ሽ" ∷ "ጭ" ∷ "ቭ" ∷ "ብ" ∷ "ኝ" ∷ "ም" ∷ "," ∷ "." ∷ "/" ∷ " "
    ∷ []

abbrev pub shift_alt_gr : List String
shift_alt_gr =
    "~" ∷ "፩" ∷ "፪" ∷ "፫" ∷ "፬" ∷ "፭" ∷ "፮" ∷ "፯" ∷ "፰" ∷ "፱" ∷ "0" ∷ "_" ∷ "+" ∷ "ⷅ" ∷ "ው" ∷ "ኤ"
    ∷ "ር" ∷ "ጥ" ∷ "ይ" ∷ "ኡ" ∷ "እ" ∷ "ኦ" ∷ "ጵ" ∷ "{" ∷ "}" ∷ "|" ∷ "ዐ" ∷ "ፅ" ∷ "ዽ" ∷ "ፍ" ∷ "ⷝ" ∷ "ኅ"
    ∷ "ጅ" ∷ "ⷕ" ∷ "ል" ∷ "፡" ∷ "\"" ∷ "ⶵ" ∷ "ⶥ" ∷ "ⶽ" ∷ "ቭ" ∷ "ብ" ∷ "ኝ" ∷ "ም" ∷ "‹" ∷ "›" ∷ "?" ∷ " "
    ∷ []

abbrev pub shift_capslock : List String
shift_capslock =
    "~" ∷ "!" ∷ "@" ∷ "#" ∷ "$" ∷ "%" ∷ "^" ∷ "&" ∷ "*" ∷ "(" ∷ ")" ∷ "_" ∷ "+" ∷ "ቅ" ∷ "ው" ∷ "እ"
    ∷ "ር" ∷ "ት" ∷ "ይ" ∷ "ኡ" ∷ "ኢ" ∷ "ኦ" ∷ "ፕ" ∷ "{" ∷ "}" ∷ "|" ∷ "አ" ∷ "ስ" ∷ "ድ" ∷ "ፍ" ∷ "ግ" ∷ "ህ"
    ∷ "ጅ" ∷ "ክ" ∷ "ል" ∷ "፤" ∷ "\"" ∷ "ዝ" ∷ "ሽ" ∷ "ች" ∷ "ቭ" ∷ "ብ" ∷ "ን" ∷ "ም" ∷ "<" ∷ ">" ∷ "?" ∷ " "
    ∷ []

abbrev transforms_1 : List String
transforms_1 =
    "ኊ\u{1d}?እ" ∷ "ኌ" ∷ "ሡ\u{1d}?አ" ∷ "ሧ" ∷ "ሢ\u{1d}?እ" ∷ "ሤ" ∷ "ቊ\u{1d}?እ" ∷ "ቌ" ∷ "ቚ\u{1d}?እ"
    ∷ "ቜ" ∷ "ኁ\u{1d}?አ" ∷ "ኋ" ∷ "ኁ\u{1d}?ኡ\u{1d}?" ∷ "ኍ" ∷ "ኁ\u{1d}?ኢ\u{1d}?" ∷ "ኊ" ∷ "ኁ\u{1d}?እ"
    ∷ "ኈ" ∷ "ኁ\u{1d}?ኤ\u{1d}?" ∷ "ኌ" ∷ "ኂ\u{1d}?እ" ∷ "ኄ" ∷ "ኄ\u{1d}?ኤ\u{1d}?" ∷ "ኈ"
    ∷ "ኀ\u{1d}?ኦ\u{1d}?" ∷ "ኇ" ∷ "ኆ\u{1d}?አ" ∷ "ኇ" ∷ "ዒ\u{1d}?እ" ∷ "ዔ" ∷ "ኲ\u{1d}?እ" ∷ "ኴ"
    ∷ "ዂ\u{1d}?እ" ∷ "ዂ" ∷ "ጒ\u{1d}?እ" ∷ "ጔ" ∷ "ⶔ\u{1d}?እ" ∷ "ⶕ" ∷ "ፂ\u{1d}?እ" ∷ "ፄ" ∷ "ፆ\u{1d}?አ"
    ∷ "ፇ" ∷ "ᎁ\u{1d}?እ" ∷ "ᎂ" ∷ "ᎅ\u{1d}?እ" ∷ "ᎆ" ∷ "ᎋ\u{1d}?እ" ∷ "ᎊ" ∷ "ᎏ\u{1d}?እ" ∷ "ᎎ"
    ∷ "፲\u{1d}?0" ∷ "፻" ∷ "ሁ\u{1d}?አ" ∷ "ኋ" ∷ "ሁ\u{1d}?ኡ\u{1d}?" ∷ "ኍ" ∷ "ሁ\u{1d}?ኢ\u{1d}?" ∷ "ኊ"
    ∷ "ሁ\u{1d}?እ" ∷ "ኈ" ∷ "ሁ\u{1d}?ኤ\u{1d}?" ∷ "ኌ" ∷ "ሂ\u{1d}?እ" ∷ "ሄ" ∷ "ሆ\u{1d}?አ" ∷ "ሇ"
    ∷ "ሉ\u{1d}?አ" ∷ "ሏ" ∷ "ሊ\u{1d}?እ" ∷ "ሌ" ∷ "ሎ\u{1d}?አ" ∷ "ⶀ" ∷ "ሑ\u{1d}?አ" ∷ "ሗ" ∷ "ሒ\u{1d}?እ"
    ∷ "ሔ" ∷ "ሙ\u{1d}?አ" ∷ "ሟ" ∷ "ሚ\u{1d}?እ" ∷ "ሜ" ∷ "ሞ\u{1d}?አ" ∷ "ⶁ" ∷ "ምይአ" ∷ "ፙ" ∷ "ሥ\u{1d}?አ"
    ∷ "ሣ" ∷ "ሥ\u{1d}?ኡ\u{1d}?" ∷ "ሡ" ∷ "ሥ\u{1d}?ኢ\u{1d}?" ∷ "ሢ" ∷ "ሥ\u{1d}?ኤ\u{1d}?" ∷ "ሤ"
    ∷ "ሥ\u{1d}?እ" ∷ "ሠ" ∷ "ሥ\u{1d}?ኦ\u{1d}?" ∷ "ሦ" ∷ "ሩ\u{1d}?አ" ∷ "ሯ" ∷ "ሪ\u{1d}?እ" ∷ "ሬ"
    ∷ "ሮ\u{1d}?አ" ∷ "ⶂ" ∷ "ርይአ" ∷ "ፘ" ∷ "ሱ\u{1d}?አ" ∷ "ሷ" ∷ "ሲ\u{1d}?እ" ∷ "ሴ" ∷ "ሶ\u{1d}?አ" ∷ "ⶃ"
    ∷ "ሹ\u{1d}?አ" ∷ "ሿ" ∷ "ሺ\u{1d}?እ" ∷ "ሼ" ∷ "ሾ\u{1d}?አ" ∷ "ⶄ" ∷ "ቁ\u{1d}?አ" ∷ "ቋ"
    ∷ "ቁ\u{1d}?ኡ\u{1d}?" ∷ "ቍ" ∷ "ቁ\u{1d}?ኢ\u{1d}?" ∷ "ቊ" ∷ "ቁ\u{1d}?ኤ\u{1d}?" ∷ "ቌ" ∷ "ቁ\u{1d}?እ"
    ∷ "ቈ" ∷ []

abbrev transforms_2 : List String
transforms_2 =
    "ቂ\u{1d}?እ" ∷ "ቄ" ∷ "ቆ\u{1d}?አ" ∷ "ቇ" ∷ "ቆ\u{1d}?ኦ\u{1d}?" ∷ "ቈ" ∷ "ቕኡ\u{1d}?አ" ∷ "ቛ"
    ∷ "ቕኡ\u{1d}?ኢ\u{1d}?" ∷ "ቚ" ∷ "ቕኡ\u{1d}?ኤ\u{1d}?" ∷ "ቜ" ∷ "ቕኡ\u{1d}?እ" ∷ "ቘ"
    ∷ "ቕኡ\u{1d}?ኡ\u{1d}?" ∷ "ቑ" ∷ "ቒ\u{1d}?እ" ∷ "ቔ" ∷ "ቡ\u{1d}?አ" ∷ "ቧ" ∷ "ቢ\u{1d}?እ" ∷ "ቤ"
    ∷ "ቦ\u{1d}?አ" ∷ "ⶅ" ∷ "ቩ\u{1d}?አ" ∷ "ቯ" ∷ "ቪ\u{1d}?እ" ∷ "ቬ" ∷ "ቱ\u{1d}?አ" ∷ "ቷ" ∷ "ቲ\u{1d}?እ"
    ∷ "ቴ" ∷ "ቶ\u{1d}?አ" ∷ "ⶆ" ∷ "ቹ\u{1d}?አ" ∷ "ቿ" ∷ "ቺ\u{1d}?እ" ∷ "ቼ" ∷ "ቾ\u{1d}?አ" ∷ "ⶇ"
    ∷ "ኆ\u{1d}?ኦ\u{1d}?" ∷ "ኈ" ∷ "ህህአ" ∷ "ኃ" ∷ "ህህኡ\u{1d}?" ∷ "ኁ" ∷ "ህህኢ\u{1d}?" ∷ "ኂ"
    ∷ "ህህኤ\u{1d}?" ∷ "ኄ" ∷ "ህህእ" ∷ "ኀ" ∷ "ህህኦ\u{1d}?" ∷ "ኆ" ∷ "ኑ\u{1d}?አ" ∷ "ኗ" ∷ "ኒ\u{1d}?እ" ∷ "ኔ"
    ∷ "ኖ\u{1d}?አ" ∷ "ⶈ" ∷ "ኙ\u{1d}?አ" ∷ "ኟ" ∷ "ኚ\u{1d}?እ" ∷ "ኜ" ∷ "ኞ\u{1d}?አ" ∷ "ⶉ" ∷ "ኢ\u{1d}?እ"
    ∷ "ኤ" ∷ "ዕ\u{1d}?እ" ∷ "ዐ" ∷ "ዕ\u{1d}?ኡ\u{1d}?" ∷ "ዑ" ∷ "ዕ\u{1d}?ኢ\u{1d}?" ∷ "ዒ" ∷ "ዕ\u{1d}?አ"
    ∷ "ዓ" ∷ "ዕ\u{1d}?ኦ\u{1d}?" ∷ "ዖ" ∷ "ዓ\u{1d}?አ" ∷ "ዐ" ∷ "ኩ\u{1d}?አ" ∷ "ኳ" ∷ "ኩ\u{1d}?ኡ\u{1d}?"
    ∷ "ኵ" ∷ "ኩ\u{1d}?ኢ\u{1d}?" ∷ "ኲ" ∷ "ኩ\u{1d}?ኤ\u{1d}?" ∷ "ኴ" ∷ "ኩ\u{1d}?እ" ∷ "ኰ" ∷ "ኪ\u{1d}?እ"
    ∷ "ኬ" ∷ "ኮ\u{1d}?አ" ∷ "ኯ" ∷ "ኮ\u{1d}?ኦ\u{1d}?" ∷ "ኰ" ∷ "ኹ\u{1d}?አ" ∷ "ዃ" ∷ "ኹ\u{1d}?ኡ\u{1d}?"
    ∷ "ዅ" ∷ "ኹ\u{1d}?ኢ\u{1d}?" ∷ "ዂ" ∷ "ኹ\u{1d}?ኤ\u{1d}?" ∷ "ዄ" ∷ "ኺ\u{1d}?እ" ∷ "ኼ"
    ∷ "ኾ\u{1d}?ኦ\u{1d}?" ∷ "ዀ" ∷ "ዊ\u{1d}?እ" ∷ "ዌ" ∷ "ዎ\u{1d}?አ" ∷ "ዏ" ∷ "ዙ\u{1d}?አ" ∷ "ዟ"
    ∷ "ዚ\u{1d}?እ" ∷ "ዜ" ∷ "ዞ\u{1d}?አ" ∷ "ⶋ" ∷ "ዡ\u{1d}?አ" ∷ "ዧ" ∷ "ዢ\u{1d}?እ" ∷ "ዤ" ∷ "ዪ\u{1d}?እ"
    ∷ "ዬ" ∷ "ዮ\u{1d}?አ" ∷ "ዯ" ∷ []

abbrev transforms_3 : List String
transforms_3 =
    "ዱ\u{1d}?አ" ∷ "ዷ" ∷ "ዲ\u{1d}?እ" ∷ "ዴ" ∷ "ዶ\u{1d}?አ" ∷ "ⶌ" ∷ "ዹ\u{1d}?አ" ∷ "ዿ" ∷ "ዺ\u{1d}?እ"
    ∷ "ዼ" ∷ "ዾ\u{1d}?አ" ∷ "ⶍ" ∷ "ጁ\u{1d}?አ" ∷ "ጇ" ∷ "ጂ\u{1d}?እ" ∷ "ጄ" ∷ "ጆ\u{1d}?አ" ∷ "ⶎ"
    ∷ "ጉ\u{1d}?አ" ∷ "ጓ" ∷ "ጉ\u{1d}?ኡ\u{1d}?" ∷ "ጕ" ∷ "ጉ\u{1d}?ኢ\u{1d}?" ∷ "ጒ" ∷ "ጉ\u{1d}?ኤ\u{1d}?"
    ∷ "ጔ" ∷ "ጉ\u{1d}?እ" ∷ "ጐ" ∷ "ጊ\u{1d}?እ" ∷ "ጌ" ∷ "ጎ\u{1d}?አ" ∷ "ጏ" ∷ "ጎ\u{1d}?ኦ\u{1d}?" ∷ "ጐ"
    ∷ "ጙ\u{1d}?አ" ∷ "ጟ" ∷ "ጙ\u{1d}?ኡ\u{1d}?" ∷ "ⶖ" ∷ "ጙ\u{1d}?ኢ\u{1d}?" ∷ "ⶔ" ∷ "ጙ\u{1d}?ኤ\u{1d}?"
    ∷ "ⶕ" ∷ "ጙ\u{1d}?እ" ∷ "ⶓ" ∷ "ጚ\u{1d}?እ" ∷ "ጜ" ∷ "ጡ\u{1d}?አ" ∷ "ጧ" ∷ "ጢ\u{1d}?እ" ∷ "ጤ"
    ∷ "ጦ\u{1d}?አ" ∷ "ⶏ" ∷ "ጩ\u{1d}?አ" ∷ "ጯ" ∷ "ጮ\u{1d}?አ" ∷ "ⶐ" ∷ "ጱ\u{1d}?አ" ∷ "ጷ" ∷ "ጶ\u{1d}?አ"
    ∷ "ⶑ" ∷ "ጹ\u{1d}?አ" ∷ "ጿ" ∷ "ጺ\u{1d}?እ" ∷ "ጼ" ∷ "ፅ\u{1d}?ኡ\u{1d}?" ∷ "ፁ" ∷ "ፅ\u{1d}?ኢ\u{1d}?"
    ∷ "ፂ" ∷ "ፅ\u{1d}?ኤ\u{1d}?" ∷ "ፄ" ∷ "ፅ\u{1d}?እ" ∷ "ፀ" ∷ "ፅ\u{1d}?ኦ\u{1d}?" ∷ "ፆ" ∷ "ፍይአ" ∷ "ፚ"
    ∷ "ፉ\u{1d}?አ" ∷ "ፏ" ∷ "ፊ\u{1d}?እ" ∷ "ፌ" ∷ "ፑ\u{1d}?አ" ∷ "ፗ" ∷ "ፒ\u{1d}?እ" ∷ "ፔ" ∷ "ፖ\u{1d}?አ"
    ∷ "ⶒ" ∷ "ⶢ\u{1d}?እ" ∷ "ⶤ" ∷ "ⶪ\u{1d}?እ" ∷ "ⶬ" ∷ "ⶲ\u{1d}?እ" ∷ "ⶴ" ∷ "ⶺ\u{1d}?እ" ∷ "ⶼ"
    ∷ "ⷂ\u{1d}?እ" ∷ "ⷄ" ∷ "ⷊ\u{1d}?እ" ∷ "ⷌ" ∷ "ⷒ\u{1d}?እ" ∷ "ⷔ" ∷ "ⷚ\u{1d}?እ" ∷ "ⷜ" ∷ "`ምኡ\u{1d}?"
    ∷ "ᎃ" ∷ "`ምኢ\u{1d}?" ∷ "ᎁ" ∷ "`ምኤ\u{1d}?" ∷ "ᎂ" ∷ "`ምእ" ∷ "ᎀ" ∷ "`ብኡ\u{1d}?" ∷ "ᎇ"
    ∷ "`ብኢ\u{1d}?" ∷ "ᎅ" ∷ "`ብኤ\u{1d}?" ∷ "ᎆ" ∷ "`ብእ" ∷ "ᎄ" ∷ "`ፍኡ\u{1d}?" ∷ "ᎉ" ∷ "`ፍኢ\u{1d}?"
    ∷ "ᎋ" ∷ "`ፍኤ\u{1d}?" ∷ "ᎊ" ∷ "`ፍእ" ∷ "ᎈ" ∷ []

abbrev transforms_4 : List String
transforms_4 =
    "`ፕኡ\u{1d}?" ∷ "ᎍ" ∷ "`ፕኢ\u{1d}?" ∷ "ᎏ" ∷ "`ፕኤ\u{1d}?" ∷ "ᎎ" ∷ "`ፕእ" ∷ "ᎌ" ∷ "፥\u{1d}?፣" ∷ ","
    ∷ "«\u{1d}?‹" ∷ "<" ∷ "»\u{1d}?›" ∷ ">" ∷ "`፡#" ∷ "፨" ∷ "`፡\\+" ∷ "፠" ∷ "፩\u{1d}?0" ∷ "፲"
    ∷ "፪\u{1d}?0" ∷ "፳" ∷ "፫\u{1d}?0" ∷ "፴" ∷ "፬\u{1d}?0" ∷ "፵" ∷ "፭\u{1d}?0" ∷ "፶" ∷ "፮\u{1d}?0"
    ∷ "፷" ∷ "፯\u{1d}?0" ∷ "፸" ∷ "፰\u{1d}?0" ∷ "፹" ∷ "፱\u{1d}?0" ∷ "፺" ∷ "ህአ" ∷ "ሃ" ∷ "ህኡ\u{1d}?"
    ∷ "ሁ" ∷ "ህኢ\u{1d}?" ∷ "ሂ" ∷ "ህኤ\u{1d}?" ∷ "ሄ" ∷ "ህእ" ∷ "ሀ" ∷ "ህኦ\u{1d}?" ∷ "ሆ" ∷ "ልአ" ∷ "ላ"
    ∷ "ልኡ\u{1d}?" ∷ "ሉ" ∷ "ልኢ\u{1d}?" ∷ "ሊ" ∷ "ልኤ\u{1d}?" ∷ "ሌ" ∷ "ልእ" ∷ "ለ" ∷ "ልኦ\u{1d}?" ∷ "ሎ"
    ∷ "ሕአ" ∷ "ሓ" ∷ "ሕኡ\u{1d}?" ∷ "ሑ" ∷ "ሕኢ\u{1d}?" ∷ "ሒ" ∷ "ሕኤ\u{1d}?" ∷ "ሔ" ∷ "ሕእ" ∷ "ሐ"
    ∷ "ሕኦ\u{1d}?" ∷ "ሖ" ∷ "ምአ" ∷ "ማ" ∷ "ምኡ\u{1d}?" ∷ "ሙ" ∷ "ምኢ\u{1d}?" ∷ "ሚ" ∷ "ምኤ\u{1d}?" ∷ "ሜ"
    ∷ "ምእ" ∷ "መ" ∷ "ምኦ\u{1d}?" ∷ "ሞ" ∷ "ስስ" ∷ "ሥ" ∷ "ርአ" ∷ "ራ" ∷ "ርኡ\u{1d}?" ∷ "ሩ" ∷ "ርኢ\u{1d}?"
    ∷ "ሪ" ∷ "ርኤ\u{1d}?" ∷ "ሬ" ∷ "ርእ" ∷ "ረ" ∷ "ርኦ\u{1d}?" ∷ "ሮ" ∷ "ስአ" ∷ "ሳ" ∷ "ስኡ\u{1d}?" ∷ "ሱ"
    ∷ "ስኢ\u{1d}?" ∷ "ሲ" ∷ "ስኤ\u{1d}?" ∷ "ሴ" ∷ "ስእ" ∷ "ሰ" ∷ "ስኦ\u{1d}?" ∷ "ሶ" ∷ "ሽአ" ∷ "ሻ"
    ∷ "ሽኡ\u{1d}?" ∷ "ሹ" ∷ "ሽኢ\u{1d}?" ∷ "ሺ" ∷ "ሽኤ\u{1d}?" ∷ "ሼ" ∷ "ሽእ" ∷ "ሸ" ∷ "ሽኦ\u{1d}?" ∷ "ሾ"
    ∷ "ቅአ" ∷ "ቃ" ∷ "ቅኡ\u{1d}?" ∷ "ቁ" ∷ []

abbrev transforms_5 : List String
transforms_5 =
    "ቅኢ\u{1d}?" ∷ "ቂ" ∷ "ቅኤ\u{1d}?" ∷ "ቄ" ∷ "ቅእ" ∷ "ቀ" ∷ "ቅኦ\u{1d}?" ∷ "ቆ" ∷ "ቕአ" ∷ "ቓ"
    ∷ "ቕኢ\u{1d}?" ∷ "ቒ" ∷ "ቕኤ\u{1d}?" ∷ "ቔ" ∷ "ቕእ" ∷ "ቐ" ∷ "ቕኦ\u{1d}?" ∷ "ቖ" ∷ "ብአ" ∷ "ባ"
    ∷ "ብኡ\u{1d}?" ∷ "ቡ" ∷ "ብኢ\u{1d}?" ∷ "ቢ" ∷ "ብኤ\u{1d}?" ∷ "ቤ" ∷ "ብእ" ∷ "በ" ∷ "ብኦ\u{1d}?" ∷ "ቦ"
    ∷ "ቭአ" ∷ "ቫ" ∷ "ቭኡ\u{1d}?" ∷ "ቩ" ∷ "ቭኢ\u{1d}?" ∷ "ቪ" ∷ "ቭኤ\u{1d}?" ∷ "ቬ" ∷ "ቭእ" ∷ "ቨ"
    ∷ "ቭኦ\u{1d}?" ∷ "ቮ" ∷ "ትአ" ∷ "ታ" ∷ "ትኡ\u{1d}?" ∷ "ቱ" ∷ "ትኢ\u{1d}?" ∷ "ቲ" ∷ "ትኤ\u{1d}?" ∷ "ቴ"
    ∷ "ትእ" ∷ "ተ" ∷ "ትኦ\u{1d}?" ∷ "ቶ" ∷ "ችአ" ∷ "ቻ" ∷ "ችኡ\u{1d}?" ∷ "ቹ" ∷ "ችኢ\u{1d}?" ∷ "ቺ"
    ∷ "ችኤ\u{1d}?" ∷ "ቼ" ∷ "ችእ" ∷ "ቸ" ∷ "ችኦ\u{1d}?" ∷ "ቾ" ∷ "ኅአ" ∷ "ኃ" ∷ "ኅኡ\u{1d}?" ∷ "ኁ"
    ∷ "ኅኢ\u{1d}?" ∷ "ኂ" ∷ "ኅኤ\u{1d}?" ∷ "ኄ" ∷ "ኅእ" ∷ "ኀ" ∷ "ኅኦ\u{1d}?" ∷ "ኆ" ∷ "ንአ" ∷ "ና"
    ∷ "ንኡ\u{1d}?" ∷ "ኑ" ∷ "ንኢ\u{1d}?" ∷ "ኒ" ∷ "ንኤ\u{1d}?" ∷ "ኔ" ∷ "ንእ" ∷ "ነ" ∷ "ንኦ\u{1d}?" ∷ "ኖ"
    ∷ "ኝአ" ∷ "ኛ" ∷ "ኝኡ\u{1d}?" ∷ "ኙ" ∷ "ኝኢ\u{1d}?" ∷ "ኚ" ∷ "ኝኤ\u{1d}?" ∷ "ኜ" ∷ "ኝእ" ∷ "ኘ"
    ∷ "ኝኦ\u{1d}?" ∷ "ኞ" ∷ "አኡ\u{1d}?" ∷ "ኡ" ∷ "አኢ\u{1d}?" ∷ "ኢ" ∷ "አኦ\u{1d}?" ∷ "ኦ"
    ∷ "ዐ\u{1d}?ኡ\u{1d}?" ∷ "ዑ" ∷ "ዐ\u{1d}?ኢ\u{1d}?" ∷ "ዒ" ∷ "ዐ\u{1d}?አ" ∷ "ዓ" ∷ "ዐ\u{1d}?ኦ\u{1d}?"
    ∷ "ዖ" ∷ "ኡ\u{1d}?ኡ\u{1d}?" ∷ "ዑ" ∷ "ኢ\u{1d}?ኢ\u{1d}?" ∷ "ዒ" ∷ "አአ" ∷ "ዓ" ∷ "ኦ\u{1d}?ኦ\u{1d}?"
    ∷ "ዖ" ∷ "እኡ\u{1d}?" ∷ "ኡ" ∷ []

abbrev transforms_6 : List String
transforms_6 =
    "እኢ\u{1d}?" ∷ "ኢ" ∷ "እአ" ∷ "ኣ" ∷ "እኦ\u{1d}?" ∷ "ኦ" ∷ "እእ" ∷ "ዕ" ∷ "አእ" ∷ "ኧ" ∷ "ክአ" ∷ "ካ"
    ∷ "ክኡ\u{1d}?" ∷ "ኩ" ∷ "ክኢ\u{1d}?" ∷ "ኪ" ∷ "ክኤ\u{1d}?" ∷ "ኬ" ∷ "ክእ" ∷ "ከ" ∷ "ክኦ\u{1d}?" ∷ "ኮ"
    ∷ "ኽአ" ∷ "ኻ" ∷ "ኽኡ\u{1d}?" ∷ "ኹ" ∷ "ኽኢ\u{1d}?" ∷ "ኺ" ∷ "ኽኤ\u{1d}?" ∷ "ኼ" ∷ "ኽእ" ∷ "ኸ"
    ∷ "ኽኦ\u{1d}?" ∷ "ኾ" ∷ "ውአ" ∷ "ዋ" ∷ "ውኡ\u{1d}?" ∷ "ዉ" ∷ "ውኢ\u{1d}?" ∷ "ዊ" ∷ "ውኤ\u{1d}?" ∷ "ዌ"
    ∷ "ውእ" ∷ "ወ" ∷ "ውኦ\u{1d}?" ∷ "ዎ" ∷ "ዝአ" ∷ "ዛ" ∷ "ዝኡ\u{1d}?" ∷ "ዙ" ∷ "ዝኢ\u{1d}?" ∷ "ዚ"
    ∷ "ዝኤ\u{1d}?" ∷ "ዜ" ∷ "ዝእ" ∷ "ዘ" ∷ "ዝኦ\u{1d}?" ∷ "ዞ" ∷ "ዥአ" ∷ "ዣ" ∷ "ዥኡ\u{1d}?" ∷ "ዡ"
    ∷ "ዥኢ\u{1d}?" ∷ "ዢ" ∷ "ዥኤ\u{1d}?" ∷ "ዤ" ∷ "ዥእ" ∷ "ዠ" ∷ "ዥኦ\u{1d}?" ∷ "ዦ" ∷ "ይአ" ∷ "ያ"
    ∷ "ይኡ\u{1d}?" ∷ "ዩ" ∷ "ይኢ\u{1d}?" ∷ "ዪ" ∷ "ይኤ\u{1d}?" ∷ "ዬ" ∷ "ይእ" ∷ "የ" ∷ "ይኦ\u{1d}?" ∷ "ዮ"
    ∷ "ድአ" ∷ "ዳ" ∷ "ድኡ\u{1d}?" ∷ "ዱ" ∷ "ድኢ\u{1d}?" ∷ "ዲ" ∷ "ድኤ\u{1d}?" ∷ "ዴ" ∷ "ድእ" ∷ "ደ"
    ∷ "ድኦ\u{1d}?" ∷ "ዶ" ∷ "ዽአ" ∷ "ዻ" ∷ "ዽኡ\u{1d}?" ∷ "ዹ" ∷ "ዽኢ\u{1d}?" ∷ "ዺ" ∷ "ዽኤ\u{1d}?" ∷ "ዼ"
    ∷ "ዽእ" ∷ "ዸ" ∷ "ዽኦ\u{1d}?" ∷ "ዾ" ∷ "ጅአ" ∷ "ጃ" ∷ "ጅኡ\u{1d}?" ∷ "ጁ" ∷ "ጅኢ\u{1d}?" ∷ "ጂ"
    ∷ "ጅኤ\u{1d}?" ∷ "ጄ" ∷ "ጅእ" ∷ "ጀ" ∷ "ጅኦ\u{1d}?" ∷ "ጆ" ∷ "ግአ" ∷ "ጋ" ∷ "ግኡ\u{1d}?" ∷ "ጉ"
    ∷ "ግኢ\u{1d}?" ∷ "ጊ" ∷ "ግኤ\u{1d}?" ∷ "ጌ" ∷ []

abbrev transforms_7 : List String
transforms_7 =
    "ግእ" ∷ "ገ" ∷ "ግኦ\u{1d}?" ∷ "ጎ" ∷ "ጝአ" ∷ "ጛ" ∷ "ጝኡ\u{1d}?" ∷ "ጙ" ∷ "ጝኢ\u{1d}?" ∷ "ጚ"
    ∷ "ጝኤ\u{1d}?" ∷ "ጜ" ∷ "ጝእ" ∷ "ጘ" ∷ "ጝኦ\u{1d}?" ∷ "ጞ" ∷ "ጥአ" ∷ "ጣ" ∷ "ጥኡ\u{1d}?" ∷ "ጡ"
    ∷ "ጥኢ\u{1d}?" ∷ "ጢ" ∷ "ጥኤ\u{1d}?" ∷ "ጤ" ∷ "ጥእ" ∷ "ጠ" ∷ "ጥኦ\u{1d}?" ∷ "ጦ" ∷ "ጭአ" ∷ "ጫ"
    ∷ "ጭኡ\u{1d}?" ∷ "ጩ" ∷ "ጭኢ\u{1d}?" ∷ "ጪ" ∷ "ጭኤ\u{1d}?" ∷ "ጬ" ∷ "ጭእ" ∷ "ጨ" ∷ "ጭኦ\u{1d}?" ∷ "ጮ"
    ∷ "ጵአ" ∷ "ጳ" ∷ "ጵኡ\u{1d}?" ∷ "ጱ" ∷ "ጵኢ\u{1d}?" ∷ "ጲ" ∷ "ጵኤ\u{1d}?" ∷ "ጴ" ∷ "ጵእ" ∷ "ጰ"
    ∷ "ጵኦ\u{1d}?" ∷ "ጶ" ∷ "ጽአ" ∷ "ጻ" ∷ "ጽኡ\u{1d}?" ∷ "ጹ" ∷ "ጽኢ\u{1d}?" ∷ "ጺ" ∷ "ጽኤ\u{1d}?" ∷ "ጼ"
    ∷ "ጽእ" ∷ "ጸ" ∷ "ጽኦ\u{1d}?" ∷ "ጾ" ∷ "ፅ\u{1d}?አ" ∷ "ፃ" ∷ "ጽጽ" ∷ "ፅ" ∷ "ፍአ" ∷ "ፋ" ∷ "ፍኡ\u{1d}?"
    ∷ "ፉ" ∷ "ፍኢ\u{1d}?" ∷ "ፊ" ∷ "ፍኤ\u{1d}?" ∷ "ፌ" ∷ "ፍእ" ∷ "ፈ" ∷ "ፍኦ\u{1d}?" ∷ "ፎ" ∷ "ፕአ" ∷ "ፓ"
    ∷ "ፕኡ\u{1d}?" ∷ "ፑ" ∷ "ፕኢ\u{1d}?" ∷ "ፒ" ∷ "ፕኤ\u{1d}?" ∷ "ፔ" ∷ "ፕእ" ∷ "ፐ" ∷ "ፕኦ\u{1d}?" ∷ "ፖ"
    ∷ "ⶥአ" ∷ "ⶣ" ∷ "ⶥኡ\u{1d}?" ∷ "ⶡ" ∷ "ⶥኢ\u{1d}?" ∷ "ⶢ" ∷ "ⶥኤ\u{1d}?" ∷ "ⶤ" ∷ "ⶥእ" ∷ "ⶠ"
    ∷ "ⶥኦ\u{1d}?" ∷ "ⶦ" ∷ "ⶭአ" ∷ "ⶫ" ∷ "ⶭኡ\u{1d}?" ∷ "ⶩ" ∷ "ⶭኢ\u{1d}?" ∷ "ⶪ" ∷ "ⶭኤ\u{1d}?" ∷ "ⶬ"
    ∷ "ⶭእ" ∷ "ⶨ" ∷ "ⶭኦ\u{1d}?" ∷ "ⶮ" ∷ "ⶵአ" ∷ "ⶳ" ∷ "ⶵኡ\u{1d}?" ∷ "ⶱ" ∷ "ⶵኢ\u{1d}?" ∷ "ⶲ"
    ∷ "ⶵኤ\u{1d}?" ∷ "ⶴ" ∷ "ⶵእ" ∷ "ⶰ" ∷ []

abbrev transforms_8 : List String
transforms_8 =
    "ⶵኦ\u{1d}?" ∷ "ⶶ" ∷ "ⶽአ" ∷ "ⶻ" ∷ "ⶽኡ\u{1d}?" ∷ "ⶹ" ∷ "ⶽኢ\u{1d}?" ∷ "ⶺ" ∷ "ⶽኤ\u{1d}?" ∷ "ⶼ"
    ∷ "ⶽእ" ∷ "ⶸ" ∷ "ⶽኦ\u{1d}?" ∷ "ⶾ" ∷ "ⷅአ" ∷ "ⷃ" ∷ "ⷅኡ\u{1d}?" ∷ "ⷁ" ∷ "ⷅኢ\u{1d}?" ∷ "ⷂ"
    ∷ "ⷅኤ\u{1d}?" ∷ "ⷄ" ∷ "ⷅእ" ∷ "ⷀ" ∷ "ⷅኦ\u{1d}?" ∷ "ⷆ" ∷ "ⷍአ" ∷ "ⷋ" ∷ "ⷍኡ\u{1d}?" ∷ "ⷉ"
    ∷ "ⷍኢ\u{1d}?" ∷ "ⷊ" ∷ "ⷍኤ\u{1d}?" ∷ "ⷌ" ∷ "ⷍእ" ∷ "ⷈ" ∷ "ⷍኦ\u{1d}?" ∷ "ⷎ" ∷ "ⷕአ" ∷ "ⷓ"
    ∷ "ⷕኡ\u{1d}?" ∷ "ⷑ" ∷ "ⷕኢ\u{1d}?" ∷ "ⷒ" ∷ "ⷕኤ\u{1d}?" ∷ "ⷔ" ∷ "ⷕእ" ∷ "ⷐ" ∷ "ⷕኦ\u{1d}?" ∷ "ⷖ"
    ∷ "ⷝአ" ∷ "ⷛ" ∷ "ⷝኡ\u{1d}?" ∷ "ⷙ" ∷ "ⷝኢ\u{1d}?" ∷ "ⷚ" ∷ "ⷝኤ\u{1d}?" ∷ "ⷜ" ∷ "ⷝእ" ∷ "ⷘ"
    ∷ "ⷝኦ\u{1d}?" ∷ "ⷞ" ∷ "_\u{1d}?0" ∷ "᎙" ∷ "_\u{1d}?2" ∷ "᎑" ∷ "_\u{1d}?3" ∷ "᎒" ∷ "_\u{1d}?4"
    ∷ "᎓" ∷ "_\u{1d}?5" ∷ "᎔" ∷ "_\u{1d}?6" ∷ "᎕" ∷ "_\u{1d}?7" ∷ "᎖" ∷ "_\u{1d}?8" ∷ "᎗"
    ∷ "_\u{1d}?9" ∷ "᎘" ∷ "_\u{1d}?_\u{1d}?" ∷ "_" ∷ "'!" ∷ "¡" ∷ "፣፣" ∷ "፥" ∷ ":-" ∷ "፦" ∷ "፡፡"
    ∷ "።" ∷ "፤፤" ∷ ";" ∷ "‹‹" ∷ "«" ∷ "››" ∷ "»" ∷ "፡-" ∷ "፦" ∷ "`\\?" ∷ "፧" ∷ "'1" ∷ "፩" ∷ "'2"
    ∷ "፪" ∷ "'3" ∷ "፫" ∷ "'4" ∷ "፬" ∷ "'5" ∷ "፭" ∷ "'6" ∷ "፮" ∷ "'7" ∷ "፯" ∷ "'8" ∷ "፰" ∷ "'9" ∷ "፱"
    ∷ []

-- The table, of which each part above is a run of lines.
abbrev pub transforms : List String
transforms =
    transforms_1 ++ transforms_2 ++ transforms_3 ++ transforms_4 ++ transforms_5 ++ transforms_6
    ++ transforms_7 ++ transforms_8

abbrev pub key_map : List (List String)
key_map =
    normal ∷ shift ∷ alt_gr ∷ shift_alt_gr ∷ capslock ∷ shift_capslock ∷ capslock ∷ shift_capslock
    ∷ []

abbrev pub transforms_len : ℕ
transforms_len = 1000

abbrev pub history_prune : Option String
history_prune = none
