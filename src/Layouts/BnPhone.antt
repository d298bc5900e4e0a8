-- ===== src/Layouts/BnPhone.antt =====
-- The `bn_phone` layout: chromium-patches/rulebased-payload/chromeos/ash/services/ime/public/cpp/
-- rulebased/def/bn_phone.cc.
use Prim.Native.String.{String}
use chromiumos_devenv.Common.{Bool, false, List, [], ◌∷◌, ◌++◌, ℕ, Option, some}

abbrev pub id : String
id = "bn_phone"

abbrev pub is_102 : Bool
is_102 = false

abbrev pub normal : List String
normal =
    "`" ∷ "1" ∷ "2" ∷ "3" ∷ "4" ∷ "5" ∷ "6" ∷ "7" ∷ "8" ∷ "9" ∷ "0" ∷ "-" ∷ "=" ∷ "q" ∷ "w" ∷ "e"
    ∷ "r" ∷ "t" ∷ "y" ∷ "u" ∷ "i" ∷ "o" ∷ "p" ∷ "[" ∷ "]" ∷ "\\" ∷ "a" ∷ "s" ∷ "d" ∷ "f" ∷ "g" ∷ "h"
    ∷ "j" ∷ "k" ∷ "l" ∷ ";" ∷ "'" ∷ "z" ∷ "x" ∷ "c" ∷ "v" ∷ "b" ∷ "n" ∷ "m" ∷ "," ∷ "." ∷ "/" ∷ " "
    ∷ []

abbrev pub shift : List String
shift =
    "~" ∷ "!" ∷ "@" ∷ "#" ∷ "$" ∷ "%" ∷ "^" ∷ "&" ∷ "*" ∷ "(" ∷ ")" ∷ "_" ∷ "+" ∷ "Q" ∷ "W" ∷ "E"
    ∷ "R" ∷ "T" ∷ "Y" ∷ "U" ∷ "I" ∷ "O" ∷ "P" ∷ "{" ∷ "}" ∷ "|" ∷ "A" ∷ "S" ∷ "D" ∷ "F" ∷ "G" ∷ "H"
    ∷ "J" ∷ "K" ∷ "L" ∷ ":" ∷ "\"" ∷ "Z" ∷ "X" ∷ "C" ∷ "V" ∷ "B" ∷ "N" ∷ "M" ∷ "<" ∷ ">" ∷ "?" ∷ " "
    ∷ []

abbrev pub alt_gr : List String
alt_gr =
    "ং" ∷ "ঁ" ∷ "়" ∷ "ঃ" ∷ "৺" ∷ "৸" ∷ "৹" ∷ "৲" ∷ "৳" ∷ "০" ∷ "৴" ∷ "১" ∷ "৵" ∷ "২" ∷ "৶" ∷ "৩"
    ∷ "৷" ∷ "৪" ∷ "৫" ∷ "৬" ∷ "৭" ∷ "৮" ∷ "৯" ∷ "অ" ∷ "আ" ∷ "ই" ∷ "ঈ" ∷ "উ" ∷ "ঊ" ∷ "ঋ" ∷ "ৠ" ∷ "ঌ"
    ∷ "ৡ" ∷ "এ" ∷ "ঐ" ∷ "ও" ∷ "ঔ" ∷ "ক" ∷ "খ" ∷ "গ" ∷ "ঘ" ∷ "ঙ" ∷ "চ" ∷ "ছ" ∷ "জ" ∷ "ঝ" ∷ "ঞ" ∷ " "
    ∷ []

abbrev pub capslock : List String
capslock =
    "`" ∷ "1" ∷ "2" ∷ "3" ∷ "4" ∷ "5" ∷ "6" ∷ "7" ∷ "8" ∷ "9" ∷ "0" ∷ "-" ∷ "=" ∷ "Q" ∷ "W" ∷ "E"
    ∷ "R" ∷ "T" ∷ "Y" ∷ "U" ∷ "I" ∷ "O" ∷ "P" ∷ "[" ∷ "]" ∷ "\\" ∷ "A" ∷ "S" ∷ "D" ∷ "F" ∷ "G" ∷ "H"
    ∷ "J" ∷ "K" ∷ "L" ∷ ";" ∷ "'" ∷ "Z" ∷ "X" ∷ "C" ∷ "V" ∷ "B" ∷ "N" ∷ "M" ∷ "," ∷ "." ∷ "/" ∷ " "
    ∷ []

abbrev pub shift_alt_gr : List String
shift_alt_gr =
    "ট" ∷ "ঠ" ∷ "ড" ∷ "ড়" ∷ "ঢ" ∷ "ঢ়" ∷ "ণ" ∷ "ত" ∷ "ৎ" ∷ "থ" ∷ "দ" ∷ "ধ" ∷ "ন" ∷ "প" ∷ "ফ" ∷ "ব"
    ∷ "ভ" ∷ "ম" ∷ "য" ∷ "য়" ∷ "র" ∷ "ৰ" ∷ "ল" ∷ "ৱ" ∷ "শ" ∷ "ষ" ∷ "স" ∷ "হ" ∷ "ঽ" ∷ "া" ∷ "ি" ∷ "ী"
    ∷ "ু" ∷ "ূ" ∷ "ৃ" ∷ "ৄ" ∷ "ৢ" ∷ "ৣ" ∷ "ে" ∷ "ৈ" ∷ "ো" ∷ "ৌ" ∷ "্" ∷ "ৗ" ∷ "" ∷ "" ∷ "" ∷ " "
    ∷ []

abbrev pub shift_capslock : List String
shift_capslock =
    "~" ∷ "!" ∷ "@" ∷ "#" ∷ "$" ∷ "%" ∷ "^" ∷ "&" ∷ "*" ∷ "(" ∷ ")" ∷ "_" ∷ "+" ∷ "q" ∷ "w" ∷ "e"
    ∷ "r" ∷ "t" ∷ "y" ∷ "u" ∷ "i" ∷ "o" ∷ "p" ∷ "{" ∷ "}" ∷ "|" ∷ "a" ∷ "s" ∷ "d" ∷ "f" ∷ "g" ∷ "h"
    ∷ "j" ∷ "k" ∷ "l" ∷ ":" ∷ "\"" ∷ "z" ∷ "x" ∷ "c" ∷ "v" ∷ "b" ∷ "n" ∷ "m" ∷ "<" ∷ ">" ∷ "?" ∷ " "
    ∷ []

abbrev transforms_1 : List String
transforms_1 =
    "্\u{1d}?\\.c" ∷ "ে" ∷ "আঊ\u{1d}?M" ∷ "ওং" ∷ "ড়\u{1d}?\\^i" ∷ "ঋ" ∷ "ড়\u{1d}?\\^I" ∷ "ৠ"
    ∷ "ল\u{1d}?\\^i" ∷ "ঌ" ∷ "ল\u{1d}?\\^I" ∷ "ৡ" ∷ "চ\u{1d}?h" ∷ "ছ" ∷ "ক্ষ\u{1d}?h" ∷ "ক্ষ"
    ∷ "\\.n" ∷ "ং" ∷ "\\.m" ∷ "ং" ∷ "\\.N" ∷ "ঁ" ∷ "\\.h" ∷ "্\u{200c}" ∷ "\\.a" ∷ "ঽ" ∷ "OM" ∷ "ওং"
    ∷ "অ\u{1d}?a" ∷ "আ" ∷ "ই\u{1d}?i" ∷ "ঈ" ∷ "এ\u{1d}?e" ∷ "ঈ" ∷ "উ\u{1d}?u" ∷ "ঊ" ∷ "ও\u{1d}?o"
    ∷ "ঊ" ∷ "অ\u{1d}?i" ∷ "ঐ" ∷ "অ\u{1d}?u" ∷ "ঔ" ∷ "ক\u{1d}?h" ∷ "খ" ∷ "গ\u{1d}?h" ∷ "ঘ" ∷ "~N"
    ∷ "ঙ" ∷ "ch" ∷ "চ" ∷ "Ch" ∷ "ছ" ∷ "জ\u{1d}?h" ∷ "ঝ" ∷ "~n" ∷ "ঞ" ∷ "ট\u{1d}?h" ∷ "ঠ"
    ∷ "ড\u{1d}?h" ∷ "ঢ" ∷ "ত\u{1d}?h" ∷ "থ" ∷ "দ\u{1d}?h" ∷ "ধ" ∷ "প\u{1d}?h" ∷ "ফ" ∷ "ব\u{1d}?h"
    ∷ "ভ" ∷ "স\u{1d}?h" ∷ "শ" ∷ "শ\u{1d}?h" ∷ "ষ" ∷ "~h" ∷ "্হ" ∷ "ড়\u{1d}?h" ∷ "ঢ়" ∷ "ক\u{1d}?S"
    ∷ "ক্ষ" ∷ "GY" ∷ "জ্ঞ" ∷ "M" ∷ "ং" ∷ "H" ∷ "ঃ" ∷ "a" ∷ "অ" ∷ "A" ∷ "আ" ∷ "i" ∷ "ই" ∷ "I" ∷ "ঈ"
    ∷ "u" ∷ "উ" ∷ "U" ∷ "ঊ" ∷ "e" ∷ "এ" ∷ "o" ∷ "ও" ∷ "k" ∷ "ক" ∷ "g" ∷ "গ" ∷ "j" ∷ "জ" ∷ "T" ∷ "ট"
    ∷ "D" ∷ "ড" ∷ "N" ∷ "ণ" ∷ "t" ∷ "ত" ∷ "d" ∷ "দ" ∷ "n" ∷ "ন" ∷ "p" ∷ "প" ∷ "b" ∷ "ব" ∷ "m" ∷ "ম"
    ∷ "y" ∷ "য" ∷ "r" ∷ "র" ∷ "l" ∷ "ল" ∷ "L" ∷ "ল" ∷ "v" ∷ "ব" ∷ []

abbrev transforms_2 : List String
transforms_2 =
    "w" ∷ "ব" ∷ "S" ∷ "শ" ∷ "s" ∷ "স" ∷ "h" ∷ "হ" ∷ "R" ∷ "ড়" ∷ "Y" ∷ "য়" ∷ "x" ∷ "ক্ষ"
    ∷ "([ক-হড়-য়])\u{1d}a" ∷ "\\1" ∷ "([ক-হড়-য়])\u{1d}aa" ∷ "\\1া" ∷ "([ক-হড়-য়])\u{1d}ai" ∷ "\\1ৈ"
    ∷ "([ক-হড়-য়])\u{1d}au" ∷ "\\1ৌ" ∷ "([ক-হড়-য়])\u{1d}A" ∷ "\\1া" ∷ "([ক-হড়-য়])\u{1d}i" ∷ "\\1ি"
    ∷ "ি\u{1d}i" ∷ "ী" ∷ "ে\u{1d}e" ∷ "ী" ∷ "([ক-হড়-য়])\u{1d}I" ∷ "\\1ী" ∷ "([ক-হড়-য়])\u{1d}u"
    ∷ "\\1ু" ∷ "([ক-হড়-য়])\u{1d}U" ∷ "\\1ূ" ∷ "ু\u{1d}u" ∷ "ূ" ∷ "ো\u{1d}o" ∷ "ূ"
    ∷ "([ক-হড়-য়])্র়্র়\u{1d}i" ∷ "\\1ৃ" ∷ "([ক-হড়-য়])্র়^i" ∷ "\\1ৃ" ∷ "([ক-হড়-য়])্র়্র়\u{1d}I"
    ∷ "\\1ৄ" ∷ "([ক-হড়-য়])্র়^I" ∷ "\\1ৄ" ∷ "র়্র়\u{1d}i" ∷ "ঋ" ∷ "র়্র়\u{1d}I" ∷ "ৠ"
    ∷ "ল্ল\u{1d}i" ∷ "ঌ" ∷ "ল্ল\u{1d}I" ∷ "ৡ" ∷ "([ক-হড়-য়])\u{1d}e" ∷ "\\1ে" ∷ "([ক-হড়-য়])\u{1d}o"
    ∷ "\\1ো" ∷ "([ক-হড়-য়])\u{1d}k" ∷ "\\1্ক" ∷ "([ক-হড়-য়])\u{1d}g" ∷ "\\1্গ" ∷ "([ক-হড়-য়])\u{1d}~N"
    ∷ "\\1্ঙ" ∷ "([ক-হড়-য়])\u{1d}ch" ∷ "\\1্চ" ∷ "([ক-হড়-য়])\u{1d}Ch" ∷ "\\1্ছ"
    ∷ "([ক-হড়-য়])\u{1d}j" ∷ "\\1্জ" ∷ "([ক-হড়-য়])\u{1d}~n" ∷ "\\1্ঞ" ∷ "([ক-হড়-য়])\u{1d}T" ∷ "\\1্ট"
    ∷ "([ক-হড়-য়])\u{1d}D" ∷ "\\1্ড" ∷ "([ক-হড়-য়])\u{1d}N" ∷ "\\1্ণ" ∷ "([ক-হড়-য়])\u{1d}t" ∷ "\\1্ত"
    ∷ "([ক-হড়-য়])\u{1d}d" ∷ "\\1্দ" ∷ "([ক-হড়-য়])\u{1d}n" ∷ "\\1্ন" ∷ "([ক-হড়-য়])\u{1d}p" ∷ "\\1্প"
    ∷ "([ক-হড়-য়])\u{1d}b" ∷ "\\1্ব" ∷ "([ক-হড়-য়])\u{1d}m" ∷ "\\1্ম" ∷ "([ক-হড়-য়])\u{1d}r" ∷ "\\1্র"
    ∷ "([ক-হড়-য়])\u{1d}l" ∷ "\\1্ল" ∷ "([ক-হড়-য়])\u{1d}L" ∷ "\\1্ল" ∷ "([ক-হড়-য়])\u{1d}v" ∷ "\\1্ব"
    ∷ "([ক-হড়-য়])\u{1d}w" ∷ "\\1্ব" ∷ "([ক-হড়-য়])\u{1d}S" ∷ "\\1্শ" ∷ "([ক-হড়-য়])\u{1d}s" ∷ "\\1্স"
    ∷ "([ক-হড়-য়])\u{1d}h" ∷ "\\1্হ" ∷ "([ক-হড়-য়])\u{1d}R" ∷ "\\1্র়" ∷ "([ক-হড়-য়])\u{1d}q"
    ∷ "\\1্ক়" ∷ "([ক-হড়-য়])\u{1d}Kh" ∷ "\\1্খ়" ∷ "([ক-হড়-য়])\u{1d}G" ∷ "\\1্গ়"
    ∷ "([ক-হড়-য়])\u{1d}z" ∷ "\\1্জ়" ∷ "([ক-হড়-য়])\u{1d}J" ∷ "\\1্জ়" ∷ "([ক-হড়-য়])\u{1d}.D"
    ∷ "\\1্ড়" ∷ "([ক-হড়-য়])\u{1d}f" ∷ "\\1্ফ়" ∷ "([ক-হড়-য়])\u{1d}y" ∷ "\\1্য়"
    ∷ "([ক-হড়-য়])\u{1d}x" ∷ "\\1্ক্ষ" ∷ "([ক-হড়-য়])\u{1d}ak" ∷ "\\1ক" ∷ "([ক-হড়-য়])\u{1d}ag"
    ∷ "\\1গ" ∷ "([ক-হড়-য়])\u{1d}a~N" ∷ "\\1ঙ" ∷ []

abbrev transforms_3 : List String
transforms_3 =
    "([ক-হড়-য়])\u{1d}ach" ∷ "\\1চ" ∷ "([ক-হড়-য়])\u{1d}aCh" ∷ "\\1ছ" ∷ "([ক-হড়-য়])\u{1d}aj" ∷ "\\1জ"
    ∷ "([ক-হড়-য়])\u{1d}a~n" ∷ "\\1ঞ" ∷ "([ক-হড়-য়])\u{1d}aT" ∷ "\\1ট" ∷ "([ক-হড়-য়])\u{1d}aD" ∷ "\\1ড"
    ∷ "([ক-হড়-য়])\u{1d}aN" ∷ "\\1ণ" ∷ "([ক-হড়-য়])\u{1d}at" ∷ "\\1ত" ∷ "([ক-হড়-য়])\u{1d}ad" ∷ "\\1দ"
    ∷ "([ক-হড়-য়])\u{1d}an" ∷ "\\1ন" ∷ "([ক-হড়-য়])\u{1d}ap" ∷ "\\1প" ∷ "([ক-হড়-য়])\u{1d}ab" ∷ "\\1ব"
    ∷ "([ক-হড়-য়])\u{1d}am" ∷ "\\1ম" ∷ "([ক-হড়-য়])\u{1d}ar" ∷ "\\1র" ∷ "([ক-হড়-য়])\u{1d}al" ∷ "\\1ল"
    ∷ "([ক-হড়-য়])\u{1d}aL" ∷ "\\1ল" ∷ "([ক-হড়-য়])\u{1d}av" ∷ "\\1ব" ∷ "([ক-হড়-য়])\u{1d}aw" ∷ "\\1ব"
    ∷ "([ক-হড়-য়])\u{1d}aS" ∷ "\\1শ" ∷ "([ক-হড়-য়])\u{1d}as" ∷ "\\1স" ∷ "([ক-হড়-য়])\u{1d}ah" ∷ "\\1হ"
    ∷ "([ক-হড়-য়])\u{1d}aR" ∷ "\\1র়" ∷ "([ক-হড়-য়])\u{1d}aq" ∷ "\\1ক়" ∷ "([ক-হড়-য়])\u{1d}aKh"
    ∷ "\\1খ়" ∷ "([ক-হড়-য়])\u{1d}aG" ∷ "\\1গ়" ∷ "([ক-হড়-য়])\u{1d}az" ∷ "\\1জ়"
    ∷ "([ক-হড়-য়])\u{1d}aJ" ∷ "\\1জ়" ∷ "([ক-হড়-য়])\u{1d}a.D" ∷ "\\1ড়" ∷ "([ক-হড়-য়])\u{1d}af"
    ∷ "\\1ফ়" ∷ "([ক-হড়-য়])\u{1d}ay" ∷ "\\1য়" ∷ "([ক-হড়-য়])\u{1d}ax" ∷ "\\1ক্ষ"
    ∷ "([ক-হড়-য়])\u{1d}aak" ∷ "\\1াক" ∷ "([ক-হড়-য়])\u{1d}aag" ∷ "\\1াগ" ∷ "([ক-হড়-য়])\u{1d}aa~N"
    ∷ "\\1াঙ" ∷ "([ক-হড়-য়])\u{1d}aach" ∷ "\\1াচ" ∷ "([ক-হড়-য়])\u{1d}aaCh" ∷ "\\1াছ"
    ∷ "([ক-হড়-য়])\u{1d}aaj" ∷ "\\1াজ" ∷ "([ক-হড়-য়])\u{1d}aa~n" ∷ "\\1াঞ" ∷ "([ক-হড়-য়])\u{1d}aaT"
    ∷ "\\1াট" ∷ "([ক-হড়-য়])\u{1d}aaD" ∷ "\\1াড" ∷ "([ক-হড়-য়])\u{1d}aaN" ∷ "\\1াণ"
    ∷ "([ক-হড়-য়])\u{1d}aat" ∷ "\\1াত" ∷ "([ক-হড়-য়])\u{1d}aad" ∷ "\\1াদ" ∷ "([ক-হড়-য়])\u{1d}aan"
    ∷ "\\1ান" ∷ "([ক-হড়-য়])\u{1d}aap" ∷ "\\1াপ" ∷ "([ক-হড়-য়])\u{1d}aab" ∷ "\\1াব"
    ∷ "([ক-হড়-য়])\u{1d}aam" ∷ "\\1াম" ∷ "([ক-হড়-য়])\u{1d}aar" ∷ "\\1ার" ∷ "([ক-হড়-য়])\u{1d}aal"
    ∷ "\\1াল" ∷ "([ক-হড়-য়])\u{1d}aaL" ∷ "\\1াল" ∷ "([ক-হড়-য়])\u{1d}aav" ∷ "\\1াব"
    ∷ "([ক-হড়-য়])\u{1d}aaw" ∷ "\\1াব" ∷ "([ক-হড়-য়])\u{1d}aaS" ∷ "\\1াশ" ∷ "([ক-হড়-য়])\u{1d}aas"
    ∷ "\\1াস" ∷ "([ক-হড়-য়])\u{1d}aah" ∷ "\\1াহ" ∷ "([ক-হড়-য়])\u{1d}aaR" ∷ "\\1ার়"
    ∷ "([ক-হড়-য়])\u{1d}aaq" ∷ "\\1াক়" ∷ "([ক-হড়-য়])\u{1d}aaKh" ∷ "\\1াখ়" ∷ "([ক-হড়-য়])\u{1d}aaG"
    ∷ "\\1াগ়" ∷ "([ক-হড়-য়])\u{1d}aaz" ∷ "\\1াজ়" ∷ "([ক-হড়-য়])\u{1d}aaJ" ∷ "\\1াজ়"
    ∷ "([ক-হড়-য়])\u{1d}aa.D" ∷ "\\1াড়" ∷ "([ক-হড়-য়])\u{1d}aaf" ∷ "\\1াফ়" ∷ "([ক-হড়-য়])\u{1d}aay"
    ∷ "\\1ায়" ∷ "([ক-হড়-য়])\u{1d}aax" ∷ "\\1াক্ষ" ∷ []

-- The table, of which each part above is a run of lines.
abbrev pub transforms : List String
transforms = transforms_1 ++ transforms_2 ++ transforms_3

abbrev pub key_map : List (List String)
key_map =
    normal ∷ shift ∷ alt_gr ∷ shift_alt_gr ∷ capslock ∷ shift_capslock ∷ capslock ∷ shift_capslock
    ∷ []

abbrev pub transforms_len : ℕ
transforms_len = 398

abbrev pub history_prune : Option String
history_prune = some "a|aa|ac|aaC|aac|a\\.|aK|aC|aaK|aS|aaS|aa~|aa\\.|a~"
