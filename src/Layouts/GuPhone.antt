-- ===== src/Layouts/GuPhone.antt =====
-- The `gu_phone` layout: chromium-patches/rulebased-payload/chromeos/ash/services/ime/public/cpp/
-- rulebased/def/gu_phone.cc.
use Prim.Native.String.{String}
use chromiumos_devenv.Common.{Bool, false, List, [], ◌∷◌, ◌++◌, ℕ, Option, some}

abbrev pub id : String
id = "gu_phone"

abbrev pub is_102 : Bool
is_102 = false

abbrev pub normal : List String
normal =
    "`" ∷ "1" ∷ "2" ∷ "3" ∷ "4" ∷ "5" ∷ "6" ∷ "7" ∷ "8" ∷ "9" ∷ "0" ∷ "-" ∷ "=" ∷ "q" ∷ "w" ∷ "e"
    ∷ "r" ∷ "t" ∷ "y" ∷ "u" ∷ "i" ∷ "o" ∷ "p" ∷ "[" ∷ "]" ∷ "\\" ∷ "a" ∷ "s" ∷ "d" ∷ "f" ∷ "g" ∷ "h"
    ∷ "j" ∷ "k" ∷ "l" ∷ ";" ∷ "'" ∷ "z" ∷ "x" ∷ "c" ∷ "v" ∷ "b" ∷ "n" ∷ "m" ∷ "," ∷ "." ∷ "/" ∷ " "
    ∷ []

abbrev pub shift : List String
shift =
    "~" ∷ "!" ∷ "@" ∷ "#" ∷ "$" ∷ "%" ∷ "^" ∷ "&" ∷ "*" ∷ "(" ∷ ")" ∷ "_" ∷ "+" ∷ "Q" ∷ "W" ∷ "E"
    ∷ "R" ∷ "T" ∷ "Y" ∷ "U" ∷ "I" ∷ "O" ∷ "P" ∷ "{" ∷ "}" ∷ "|" ∷ "A" ∷ "S" ∷ "D" ∷ "F" ∷ "G" ∷ "H"
    ∷ "J" ∷ "K" ∷ "L" ∷ ":" ∷ "\"" ∷ "Z" ∷ "X" ∷ "C" ∷ "V" ∷ "B" ∷ "N" ∷ "M" ∷ "<" ∷ ">" ∷ "?" ∷ " "
    ∷ []

abbrev pub alt_gr : List String
alt_gr =
    "૱" ∷ "૦" ∷ "૧" ∷ "૨" ∷ "૩" ∷ "૪" ∷ "૫" ∷ "૬" ∷ "૭" ∷ "૮" ∷ "૯" ∷ "ૐ" ∷ "અ" ∷ "અં" ∷ "અઃ" ∷ "આ"
    ∷ "ઇ" ∷ "ઈ" ∷ "ઉ" ∷ "ઊ" ∷ "ઋ" ∷ "ૠ" ∷ "ઌ" ∷ "ૡ" ∷ "ઍ" ∷ "એ" ∷ "ઐ" ∷ "ઑ" ∷ "ઓ" ∷ "ઔ" ∷ "ક"
    ∷ "ક્ષ" ∷ "ખ" ∷ "ગ" ∷ "ઘ" ∷ "ઙ" ∷ "ચ" ∷ "છ" ∷ "જ" ∷ "જ્ઞ" ∷ "ઝ" ∷ "ઞ" ∷ "ટ" ∷ "ઠ" ∷ "ડ" ∷ "ઢ"
    ∷ "ણ" ∷ " " ∷ []

abbrev pub capslock : List String
capslock =
    "`" ∷ "1" ∷ "2" ∷ "3" ∷ "4" ∷ "5" ∷ "6" ∷ "7" ∷ "8" ∷ "9" ∷ "0" ∷ "-" ∷ "=" ∷ "Q" ∷ "W" ∷ "E"
    ∷ "R" ∷ "T" ∷ "Y" ∷ "U" ∷ "I" ∷ "O" ∷ "P" ∷ "[" ∷ "]" ∷ "\\" ∷ "A" ∷ "S" ∷ "D" ∷ "F" ∷ "G" ∷ "H"
    ∷ "J" ∷ "K" ∷ "L" ∷ ";" ∷ "'" ∷ "Z" ∷ "X" ∷ "C" ∷ "V" ∷ "B" ∷ "N" ∷ "M" ∷ "," ∷ "." ∷ "/" ∷ " "
    ∷ []

abbrev pub shift_alt_gr : List String
shift_alt_gr =
    "ત" ∷ "ત્ર" ∷ "થ" ∷ "દ" ∷ "ધ" ∷ "ન" ∷ "પ" ∷ "ફ" ∷ "બ" ∷ "ભ" ∷ "મ" ∷ "ય" ∷ "ર" ∷ "લ" ∷ "ળ" ∷ "વ"
    ∷ "શ" ∷ "શ્ર" ∷ "ષ" ∷ "સ" ∷ "હ" ∷ "઼" ∷ "ઁ" ∷ "ં" ∷ "્" ∷ "ા" ∷ "િ" ∷ "ી" ∷ "ુ" ∷ "ૂ" ∷ "ૃ"
    ∷ "ૄ" ∷ "ૢ" ∷ "ૣ" ∷ "ૅ" ∷ "ે" ∷ "ૈ" ∷ "ૉ" ∷ "ો" ∷ "ૌ" ∷ "ઽ" ∷ "" ∷ "" ∷ "" ∷ "" ∷ "" ∷ "" ∷ " "
    ∷ []

abbrev pub shift_capslock : List String
shift_capslock =
    "~" ∷ "!" ∷ "@" ∷ "#" ∷ "$" ∷ "%" ∷ "^" ∷ "&" ∷ "*" ∷ "(" ∷ ")" ∷ "_" ∷ "+" ∷ "q" ∷ "w" ∷ "e"
    ∷ "r" ∷ "t" ∷ "y" ∷ "u" ∷ "i" ∷ "o" ∷ "p" ∷ "{" ∷ "}" ∷ "|" ∷ "a" ∷ "s" ∷ "d" ∷ "f" ∷ "g" ∷ "h"
    ∷ "j" ∷ "k" ∷ "l" ∷ ":" ∷ "\"" ∷ "z" ∷ "x" ∷ "c" ∷ "v" ∷ "b" ∷ "n" ∷ "m" ∷ "<" ∷ ">" ∷ "?" ∷ " "
    ∷ []

abbrev transforms_1 : List String
transforms_1 =
    "્\u{1d}?\\.c" ∷ "ૅ" ∷ "આઊ\u{1d}?M" ∷ "ૐ" ∷ "ર઼\u{1d}?\\^i" ∷ "ઋ" ∷ "ર઼\u{1d}?\\^I" ∷ "ૠ"
    ∷ "ળ\u{1d}?\\^i" ∷ "ઌ" ∷ "ળ\u{1d}?\\^I" ∷ "ૡ" ∷ "ચ\u{1d}?h" ∷ "છ" ∷ "ડ઼\u{1d}?h" ∷ "ઢ઼"
    ∷ "ક્ષ\u{1d}?h" ∷ "ક્ષ" ∷ "\\.n" ∷ "ં" ∷ "\\.m" ∷ "ં" ∷ "\\.N" ∷ "ઁ" ∷ "\\.h" ∷ "્\u{200c}"
    ∷ "\\.a" ∷ "ઽ" ∷ "OM" ∷ "ૐ" ∷ "અ\u{1d}?a" ∷ "આ" ∷ "ઇ\u{1d}?i" ∷ "ઈ" ∷ "એ\u{1d}?e" ∷ "ઈ"
    ∷ "ઉ\u{1d}?u" ∷ "ઊ" ∷ "ઓ\u{1d}?o" ∷ "ઊ" ∷ "અ\u{1d}?i" ∷ "ઐ" ∷ "અ\u{1d}?u" ∷ "ઔ" ∷ "ક\u{1d}?h"
    ∷ "ખ" ∷ "ગ\u{1d}?h" ∷ "ઘ" ∷ "~N" ∷ "ઙ" ∷ "ch" ∷ "ચ" ∷ "Ch" ∷ "છ" ∷ "જ\u{1d}?h" ∷ "ઝ" ∷ "~n"
    ∷ "ઞ" ∷ "ટ\u{1d}?h" ∷ "ઠ" ∷ "ડ\u{1d}?h" ∷ "ઢ" ∷ "ત\u{1d}?h" ∷ "થ" ∷ "દ\u{1d}?h" ∷ "ધ"
    ∷ "પ\u{1d}?h" ∷ "ફ" ∷ "બ\u{1d}?h" ∷ "ભ" ∷ "સ\u{1d}?h" ∷ "શ" ∷ "શ\u{1d}?h" ∷ "ષ" ∷ "~h" ∷ "્હ"
    ∷ "Kh" ∷ "ખ઼" ∷ "\\.D" ∷ "ડ઼" ∷ "ર઼\u{1d}?h" ∷ "ઢ઼" ∷ "ક\u{1d}?S" ∷ "ક્ષ" ∷ "ગ઼\u{1d}?Y" ∷ "જ્ઞ"
    ∷ "M" ∷ "ં" ∷ "H" ∷ "ઃ" ∷ "a" ∷ "અ" ∷ "A" ∷ "આ" ∷ "i" ∷ "ઇ" ∷ "I" ∷ "ઈ" ∷ "u" ∷ "ઉ" ∷ "U" ∷ "ઊ"
    ∷ "e" ∷ "એ" ∷ "o" ∷ "ઓ" ∷ "k" ∷ "ક" ∷ "g" ∷ "ગ" ∷ "j" ∷ "જ" ∷ "T" ∷ "ટ" ∷ "D" ∷ "ડ" ∷ "N" ∷ "ણ"
    ∷ "t" ∷ "ત" ∷ "d" ∷ "દ" ∷ "n" ∷ "ન" ∷ "p" ∷ "પ" ∷ "b" ∷ "બ" ∷ "m" ∷ "મ" ∷ "y" ∷ "ય" ∷ "r" ∷ "ર"
    ∷ "l" ∷ "લ" ∷ "L" ∷ "ળ" ∷ "v" ∷ "વ" ∷ []

abbrev transforms_2 : List String
transforms_2 =
    "w" ∷ "વ" ∷ "S" ∷ "શ" ∷ "s" ∷ "સ" ∷ "h" ∷ "હ" ∷ "R" ∷ "ર઼" ∷ "q" ∷ "ક઼" ∷ "G" ∷ "ગ઼" ∷ "z"
    ∷ "જ઼" ∷ "J" ∷ "જ઼" ∷ "f" ∷ "ફ઼" ∷ "Y" ∷ "ય઼" ∷ "x" ∷ "ક્ષ" ∷ "([ક-હ])\u{1d}a" ∷ "\\1"
    ∷ "([ક-હ])\u{1d}aa" ∷ "\\1ા" ∷ "([ક-હ])\u{1d}ai" ∷ "\\1ૈ" ∷ "([ક-હ])\u{1d}au" ∷ "\\1ૌ"
    ∷ "([ક-હ])\u{1d}A" ∷ "\\1ા" ∷ "([ક-હ])\u{1d}i" ∷ "\\1િ" ∷ "િ\u{1d}i" ∷ "ી" ∷ "ે\u{1d}e" ∷ "ી"
    ∷ "([ક-હ])\u{1d}I" ∷ "\\1ી" ∷ "([ક-હ])\u{1d}u" ∷ "\\1ુ" ∷ "([ક-હ])\u{1d}U" ∷ "\\1ૂ" ∷ "ુ\u{1d}u"
    ∷ "ૂ" ∷ "ો\u{1d}o" ∷ "ૂ" ∷ "([ક-હ])્ર઼્ર઼\u{1d}i" ∷ "\\1ૃ" ∷ "([ક-હ])્ર઼^i" ∷ "\\1ૃ"
    ∷ "([ક-હ])્ર઼્ર઼\u{1d}I" ∷ "\\1ૄ" ∷ "([ક-હ])્ર઼^I" ∷ "\\1ૄ" ∷ "ર઼્ર઼\u{1d}i" ∷ "ઋ"
    ∷ "ર઼્ર઼\u{1d}I" ∷ "ૠ" ∷ "ળ્ળ\u{1d}i" ∷ "ઌ" ∷ "ળ્ળ\u{1d}I" ∷ "ૡ" ∷ "([ક-હ])\u{1d}e" ∷ "\\1ે"
    ∷ "([ક-હ])\u{1d}o" ∷ "\\1ો" ∷ "([ક-હ])\u{1d}k" ∷ "\\1્ક" ∷ "([ક-હ])\u{1d}g" ∷ "\\1્ગ"
    ∷ "([ક-હ])\u{1d}~N" ∷ "\\1્ઙ" ∷ "([ક-હ])\u{1d}ch" ∷ "\\1્ચ" ∷ "([ક-હ])\u{1d}Ch" ∷ "\\1્છ"
    ∷ "([ક-હ])\u{1d}j" ∷ "\\1્જ" ∷ "([ક-હ])\u{1d}~n" ∷ "\\1્ઞ" ∷ "([ક-હ])\u{1d}T" ∷ "\\1્ટ"
    ∷ "([ક-હ])\u{1d}D" ∷ "\\1્ડ" ∷ "([ક-હ])\u{1d}N" ∷ "\\1્ણ" ∷ "([ક-હ])\u{1d}t" ∷ "\\1્ત"
    ∷ "([ક-હ])\u{1d}d" ∷ "\\1્દ" ∷ "([ક-હ])\u{1d}n" ∷ "\\1્ન" ∷ "([ક-હ])\u{1d}p" ∷ "\\1્પ"
    ∷ "([ક-હ])\u{1d}b" ∷ "\\1્બ" ∷ "([ક-હ])\u{1d}m" ∷ "\\1્મ" ∷ "([ક-હ])\u{1d}r" ∷ "\\1્ર"
    ∷ "([ક-હ])\u{1d}l" ∷ "\\1્લ" ∷ "([ક-હ])\u{1d}L" ∷ "\\1્ળ" ∷ "([ક-હ])\u{1d}v" ∷ "\\1્વ"
    ∷ "([ક-હ])\u{1d}w" ∷ "\\1્વ" ∷ "([ક-હ])\u{1d}S" ∷ "\\1્શ" ∷ "([ક-હ])\u{1d}s" ∷ "\\1્સ"
    ∷ "([ક-હ])\u{1d}h" ∷ "\\1્હ" ∷ "([ક-હ])\u{1d}R" ∷ "\\1્ર઼" ∷ "([ક-હ])\u{1d}q" ∷ "\\1્ક઼"
    ∷ "([ક-હ])\u{1d}Kh" ∷ "\\1્ખ઼" ∷ "([ક-હ])\u{1d}G" ∷ "\\1્ગ઼" ∷ "([ક-હ])\u{1d}z" ∷ "\\1્જ઼"
    ∷ "([ક-હ])\u{1d}J" ∷ "\\1્જ઼" ∷ "([ક-હ])\u{1d}.D" ∷ "\\1્ડ઼" ∷ "([ક-હ])\u{1d}f" ∷ "\\1્ફ઼"
    ∷ "([ક-હ])\u{1d}y" ∷ "\\1્ય઼" ∷ "([ક-હ])\u{1d}x" ∷ "\\1્ક્ષ" ∷ "([ક-હ])\u{1d}ak" ∷ "\\1ક" ∷ []

abbrev transforms_3 : List String
transforms_3 =
    "([ક-હ])\u{1d}ag" ∷ "\\1ગ" ∷ "([ક-હ])\u{1d}a~N" ∷ "\\1ઙ" ∷ "([ક-હ])\u{1d}ach" ∷ "\\1ચ"
    ∷ "([ક-હ])\u{1d}aCh" ∷ "\\1છ" ∷ "([ક-હ])\u{1d}aj" ∷ "\\1જ" ∷ "([ક-હ])\u{1d}a~n" ∷ "\\1ઞ"
    ∷ "([ક-હ])\u{1d}aT" ∷ "\\1ટ" ∷ "([ક-હ])\u{1d}aD" ∷ "\\1ડ" ∷ "([ક-હ])\u{1d}aN" ∷ "\\1ણ"
    ∷ "([ક-હ])\u{1d}at" ∷ "\\1ત" ∷ "([ક-હ])\u{1d}ad" ∷ "\\1દ" ∷ "([ક-હ])\u{1d}an" ∷ "\\1ન"
    ∷ "([ક-હ])\u{1d}ap" ∷ "\\1પ" ∷ "([ક-હ])\u{1d}ab" ∷ "\\1બ" ∷ "([ક-હ])\u{1d}am" ∷ "\\1મ"
    ∷ "([ક-હ])\u{1d}ar" ∷ "\\1ર" ∷ "([ક-હ])\u{1d}al" ∷ "\\1લ" ∷ "([ક-હ])\u{1d}aL" ∷ "\\1ળ"
    ∷ "([ક-હ])\u{1d}av" ∷ "\\1વ" ∷ "([ક-હ])\u{1d}aw" ∷ "\\1વ" ∷ "([ક-હ])\u{1d}aS" ∷ "\\1શ"
    ∷ "([ક-હ])\u{1d}as" ∷ "\\1સ" ∷ "([ક-હ])\u{1d}ah" ∷ "\\1હ" ∷ "([ક-હ])\u{1d}aR" ∷ "\\1ર઼"
    ∷ "([ક-હ])\u{1d}aq" ∷ "\\1ક઼" ∷ "([ક-હ])\u{1d}aKh" ∷ "\\1ખ઼" ∷ "([ક-હ])\u{1d}aG" ∷ "\\1ગ઼"
    ∷ "([ક-હ])\u{1d}az" ∷ "\\1જ઼" ∷ "([ક-હ])\u{1d}aJ" ∷ "\\1જ઼" ∷ "([ક-હ])\u{1d}a.D" ∷ "\\1ડ઼"
    ∷ "([ક-હ])\u{1d}af" ∷ "\\1ફ઼" ∷ "([ક-હ])\u{1d}ay" ∷ "\\1ય઼" ∷ "([ક-હ])\u{1d}ax" ∷ "\\1ક્ષ"
    ∷ "([ક-હ])\u{1d}aak" ∷ "\\1ાક" ∷ "([ક-હ])\u{1d}aag" ∷ "\\1ાગ" ∷ "([ક-હ])\u{1d}aa~N" ∷ "\\1ાઙ"
    ∷ "([ક-હ])\u{1d}aach" ∷ "\\1ાચ" ∷ "([ક-હ])\u{1d}aaCh" ∷ "\\1ાછ" ∷ "([ક-હ])\u{1d}aaj" ∷ "\\1ાજ"
    ∷ "([ક-હ])\u{1d}aa~n" ∷ "\\1ાઞ" ∷ "([ક-હ])\u{1d}aaT" ∷ "\\1ાટ" ∷ "([ક-હ])\u{1d}aaD" ∷ "\\1ાડ"
    ∷ "([ક-હ])\u{1d}aaN" ∷ "\\1ાણ" ∷ "([ક-હ])\u{1d}aat" ∷ "\\1ાત" ∷ "([ક-હ])\u{1d}aad" ∷ "\\1ાદ"
    ∷ "([ક-હ])\u{1d}aan" ∷ "\\1ાન" ∷ "([ક-હ])\u{1d}aap" ∷ "\\1ાપ" ∷ "([ક-હ])\u{1d}aab" ∷ "\\1ાબ"
    ∷ "([ક-હ])\u{1d}aam" ∷ "\\1ામ" ∷ "([ક-હ])\u{1d}aar" ∷ "\\1ાર" ∷ "([ક-હ])\u{1d}aal" ∷ "\\1ાલ"
    ∷ "([ક-હ])\u{1d}aaL" ∷ "\\1ાળ" ∷ "([ક-હ])\u{1d}aav" ∷ "\\1ાવ" ∷ "([ક-હ])\u{1d}aaw" ∷ "\\1ાવ"
    ∷ "([ક-હ])\u{1d}aaS" ∷ "\\1ાશ" ∷ "([ક-હ])\u{1d}aas" ∷ "\\1ાસ" ∷ "([ક-હ])\u{1d}aah" ∷ "\\1ાહ"
    ∷ "([ક-હ])\u{1d}aaR" ∷ "\\1ાર઼" ∷ "([ક-હ])\u{1d}aaq" ∷ "\\1ાક઼" ∷ "([ક-હ])\u{1d}aaKh" ∷ "\\1ાખ઼"
    ∷ "([ક-હ])\u{1d}aaG" ∷ "\\1ાગ઼" ∷ "([ક-હ])\u{1d}aaz" ∷ "\\1ાજ઼" ∷ "([ક-હ])\u{1d}aaJ" ∷ "\\1ાજ઼"
    ∷ "([ક-હ])\u{1d}aa.D" ∷ "\\1ાડ઼" ∷ "([ક-હ])\u{1d}aaf" ∷ "\\1ાફ઼" ∷ "([ક-હ])\u{1d}aay" ∷ "\\1ાય઼"
    ∷ "([ક-હ])\u{1d}aax" ∷ "\\1ાક્ષ" ∷ []

-- The table, of which each part above is a run of lines.
abbrev pub transforms : List String
transforms = transforms_1 ++ transforms_2 ++ transforms_3

abbrev pub key_map : List (List String)
key_map =
    normal ∷ shift ∷ alt_gr ∷ shift_alt_gr ∷ capslock ∷ shift_capslock ∷ capslock ∷ shift_capslock
    ∷ []

abbrev pub transforms_len : ℕ
transforms_len = 414

abbrev pub history_prune : Option String
history_prune = some "a|aa|ac|aaC|aac|a\\.|aK|aC|aaK|aS|aaS|aa~|aa\\.|a~"
