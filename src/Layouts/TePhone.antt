-- ===== src/Layouts/TePhone.antt =====
-- The `te_phone` layout: chromium-patches/rulebased-payload/chromeos/ash/services/ime/public/cpp/
-- rulebased/def/te_phone.cc.
use Prim.Native.String.{String}
use chromiumos_devenv.Common.{Bool, false, List, [], ◌∷◌, ◌++◌, ℕ, Option, some}

abbrev pub id : String
id = "te_phone"

abbrev pub is_102 : Bool
is_102 = false

abbrev transforms_1 : List String
transforms_1 =
    "([క-హ])\u{1d}?u" ∷ "\\1ౌ" ∷ "ొ\u{1d}?o" ∷ "ో" ∷ "్\u{1d}?O" ∷ "ో" ∷ "్\u{1d}?o" ∷ "ొ"
    ∷ "([క-హ])\u{1d}?i" ∷ "\\1ై" ∷ "ె\u{1d}?e" ∷ "ీ" ∷ "్\u{1d}?E" ∷ "ే" ∷ "్\u{1d}?e" ∷ "ె"
    ∷ "్ళ్ళ్\u{1d}?I" ∷ "ౣ" ∷ "్ళ్\u{1d}?\\^I" ∷ "ౣ" ∷ "్ళ్ళ్\u{1d}?i" ∷ "ౢ" ∷ "్ళ్\u{1d}?\\^i"
    ∷ "ౢ" ∷ "ృ\u{1d}?I" ∷ "ౄ" ∷ "ృ\u{1d}?\\^I" ∷ "ౄ" ∷ "ృ\u{1d}?R" ∷ "ౄ" ∷ "ృ\u{1d}?\\^i" ∷ "ృ"
    ∷ "ౄ\u{1d}?i" ∷ "ృ" ∷ "్\u{1d}?R" ∷ "ృ" ∷ "ు\u{1d}?u" ∷ "ూ" ∷ "్\u{1d}?U" ∷ "ూ" ∷ "్\u{1d}?u"
    ∷ "ు" ∷ "ి\u{1d}?i" ∷ "ీ" ∷ "్\u{1d}?I" ∷ "ీ" ∷ "్\u{1d}?i" ∷ "ి" ∷ "([క-హ])\u{1d}?a" ∷ "\\1ా"
    ∷ "్\u{1d}?A" ∷ "ా" ∷ "్\u{1d}?a" ∷ "" ∷ "\\.a" ∷ "ఽ" ∷ "\\.m" ∷ "ం" ∷ "\\.z" ∷ "" ∷ "\\.N"
    ∷ "ఁ" ∷ "్\u{1d}?\\.h" ∷ "్\u{200c}" ∷ "\\.h" ∷ "్\u{200c}" ∷ "@M" ∷ "ం" ∷ "@h" ∷ "ః" ∷ "@2"
    ∷ "ఽ" ∷ "M" ∷ "ం" ∷ "H" ∷ "ః" ∷ "క్\u{1d}?H" ∷ "ೱ" ∷ "ప్\u{1d}?H" ∷ "ೲ" ∷ "అ\u{1d}?u" ∷ "ఔ"
    ∷ "ఒ\u{1d}?o" ∷ "ఓ" ∷ "O" ∷ "ఓ" ∷ "o" ∷ "ఒ" ∷ "అ\u{1d}?i" ∷ "ఐ" ∷ "ఎ\u{1d}?e" ∷ "ఈ" ∷ "E" ∷ "ఏ"
    ∷ "e" ∷ "ఎ" ∷ "ళ్ళ్\u{1d}?I" ∷ "ౡ" ∷ "ళ్\u{1d}?\\^I" ∷ "ౡ" ∷ []

abbrev transforms_2 : List String
transforms_2 =
    "ళ్ళ్\u{1d}?i" ∷ "ఌ" ∷ "ళ్\u{1d}?i" ∷ "ఌ" ∷ "ౠ\u{1d}?I" ∷ "ౠ" ∷ "ఋ\u{1d}?R" ∷ "ౠ" ∷ "R" ∷ "ఋ"
    ∷ "ఉ\u{1d}?u" ∷ "ఊ" ∷ "U" ∷ "ఊ" ∷ "u" ∷ "ఉ" ∷ "ఇ\u{1d}?i" ∷ "ఈ" ∷ "I" ∷ "ఈ" ∷ "i" ∷ "ఇ" ∷ "A"
    ∷ "ఆ" ∷ "అ\u{1d}?a" ∷ "ఆ" ∷ "a" ∷ "అ" ∷ "క్ష్\u{1d}?h" ∷ "క్ష్" ∷ "గ్\u{1d}?Y" ∷ "జ్ఞ్"
    ∷ "జ్\u{1d}?n" ∷ "జ్ఞ్" ∷ "క్స్\u{1d}?h" ∷ "క్ష్" ∷ "క్\u{1d}?S" ∷ "క్ష్" ∷ "x" ∷ "క్ష్" ∷ "h"
    ∷ "హ్" ∷ "శ్\u{1d}?h" ∷ "ష్" ∷ "S" ∷ "శ్" ∷ "z" ∷ "శ్" ∷ "స్\u{1d}?h" ∷ "శ్" ∷ "s" ∷ "స్" ∷ "v"
    ∷ "వ్" ∷ "w" ∷ "వ్" ∷ "L" ∷ "ళ్" ∷ "\\.L" ∷ "ళ్" ∷ "l" ∷ "ల్" ∷ "r" ∷ "ర్" ∷ "\\.r" ∷ "ఱ్" ∷ "y"
    ∷ "య్" ∷ "~N" ∷ "ఙ్" ∷ "గ్\u{1d}?h" ∷ "ఘ్" ∷ "G" ∷ "ఘ్" ∷ "\\.g" ∷ "గ్" ∷ "g" ∷ "గ్" ∷ "\\.K"
    ∷ "ఖ్" ∷ "K" ∷ "ఖ్" ∷ "క్\u{1d}?h" ∷ "ఖ్" ∷ "q" ∷ "క్" ∷ "k" ∷ "క్" ∷ "~n" ∷ "ఞ్" ∷ "జ్\u{1d}?h"
    ∷ "ఝ్" ∷ "J" ∷ "ఝ్" ∷ "\\.j" ∷ "జ్" ∷ "j" ∷ "జ్" ∷ "చ్\u{1d}?h" ∷ "ఛ్" ∷ []

abbrev transforms_3 : List String
transforms_3 =
    "Ch" ∷ "ఛ్" ∷ "C" ∷ "ఛ్" ∷ "ch" ∷ "చ్" ∷ "c" ∷ "చ్" ∷ "N" ∷ "ణ్" ∷ "డ్\u{1d}?h" ∷ "ఢ్" ∷ "\\.D"
    ∷ "డ్" ∷ "D" ∷ "డ్" ∷ "ట్\u{1d}?h" ∷ "ఠ్" ∷ "T" ∷ "ట్" ∷ "n" ∷ "న్" ∷ "ద్\u{1d}?h" ∷ "ధ్" ∷ "d"
    ∷ "ద్" ∷ "త్\u{1d}?h" ∷ "థ్" ∷ "t" ∷ "త్" ∷ "m" ∷ "మ్" ∷ "బ్\u{1d}?h" ∷ "భ్" ∷ "B" ∷ "భ్" ∷ "b"
    ∷ "బ్" ∷ "f" ∷ "ఫ్" ∷ "ప్\u{1d}?h" ∷ "ఫ్" ∷ "P" ∷ "ఫ్" ∷ "p" ∷ "ప్" ∷ "న్\u{1d}?G" ∷ "ంఘ్"
    ∷ "న్\u{1d}?g" ∷ "ంగ్" ∷ "న్\u{1d}?K" ∷ "ంఖ్" ∷ "న్\u{1d}?k" ∷ "ంక్" ∷ "న్\u{1d}?J" ∷ "ంఝ్"
    ∷ "న్\u{1d}?j" ∷ "ంజ్" ∷ "న్\u{1d}?Ch" ∷ "ంఛ్" ∷ "న్\u{1d}?ch" ∷ "ంచ్" ∷ "న్\u{1d}?C" ∷ "ంఛ్"
    ∷ "న్\u{1d}?c" ∷ "ంచ్" ∷ "న్\u{1d}?D" ∷ "ండ్" ∷ "న్\u{1d}?T" ∷ "ంట్" ∷ "న్న్\u{1d}?g" ∷ "ఙ్గ్"
    ∷ "న్న్\u{1d}?k" ∷ "ఙ్క్" ∷ "న్న్\u{1d}?j" ∷ "ఞ్జ్" ∷ "న్న్\u{1d}?Ch" ∷ "ఞ్ఛ్" ∷ "న్న్\u{1d}?ch"
    ∷ "ఞ్చ్" ∷ "న్న్\u{1d}?C" ∷ "ఞ్ఛ్" ∷ "న్న్\u{1d}?c" ∷ "ఞ్చ్" ∷ "న్న్\u{1d}?D" ∷ "ణ్డ్"
    ∷ "న్న్\u{1d}?T" ∷ "ణ్ట్" ∷ "\\|" ∷ "।" ∷ "।\u{1d}?\\|" ∷ "॥" ∷ []

-- The table, of which each part above is a run of lines.
abbrev pub transforms : List String
transforms = transforms_1 ++ transforms_2 ++ transforms_3

abbrev pub transforms_len : ℕ
transforms_len = 292

abbrev pub history_prune : Option String
history_prune = some "C|c"
