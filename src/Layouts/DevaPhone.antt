-- ===== src/Layouts/DevaPhone.antt =====
-- The `deva_phone` layout: chromium-patches/rulebased-payload/chromeos/ash/services/ime/public/cpp/
-- rulebased/def/deva_phone.cc.
use Prim.Native.String.{String}
use chromiumos_devenv.Common.{Bool, false, List, [], ◌∷◌, ◌++◌, ℕ, Option, some}

abbrev pub id : String
id = "deva_phone"

abbrev pub is_102 : Bool
is_102 = false

abbrev transforms_1 : List String
transforms_1 =
    "0" ∷ "०" ∷ "1" ∷ "१" ∷ "2" ∷ "२" ∷ "3" ∷ "३" ∷ "4" ∷ "४" ∷ "5" ∷ "५" ∷ "6" ∷ "६" ∷ "7" ∷ "७"
    ∷ "8" ∷ "८" ∷ "9" ∷ "९" ∷ "([क-हक़-य़])\u{1d}?au" ∷ "\\1ौ" ∷ "ो\u{1d}?a" ∷ "ॉ" ∷ "ो\u{1d}?\\.c"
    ∷ "ॉ" ∷ "ो\u{1d}?o" ∷ "ॊ" ∷ "([क-हक़-य़])\u{1d}?O" ∷ "\\1ो" ∷ "([क-हक़-य़])\u{1d}?o" ∷ "\\1ो"
    ∷ "([क-हक़-य़])\u{1d}?ai" ∷ "\\1ै" ∷ "े\u{1d}?e" ∷ "ॆ" ∷ "([क-हक़-य़])\u{1d}?E" ∷ "\\1े"
    ∷ "े\u{1d}?\\.c" ∷ "ॅ" ∷ "([क-हक़-य़])\u{1d}?e" ∷ "\\1े" ∷ "([क-हक़-य़])्ळ्ळ\u{1d}?I" ∷ "\\1ॣ"
    ∷ "([क-हक़-य़])्ळ\u{1d}?\\^I" ∷ "\\1ॣ" ∷ "([क-हक़-य़])्ळ्ळ\u{1d}?i" ∷ "\\1ॢ"
    ∷ "([क-हक़-य़])्ळ\u{1d}?\\^i" ∷ "\\1ॢ" ∷ "ॄ\u{1d}?I" ∷ "ॄ" ∷ "ृ\u{1d}?\\^I" ∷ "ॄ" ∷ "ृ\u{1d}?R"
    ∷ "ॄ" ∷ "ृ\u{1d}?\\^i" ∷ "ृ" ∷ "ॄ\u{1d}?i" ∷ "ृ" ∷ "([क-हक़-य़])\u{1d}?R" ∷ "\\1ृ" ∷ "ु\u{1d}?u"
    ∷ "ू" ∷ "([क-हक़-य़])\u{1d}?U" ∷ "\\1ू" ∷ "([क-हक़-य़])\u{1d}?u" ∷ "\\1ु" ∷ "ि\u{1d}?i" ∷ "ी"
    ∷ "([क-हक़-य़])\u{1d}?I" ∷ "\\1ी" ∷ "([क-हक़-य़])\u{1d}?i" ∷ "\\1ि" ∷ "([क-हक़-य़])\u{1d}?A" ∷ "\\1ा"
    ∷ "([क-हक़-य़])\u{1d}?aa" ∷ "\\1ा" ∷ "([क-हक़-य़])\u{1d}?a" ∷ "\\1" ∷ "\\.a" ∷ "ऽ" ∷ "\\.n" ∷ "ं"
    ∷ "\\.m" ∷ "ं" ∷ "\\.N" ∷ "ँ" ∷ "\\.h" ∷ "्\u{200c}" ∷ "M" ∷ "ं" ∷ "H" ∷ "ः" ∷ "आऊ\u{1d}?M"
    ∷ "ॐ" ∷ "ओ\u{1d}?M" ∷ "ॐ" ∷ "अ\u{1d}?u" ∷ "औ" ∷ "ओ\u{1d}?\\.c" ∷ "ऑ" ∷ "ओ\u{1d}?o" ∷ "ऒ" ∷ "O"
    ∷ "ओ" ∷ "o" ∷ "ओ" ∷ "अ\u{1d}?i" ∷ "ऐ" ∷ "ए\u{1d}?e" ∷ "ऎ" ∷ "E" ∷ "ए" ∷ "ए\u{1d}?\\.c" ∷ "ऍ"
    ∷ "e" ∷ "ए" ∷ "ळ्ळ\u{1d}?I" ∷ "ॡ" ∷ "ळ\u{1d}?\\^I" ∷ "ॡ" ∷ "ळ्ळ\u{1d}?i" ∷ "ऌ" ∷ "ळ\u{1d}?\\^i"
    ∷ "ऌ" ∷ "ॠ\u{1d}?I" ∷ "ॠ" ∷ "ऋ\u{1d}?\\^I" ∷ "ॠ" ∷ "ऋ\u{1d}?R" ∷ "ॠ" ∷ []

abbrev transforms_2 : List String
transforms_2 =
    "ॠ\u{1d}?i" ∷ "ऋ" ∷ "ऋ\u{1d}?\\^i" ∷ "ऋ" ∷ "R" ∷ "ऋ" ∷ "उ\u{1d}?u" ∷ "ऊ" ∷ "U" ∷ "ऊ" ∷ "u" ∷ "उ"
    ∷ "इ\u{1d}?i" ∷ "ई" ∷ "I" ∷ "ई" ∷ "i" ∷ "इ" ∷ "A" ∷ "आ" ∷ "अ\u{1d}?a" ∷ "आ" ∷ "a" ∷ "अ"
    ∷ "ग\u{1d}?Y" ∷ "ज्ञ" ∷ "ज\u{1d}?n" ∷ "ज्ञ" ∷ "क\u{1d}?S" ∷ "क्ष" ∷ "क्स्\u{1d}?h" ∷ "क्ष" ∷ "x"
    ∷ "क्ष" ∷ "h" ∷ "ह" ∷ "ष\u{1d}?h" ∷ "ष" ∷ "S" ∷ "ष" ∷ "z" ∷ "श" ∷ "स\u{1d}?h" ∷ "श" ∷ "s" ∷ "स"
    ∷ "v" ∷ "व" ∷ "w" ∷ "व" ∷ "L" ∷ "ळ" ∷ "\\.L" ∷ "ऴ" ∷ "l" ∷ "ल" ∷ "r" ∷ "र" ∷ "\\.r" ∷ "ऱ" ∷ "Y"
    ∷ "य़" ∷ "\\.y" ∷ "य़" ∷ "y" ∷ "य" ∷ "~N" ∷ "ङ" ∷ "ग\u{1d}?h" ∷ "घ" ∷ "G" ∷ "घ" ∷ "\\.g" ∷ "ग़"
    ∷ "g" ∷ "ग" ∷ "K" ∷ "ख" ∷ "\\.K" ∷ "ख़" ∷ "क़\u{1d}?h" ∷ "ख़" ∷ "क\u{1d}?h" ∷ "ख" ∷ "q" ∷ "क़"
    ∷ "\\.k" ∷ "क़" ∷ "k" ∷ "क" ∷ "~n" ∷ "ञ" ∷ "ज\u{1d}?h" ∷ "झ" ∷ "J" ∷ "झ" ∷ "\\.j" ∷ "ज़" ∷ "j"
    ∷ "ज" ∷ "chh" ∷ "छ" ∷ "Ch" ∷ "छ" ∷ "ch" ∷ "च" ∷ "C" ∷ "छ" ∷ "c" ∷ "च" ∷ "N" ∷ "ण" ∷ "ड़\u{1d}?h"
    ∷ "ढ़" ∷ "\\.D" ∷ "ड़" ∷ "ड\u{1d}?h" ∷ "ढ" ∷ "D" ∷ "ड" ∷ "ट\u{1d}?h" ∷ "ठ" ∷ "T" ∷ "ट" ∷ "n" ∷ "न"
    ∷ "द\u{1d}?h" ∷ "ध" ∷ "d" ∷ "द" ∷ "त\u{1d}?h" ∷ "थ" ∷ []

abbrev transforms_3 : List String
transforms_3 =
    "t" ∷ "त" ∷ "m" ∷ "म" ∷ "ब\u{1d}?h" ∷ "भ" ∷ "B" ∷ "भ" ∷ "b" ∷ "ब" ∷ "f" ∷ "फ़" ∷ "\\.P" ∷ "फ़"
    ∷ "\\.प\u{1d}?h" ∷ "फ़" ∷ "प\u{1d}?h" ∷ "फ" ∷ "P" ∷ "फ" ∷ "p" ∷ "प" ∷ "([क-हक़-य़])\u{1d}?x"
    ∷ "\\1्क्ष" ∷ "([क-हक़-य़])\u{1d}?h" ∷ "\\1्ह" ∷ "([क-हक़-य़])\u{1d}?S" ∷ "\\1्ष"
    ∷ "([क-हक़-य़])\u{1d}?z" ∷ "\\1्श" ∷ "([क-हक़-य़])\u{1d}?s" ∷ "\\1्स" ∷ "([क-हक़-य़])\u{1d}?v"
    ∷ "\\1्व" ∷ "([क-हक़-य़])\u{1d}?w" ∷ "\\1्व" ∷ "([क-हक़-य़])\u{1d}?L" ∷ "\\1्ळ"
    ∷ "([क-हक़-य़])\u{1d}?\\.L" ∷ "\\1्ऴ" ∷ "([क-हक़-य़])\u{1d}?l" ∷ "\\1्ल" ∷ "([क-हक़-य़])\u{1d}?r"
    ∷ "\\1्र" ∷ "([क-हक़-य़])\u{1d}?\\.r" ∷ "\\1्ऱ" ∷ "([क-हक़-य़])\u{1d}?Y" ∷ "\\1्य़"
    ∷ "([क-हक़-य़])\u{1d}?\\.y" ∷ "\\1्य़" ∷ "([क-हक़-य़])\u{1d}?y" ∷ "\\1्य" ∷ "([क-धऩ-हक़-य़])\u{1d}?~N"
    ∷ "\\1्ङ" ∷ "([क-धऩ-हक़-य़])\u{1d}?G" ∷ "\\1्घ" ∷ "([क-धऩ-हक़-य़])\u{1d}?\\.g" ∷ "\\1्ग़"
    ∷ "([क-धऩ-हक़-य़])\u{1d}?g" ∷ "\\1्ग" ∷ "([क-धऩ-हक़-य़])\u{1d}?K" ∷ "\\1्ख"
    ∷ "([क-धऩ-हक़-य़])\u{1d}?\\.K" ∷ "\\1्ख़" ∷ "([क-धऩ-हक़-य़])\u{1d}?q" ∷ "\\1्क़"
    ∷ "([क-धऩ-हक़-य़])\u{1d}?\\.k" ∷ "\\1्क़" ∷ "([क-धऩ-हक़-य़])\u{1d}?k" ∷ "\\1्क"
    ∷ "([क-धऩ-हक़-य़])\u{1d}?~n" ∷ "\\1्ञ" ∷ "([क-धऩ-हक़-य़])\u{1d}?J" ∷ "\\1्झ"
    ∷ "([क-धऩ-हक़-य़])\u{1d}?\\.j" ∷ "\\1्ज़" ∷ "([क-धऩ-हक़-य़])\u{1d}?j" ∷ "\\1्ज"
    ∷ "([क-धऩ-हक़-य़])\u{1d}?chh" ∷ "\\1्छ" ∷ "([क-धऩ-हक़-य़])\u{1d}?Ch" ∷ "\\1्छ"
    ∷ "([क-धऩ-हक़-य़])\u{1d}?ch" ∷ "\\1्च" ∷ "([क-धऩ-हक़-य़])\u{1d}?C" ∷ "\\1्छ"
    ∷ "([क-धऩ-हक़-य़])\u{1d}?c" ∷ "\\1्च" ∷ "([क-धऩ-हक़-य़])\u{1d}?N" ∷ "\\1्ण"
    ∷ "([क-धऩ-हक़-य़])\u{1d}?\\.D" ∷ "\\1्ड़" ∷ "([क-धऩ-हक़-य़])\u{1d}?D" ∷ "\\1्ड"
    ∷ "([क-धऩ-हक़-य़])\u{1d}?T" ∷ "\\1्ट" ∷ "([क-छझ-हक़-य़])\u{1d}?n" ∷ "\\1्न" ∷ "([क-हक़-य़])\u{1d}?d"
    ∷ "\\1्द" ∷ "([क-हक़-य़])\u{1d}?t" ∷ "\\1्त" ∷ "([क-हक़-य़])\u{1d}?m" ∷ "\\1्म"
    ∷ "([क-हक़-य़])\u{1d}?B" ∷ "\\1्भ" ∷ "([क-हक़-य़])\u{1d}?b" ∷ "\\1्ब" ∷ "([क-हक़-य़])\u{1d}?f"
    ∷ "\\1्फ़" ∷ "([क-हक़-य़])\u{1d}?\\.P" ∷ "\\1्फ़" ∷ "([क-हक़-य़])\u{1d}?P" ∷ "\\1्फ"
    ∷ "([क-हक़-य़])\u{1d}?p" ∷ "\\1्प" ∷ "n\\.g" ∷ "ङ्ग़" ∷ "ng" ∷ "ङ्ग" ∷ "nG" ∷ "ङ्घ" ∷ "n\\.k"
    ∷ "ङ्क़" ∷ "nq" ∷ "ङ्क़" ∷ "nK" ∷ "ङ्ख" ∷ "nk" ∷ "ङ्क" ∷ "n\\.j" ∷ "ञ्ज़" ∷ []

abbrev transforms_4 : List String
transforms_4 =
    "nJ" ∷ "ञ्झ" ∷ "nj" ∷ "ञ्ज" ∷ "nC" ∷ "ञ्छ" ∷ "nCh" ∷ "ञ्छ" ∷ "nchh" ∷ "ञ्छ" ∷ "nch" ∷ "ञ्च"
    ∷ "nc" ∷ "ञ्च" ∷ "n\\.D" ∷ "ण्ड़" ∷ "nD" ∷ "ण्ड" ∷ "nT" ∷ "ण्ट" ∷ "([क-हक़-य़])\u{1d}?ax"
    ∷ "\\1क्ष" ∷ "([क-हक़-य़])\u{1d}?ah" ∷ "\\1ह" ∷ "([क-हक़-य़])\u{1d}?aS" ∷ "\\1ष"
    ∷ "([क-हक़-य़])\u{1d}?az" ∷ "\\1श" ∷ "([क-हक़-य़])\u{1d}?as" ∷ "\\1स" ∷ "([क-हक़-य़])\u{1d}?av"
    ∷ "\\1व" ∷ "([क-हक़-य़])\u{1d}?aw" ∷ "\\1व" ∷ "([क-हक़-य़])\u{1d}?aL" ∷ "\\1ळ"
    ∷ "([क-हक़-य़])\u{1d}?a\\.L" ∷ "\\1ऴ" ∷ "([क-हक़-य़])\u{1d}?al" ∷ "\\1ल" ∷ "([क-हक़-य़])\u{1d}?ar"
    ∷ "\\1र" ∷ "([क-हक़-य़])\u{1d}?a\\.r" ∷ "\\1ऱ" ∷ "([क-हक़-य़])\u{1d}?aY" ∷ "\\1य़"
    ∷ "([क-हक़-य़])\u{1d}?a\\.y" ∷ "\\1य़" ∷ "([क-हक़-य़])\u{1d}?ay" ∷ "\\1य" ∷ "([क-हक़-य़])\u{1d}?a~N"
    ∷ "\\1ङ" ∷ "([क-हक़-य़])\u{1d}?aG" ∷ "\\1घ" ∷ "([क-हक़-य़])\u{1d}?a\\.g" ∷ "\\1ग़"
    ∷ "([क-हक़-य़])\u{1d}?ag" ∷ "\\1ग" ∷ "([क-हक़-य़])\u{1d}?aK" ∷ "\\1ख" ∷ "([क-हक़-य़])\u{1d}?a\\.K"
    ∷ "\\1ख़" ∷ "([क-हक़-य़])\u{1d}?aq" ∷ "\\1क़" ∷ "([क-हक़-य़])\u{1d}?a\\.k" ∷ "\\1क़"
    ∷ "([क-हक़-य़])\u{1d}?ak" ∷ "\\1क" ∷ "([क-हक़-य़])\u{1d}?a~n" ∷ "\\1ञ" ∷ "([क-हक़-य़])\u{1d}?aJ"
    ∷ "\\1झ" ∷ "([क-हक़-य़])\u{1d}?a\\.j" ∷ "\\1ज़" ∷ "([क-हक़-य़])\u{1d}?aj" ∷ "\\1ज"
    ∷ "([क-हक़-य़])\u{1d}?achh" ∷ "\\1छ" ∷ "([क-हक़-य़])\u{1d}?aCh" ∷ "\\1छ" ∷ "([क-हक़-य़])\u{1d}?ach"
    ∷ "\\1च" ∷ "([क-हक़-य़])\u{1d}?aC" ∷ "\\1छ" ∷ "([क-हक़-य़])\u{1d}?ac" ∷ "\\1च"
    ∷ "([क-हक़-य़])\u{1d}?aN" ∷ "\\1ण" ∷ "([क-हक़-य़])\u{1d}?a\\.D" ∷ "\\1ड़" ∷ "([क-हक़-य़])\u{1d}?aD"
    ∷ "\\1ड" ∷ "([क-हक़-य़])\u{1d}?aT" ∷ "\\1ट" ∷ "([क-हक़-य़])\u{1d}?an" ∷ "\\1न"
    ∷ "([क-हक़-य़])\u{1d}?ad" ∷ "\\1द" ∷ "([क-हक़-य़])\u{1d}?at" ∷ "\\1त" ∷ "([क-हक़-य़])\u{1d}?am"
    ∷ "\\1म" ∷ "([क-हक़-य़])\u{1d}?aB" ∷ "\\1भ" ∷ "([क-हक़-य़])\u{1d}?ab" ∷ "\\1ब"
    ∷ "([क-हक़-य़])\u{1d}?af" ∷ "\\1फ़" ∷ "([क-हक़-य़])\u{1d}?a\\.P" ∷ "\\1फ़" ∷ "([क-हक़-य़])\u{1d}?aP"
    ∷ "\\1फ" ∷ "([क-हक़-य़])\u{1d}?ap" ∷ "\\1प" ∷ "\\.(\\s)" ∷ "।\\1" ∷ "\\.\\." ∷ "।" ∷ "\\.," ∷ "॥"
    ∷ "\\|" ∷ "।" ∷ "।\u{1d}?\\|" ∷ "॥" ∷ "।\u{1d}?\\." ∷ "…" ∷ []

-- The table, of which each part above is a run of lines.
abbrev pub transforms : List String
transforms = transforms_1 ++ transforms_2 ++ transforms_3 ++ transforms_4

abbrev pub transforms_len : ℕ
transforms_len = 522

abbrev pub history_prune : Option String
history_prune = some "n(\\.)?|c|ch|C|nc|nC|nch|\\.|a"
