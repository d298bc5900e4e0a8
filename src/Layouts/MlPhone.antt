-- ===== src/Layouts/MlPhone.antt =====
-- The `ml_phone` layout: chromium-patches/rulebased-payload/chromeos/ash/services/ime/public/cpp/
-- rulebased/def/ml_phone.cc.
use Prim.Native.String.{String}
use chromiumos_devenv.Common.{Bool, false, List, [], ◌∷◌, ◌++◌, ℕ, Option, some}

abbrev pub id : String
id = "ml_phone"

abbrev pub is_102 : Bool
is_102 = false

abbrev transforms_1 : List String
transforms_1 =
    "\\\\([a-zA-Z0-9@$])" ∷ "\\1" ∷ "([a-zA-Z])\u{1d}([a-zA-Z0-9`~!@#$%^&*()_=+:;\"',<.>?/|\\-])"
    ∷ "\\1\\2" ∷ "\\\\(ch)" ∷ "\\1" ∷ "([a-zA-Z])\u{1d}(ch)" ∷ "\\1\\2" ∷ "(M|\u{1d}?_M|ം\u{1d}?m)"
    ∷ "മ്മ്" ∷ "([ഃ-ഊഌ-ൌൎ-൹])\u{1d}?R" ∷ "\\1ർ" ∷ "([ം-ൌൎ-൹])\u{1d}?~" ∷ "\\1്"
    ∷ "([ം-ൌൎ-ൿ])ൻ\u{1d}?j" ∷ "\\1ഞ്ഞ്" ∷ "([ക-ഺ])\u{1d}?a" ∷ "\\1ാ" ∷ "([ക-ഺ])\u{1d}?i" ∷ "\\1ൈ"
    ∷ "([ക-ഺ])\u{1d}?u" ∷ "\\1ൗ" ∷ "([൦-൯])\u{1d}?0" ∷ "\\1൦" ∷ "([൦-൯])\u{1d}?1" ∷ "\\1൧"
    ∷ "([൦-൯])\u{1d}?2" ∷ "\\1൨" ∷ "([൦-൯])\u{1d}?3" ∷ "\\1൩" ∷ "([൦-൯])\u{1d}?4" ∷ "\\1൪"
    ∷ "([൦-൯])\u{1d}?5" ∷ "\\1൫" ∷ "([൦-൯])\u{1d}?6" ∷ "\\1൬" ∷ "([൦-൯])\u{1d}?7" ∷ "\\1൭"
    ∷ "([൦-൯])\u{1d}?8" ∷ "\\1൮" ∷ "([൦-൯])\u{1d}?9" ∷ "\\1൯" ∷ "([wv]|\u{1d}?_[wv])" ∷ "വ്"
    ∷ "(\u{1d}?R|ഋ\u{1d}?)A" ∷ "റാ" ∷ "(\u{1d}?R|ഋ\u{1d}?)E" ∷ "റേ" ∷ "(\u{1d}?R|ഋ\u{1d}?)I" ∷ "റീ"
    ∷ "(\u{1d}?R|ഋ\u{1d}?)U" ∷ "റൂ" ∷ "(\u{1d}?R|ഋ\u{1d}?)a" ∷ "റ" ∷ "(\u{1d}?R|ഋ\u{1d}?)e" ∷ "റെ"
    ∷ "(\u{1d}?R|ഋ\u{1d}?)i" ∷ "റി" ∷ "(\u{1d}?R|ഋ\u{1d}?)u" ∷ "റു" ∷ "(\u{1d}?_)?B" ∷ "ബ്ബ്"
    ∷ "(\u{1d}?_)?D" ∷ "ഡ്" ∷ "(\u{1d}?_)?G" ∷ "ഗ്ഗ്" ∷ "(\u{1d}?_)?J" ∷ "ജ്ജ്" ∷ "(\u{1d}?_)?K"
    ∷ "ക്ക്" ∷ "(\u{1d}?_)?P" ∷ "പ്പ്" ∷ "(\u{1d}?_)?Y" ∷ "യ്യ്" ∷ "(\u{1d}?_)?Z" ∷ "ഴ്"
    ∷ "(\u{1d}?_)?T" ∷ "ട്" ∷ "(\u{1d}?_)?[Sz]" ∷ "ശ്" ∷ "(\u{1d}?_)?[VW]" ∷ "വ്വ്"
    ∷ "(\u{1d}?_)?[Cc]" ∷ "ച്" ∷ "(\u{1d}?_)?[Xx]" ∷ "ക്സ്" ∷ "(\u{1d}?_)?b" ∷ "ബ്" ∷ "(\u{1d}?_)?d"
    ∷ "ദ്" ∷ "(\u{1d}?_)?g" ∷ "ഗ്" ∷ "(\u{1d}?_)?h" ∷ "ഹ്" ∷ "(\u{1d}?_)?j" ∷ "ജ്" ∷ "(\u{1d}?_)?p"
    ∷ "പ്" ∷ "(\u{1d}?_)?s" ∷ "സ്" ∷ "(\u{1d}?_)?y" ∷ "യ്" ∷ "(അ\u{1d}?a|_?A)" ∷ "ആ"
    ∷ "(ഇ\u{1d}?i|എ\u{1d}?a|_?I|[എഇ]\u{1d}?e)" ∷ "ഈ" ∷ "(ഉ\u{1d}?u|ഒ\u{1d}?o|_?U)" ∷ "ഊ"
    ∷ "(ഋ\u{1d}?|\u{1d}?R)O" ∷ "റോ" ∷ "(ഋ\u{1d}?|\u{1d}?R)o" ∷ "റൊ" ∷ "(ഋ\u{1d}?|\u{1d}?R)~" ∷ "റ്"
    ∷ "(ക്\u{1d}?h|\u{1d}?_[qQ]|[qQ])" ∷ "ഖ്" ∷ "(ക്|ൿ)\u{1d}?\\^" ∷ "ക്\u{200d}"
    ∷ "(ട്\u{1d}?t|റ്റ്\u{1d}?[tT])" ∷ "ട്ട്" ∷ "(ന്\u{1d}?T|ൺ\u{1d}?[Tt])" ∷ "ണ്ട്"
    ∷ "(ണ്\u{1d}?t|ൻ\u{1d}?T)" ∷ "ണ്ട്" ∷ "(ണ്|ൺ)\u{1d}?\\^" ∷ "ണ്\u{200d}"
    ∷ "(ന്\u{1d}?ch?|ൻ\u{1d}?ch?)" ∷ "ഞ്ച്" ∷ "(ന്|ൻ)\u{1d}?k" ∷ "ങ്ക്"
    ∷ "(പ്\u{1d}?h|\u{1d}?_[Ff]|[Ff])" ∷ "ഫ്" ∷ "(ര്|ർ)\u{1d}?\\^" ∷ "ര്\u{200d}" ∷ "(ര്|ർ)\u{1d}?r"
    ∷ "റ്" ∷ "(ോാ*)\u{1d}?O" ∷ "\\1ാ" ∷ []

abbrev transforms_2 : List String
transforms_2 =
    "(്\u{1d}?I|െ\u{1d}?[ea]|ി\u{1d}?[ie])" ∷ "ീ" ∷ "(്\u{1d}?U|ു\u{1d}?u|ൊ\u{1d}?o)" ∷ "ൂ"
    ∷ "(്അ|െ)\u{1d}?i" ∷ "ൈ" ∷ "(്അ|ൊ)\u{1d}?u" ∷ "ൗ" ∷ "(ൻ|ന്)\u{1d}?\\^" ∷ "ന്\u{200d}"
    ∷ "(ൻ|ന്)\u{1d}?t" ∷ "ന്റ്" ∷ "(ൽ\u{1d}?L|ൾ\u{1d}?[lL])" ∷ "ള്ള്" ∷ "(ൽ|ല്)\u{1d}?\\^"
    ∷ "ല്\u{200d}" ∷ "(ൾ|ള്)\u{1d}?\\^" ∷ "ള്\u{200d}" ∷ "(k|\u{1d}?_[kc])" ∷ "ക്"
    ∷ "(ർ\u{1d}?~|\u{1d}?_r)" ∷ "ര്" ∷ "(ൾ\u{1d}?~|\u{1d}?_L)" ∷ "ള്" ∷ "(ൽ\u{1d}?~|\u{1d}?_l)"
    ∷ "ല്" ∷ "(ൺ\u{1d}?~|\u{1d}?_N)" ∷ "ണ്" ∷ "(ൻ\u{1d}?~|\u{1d}?_n)" ∷ "ന്"
    ∷ "(ം\u{1d}?~|\u{1d}?_m)" ∷ "മ്" ∷ "0#" ∷ "൦" ∷ "1#" ∷ "൧" ∷ "1/2#" ∷ "൴" ∷ "1/4#" ∷ "൳" ∷ "10#"
    ∷ "൰" ∷ "100#" ∷ "൱" ∷ "1000#" ∷ "൲" ∷ "2#" ∷ "൨" ∷ "3#" ∷ "൩" ∷ "3/4#" ∷ "൵" ∷ "4#" ∷ "൪"
    ∷ "5#" ∷ "൫" ∷ "6#" ∷ "൬" ∷ "7#" ∷ "൭" ∷ "8#" ∷ "൮" ∷ "9#" ∷ "൯" ∷ "@" ∷ "്" ∷ "@a" ∷ "്അ"
    ∷ "@aL" ∷ "ൾ" ∷ "@aN" ∷ "ൺ" ∷ "@aa" ∷ "ാ" ∷ "@ai" ∷ "ൈ" ∷ "@al" ∷ "ൽ" ∷ "@am" ∷ "ം" ∷ "@an"
    ∷ "ൻ" ∷ "@ar" ∷ "ർ" ∷ "@au" ∷ "ൗ" ∷ "C" ∷ "ച്ച്" ∷ "H" ∷ "ഃ" ∷ "[അഎ]\u{1d}?i" ∷ "ഐ"
    ∷ "[അഒ]\u{1d}?u" ∷ "ഔ" ∷ "\\$" ∷ "₹" ∷ "\u{1d}?_X" ∷ "ക്ഷ്" ∷ "ം\u{1d}?A" ∷ "മാ" ∷ "ം\u{1d}?E"
    ∷ "മേ" ∷ "ം\u{1d}?I" ∷ "മീ" ∷ "ം\u{1d}?O" ∷ "മോ" ∷ "ം\u{1d}?U" ∷ "മൂ" ∷ "ം\u{1d}?[Ll]" ∷ "മ്ല്"
    ∷ "ം\u{1d}?a" ∷ "മ" ∷ "ം\u{1d}?e" ∷ "മെ" ∷ "ം\u{1d}?i" ∷ "മി" ∷ "ം\u{1d}?n" ∷ "മ്ന്"
    ∷ "ം\u{1d}?o" ∷ "മൊ" ∷ "ം\u{1d}?p" ∷ "മ്പ്" ∷ "ം\u{1d}?r" ∷ "മ്ര്" ∷ "ം\u{1d}?R" ∷ "മൃ"
    ∷ "ം\u{1d}?u" ∷ "മു" ∷ "ം\u{1d}?y" ∷ "മ്യ്" ∷ "അ\u{1d}?#" ∷ "ഽ" ∷ "ആ\u{1d}?[Aa]" ∷ "ആാ"
    ∷ "ഈ\u{1d}?#" ∷ "ൟ" ∷ "ഈ\u{1d}?[eiI]" ∷ "ഈൗ" ∷ "ഊ\u{1d}?[uoU]" ∷ "ഊൗ" ∷ []

abbrev transforms_3 : List String
transforms_3 =
    "ഋഋ\u{1d}?#" ∷ "ൠ" ∷ "ഌ\u{1d}?L" ∷ "ൡ" ∷ "ഓ\u{1d}?O" ∷ "ഓാ" ∷ "ഔ\u{1d}?u" ∷ "ഔൗ" ∷ "ക്\u{1d}?#"
    ∷ "ൿ" ∷ "ഗ്\u{1d}?h" ∷ "ഘ്" ∷ "ച്\u{1d}?h" ∷ "ഛ്" ∷ "ജ്\u{1d}?h" ∷ "ഝ്" ∷ "ഞ്ഞ്\u{1d}?ch"
    ∷ "ഞ്ച്" ∷ "ഞ്ഞ്\u{1d}?j" ∷ "ഞ്ജ്" ∷ "ഞ്ഞ്ന്\u{1d}?j" ∷ "ഞ്ഞ്" ∷ "ഞ്ഞ്ൻ\u{1d}?j" ∷ "ഞ്ഞ്"
    ∷ "ഞ്ന്\u{1d}?j" ∷ "ഞ്ഞ്" ∷ "ട്\u{1d}?h" ∷ "ഠ്" ∷ "ട്ട്\u{1d}?h" ∷ "ത്ത്" ∷ "ഡ്\u{1d}?h" ∷ "ഢ്"
    ∷ "ണ്ട്\u{1d}?T" ∷ "ൺട്ട്" ∷ "ണ്ഡ്\u{1d}?D" ∷ "ൺഡ്ഡ്" ∷ "ണ്ദ്\u{1d}?d" ∷ "ൺദ്ദ്"
    ∷ "ണ്ന്\u{1d}?n" ∷ "ൺന്ന്" ∷ "ണ്പ്\u{1d}?p" ∷ "ൺപ്പ്" ∷ "ണ്മ്\u{1d}?m" ∷ "ൺമ്മ്"
    ∷ "ണ്യ്\u{1d}?y" ∷ "ൺയ്യ്" ∷ "ണ്ല്\u{1d}?l" ∷ "ൺല്ല്" ∷ "ണ്ള്\u{1d}?L" ∷ "ൺള്ള്"
    ∷ "ണ്വ്\u{1d}?v" ∷ "ൺവ്വ്" ∷ "ത്\u{1d}?h" ∷ "ഥ്" ∷ "ത്ത്\u{1d}?h" ∷ "ത്ഥ്" ∷ "ദ്\u{1d}?h" ∷ "ധ്"
    ∷ "നു\u{1d}?#" ∷ "൹" ∷ "ന്\u{1d}?#" ∷ "ഩ്" ∷ "ന\u{1d}?#" ∷ "ഩ" ∷ "ന്\u{1d}?g" ∷ "ങ്"
    ∷ "ൻ\u{1d}?j" ∷ "ഞ്" ∷ "ന്ട്\u{1d}?T" ∷ "ൻട്ട്" ∷ "ന്ഡ്\u{1d}?D" ∷ "ൻഡ്ഡ്" ∷ "ന്ദ്\u{1d}?d"
    ∷ "ൻദ്ദ്" ∷ "ന്ന്\u{1d}?n" ∷ "ൻന്ന്" ∷ "ന്പ്\u{1d}?p" ∷ "ൻപ്പ്" ∷ "ന്മ്\u{1d}?m" ∷ "ൻമ്മ്"
    ∷ "ന്യ്\u{1d}?y" ∷ "ൻയ്യ്" ∷ "ന്ര്\u{1d}?r" ∷ "ൻറ്" ∷ "ന്റ്\u{1d}?h" ∷ "ന്ത്" ∷ "ന്ല്\u{1d}?l"
    ∷ "ൻല്ല്" ∷ "ന്ള്\u{1d}?L" ∷ "ൻള്ള്" ∷ "ന്വ്\u{1d}?v" ∷ "ൻവ്വ്" ∷ "ബ്\u{1d}?h" ∷ "ഭ്"
    ∷ "മ്ട്\u{1d}?T" ∷ "ംട്ട്" ∷ "മ്ഡ്\u{1d}?D" ∷ "ംഡ്ഡ്" ∷ "മ്ദ്\u{1d}?d" ∷ "ംദ്ദ്"
    ∷ "മ്ന്\u{1d}?n" ∷ "ംന്ന്" ∷ "മ്പ്\u{1d}?p" ∷ "ംപ്പ്" ∷ "മ്മ്\u{1d}?m" ∷ "ംമ്മ്"
    ∷ "മ്യ്\u{1d}?y" ∷ "ംയ്യ്" ∷ "മ്ല്\u{1d}?l" ∷ "ംല്ല്" ∷ "മ്ള്\u{1d}?L" ∷ "ംള്ള്"
    ∷ "മ്വ്\u{1d}?v" ∷ "ംവ്വ്" ∷ "ര്ട്\u{1d}?T" ∷ "ർട്ട്" ∷ "ര്ഡ്\u{1d}?D" ∷ "ർഡ്ഡ്"
    ∷ "ര്ദ്\u{1d}?d" ∷ "ർദ്ദ്" ∷ "ര്ന്\u{1d}?n" ∷ "ർന്ന്" ∷ "ര്പ്\u{1d}?p" ∷ "ർപ്പ്"
    ∷ "ര്മ്\u{1d}?m" ∷ "ർമ്മ്" ∷ "ര്യ്\u{1d}?y" ∷ "ർയ്യ്" ∷ "ര്ല്\u{1d}?l" ∷ "ർല്ല്"
    ∷ "ര്ള്\u{1d}?L" ∷ "ർള്ള്" ∷ "ര്വ്\u{1d}?v" ∷ "ർവ്വ്" ∷ "റ്റ്\u{1d}?#" ∷ "ഺ്" ∷ "റ്റ\u{1d}?#"
    ∷ "ഺ" ∷ "റ്റ്\u{1d}?h" ∷ "ത്" ∷ []

abbrev transforms_4 : List String
transforms_4 =
    "ല്ട്\u{1d}?T" ∷ "ൽട്ട്" ∷ "ല്ഡ്\u{1d}?D" ∷ "ൽഡ്ഡ്" ∷ "ല്ദ്\u{1d}?d" ∷ "ൽദ്ദ്" ∷ "ല്ന്\u{1d}?n"
    ∷ "ൽന്ന്" ∷ "ല്പ്\u{1d}?p" ∷ "ൽപ്പ്" ∷ "ല്മ്\u{1d}?m" ∷ "ൽമ്മ്" ∷ "ല്യ്\u{1d}?y" ∷ "ൽയ്യ്"
    ∷ "ല്ല്\u{1d}?l" ∷ "ൽല്ല്" ∷ "ല്ള്\u{1d}?L" ∷ "ൽള്ള്" ∷ "ല്വ്\u{1d}?v" ∷ "ൽവ്വ്" ∷ "ള്\u{1d}?#"
    ∷ "ഌ" ∷ "ള്\u{1d}?L" ∷ "ള്ള്" ∷ "ള്ട്\u{1d}?T" ∷ "ൾട്ട്" ∷ "ള്ഡ്\u{1d}?D" ∷ "ൾഡ്ഡ്"
    ∷ "ള്ദ്\u{1d}?d" ∷ "ൾദ്ദ്" ∷ "ള്ന്\u{1d}?n" ∷ "ൾന്ന്" ∷ "ള്പ്\u{1d}?p" ∷ "ൾപ്പ്"
    ∷ "ള്മ്\u{1d}?m" ∷ "ൾമ്മ്" ∷ "ള്യ്\u{1d}?y" ∷ "ൾയ്യ്" ∷ "ള്ല്\u{1d}?l" ∷ "ൾല്ല്"
    ∷ "ള്ള്\u{1d}?L" ∷ "ൾള്ള്" ∷ "ള്ള്\u{1d}?#" ∷ "ൡ" ∷ "ള്വ്\u{1d}?v" ∷ "ൾവ്വ്" ∷ "ശ്\u{1d}?h"
    ∷ "ഴ്" ∷ "സം\u{1d}?r" ∷ "സംർ" ∷ "സം\u{1d}?y" ∷ "സംയ്" ∷ "സ്\u{1d}?h" ∷ "ഷ്" ∷ "ാ\u{1d}?[Aa]"
    ∷ "ാാ" ∷ "ീ\u{1d}?[eiI]" ∷ "ീീ" ∷ "ൂ\u{1d}?[uoU]" ∷ "ൂൂ" ∷ "ൃ\u{1d}?R" ∷ "ൃർ" ∷ "ൃർ\u{1d}?#"
    ∷ "ൄ" ∷ "ൌ\u{1d}?u" ∷ "ൌൗ" ∷ "്(\u{1d}?A|അ\u{1d}?a)" ∷ "ാ" ∷ "്[ളല]്\u{1d}?#" ∷ "ൢ"
    ∷ "്[ളല]്[ളല]്\u{1d}?#" ∷ "ൣ" ∷ "്\u{1d}?E" ∷ "േ" ∷ "്\u{1d}?L" ∷ "്ല്" ∷ "്\u{1d}?O" ∷ "ോ"
    ∷ "്\u{1d}?R" ∷ "ൃ" ∷ "്\u{1d}?RA" ∷ "്രാ" ∷ "്\u{1d}?RE" ∷ "്രേ" ∷ "്\u{1d}?RI" ∷ "്രീ"
    ∷ "്\u{1d}?RO" ∷ "്രോ" ∷ "്\u{1d}?RU" ∷ "്രൂ" ∷ "്\u{1d}?Ra" ∷ "്ര" ∷ "്\u{1d}?Re" ∷ "്രെ"
    ∷ "്\u{1d}?Ri" ∷ "്രി" ∷ "്\u{1d}?Ro" ∷ "്രൊ" ∷ "്\u{1d}?Ru" ∷ "്രു" ∷ "്\u{1d}?R~" ∷ "്ര്"
    ∷ "്\u{1d}?_B" ∷ "്\u{200c}ബ്ബ്" ∷ "്\u{1d}?_C" ∷ "്\u{200c}ച്" ∷ "്\u{1d}?_G" ∷ "്\u{200c}ഗ്ഗ്"
    ∷ "്\u{1d}?_J" ∷ "്\u{200c}ജ്ജ്" ∷ "്\u{1d}?_K" ∷ "്\u{200c}ക്ക്" ∷ "്\u{1d}?_N" ∷ "്\u{200c}ണ്"
    ∷ "്\u{1d}?_Z" ∷ "്\u{200c}ശ്ശ്" ∷ "്\u{1d}?_b" ∷ "്\u{200c}ബ്" ∷ "്\u{1d}?_g" ∷ "്\u{200c}ഗ്"
    ∷ "്\u{1d}?_j" ∷ "്\u{200c}ജ്" ∷ "്\u{1d}?_n" ∷ "്\u{200c}ന്" ∷ "്\u{1d}?_r" ∷ "്\u{200c}ര്"
    ∷ "്\u{1d}?_s" ∷ "്\u{200c}സ്" ∷ "്\u{1d}?_T" ∷ "്\u{200c}ട്" ∷ "്\u{1d}?_t" ∷ "്\u{200c}റ്റ്"
    ∷ "്\u{1d}?_D" ∷ "്\u{200c}ഡ്" ∷ "്\u{1d}?_L" ∷ "്\u{200c}ള്" ∷ "്\u{1d}?_M" ∷ "്\u{200c}മ്മ്"
    ∷ "്\u{1d}?_P" ∷ "്\u{200c}പ്പ്" ∷ []

abbrev transforms_5 : List String
transforms_5 =
    "്\u{1d}?_X" ∷ "്\u{200c}ക്ഷ്" ∷ "്\u{1d}?_Y" ∷ "്\u{200c}യ്യ്" ∷ "്\u{1d}?_d" ∷ "്\u{200c}ദ്"
    ∷ "്\u{1d}?_h" ∷ "്\u{200c}ഹ്" ∷ "്\u{1d}?_l" ∷ "്\u{200c}ല്" ∷ "്\u{1d}?_m" ∷ "്\u{200c}മ്"
    ∷ "്\u{1d}?_p" ∷ "്\u{200c}പ്" ∷ "്\u{1d}?_x" ∷ "്\u{200c}ക്സ്" ∷ "്\u{1d}?_y" ∷ "്\u{200c}യ്"
    ∷ "്\u{1d}?_[kc]" ∷ "്\u{200c}ക്" ∷ "്\u{1d}?_[qQ]" ∷ "്\u{200c}ഖ്" ∷ "്\u{1d}?_[fF]"
    ∷ "്\u{200c}ഫ്" ∷ "്\u{1d}?_[VW]" ∷ "്\u{200c}വ്വ്" ∷ "്\u{1d}?_[vw]" ∷ "്\u{200c}വ്"
    ∷ "്\u{1d}?_[zS]" ∷ "്\u{200c}ശ്" ∷ "ള്\u{1d}?_" ∷ "ൾ" ∷ "ണ്\u{1d}?_" ∷ "ൺ" ∷ "ല്\u{1d}?_" ∷ "ൽ"
    ∷ "മ്\u{1d}?_" ∷ "ം" ∷ "ന്\u{1d}?_" ∷ "ൻ" ∷ "ര്\u{1d}?_" ∷ "ർ" ∷ "്\u{1d}?a" ∷ "" ∷ "്\u{1d}?e"
    ∷ "െ" ∷ "്\u{1d}?i" ∷ "ി" ∷ "്\u{1d}?o" ∷ "ൊ" ∷ "്\u{1d}?u" ∷ "ു" ∷ "്\u{1d}?~" ∷ "്"
    ∷ "്\u{1d}?~A" ∷ "്ആ" ∷ "്\u{1d}?~E" ∷ "്ഏ" ∷ "്\u{1d}?~I" ∷ "്ഈ" ∷ "്\u{1d}?~O" ∷ "്ഓ"
    ∷ "്\u{1d}?~R" ∷ "്ഋ" ∷ "്\u{1d}?~U" ∷ "്ഊ" ∷ "്\u{1d}?~a" ∷ "്അ" ∷ "്\u{1d}?~e" ∷ "്എ"
    ∷ "്\u{1d}?~i" ∷ "്ഇ" ∷ "്\u{1d}?~o" ∷ "്ഒ" ∷ "്\u{1d}?~u" ∷ "്ഉ" ∷ "ൗ\u{1d}?#" ∷ "ൌ"
    ∷ "ൗ\u{1d}?[uieIuUou]" ∷ "ൗൗ" ∷ "ൺ\u{1d}?A" ∷ "ണാ" ∷ "ൺ\u{1d}?D" ∷ "ണ്ഡ്" ∷ "ൺ\u{1d}?E" ∷ "ണേ"
    ∷ "ൺ\u{1d}?I" ∷ "ണീ" ∷ "ൺ\u{1d}?N" ∷ "ണ്ണ്" ∷ "ൺ\u{1d}?O" ∷ "ണോ" ∷ "ൺ\u{1d}?U" ∷ "ണൂ"
    ∷ "ൺ\u{1d}?a" ∷ "ണ" ∷ "ൺ\u{1d}?e" ∷ "ണെ" ∷ "ൺ\u{1d}?i" ∷ "ണി" ∷ "ൺ\u{1d}?m" ∷ "ണ്മ്"
    ∷ "ൺ\u{1d}?o" ∷ "ണൊ" ∷ "ൺ\u{1d}?R" ∷ "ണൃ" ∷ "ൺ\u{1d}?u" ∷ "ണു" ∷ "ൺ\u{1d}?v" ∷ "ണ്വ്"
    ∷ "ൺ\u{1d}?y" ∷ "ണ്യ്" ∷ "ൻ\u{1d}?A" ∷ "നാ" ∷ "ൻ\u{1d}?E" ∷ "നേ" ∷ "ൻ\u{1d}?I" ∷ "നീ"
    ∷ "ൻ\u{1d}?O" ∷ "നോ" ∷ "ൻ\u{1d}?U" ∷ "നൂ" ∷ "ൻ\u{1d}?a" ∷ "ന" ∷ "ൻ\u{1d}?d" ∷ "ന്ദ്"
    ∷ "ൻ\u{1d}?e" ∷ "നെ" ∷ "ൻ\u{1d}?g" ∷ "ങ്" ∷ "ൻ\u{1d}?i" ∷ "നി" ∷ "ൻ\u{1d}?m" ∷ "ന്മ്"
    ∷ "ൻ\u{1d}?n" ∷ "ന്ന്" ∷ "ൻ\u{1d}?o" ∷ "നൊ" ∷ "ൻ\u{1d}?r" ∷ "ന്ര്" ∷ []

abbrev transforms_6 : List String
transforms_6 =
    "ൻ\u{1d}?R" ∷ "നൃ" ∷ "ൻ\u{1d}?u" ∷ "നു" ∷ "ൻ\u{1d}?v" ∷ "ന്വ്" ∷ "ൻ\u{1d}?y" ∷ "ന്യ്"
    ∷ "ർ\u{1d}?#" ∷ "ൎ" ∷ "ർ\u{1d}?A" ∷ "രാ" ∷ "ർ\u{1d}?E" ∷ "രേ" ∷ "ർ\u{1d}?I" ∷ "രീ" ∷ "ർ\u{1d}?O"
    ∷ "രോ" ∷ "ർ\u{1d}?U" ∷ "രൂ" ∷ "ർ\u{1d}?a" ∷ "ര" ∷ "ർ\u{1d}?e" ∷ "രെ" ∷ "ർ\u{1d}?i" ∷ "രി"
    ∷ "ർ\u{1d}?o" ∷ "രൊ" ∷ "ർ\u{1d}?R" ∷ "രൃ" ∷ "ർ\u{1d}?u" ∷ "രു" ∷ "ർ\u{1d}?y" ∷ "ര്യ്"
    ∷ "ൽ\u{1d}?A" ∷ "ലാ" ∷ "ൽ\u{1d}?E" ∷ "ലേ" ∷ "ൽ\u{1d}?I" ∷ "ലീ" ∷ "ൽ\u{1d}?O" ∷ "ലോ"
    ∷ "ൽ\u{1d}?U" ∷ "ലൂ" ∷ "ൽ\u{1d}?[lL]" ∷ "ല്ല്" ∷ "ൽ\u{1d}?a" ∷ "ല" ∷ "ൽ\u{1d}?e" ∷ "ലെ"
    ∷ "ൽ\u{1d}?i" ∷ "ലി" ∷ "ൽ\u{1d}?m" ∷ "ല്മ്" ∷ "ൽ\u{1d}?o" ∷ "ലൊ" ∷ "ൽ\u{1d}?p" ∷ "ല്പ്"
    ∷ "ൽ\u{1d}?R" ∷ "ലൃ" ∷ "ൽ\u{1d}?u" ∷ "ലു" ∷ "ൽ\u{1d}?v" ∷ "ല്വ്" ∷ "ൽ\u{1d}?y" ∷ "ല്യ്"
    ∷ "ൾ\u{1d}?A" ∷ "ളാ" ∷ "ൾ\u{1d}?E" ∷ "ളേ" ∷ "ൾ\u{1d}?I" ∷ "ളീ" ∷ "ൾ\u{1d}?O" ∷ "ളോ"
    ∷ "ൾ\u{1d}?U" ∷ "ളൂ" ∷ "ൾ\u{1d}?a" ∷ "ള" ∷ "ൾ\u{1d}?e" ∷ "ളെ" ∷ "ൾ\u{1d}?i" ∷ "ളി" ∷ "ൾ\u{1d}?o"
    ∷ "ളൊ" ∷ "ൾ\u{1d}?R" ∷ "ളൃ" ∷ "ൾ\u{1d}?u" ∷ "ളു" ∷ "ൾ\u{1d}?y" ∷ "ള്യ്" ∷ "_?E" ∷ "ഏ" ∷ "_?O"
    ∷ "ഓ" ∷ "_?R" ∷ "ഋ" ∷ "_?a" ∷ "അ" ∷ "_?e" ∷ "എ" ∷ "_?i" ∷ "ഇ" ∷ "_?o" ∷ "ഒ" ∷ "_?u" ∷ "ഉ"
    ∷ "cch" ∷ "ച്ച്" ∷ "cchh" ∷ "ച്ഛ്" ∷ "ch" ∷ "ച്" ∷ "t" ∷ "റ്റ്" ∷ "L" ∷ "ൾ" ∷ "N" ∷ "ൺ" ∷ "l"
    ∷ "ൽ" ∷ "m" ∷ "ം" ∷ "n" ∷ "ൻ" ∷ "r" ∷ "ർ" ∷ []

-- The table, of which each part above is a run of lines.
abbrev pub transforms : List String
transforms =
    transforms_1 ++ transforms_2 ++ transforms_3 ++ transforms_4 ++ transforms_5 ++ transforms_6

abbrev pub transforms_len : ℕ
transforms_len = 824

abbrev pub history_prune : Option String
history_prune = some "a|@|@a|c|R|_|~"
