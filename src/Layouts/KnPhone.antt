-- ===== src/Layouts/KnPhone.antt =====
-- The `kn_phone` layout: chromium-patches/rulebased-payload/chromeos/ash/services/ime/public/cpp/
-- rulebased/def/kn_phone.cc.
use Prim.Native.String.{String}
use chromiumos_devenv.Common.{Bool, false, List, [], ◌∷◌, ◌++◌, ℕ, Option, some}

abbrev pub id : String
id = "kn_phone"

abbrev pub is_102 : Bool
is_102 = false

abbrev transforms_1 : List String
transforms_1 =
    "0" ∷ "೦" ∷ "1" ∷ "೧" ∷ "2" ∷ "೨" ∷ "3" ∷ "೩" ∷ "4" ∷ "೪" ∷ "5" ∷ "೫" ∷ "6" ∷ "೬" ∷ "7" ∷ "೭"
    ∷ "8" ∷ "೮" ∷ "9" ∷ "೯" ∷ "([ಕ-ಹೞ])\u{1d}?u" ∷ "\\1ೌ" ∷ "ೊ\u{1d}?o" ∷ "ೋ" ∷ "್\u{1d}?O" ∷ "ೋ"
    ∷ "್\u{1d}?o" ∷ "ೊ" ∷ "([ಕ-ಹೞ])\u{1d}?i" ∷ "\\1ೈ" ∷ "ೆ\u{1d}?e" ∷ "ೇ" ∷ "್\u{1d}?E" ∷ "ೇ"
    ∷ "್\u{1d}?e" ∷ "ೆ" ∷ "್ಳ್ಳ್\u{1d}?I" ∷ "ೣ" ∷ "್ಳ್\u{1d}?\\^I" ∷ "ೣ" ∷ "್ಳ್ಳ್\u{1d}?i" ∷ "ೢ"
    ∷ "್ಳ್\u{1d}?\\^i" ∷ "ೢ" ∷ "ೃ\u{1d}?I" ∷ "ೄ" ∷ "ೃ\u{1d}?\\^I" ∷ "ೄ" ∷ "ೃ\u{1d}?R" ∷ "ೄ"
    ∷ "ೃ\u{1d}?\\^i" ∷ "ೃ" ∷ "ೄ\u{1d}?i" ∷ "ೃ" ∷ "್\u{1d}?R" ∷ "ೃ" ∷ "ು\u{1d}?u" ∷ "ೂ" ∷ "್\u{1d}?U"
    ∷ "ೂ" ∷ "್\u{1d}?u" ∷ "ು" ∷ "ಿ\u{1d}?i" ∷ "ೀ" ∷ "್\u{1d}?I" ∷ "ೀ" ∷ "್\u{1d}?i" ∷ "ಿ"
    ∷ "([ಕ-ಹೞ])\u{1d}?a" ∷ "\\1ಾ" ∷ "್\u{1d}?A" ∷ "ಾ" ∷ "್\u{1d}?a" ∷ "" ∷ "\\.a" ∷ "ಽ" ∷ "\\.m"
    ∷ "ಂ" ∷ "\\.z" ∷ "಼" ∷ "\\.N" ∷ "ँ" ∷ "್\u{1d}?\\.h" ∷ "್\u{200c}" ∷ "\\.h" ∷ "್\u{200c}" ∷ "M"
    ∷ "ಂ" ∷ "H" ∷ "ಃ" ∷ "ಕ್\u{1d}?H" ∷ "ೱ" ∷ "ಪ್\u{1d}?H" ∷ "ೲ" ∷ "ಅ\u{1d}?u" ∷ "ಔ" ∷ "ಒ\u{1d}?o"
    ∷ "ಓ" ∷ "O" ∷ "ಓ" ∷ "o" ∷ "ಒ" ∷ "ಅ\u{1d}?i" ∷ "ಐ" ∷ "ಎ\u{1d}?e" ∷ "ಏ" ∷ []

abbrev transforms_2 : List String
transforms_2 =
    "E" ∷ "ಏ" ∷ "e" ∷ "ಎ" ∷ "ಳ್ಳ್\u{1d}?I" ∷ "ೡ" ∷ "ಳ್\u{1d}?\\^I" ∷ "ೡ" ∷ "ಳ್ಳ್\u{1d}?i" ∷ "ಌ"
    ∷ "ಳ್\u{1d}?^i" ∷ "ಌ" ∷ "ೠ\u{1d}?I" ∷ "ೠ" ∷ "ೠ\u{1d}?^I" ∷ "ೠ" ∷ "ಋ\u{1d}?R" ∷ "ೠ" ∷ "R" ∷ "ಋ"
    ∷ "ಉ\u{1d}?u" ∷ "ಊ" ∷ "U" ∷ "ಊ" ∷ "u" ∷ "ಉ" ∷ "ಇ\u{1d}?i" ∷ "ಈ" ∷ "I" ∷ "ಈ" ∷ "i" ∷ "ಇ" ∷ "A"
    ∷ "ಆ" ∷ "ಅ\u{1d}?a" ∷ "ಆ" ∷ "a" ∷ "ಅ" ∷ "ಕ್ಷ್\u{1d}?h" ∷ "ಕ್ಷ್" ∷ "ಗ್\u{1d}?Y" ∷ "ಜ್ಞ್"
    ∷ "ಜ್\u{1d}?n" ∷ "ಜ್ಞ್" ∷ "ಕ್\u{1d}?S" ∷ "ಕ್ಷ್" ∷ "ಕ್ಸ್\u{1d}?h" ∷ "ಕ್ಷ್" ∷ "x" ∷ "ಕ್ಷ್" ∷ "h"
    ∷ "ಹ್" ∷ "ಷ್\u{1d}?h" ∷ "ಷ್" ∷ "S" ∷ "ಷ್" ∷ "z" ∷ "ಶ್" ∷ "ಸ್\u{1d}?h" ∷ "ಶ್" ∷ "s" ∷ "ಸ್" ∷ "v"
    ∷ "ವ್" ∷ "w" ∷ "ವ್" ∷ "L" ∷ "ಳ್" ∷ "\\.L" ∷ "ೞ್" ∷ "l" ∷ "ಲ್" ∷ "r" ∷ "ರ್" ∷ "\\.r" ∷ "ಱ್" ∷ "y"
    ∷ "ಯ್" ∷ "~N" ∷ "ಙ್" ∷ "ಗ್\u{1d}?h" ∷ "ಘ್" ∷ "G" ∷ "ಘ್" ∷ "\\.g" ∷ "ಗ಼್" ∷ "g" ∷ "ಗ್" ∷ "\\.K"
    ∷ "ಖ಼್" ∷ "K" ∷ "ಖ್" ∷ "ಕ್\u{1d}?h" ∷ "ಖ್" ∷ "q" ∷ "ಕ಼್" ∷ "k" ∷ "ಕ್" ∷ "~n" ∷ "ಞ್"
    ∷ "ಜ್\u{1d}?h" ∷ "ಝ್" ∷ "J" ∷ "ಝ್" ∷ "\\.j" ∷ "ಜ಼್" ∷ []

abbrev transforms_3 : List String
transforms_3 =
    "j" ∷ "ಜ್" ∷ "ಚ್\u{1d}?h" ∷ "ಛ್" ∷ "Ch" ∷ "ಛ್" ∷ "ch" ∷ "ಚ್" ∷ "C" ∷ "ಛ್" ∷ "c" ∷ "ಚ್" ∷ "N"
    ∷ "ಣ್" ∷ "ಡ಼್\u{1d}?h" ∷ "ಢ಼್" ∷ "\\.D" ∷ "ಡ಼್" ∷ "ಡ್\u{1d}?h" ∷ "ಢ್" ∷ "D" ∷ "ಡ್"
    ∷ "ಟ್\u{1d}?h" ∷ "ಠ್" ∷ "T" ∷ "ಟ್" ∷ "n" ∷ "ನ್" ∷ "ದ್\u{1d}?h" ∷ "ಧ್" ∷ "d" ∷ "ದ್"
    ∷ "ತ್\u{1d}?h" ∷ "ಥ್" ∷ "t" ∷ "ತ್" ∷ "m" ∷ "ಮ್" ∷ "ಬ್\u{1d}?h" ∷ "ಭ್" ∷ "B" ∷ "ಭ್" ∷ "b" ∷ "ಬ್"
    ∷ "f" ∷ "ಫ಼್" ∷ "ಪ್\u{1d}?h" ∷ "ಫ್" ∷ "P" ∷ "ಫ್" ∷ "p" ∷ "ಪ್" ∷ "ನ್\u{1d}?G" ∷ "ಂಘ್"
    ∷ "ನ್\u{1d}?g" ∷ "ಂಗ್" ∷ "ನ್\u{1d}?K" ∷ "ಂಖ್" ∷ "ನ್\u{1d}?k" ∷ "ಂಕ್" ∷ "ನ್\u{1d}?J" ∷ "ಂಝ್"
    ∷ "ನ್\u{1d}?j" ∷ "ಂಜ್" ∷ "ನ್\u{1d}?Ch" ∷ "ಂಛ್" ∷ "ನ್\u{1d}?ch" ∷ "ಂಚ್" ∷ "ನ್\u{1d}?C" ∷ "ಂಛ್"
    ∷ "ನ್\u{1d}?c" ∷ "ಂಚ್" ∷ "ನ್\u{1d}?D" ∷ "ಂಡ್" ∷ "ನ್\u{1d}?T" ∷ "ಂಟ್" ∷ "ನ್ನ್\u{1d}?g" ∷ "ಙ್ಗ್"
    ∷ "ನ್ನ್\u{1d}?k" ∷ "ಙ್ಕ್" ∷ "ನ್ನ್\u{1d}?j" ∷ "ಞ್ಜ್" ∷ "ನ್ನ್\u{1d}?Ch" ∷ "ಞ್ಛ್" ∷ "ನ್ನ್\u{1d}?ch"
    ∷ "ಞ್ಚ್" ∷ "ನ್ನ್\u{1d}?C" ∷ "ಞ್ಛ್" ∷ "ನ್ನ್\u{1d}?c" ∷ "ಞ್ಚ್" ∷ "ನ್ನ್\u{1d}?D" ∷ "ಣ್ಡ್"
    ∷ "ನ್ನ್\u{1d}?T" ∷ "ಣ್ಟ್" ∷ "\\|" ∷ "।" ∷ "।\u{1d}?\\|" ∷ "॥" ∷ []

-- The table, of which each part above is a run of lines.
abbrev pub transforms : List String
transforms = transforms_1 ++ transforms_2 ++ transforms_3

abbrev pub transforms_len : ℕ
transforms_len = 310

abbrev pub history_prune : Option String
history_prune = some "C|c"
