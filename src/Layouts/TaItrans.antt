-- ===== src/Layouts/TaItrans.antt =====
-- The `ta_itrans` layout: chromium-patches/rulebased-payload/chromeos/ash/services/ime/public/cpp/
-- rulebased/def/ta_itrans.cc.
use Prim.Native.String.{String}
use chromiumos_devenv.Common.{Bool, false, List, [], ◌∷◌, ℕ, Option, some}

abbrev pub id : String
id = "ta_itrans"

abbrev pub is_102 : Bool
is_102 = false

abbrev pub transforms : List String
transforms =
    "k" ∷ "க்" ∷ "g" ∷ "க்" ∷ "~N" ∷ "ங்" ∷ "N\\^" ∷ "ங்" ∷ "ch" ∷ "ச்" ∷ "j" ∷ "ஜ்" ∷ "~n" ∷ "ஞ்"
    ∷ "JN" ∷ "ஞ்" ∷ "T" ∷ "ட்" ∷ "Th" ∷ "ட்" ∷ "N" ∷ "ண்" ∷ "t" ∷ "த்" ∷ "th" ∷ "த்" ∷ "n" ∷ "ந்"
    ∷ "\\^n" ∷ "ன்" ∷ "nh" ∷ "ன" ∷ "p" ∷ "ப்" ∷ "b" ∷ "ப்" ∷ "m" ∷ "ம்" ∷ "y" ∷ "ய்" ∷ "r" ∷ "ர்"
    ∷ "R" ∷ "ற்" ∷ "rh" ∷ "ற" ∷ "l" ∷ "ல்" ∷ "L" ∷ "ள்" ∷ "ld" ∷ "ள்" ∷ "J" ∷ "ழ்" ∷ "z" ∷ "ழ்"
    ∷ "v" ∷ "வ்" ∷ "w" ∷ "வ்" ∷ "Sh" ∷ "ஷ்" ∷ "shh" ∷ "ஷ" ∷ "s" ∷ "ஸ்" ∷ "h" ∷ "ஹ்" ∷ "GY" ∷ "ஜ்ஞ"
    ∷ "dny" ∷ "ஜ்ஞ" ∷ "x" ∷ "க்ஷ்" ∷ "ksh" ∷ "க்ஷ்" ∷ "a" ∷ "அ" ∷ "aa" ∷ "ஆ" ∷ "A" ∷ "ஆ" ∷ "i" ∷ "இ"
    ∷ "ii" ∷ "ஈ" ∷ "I" ∷ "ஈ" ∷ "u" ∷ "உ" ∷ "uu" ∷ "ஊ" ∷ "U" ∷ "ஊ" ∷ "e" ∷ "எ" ∷ "E" ∷ "ஏ" ∷ "ee"
    ∷ "ஏ" ∷ "ai" ∷ "ஐ" ∷ "o" ∷ "ஒ" ∷ "O" ∷ "ஓ" ∷ "oo" ∷ "ஓ" ∷ "au" ∷ "ஔ" ∷ "\\.n" ∷ "ஂ" ∷ "M" ∷ "ஂ"
    ∷ "q" ∷ "ஃ" ∷ "H" ∷ "ஃ" ∷ "\\.h" ∷ "்" ∷ "0" ∷ "௦" ∷ "1" ∷ "௧" ∷ "2" ∷ "௨" ∷ "3" ∷ "௩" ∷ "4"
    ∷ "௪" ∷ "5" ∷ "௫" ∷ "6" ∷ "௬" ∷ "7" ∷ "௭" ∷ "8" ∷ "௮" ∷ "9" ∷ "௯" ∷ "#" ∷ "்" ∷ "\\$" ∷ "ர"
    ∷ "\\^" ∷ "த்" ∷ []

abbrev pub transforms_len : ℕ
transforms_len = 146

abbrev pub history_prune : Option String
history_prune = some "[\\^lrshkdnJNtTaeiouAEIOU]|sh|ks|dn"
