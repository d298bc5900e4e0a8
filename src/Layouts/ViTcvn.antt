-- ===== src/Layouts/ViTcvn.antt =====
-- The `vi_tcvn` layout: chromium-patches/rulebased-payload/chromeos/ash/services/ime/public/cpp/
-- rulebased/def/vi_tcvn.cc.
use Prim.Native.String.{String}
use chromiumos_devenv.Common.{Bool, false, List, [], ◌∷◌, ◌++◌, ℕ, Option, none}

abbrev pub id : String
id = "vi_tcvn"

abbrev pub is_102 : Bool
is_102 = false

abbrev transforms_1 : List String
transforms_1 =
    "À" ∷ "À" ∷ "Á" ∷ "Á" ∷ "Ã" ∷ "Ã" ∷ "È" ∷ "È" ∷ "É" ∷ "É" ∷ "Ì" ∷ "Ì" ∷ "Í" ∷ "Í" ∷ "Ñ"
    ∷ "Ñ" ∷ "Ò" ∷ "Ò" ∷ "Ó" ∷ "Ó" ∷ "Õ" ∷ "Õ" ∷ "Ù" ∷ "Ù" ∷ "Ú" ∷ "Ú" ∷ "Ý" ∷ "Ý" ∷ "à" ∷ "à"
    ∷ "á" ∷ "á" ∷ "ã" ∷ "ã" ∷ "è" ∷ "è" ∷ "é" ∷ "é" ∷ "ì" ∷ "ì" ∷ "í" ∷ "í" ∷ "ñ" ∷ "ñ"
    ∷ "ò" ∷ "ò" ∷ "ó" ∷ "ó" ∷ "õ" ∷ "õ" ∷ "ù" ∷ "ù" ∷ "ú" ∷ "ú" ∷ "ý" ∷ "ý" ∷ "Ć" ∷ "Ć"
    ∷ "ć" ∷ "ć" ∷ "Ĩ" ∷ "Ĩ" ∷ "ĩ" ∷ "ĩ" ∷ "Ĺ" ∷ "Ĺ" ∷ "ĺ" ∷ "ĺ" ∷ "Ń" ∷ "Ń" ∷ "ń" ∷ "ń"
    ∷ "Ŕ" ∷ "Ŕ" ∷ "ŕ" ∷ "ŕ" ∷ "Ś" ∷ "Ś" ∷ "ś" ∷ "ś" ∷ "Ũ" ∷ "Ũ" ∷ "ũ" ∷ "ũ" ∷ "Ź" ∷ "Ź"
    ∷ "ź" ∷ "ź" ∷ "Ü\u{1d}́" ∷ "Ǘ" ∷ "ü\u{1d}́" ∷ "ǘ" ∷ "Ü\u{1d}̀" ∷ "Ǜ" ∷ "ü\u{1d}̀" ∷ "ǜ" ∷ "Ǵ"
    ∷ "Ǵ" ∷ "ǵ" ∷ "ǵ" ∷ "Ǹ" ∷ "Ǹ" ∷ "ǹ" ∷ "ǹ" ∷ "Å\u{1d}́" ∷ "Ǻ" ∷ "å\u{1d}́" ∷ "ǻ" ∷ "Æ\u{1d}́"
    ∷ "Ǽ" ∷ "æ\u{1d}́" ∷ "ǽ" ∷ "Ø\u{1d}́" ∷ "Ǿ" ∷ "ø\u{1d}́" ∷ "ǿ" ∷ "Ḅ" ∷ "Ḅ" ∷ "ḅ" ∷ "ḅ"
    ∷ "Ç\u{1d}́" ∷ "Ḉ" ∷ "ç\u{1d}́" ∷ "ḉ" ∷ "Ḍ" ∷ "Ḍ" ∷ "ḍ" ∷ "ḍ" ∷ "Ē\u{1d}̀" ∷ "Ḕ" ∷ "ē\u{1d}̀"
    ∷ "ḕ" ∷ []

abbrev transforms_2 : List String
transforms_2 =
    "Ē\u{1d}́" ∷ "Ḗ" ∷ "ē\u{1d}́" ∷ "ḗ" ∷ "Ḥ" ∷ "Ḥ" ∷ "ḥ" ∷ "ḥ" ∷ "Ï\u{1d}́" ∷ "Ḯ" ∷ "ï\u{1d}́"
    ∷ "ḯ" ∷ "Ḱ" ∷ "Ḱ" ∷ "ḱ" ∷ "ḱ" ∷ "Ḳ" ∷ "Ḳ" ∷ "ḳ" ∷ "ḳ" ∷ "Ḷ" ∷ "Ḷ" ∷ "ḷ" ∷ "ḷ" ∷ "Ḿ" ∷ "Ḿ"
    ∷ "ḿ" ∷ "ḿ" ∷ "Ṃ" ∷ "Ṃ" ∷ "ṃ" ∷ "ṃ" ∷ "Ṇ" ∷ "Ṇ" ∷ "ṇ" ∷ "ṇ" ∷ "Õ\u{1d}́" ∷ "Ṍ" ∷ "õ\u{1d}́"
    ∷ "ṍ" ∷ "Ō\u{1d}̀" ∷ "Ṑ" ∷ "ō\u{1d}̀" ∷ "ṑ" ∷ "Ō\u{1d}́" ∷ "Ṓ" ∷ "ō\u{1d}́" ∷ "ṓ" ∷ "Ṕ" ∷ "Ṕ"
    ∷ "ṕ" ∷ "ṕ" ∷ "Ṛ" ∷ "Ṛ" ∷ "ṛ" ∷ "ṛ" ∷ "Ṣ" ∷ "Ṣ" ∷ "ṣ" ∷ "ṣ" ∷ "Ṭ" ∷ "Ṭ" ∷ "ṭ" ∷ "ṭ"
    ∷ "Ũ\u{1d}́" ∷ "Ṹ" ∷ "ũ\u{1d}́" ∷ "ṹ" ∷ "Ṽ" ∷ "Ṽ" ∷ "ṽ" ∷ "ṽ" ∷ "Ṿ" ∷ "Ṿ" ∷ "ṿ" ∷ "ṿ" ∷ "Ẁ"
    ∷ "Ẁ" ∷ "ẁ" ∷ "ẁ" ∷ "Ẃ" ∷ "Ẃ" ∷ "ẃ" ∷ "ẃ" ∷ "Ẉ" ∷ "Ẉ" ∷ "ẉ" ∷ "ẉ" ∷ "Ẓ" ∷ "Ẓ" ∷ "ẓ" ∷ "ẓ"
    ∷ "Ạ" ∷ "Ạ" ∷ "ạ" ∷ "ạ" ∷ "Ả" ∷ "Ả" ∷ "ả" ∷ "ả" ∷ "Ấ" ∷ "Ấ" ∷ "ấ" ∷ "ấ" ∷ "Ầ" ∷ "Ầ"
    ∷ "ầ" ∷ "ầ" ∷ "Ẩ" ∷ "Ẩ" ∷ "ẩ" ∷ "ẩ" ∷ "Ẫ" ∷ "Ẫ" ∷ "ẫ" ∷ "ẫ" ∷ "Ắ" ∷ "Ắ" ∷ "ắ" ∷ "ắ"
    ∷ "Ằ" ∷ "Ằ" ∷ "ằ" ∷ "ằ" ∷ "Ẳ" ∷ "Ẳ" ∷ "ẳ" ∷ "ẳ" ∷ "Ẵ" ∷ "Ẵ" ∷ "ẵ" ∷ "ẵ" ∷ []

abbrev transforms_3 : List String
transforms_3 =
    "Ẹ" ∷ "Ẹ" ∷ "ẹ" ∷ "ẹ" ∷ "Ẻ" ∷ "Ẻ" ∷ "ẻ" ∷ "ẻ" ∷ "Ẽ" ∷ "Ẽ" ∷ "ẽ" ∷ "ẽ" ∷ "Ế" ∷ "Ế" ∷ "ế"
    ∷ "ế" ∷ "Ề" ∷ "Ề" ∷ "ề" ∷ "ề" ∷ "Ể" ∷ "Ể" ∷ "ể" ∷ "ể" ∷ "Ễ" ∷ "Ễ" ∷ "ễ" ∷ "ễ" ∷ "Ỉ" ∷ "Ỉ"
    ∷ "ỉ" ∷ "ỉ" ∷ "Ị" ∷ "Ị" ∷ "ị" ∷ "ị" ∷ "Ọ" ∷ "Ọ" ∷ "ọ" ∷ "ọ" ∷ "Ỏ" ∷ "Ỏ" ∷ "ỏ" ∷ "ỏ"
    ∷ "Ố" ∷ "Ố" ∷ "ố" ∷ "ố" ∷ "Ồ" ∷ "Ồ" ∷ "ồ" ∷ "ồ" ∷ "Ổ" ∷ "Ổ" ∷ "ổ" ∷ "ổ" ∷ "Ỗ" ∷ "Ỗ"
    ∷ "ỗ" ∷ "ỗ" ∷ "Ớ" ∷ "Ớ" ∷ "ớ" ∷ "ớ" ∷ "Ờ" ∷ "Ờ" ∷ "ờ" ∷ "ờ" ∷ "Ở" ∷ "Ở" ∷ "ở" ∷ "ở"
    ∷ "Ỡ" ∷ "Ỡ" ∷ "ỡ" ∷ "ỡ" ∷ "Ợ" ∷ "Ợ" ∷ "ợ" ∷ "ợ" ∷ "Ụ" ∷ "Ụ" ∷ "ụ" ∷ "ụ" ∷ "Ủ" ∷ "Ủ"
    ∷ "ủ" ∷ "ủ" ∷ "Ứ" ∷ "Ứ" ∷ "ứ" ∷ "ứ" ∷ "Ừ" ∷ "Ừ" ∷ "ừ" ∷ "ừ" ∷ "Ử" ∷ "Ử" ∷ "ử" ∷ "ử"
    ∷ "Ữ" ∷ "Ữ" ∷ "ữ" ∷ "ữ" ∷ "Ự" ∷ "Ự" ∷ "ự" ∷ "ự" ∷ "Ỳ" ∷ "Ỳ" ∷ "ỳ" ∷ "ỳ" ∷ "Ỵ" ∷ "Ỵ"
    ∷ "ỵ" ∷ "ỵ" ∷ "Ỷ" ∷ "Ỷ" ∷ "ỷ" ∷ "ỷ" ∷ "Ỹ" ∷ "Ỹ" ∷ "ỹ" ∷ "ỹ" ∷ []

-- The table, of which each part above is a run of lines.
abbrev pub transforms : List String
transforms = transforms_1 ++ transforms_2 ++ transforms_3

abbrev pub transforms_len : ℕ
transforms_len = 388

abbrev pub history_prune : Option String
history_prune = none
