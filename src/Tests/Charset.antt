-- ===== src/Tests/Charset.antt =====
-- The theorems on the output layer at concrete inputs.
use chromiumos_devenv.Common.{
  ℕ, ◌+◌, ◌-◌, ◌%◌, ◌≤◌, ◌<◌, ◌≡◌, ◌≢◌, refl, not, ◌&&◌, ◌||◌, List, [], ◌∷◌, ◌++◌, some, Bytes,
  codes, arith, inr, length, take, leb, map, ◌==◌, if◌then◌else◌, returns,
}
use chromiumos_devenv.Unikey.Utf8.{encode_utf8, append_utf8}
use chromiumos_devenv.Unikey.Charset.{
  CType, std_vn_to_lower, std_vn_to_upper, code_point, StringBoStream, start_stream,
}
use chromiumos_devenv.Unikey.Charset.Tables.{lexi_to_unicode, no_tone, root_char}
use chromiumos_devenv.Unikey.Charset.Checked.{entry}
use chromiumos_devenv.Unikey.Charset.Points.{is_ascii_letter, root_char-ascii, code_point-injective}
use chromiumos_devenv.Unikey.Charset.Folding.{fold_tables, CTypeLaws, std_vn_to_lower-upper}
use chromiumos_devenv.Unikey.Charset.Writing.{Holds}
use chromiumos_devenv.Unikey.Charset.Output.{put_chars, put_chars-returns, append_utf8-put_chars}

abbrev c_locale : CType
c_locale = record {
  tolower = λ c. if leb b'A' c && leb c b'Z' then c + 32 else c;
  toupper = λ c. if leb b'a' c && leb c b'z' then c - 32 else c;
}

c_locale_laws : CTypeLaws c_locale
c_locale_laws = record { lower = λ c h. refl; upper = λ c h. refl }

-- A character of the alphabet, by its index.
abbrev vn : ℕ → ℕ
vn i = 0x10000 + i

std_vn_to_lower-upper_example :
    (std_vn_to_lower c_locale (std_vn_to_upper c_locale (vn 15)) ≡ std_vn_to_lower c_locale (vn 15))
    × (std_vn_to_upper c_locale (std_vn_to_lower c_locale (vn 15))
        ≡ std_vn_to_upper c_locale (vn 15))
    × (std_vn_to_lower c_locale (std_vn_to_lower c_locale (vn 15))
        ≡ std_vn_to_lower c_locale (vn 15))
    × (std_vn_to_upper c_locale (std_vn_to_upper c_locale (vn 15))
        ≡ std_vn_to_upper c_locale (vn 15))
std_vn_to_lower-upper_example = std_vn_to_lower-upper c_locale c_locale_laws (vn 15) (inr beyond)
  where
    beyond : 0x10000 ≤ vn 15
    beyond = omega arith

-- `ấ`
fold_tables_example :
    (entry no_tone 15 < 186)
    × (entry root_char 15 < 186)
    × (entry no_tone (entry no_tone 15) ≡ entry no_tone 15)
    × (entry root_char (entry root_char 15) ≡ entry root_char 15)
    × (entry root_char (entry no_tone 15) ≡ entry root_char 15)
    × (entry no_tone 15 % 2 ≡ 15 % 2)
    × (entry root_char 15 % 2 ≡ 15 % 2)
fold_tables_example = fold_tables 15 small
  where
    small : 15 < 186
    small = omega arith

-- `đ`
root_char-ascii_example :
    is_ascii_letter (entry lexi_to_unicode (entry root_char 43)) ≡ not (43 == 42 || 43 == 43)
root_char-ascii_example = root_char-ascii 43 small
  where
    small : 43 < 186
    small = omega arith

-- `ấ` and `ầ`
code_point-injective_example : code_point (vn 15) ≢ code_point (vn 17)
code_point-injective_example = code_point-injective 15 17 first second other
  where
    first : 15 < 186
    first = omega arith

    second : 17 < 186
    second = omega arith

    other : ◌≢◌ {A = ℕ} 15 17
    other e = absurd (omega arith)

-- `bấ`, for which there is no room in two bytes.
abbrev word : List ℕ
word = b'b' ∷ vn 15 ∷ []

abbrev small_array : Bytes
small_array = 0 ∷ 0 ∷ 0 ∷ []

put_chars-returns_example :
    (os : StringBoStream) × (put_chars word (start_stream (some small_array) 2) ≡ returns os)
    × (os.n ≡ length (encode_utf8 (map code_point word)))
    × Holds os.buf 2 (encode_utf8 (map code_point word))
put_chars-returns_example = put_chars-returns word (some small_array) 2 room
  where
    room : 2 ≤ length small_array
    room = omega arith

abbrev array : Bytes
array = 0 ∷ 0 ∷ 0 ∷ 0 ∷ 0 ∷ []

fits : length (encode_utf8 (map code_point word)) ≤ 4
unfolding encode_utf8 code_point
fits = omega arith

append_utf8-put_chars_example :
    (os : StringBoStream) × (b' : Bytes) × (put_chars word (start_stream (some array) 4)
      ≡ returns os)
    × (os.buf ≡ some b')
    × (append_utf8 (take os.n b') (codes "x") ≡ codes "x" ++ map code_point word)
append_utf8-put_chars_example = append_utf8-put_chars word array 4 (codes "x") room fits
  where
    room : 4 ≤ length array
    room = omega arith
