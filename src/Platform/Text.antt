-- ===== src/Platform/Text.antt =====
-- Text conversions outside the repository, as a parameter: `base::UTF8ToUTF16`,
-- `base::UTF16ToUTF8` and `base::ConvertToUtf8AndNormalize` with the code page UTF-8.
use chromiumos_devenv.Common.{List, ℕ, Bytes}

-- A `std::u16string`: its UTF-16 units.
abbrev pub Units : Type 0
Units = List ℕ

pub record Conversions : Type 0 where
  pub to_utf16 : Bytes → Units
  pub to_utf8 : Units → Bytes
  pub normalize : Bytes → Bytes
