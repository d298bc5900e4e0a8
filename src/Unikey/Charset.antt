-- ===== src/Unikey/Charset.antt =====
-- The output layer of the vendored engine: charset.h, charset_utf8.cpp and the tables of
-- vnlexi_tables.cpp, in chromium-patches/unikey-payload/third_party/unikey.
-- A `StdVnChar` is a `uint32_t`. `tolower` and `toupper` of the C library are a parameter.
pub mod Tables
pub mod Checked
pub mod Points
pub mod Folding
pub mod Writing
pub mod Output
use chromiumos_devenv.Common.{
  ℕ, zero, suc, ◌+◌, ◌-◌, ◌%◌, ◌^◌, Bool, true, false, ◌&&◌, List, [], ◌∷◌, Option, none, some,
  Bytes, length, ltb, leb, ◌==◌, if◌then◌else◌, get_elem?, Outcome, returns, fails, ◌>>=◌,
  out_of_range,
}
use chromiumos_devenv.Unikey.Utf8.{put_utf8}
use Tables.{lexi_to_unicode, lexi_count}

abbrev pub vn_std_char_offset : ℕ
vn_std_char_offset = 0x10000

-- `(int)(ch - VnStdCharOffset)`: a value from 2^31 on is cast to a negative one, so that the test
-- `idx >= 0` fails.
abbrev pub is_lexi_index : ℕ → Bool
is_lexi_index idx = ltb idx (2 ^ 31) && ltb idx lexi_count

pub record CType : Type 0 where
  pub tolower : ℕ → ℕ
  pub toupper : ℕ → ℕ

module _ (ctype : CType) where
  unfoldable pub std_vn_to_lower : ℕ → ℕ
  std_vn_to_lower ch =
      if leb vn_std_char_offset ch
      then (let idx = ch - vn_std_char_offset in
          if is_lexi_index idx && (idx % 2 == 0) then ch + 1 else ch)
      else ctype.tolower ch

  unfoldable pub std_vn_to_upper : ℕ → ℕ
  std_vn_to_upper ch =
      if leb vn_std_char_offset ch
      then (let idx = ch - vn_std_char_offset in
          if is_lexi_index idx && (idx % 2 == 1) then ch - 1 else ch)
      else ctype.toupper ch

abbrev pub entry_or : ℕ → Option ℕ → ℕ
entry_or d none = d
entry_or d (some n) = n

-- The code point that `putChar` emits. The table is read below its length.
unfoldable pub code_point : ℕ → ℕ
code_point std_char =
    if leb vn_std_char_offset std_char
    then (let idx = std_char - vn_std_char_offset in
        if is_lexi_index idx then entry_or 0 (get_elem? lexi_to_unicode idx) else 0xFFFD)
    else std_char % 256

-- `buf` is the array behind `m_buf`, `none` if that is null.
pub record StringBoStream : Type 0 where
  pub buf : Option Bytes
  pub max : ℕ
  pub n : ℕ

abbrev pub start_stream : Option Bytes → ℕ → StringBoStream
start_stream buf size = record { buf = buf; max = size; n = 0 }

-- `b[i] = c`
unfoldable pub store : Bytes → ℕ → ℕ → Outcome Bytes
store [] i c = fails out_of_range
store (x ∷ b) zero c = returns (c ∷ b)
store (x ∷ b) (suc i) c = do b' ← store b i c; returns (x ∷ b')

unfoldable pub put_b : ℕ → StringBoStream → Outcome StringBoStream
unfolding store
put_b c os = elim os.buf [
  | none ↦ returns (record os { n = os.n + 1 })
  | some b ↦
      if ltb os.n os.max
      then (do b' ← store b os.n c; returns (record os { buf = some b'; n = os.n + 1 }))
      else returns (record os { n = os.n + 1 })
]

-- The calls of `putB` that `putUtf8` makes, in order.
unfoldable pub put_bytes : Bytes → StringBoStream → Outcome StringBoStream
unfolding put_b
put_bytes [] os = returns os
put_bytes (c ∷ cs) os = do os' ← put_b c os; put_bytes cs os'

-- The stream and `outLen`.
unfoldable pub put_char : ℕ → StringBoStream → Outcome (StringBoStream × ℕ)
unfolding put_bytes code_point
put_char std_char os = do
  os' ← put_bytes (put_utf8 (code_point std_char)) os
  returns (os', os'.n - os.n)

-- The stub for macros, with `*inLen` and `*maxOutLen`, `none` if null: both become 0, and so is the result.
abbrev pub vn_convert : Option ℕ → Option ℕ → (Option ℕ × Option ℕ) × ℕ
vn_convert in_len max_out_len = ((emptied in_len, emptied max_out_len), 0)
  where
    emptied : Option ℕ → Option ℕ
    emptied none = none
    emptied (some n) = some 0
