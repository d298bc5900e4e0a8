-- ===== src/Unikey/Utf8.antt =====
-- UTF-8: `putUtf8` of charset_utf8.cpp, `encodeUtf8` and `decodeUtf8` of poc_driver.cc, and
-- `AppendUtf8` of unikey_engine.cc.
-- A shift is written as a division or a product, a mask of low bits as a remainder, and an `|` of
-- values with no bit in common as a sum.
pub mod RoundTrip
use chromiumos_devenv.Common.{
  ℕ, zero, suc, ◌+◌, ◌-◌, ◌*◌, ◌/◌, ◌%◌, bit_or, List, [], ◌∷◌, ◌++◌, Bytes, ltb, ◌==◌,
  if◌then◌else◌, length, take, drop,
}

unfoldable pub put_utf8 : ℕ → Bytes
put_utf8 cp =
    if ltb cp 0x80
    then cp ∷ []
    else if ltb cp 0x800
    then (0xC0 + cp / 64) ∷ (0x80 + cp % 64) ∷ []
    else if ltb cp 0x10000
    then (0xE0 + cp / 4096) ∷ (0x80 + cp / 64 % 64) ∷ (0x80 + cp % 64) ∷ []
    else bit_or 0xF0 (cp / 262144) % 256
      ∷ (0x80 + cp / 4096 % 64)
      ∷ (0x80 + cp / 64 % 64)
      ∷ (0x80 + cp % 64)
      ∷ []

unfoldable pub encode_utf8 : List ℕ → Bytes
unfolding put_utf8
encode_utf8 [] = []
encode_utf8 (cp ∷ cps) = put_utf8 cp ++ encode_utf8 cps

-- `len` of a sequence that begins with byte `c`.
unfoldable pub sequence_length : ℕ → ℕ
sequence_length c =
    if ltb c 0x80 then 1 else if c / 32 == 0x6 then 2 else if c / 16 == 0xE then 3 else 4

unfoldable pub lead_bits : ℕ → ℕ
lead_bits c =
    if ltb c 0x80
    then c
    else if c / 32 == 0x6
    then c % 32
    else if c / 16 == 0xE
    then c % 16
    else c % 8

-- The loop over the continuation bytes that are there.
unfoldable pub add_bits : ℕ → Bytes → ℕ
add_bits cp [] = cp
add_bits cp (b ∷ bs) = add_bits (cp * 64 + b % 64) bs

-- The loop over the sequences, `i += len`; the number is how many rounds may follow.
unfoldable pub decode_from : ℕ → Bytes → List ℕ
unfolding sequence_length lead_bits add_bits
decode_from zero b = []
decode_from (suc fuel) [] = []
decode_from (suc fuel) (c ∷ b) =
    let len = sequence_length c in
    let rest = decode_from fuel (drop len (c ∷ b)) in
    add_bits (lead_bits c) (take (len - 1) b) ∷ rest

unfoldable pub decode_utf8 : Bytes → List ℕ
unfolding decode_from
decode_utf8 b = decode_from (length b) b

-- `AppendUtf8`: the code points go behind those in `out`.
unfoldable pub append_utf8 : Bytes → List ℕ → List ℕ
unfolding decode_utf8
append_utf8 b out = out ++ decode_utf8 b
