-- ===== src/Unikey/Utf16.antt =====
-- `CodepointsToU16` of unikey_engine.cc.
use chromiumos_devenv.Common.{
  ℕ, ◌+◌, ◌-◌, ◌*◌, ◌/◌, ◌%◌, ◌^◌, ◌≤◌, ◌<◌, ◌≡◌, Bool, true, ◌&&◌, ◌||◌, Bool-cases, inl, inr,
  List, [], ◌∷◌, ◌++◌, arith, ltb, leb, if◌then◌else◌,
}
use chromiumos_devenv.Platform.Text.{Units}

-- One code point; the casts are to `char16_t`.
unfoldable pub units_of : ℕ → Units
units_of cp =
    if leb cp 0xFFFF
    then cp ∷ []
    else (let rest = cp - 0x10000 in
        (0xD800 + rest / 1024) % 2 ^ 16 ∷ (0xDC00 + rest % 1024) % 2 ^ 16 ∷ [])

unfoldable pub codepoints_to_u16 : List ℕ → Units
unfolding units_of
codepoints_to_u16 [] = []
codepoints_to_u16 (cp ∷ cps) = units_of cp ++ codepoints_to_u16 cps

-- UTF-16 as the standard decodes it: a unit outside 0xD800 to 0xDFFF is a code point, a high
-- surrogate and a low one behind it are one, and nothing else is well formed.

pub data Decodes : Units → List ℕ → Type 0 where
  done : Decodes [] []
  single :
      {u : ℕ} {us : Units} {cps : List ℕ} → u < 0xD800 → Decodes us cps → Decodes (u ∷ us) (u ∷ cps)
  single_high :
      {u : ℕ} {us : Units} {cps : List ℕ}
      → 0xE000 ≤ u
      → u < 65536
      → Decodes us cps
      → Decodes (u ∷ us) (u ∷ cps)
  pair :
      {h l cp : ℕ} {us : Units} {cps : List ℕ}
      → 0xD800 ≤ h
      → h < 0xDC00
      → 0xDC00 ≤ l
      → l < 0xE000
      → cp ≡ 0x10000 + (h - 0xD800) * 1024 + (l - 0xDC00)
      → Decodes us cps
      → Decodes (h ∷ l ∷ us) (cp ∷ cps)

-- A Unicode scalar value.
abbrev pub is_scalar : ℕ → Bool
is_scalar cp = ltb cp 0xD800 || (leb 0xE000 cp && ltb cp 0x110000)

abbrev pub AllScalar : List ℕ → Type 0
AllScalar [] = Unit {0}
AllScalar (cp ∷ cps) = (is_scalar cp ≡ true) × AllScalar cps

units_of-Decodes :
    (cp : ℕ) (us : Units) (cps : List ℕ)
    → is_scalar cp ≡ true
    → Decodes us cps
    → Decodes (units_of cp ++ us) (cp ∷ cps)
unfolding units_of
units_of-Decodes cp us cps h d = elim (Bool-cases (leb cp 0xFFFF)) [
  | inl small ↦ rw small (elim (Bool-cases (ltb cp 0xD800)) [
    | inl low ↦ single (ground arith) d
    | inr high ↦ single_high (ground arith) (ground arith) d
  ])
  | inr big ↦
      rw big (pair (ground arith) (ground arith) (ground arith) (ground arith) (ground arith) d)
]

-- For code points that are Unicode scalar values, the units are their UTF-16, with a surrogate pair
-- for each one above 0xFFFF.
pub codepoints_to_u16-Decodes : (cps : List ℕ) → AllScalar cps → Decodes (codepoints_to_u16 cps) cps
unfolding codepoints_to_u16
codepoints_to_u16-Decodes [] h = done
codepoints_to_u16-Decodes (cp ∷ cps) h =
    units_of-Decodes cp (codepoints_to_u16 cps) cps h.0 (codepoints_to_u16-Decodes cps h.1)
