-- ===== src/Unikey/Charset/Folding.antt =====
-- The case and tone folds of the Vietnamese alphabet.
use chromiumos_devenv.Common.{
  ℕ, ◌+◌, ◌-◌, ◌%◌, ◌≤◌, ◌<◌, ◌≡◌, ◌⊎◌, refl, sym, ap, ◌∙◌, subst, Bool, true, false, ◌&&◌, arith,
  ltb, leb, ◌==◌, if◌then◌else◌, inl, inr,
}
use chromiumos_devenv.Unikey.Charset.{
  CType, vn_std_char_offset, is_lexi_index, std_vn_to_lower, std_vn_to_upper,
}
use chromiumos_devenv.Unikey.Charset.Tables.{no_tone, root_char, lexi_count}
use chromiumos_devenv.Unikey.Charset.Checked.{holds_from, holds_at, entry}

-- What the folds of index `i` come to.
abbrev folds_well : ℕ → Bool
folds_well i =
    ltb (entry no_tone i) lexi_count
    && ltb (entry root_char i) lexi_count
    && entry no_tone (entry no_tone i) == entry no_tone i
    && entry root_char (entry root_char i) == entry root_char i
    && entry root_char (entry no_tone i) == entry root_char i
    && entry no_tone i % 2 == i % 2
    && entry root_char i % 2 == i % 2

folds_table : holds_from folds_well 0 lexi_count ≡ true
unfolding holds_from
folds_table = refl

-- Every name of the alphabet, by its index: dropping its tone or going to its root gives a name of
-- the alphabet again, of the same case; doing so twice is doing it once; and the root is the root of
-- the name without its tone.
pub fold_tables :
    (i : ℕ)
    → i < lexi_count
    → (entry no_tone i < lexi_count)
      × (entry root_char i < lexi_count)
      × (entry no_tone (entry no_tone i) ≡ entry no_tone i)
      × (entry root_char (entry root_char i) ≡ entry root_char i)
      × (entry root_char (entry no_tone i) ≡ entry root_char i)
      × (entry no_tone i % 2 ≡ i % 2)
      × (entry root_char i % 2 ≡ i % 2)
fold_tables i h =
    parts i (entry no_tone i) (entry root_char i) (entry no_tone (entry no_tone i))
      (entry root_char (entry root_char i)) (entry root_char (entry no_tone i))
      (holds_at folds_well 0 lexi_count i folds_table (omega arith) (omega arith))
  where
    parts :
        (k t r tt' rr rt : ℕ)
        → (ltb t 186
            && ltb r 186
            && tt' == t
            && rr == r
            && rt == r
            && t % 2 == k % 2
            && r % 2 == k % 2)
          ≡ true
        → (t < 186)
          × (r < 186)
          × (tt' ≡ t)
          × (rr ≡ r)
          × (rt ≡ r)
          × (t % 2 ≡ k % 2)
          × (r % 2 ≡ k % 2)
    parts k t r tt' rr rt q = ground arith

-- In the C locale a byte is folded as an ASCII character; what is no letter stays.
pub record CTypeLaws (ctype : CType) : Type 0 where
  pub lower : (c : ℕ) → c < 256 → ctype.tolower c ≡ (if leb b'A' c && leb c b'Z' then c + 32 else c)
  pub upper : (c : ℕ) → c < 256 → ctype.toupper c ≡ (if leb b'a' c && leb c b'z' then c - 32 else c)

-- A byte, or a Vietnamese character or beyond.
abbrev pub IsStdVnChar : ℕ → Type 0
IsStdVnChar ch = (ch < 256) ⊎ (vn_std_char_offset ≤ ch)

abbrev ascii_lower : ℕ → ℕ
ascii_lower c = if leb b'A' c && leb c b'Z' then c + 32 else c

abbrev ascii_upper : ℕ → ℕ
ascii_upper c = if leb b'a' c && leb c b'z' then c - 32 else c

abbrev lexi_lower : ℕ → ℕ
lexi_lower i = if is_lexi_index i && (i % 2 == 0) then i + 1 else i

abbrev lexi_upper : ℕ → ℕ
lexi_upper i = if is_lexi_index i && (i % 2 == 1) then i - 1 else i

-- Two functions each of which undoes the other and is idempotent.
abbrev Folds : (ℕ → ℕ) → (ℕ → ℕ) → ℕ → Type 0
Folds f g c = (f (g c) ≡ f c) × (g (f c) ≡ g c) × (f (f c) ≡ f c) × (g (g c) ≡ g c)

ascii-Folds : (c : ℕ) → Folds ascii_lower ascii_upper c
ascii-Folds c = ground arith

lexi-Folds : (i : ℕ) → Folds lexi_lower lexi_upper i
lexi-Folds i = ground arith

ascii_lower-small : (c : ℕ) → c < 256 → ascii_lower c < 256
ascii_lower-small c h = ground arith

ascii_upper-small : (c : ℕ) → c < 256 → ascii_upper c < 256
ascii_upper-small c h = ground arith

module _ (ctype : CType) (laws : CTypeLaws ctype) where
  lower-ascii : (c : ℕ) → c < 256 → std_vn_to_lower ctype c ≡ ascii_lower c
  unfolding std_vn_to_lower
  lower-ascii c h = rw below (laws.lower c h)
    where
      below : leb 0x10000 c ≡ false
      below = ground arith

  upper-ascii : (c : ℕ) → c < 256 → std_vn_to_upper ctype c ≡ ascii_upper c
  unfolding std_vn_to_upper
  upper-ascii c h = rw below (laws.upper c h)
    where
      below : leb 0x10000 c ≡ false
      below = ground arith

  lower-lexi : (i : ℕ) → std_vn_to_lower ctype (0x10000 + i) ≡ 0x10000 + lexi_lower i
  unfolding std_vn_to_lower
  lower-lexi i = ground arith

  upper-lexi : (i : ℕ) → std_vn_to_upper ctype (0x10000 + i) ≡ 0x10000 + lexi_upper i
  unfolding std_vn_to_upper
  upper-lexi i = ground arith

  -- The folds of a character are those of its image under `k`.
  transport_Folds :
      (k f g : ℕ → ℕ) (c : ℕ)
      → ((x : ℕ) → std_vn_to_lower ctype (k x) ≡ k (f x))
      → ((x : ℕ) → std_vn_to_upper ctype (k x) ≡ k (g x))
      → Folds f g c
      → Folds (std_vn_to_lower ctype) (std_vn_to_upper ctype) (k c)
  transport_Folds k f g c lo up (fg, gf, ff, gg) = (
    ap (std_vn_to_lower ctype) (up c) ∙ lo (g c) ∙ ap k fg ∙ sym (lo c),
    ap (std_vn_to_upper ctype) (lo c) ∙ up (f c) ∙ ap k gf ∙ sym (up c),
    ap (std_vn_to_lower ctype) (lo c) ∙ lo (f c) ∙ ap k ff ∙ sym (lo c),
    ap (std_vn_to_upper ctype) (up c) ∙ up (g c) ∙ ap k gg ∙ sym (up c),
  )

  byte-Folds : (c : ℕ) → c < 256 → Folds (std_vn_to_lower ctype) (std_vn_to_upper ctype) c
  byte-Folds c h =
      let (fg, gf, ff, gg) = ascii-Folds c in
      let lo = lower-ascii c h in
      let up = upper-ascii c h in
      (
        ap (std_vn_to_lower ctype) up
            ∙ lower-ascii (ascii_upper c) (ascii_upper-small c h)
            ∙ fg
            ∙ sym lo,
        ap (std_vn_to_upper ctype) lo
            ∙ upper-ascii (ascii_lower c) (ascii_lower-small c h)
            ∙ gf
            ∙ sym up,
        ap (std_vn_to_lower ctype) lo
            ∙ lower-ascii (ascii_lower c) (ascii_lower-small c h)
            ∙ ff
            ∙ sym lo,
        ap (std_vn_to_upper ctype) up
            ∙ upper-ascii (ascii_upper c) (ascii_upper-small c h)
            ∙ gg
            ∙ sym up,
      )

  -- In the C locale, on bytes and on Vietnamese characters, folding to one case and then
  -- to the other is folding to the other, and each fold is idempotent.
  pub std_vn_to_lower-upper :
      (ch : ℕ)
      → IsStdVnChar ch
      → (std_vn_to_lower ctype (std_vn_to_upper ctype ch) ≡ std_vn_to_lower ctype ch)
        × (std_vn_to_upper ctype (std_vn_to_lower ctype ch) ≡ std_vn_to_upper ctype ch)
        × (std_vn_to_lower ctype (std_vn_to_lower ctype ch) ≡ std_vn_to_lower ctype ch)
        × (std_vn_to_upper ctype (std_vn_to_upper ctype ch) ≡ std_vn_to_upper ctype ch)
  std_vn_to_lower-upper ch (inl byte) = byte-Folds ch byte
  std_vn_to_lower-upper ch (inr beyond) =
      subst (Folds (std_vn_to_lower ctype) (std_vn_to_upper ctype)) (again ch beyond) (
        transport_Folds (λ i. 0x10000 + i) lexi_lower lexi_upper (ch - 0x10000) lower-lexi
          upper-lexi (lexi-Folds (ch - 0x10000)))
    where
      again : (n : ℕ) → 0x10000 ≤ n → 0x10000 + (n - 0x10000) ≡ n
      again n h = omega arith
