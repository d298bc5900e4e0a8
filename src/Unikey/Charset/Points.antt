-- ===== src/Unikey/Charset/Points.antt =====
-- The code points of the Vietnamese alphabet, and the roots of its names.
use chromiumos_devenv.Common.{
  ℕ, ◌+◌, ◌-◌, ◌%◌, ◌^◌, ◌<◌, ◌≡◌, ◌≢◌, refl, sym, ◌∙◌, Option, Bool, true, not, ◌&&◌, ◌||◌, arith,
  ltb, leb, ◌==◌, if◌then◌else◌, get_elem?,
}
use chromiumos_devenv.Unikey.Charset.{vn_std_char_offset, entry_or, code_point}
use chromiumos_devenv.Unikey.Charset.Tables.{lexi_to_unicode, root_char, lexi_count}
use chromiumos_devenv.Unikey.Charset.Checked.{holds_from, holds_at, entry}

abbrev pub is_ascii_letter : ℕ → Bool
is_ascii_letter c = leb b'A' c && leb c b'Z' || leb b'a' c && leb c b'z'

abbrev is_d_with_stroke : ℕ → Bool
is_d_with_stroke i = i == 42 || i == 43

abbrev roots_ascii : ℕ → Bool
roots_ascii i =
    if is_ascii_letter (entry lexi_to_unicode (entry root_char i))
    then not (is_d_with_stroke i)
    else is_d_with_stroke i

roots_table : holds_from roots_ascii 0 lexi_count ≡ true
unfolding holds_from
roots_table = refl

-- The root of a name is an ASCII letter, except for the two names of d with a stroke (indices 42 and
-- 43), whose root is not.
pub root_char-ascii :
    (i : ℕ)
    → i < lexi_count
    → is_ascii_letter (entry lexi_to_unicode (entry root_char i)) ≡ not (i == 42 || i == 43)
root_char-ascii i h =
    told (is_ascii_letter (entry lexi_to_unicode (entry root_char i))) (is_d_with_stroke i)
      (holds_at roots_ascii 0 lexi_count i roots_table (omega arith) (omega arith))
  where
    told : (a d : Bool) → (if a then not d else d) ≡ true → a ≡ not d
    told a d q = ground arith

unlike : ℕ → ℕ → Bool
unlike i j = i == j || not (entry lexi_to_unicode i == entry lexi_to_unicode j)

unlike_table : holds_from (λ i. holds_from (unlike i) 0 lexi_count) 0 lexi_count ≡ true
unfolding holds_from unlike
unlike_table = refl

code_point-lexi :
    (i : ℕ) → i < lexi_count → code_point (vn_std_char_offset + i) ≡ entry lexi_to_unicode i
unfolding code_point
code_point-lexi i h = reached (entry_or 0) i h
  where
    reached :
        (f : Option ℕ → ℕ) (k : ℕ)
        → k < 186
        → (if leb 0x10000 (0x10000 + k)
            then (if ltb (0x10000 + k - 0x10000) (2 ^ 31) && ltb (0x10000 + k - 0x10000) 186
                then f (get_elem? lexi_to_unicode (0x10000 + k - 0x10000))
                else 0xFFFD)
            else (0x10000 + k) % 256)
          ≡ f (get_elem? lexi_to_unicode k)
    reached f k q = rw (cancel k, at_least k, small k q) refl
      where
        cancel : (n : ℕ) → 0x10000 + n - 0x10000 ≡ n
        cancel n = omega arith

        at_least : (n : ℕ) → leb 0x10000 (0x10000 + n) ≡ true
        at_least n = ground arith

        small : (n : ℕ) → n < 186 → (ltb n (2 ^ 31) && ltb n 186) ≡ true
        small n l = ground arith

-- No two names of the alphabet have the same code point: what `putChar` writes tells the name.
pub code_point-injective :
    (i j : ℕ)
    → i < lexi_count
    → j < lexi_count
    → i ≢ j
    → code_point (vn_std_char_offset + i) ≢ code_point (vn_std_char_offset + j)
unfolding unlike
code_point-injective i j hi hj other e = other (
    told (entry lexi_to_unicode i) (entry lexi_to_unicode j)
      (holds_at (unlike i) 0 lexi_count j
        (holds_at (λ k. holds_from (unlike k) 0 lexi_count) 0 lexi_count i unlike_table
          (omega arith) (omega arith))
        (omega arith) (omega arith))
      (sym (code_point-lexi i hi) ∙ e ∙ code_point-lexi j hj))
  where
    told : (a b : ℕ) → (i == j || not (a == b)) ≡ true → a ≡ b → i ≡ j
    told a b q same = ground arith
