-- ===== src/Platform/DomCode.antt =====
-- `mojom::DomCode`: the enumerators that the sources name, and `other_code n` for those they do not.
-- The enum is generated from a .mojom file outside the repository. Its numeric values are a parameter
-- where the code computes with them (`Values`).
use chromiumos_devenv.Common.{
  ℕ, ◌+◌, ◌-◌, ◌≡◌, refl, ap, sym, ◌∙◌, ◌↔◌, Bool, true, List, [], ◌∷◌, none, some, arith, ◌==◌,
  ==_iff, ltb, if◌then◌else◌, get_elem?,
}

pub data DomCode : Type 0 where
  key_a key_b key_c key_d key_e key_f key_g key_h key_i key_j key_k key_l key_m key_n key_o :
      DomCode
  key_p key_q key_r key_s key_t key_u key_v key_w key_x key_y key_z digit_0 digit_1 digit_2 :
      DomCode
  digit_3 digit_4 digit_5 digit_6 digit_7 digit_8 digit_9 backquote minus equal bracket_left :
      DomCode
  bracket_right backslash semicolon quote comma period slash space intl_backslash backspace :
      DomCode
  alt_left alt_right shift_left shift_right control_left control_right caps_lock : DomCode
  other_code : ℕ → DomCode

abbrev pub letters : List DomCode
letters =
    key_a ∷ key_b ∷ key_c ∷ key_d ∷ key_e ∷ key_f ∷ key_g ∷ key_h ∷ key_i ∷ key_j ∷ key_k ∷ key_l
    ∷ key_m ∷ key_n ∷ key_o ∷ key_p ∷ key_q ∷ key_r ∷ key_s ∷ key_t ∷ key_u ∷ key_v ∷ key_w ∷ key_x
    ∷ key_y ∷ key_z ∷ []

abbrev named_codes : List DomCode
named_codes =
    key_a ∷ key_b ∷ key_c ∷ key_d ∷ key_e ∷ key_f ∷ key_g ∷ key_h ∷ key_i ∷ key_j ∷ key_k ∷ key_l
    ∷ key_m ∷ key_n ∷ key_o ∷ key_p ∷ key_q ∷ key_r ∷ key_s ∷ key_t ∷ key_u ∷ key_v ∷ key_w ∷ key_x
    ∷ key_y ∷ key_z ∷ digit_0 ∷ digit_1 ∷ digit_2 ∷ digit_3 ∷ digit_4 ∷ digit_5 ∷ digit_6 ∷ digit_7
    ∷ digit_8 ∷ digit_9 ∷ backquote ∷ minus ∷ equal ∷ bracket_left ∷ bracket_right ∷ backslash
    ∷ semicolon ∷ quote ∷ comma ∷ period ∷ slash ∷ space ∷ intl_backslash ∷ backspace ∷ alt_left
    ∷ alt_right ∷ shift_left ∷ shift_right ∷ control_left ∷ control_right ∷ caps_lock ∷ []

position : DomCode → ℕ
position key_a = 0
position key_b = 1
position key_c = 2
position key_d = 3
position key_e = 4
position key_f = 5
position key_g = 6
position key_h = 7
position key_i = 8
position key_j = 9
position key_k = 10
position key_l = 11
position key_m = 12
position key_n = 13
position key_o = 14
position key_p = 15
position key_q = 16
position key_r = 17
position key_s = 18
position key_t = 19
position key_u = 20
position key_v = 21
position key_w = 22
position key_x = 23
position key_y = 24
position key_z = 25
position digit_0 = 26
position digit_1 = 27
position digit_2 = 28
position digit_3 = 29
position digit_4 = 30
position digit_5 = 31
position digit_6 = 32
position digit_7 = 33
position digit_8 = 34
position digit_9 = 35
position backquote = 36
position minus = 37
position equal = 38
position bracket_left = 39
position bracket_right = 40
position backslash = 41
position semicolon = 42
position quote = 43
position comma = 44
position period = 45
position slash = 46
position space = 47
position intl_backslash = 48
position backspace = 49
position alt_left = 50
position alt_right = 51
position shift_left = 52
position shift_right = 53
position control_left = 54
position control_right = 55
position caps_lock = 56
position (other_code n) = 57 + n

at_position : ℕ → DomCode
at_position n =
    if ltb n 57
    then elim (get_elem? named_codes n) [ some c ↦ c | none ↦ other_code n ]
    else other_code (n - 57)

at_position-other : (n : ℕ) → at_position (57 + n) ≡ other_code n
unfolding at_position
at_position-other n = ground arith

at_position-position : (c : DomCode) → at_position (position c) ≡ c
unfolding at_position position
at_position-position (other_code n) = at_position-other n
at_position-position key_a = refl
at_position-position _ = refl

-- `==` of two codes.
unfoldable pub code_eq : DomCode → DomCode → Bool
unfolding position
code_eq c d = position c == position d

pub code_eq_iff : (c d : DomCode) → (code_eq c d ≡ true) ↔ (c ≡ d)
unfolding code_eq
code_eq_iff c d = (
  λ h.
      sym (at_position-position c)
      ∙ ap at_position ((==_iff (position c) (position d)).0 h)
      ∙ at_position-position d,
  λ e. (==_iff (position c) (position d)).1 (ap position e),
)
