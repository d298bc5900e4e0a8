-- ===== src/Rulebased/KeyMap.antt =====
-- `KeyMap`, the key lists `k101Keys` and `k102Keys`, and `ParseKeyMap` of rules_data.cc.
pub mod Lookup
use chromiumos_devenv.Common.{
  Bool, List, [], ◌∷◌, Option, none, some, Bytes, if◌then◌else◌, Outcome, returns, fails,
  out_of_range,
}
use chromiumos_devenv.Platform.DomCode.{
  DomCode, code_eq, backquote, backslash, bracket_left, bracket_right, comma, digit_0, digit_1,
  digit_2, digit_3, digit_4, digit_5, digit_6, digit_7, digit_8, digit_9, equal, intl_backslash,
  minus, period, quote, semicolon, slash, space, key_a, key_b, key_c, key_d, key_e, key_f, key_g,
  key_h, key_i, key_j, key_k, key_l, key_m, key_n, key_o, key_p, key_q, key_r, key_s, key_t, key_u,
  key_v, key_w, key_x, key_y, key_z,
}

-- `std::map<DomCode, const char*>`: at most one entry for a code; the order is of no account here.
abbrev pub KeyMap : Type 0
KeyMap = List (DomCode × Bytes)

unfoldable pub find : DomCode → KeyMap → Option Bytes
find d [] = none
find d ((k, v) ∷ m) = if code_eq k d then some v else find d m

-- `key_map[k] = v`
unfoldable pub assign : DomCode → Bytes → KeyMap → KeyMap
assign k v [] = (k, v) ∷ []
assign k v ((j, w) ∷ m) = if code_eq j k then (k, v) ∷ m else (j, w) ∷ assign k v m

abbrev pub k_101_keys : List DomCode
k_101_keys =
    backquote ∷ digit_1 ∷ digit_2 ∷ digit_3 ∷ digit_4 ∷ digit_5 ∷ digit_6 ∷ digit_7 ∷ digit_8
    ∷ digit_9 ∷ digit_0 ∷ minus ∷ equal ∷ key_q ∷ key_w ∷ key_e ∷ key_r ∷ key_t ∷ key_y ∷ key_u
    ∷ key_i ∷ key_o ∷ key_p ∷ bracket_left ∷ bracket_right ∷ backslash ∷ key_a ∷ key_s ∷ key_d
    ∷ key_f ∷ key_g ∷ key_h ∷ key_j ∷ key_k ∷ key_l ∷ semicolon ∷ quote ∷ key_z ∷ key_x ∷ key_c
    ∷ key_v ∷ key_b ∷ key_n ∷ key_m ∷ comma ∷ period ∷ slash ∷ space ∷ []

abbrev pub k_102_keys : List DomCode
k_102_keys =
    backquote ∷ digit_1 ∷ digit_2 ∷ digit_3 ∷ digit_4 ∷ digit_5 ∷ digit_6 ∷ digit_7 ∷ digit_8
    ∷ digit_9 ∷ digit_0 ∷ minus ∷ equal ∷ key_q ∷ key_w ∷ key_e ∷ key_r ∷ key_t ∷ key_y ∷ key_u
    ∷ key_i ∷ key_o ∷ key_p ∷ bracket_left ∷ bracket_right ∷ key_a ∷ key_s ∷ key_d ∷ key_f ∷ key_g
    ∷ key_h ∷ key_j ∷ key_k ∷ key_l ∷ semicolon ∷ quote ∷ backslash ∷ intl_backslash ∷ key_z ∷ key_x
    ∷ key_c ∷ key_v ∷ key_b ∷ key_n ∷ key_m ∷ comma ∷ period ∷ slash ∷ space ∷ []

abbrev pub std_keys : Bool → List DomCode
std_keys is_102 = if is_102 then k_102_keys else k_101_keys

-- The loop of `ParseKeyMap`: `keys` and `raw` are what index `i` has not reached yet. A raw array
-- that is too short is read past its end.
unfoldable pub parse_keys : List DomCode → List Bytes → KeyMap → Outcome KeyMap
parse_keys [] raw m = returns m
parse_keys (k ∷ keys) [] m = fails out_of_range
parse_keys (k ∷ keys) (c ∷ raw) m = parse_keys keys raw (assign k c m)

unfoldable pub parse_key_map : List Bytes → Bool → Outcome KeyMap
unfolding parse_keys
parse_key_map raw is_102 = parse_keys (std_keys is_102) raw []
