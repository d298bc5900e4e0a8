-- ===== src/Layouts/Patterns.antt =====
-- The rules' patterns of the supported layouts are written as trees.
use chromiumos_devenv.Common.{
  ℕ, ◌≡◌, refl, sym, ap, ◌∙◌, Bool, true, false, ◌&&◌, ◌||◌, List, [], ◌∷◌, Option, none, some,
  Bytes, bytes_eq, bytes_eq_iff, codes, ◌==◌, ==_iff, Bool-cases, inl, inr,
}
use chromiumos_devenv.Platform.Text.{Units, Conversions}
use chromiumos_devenv.Unikey.Utf8.{encode_utf8, decode_utf8}
use chromiumos_devenv.Unikey.Utf16.{codepoints_to_u16, is_scalar, AllScalar}
use chromiumos_devenv.Rulebased.Prefix.Grammar.{print_all, is_literal, is_operator, is_member}
use chromiumos_devenv.Rulebased.Regexp.{Re, tokens, is_plain}
use chromiumos_devenv.Rulebased.Regexp.Reader.{read_pattern}
use chromiumos_devenv.Rulebased.Regexp.Predicted.{Written}
use chromiumos_devenv.Rulebased.Rules.Groups.{Pair, flat, count_of}
use chromiumos_devenv.Rulebased.RulesData.{RawDataEntry, find_entry}
use chromiumos_devenv.Layouts.{raw_data, c_string}

abbrev rules_of : List Bytes → List Pair
rules_of [] = []
rules_of (from ∷ []) = []
rules_of (from ∷ to ∷ raw) = (from, to) ∷ rules_of raw

all_scalar : List ℕ → Bool
all_scalar [] = true
all_scalar (cp ∷ cps) = is_scalar cp && all_scalar cps

-- A byte string is the UTF-8 of the code points that it decodes to, scalar values all.
is_utf8 : Bytes → Bool
unfolding all_scalar
is_utf8 b = bytes_eq (encode_utf8 (decode_utf8 b)) b && all_scalar (decode_utf8 b)

abbrev reads_back : Units → Option Re → Bool
reads_back us none = false
reads_back us (some r) = bytes_eq us (print_all (tokens r))

abbrev units : Bytes → Units
units b = codepoints_to_u16 (decode_utf8 b)

-- Each pattern is UTF-8 and is written as the tree that is read from it.
all_read : List Pair → Bool
unfolding is_utf8
all_read [] = true
all_read ((from, to) ∷ ps) =
    is_utf8 from && reads_back (units from) (read_pattern (units from)) && all_read ps

abbrev same_list : List Bytes → List Bytes → Bool
same_list [] [] = true
same_list (x ∷ xs) (y ∷ ys) = bytes_eq x y && same_list xs ys
same_list _ _ = false

entry_read : RawDataEntry → Bool
unfolding all_read
entry_read e =
    same_list e.transforms (flat (rules_of e.transforms))
    && e.transforms_count == count_of (rules_of e.transforms)
    && all_read (rules_of e.transforms)

-- The layouts with an anchor or a `.` outside brackets in some pattern.
abbrev pub left_out : List Bytes
left_out =
    codes "bn_phone"
    ∷ codes "gu_phone"
    ∷ codes "kn_phone"
    ∷ codes "ta_phone"
    ∷ codes "vi_telex"
    ∷ codes "vi_vni"
    ∷ []

abbrev pub is_among : Bytes → List Bytes → Bool
is_among id [] = false
is_among id (x ∷ xs) = bytes_eq id x || is_among id xs

-- A test that all entries of a table pass.
all_pass : (Bytes → RawDataEntry → Bool) → List (Bytes × RawDataEntry) → Bool
all_pass q [] = true
all_pass q ((id, e) ∷ es) = q id e && all_pass q es

abbrev is_read : Bytes → RawDataEntry → Bool
is_read id e = is_among id left_out || entry_read e

raw_data_read : all_pass is_read raw_data ≡ true
unfolding all_pass entry_read raw_data c_string bytes_eq read_pattern decode_utf8 codepoints_to_u16
    is_literal is_operator is_member is_plain
raw_data_read = refl

find_entry-pass :
    (q : Bytes → RawDataEntry → Bool) (es : List (Bytes × RawDataEntry)) (id : Bytes)
    (e : RawDataEntry)
    → all_pass q es ≡ true
    → find_entry id es ≡ some e
    → q id e ≡ true
unfolding all_pass find_entry
find_entry-pass q [] id e h f = cc
find_entry-pass q ((k, d) ∷ es) id e h f = elim (Bool-cases (bytes_eq k id)) [
  | inl same ↦
      ap (λ (x : Bytes). q x e) (sym ((bytes_eq_iff k id).0 same))
      ∙ ap (q k) (sym (found (rw same at f)))
      ∙ first (q k d) (all_pass q es) h
  | inr other ↦ find_entry-pass q es id e (later (q k d) (all_pass q es) h) (rw other at f)
]
  where
    found : ◌≡◌ {A = Option RawDataEntry} (some d) (some e) → d ≡ e
    found x = cc x

    first : (a b : Bool) → (a && b) ≡ true → a ≡ true
    first true b x = refl
    first false b x = cc

    later : (a b : Bool) → (a && b) ≡ true → b ≡ true
    later true b x = x
    later false b x = cc

same_list-eq : (xs ys : List Bytes) → same_list xs ys ≡ true → xs ≡ ys
same_list-eq [] [] h = refl
same_list-eq [] (y ∷ ys) h = cc
same_list-eq (x ∷ xs) [] h = cc
same_list-eq (x ∷ xs) (y ∷ ys) h =
    same (bytes_eq x y) (same_list xs ys) h (bytes_eq_iff x y).0 (same_list-eq xs ys)
  where
    same :
        (a b : Bool)
        → (a && b) ≡ true
        → (a ≡ true → x ≡ y)
        → (b ≡ true → xs ≡ ys)
        → ◌≡◌ {A = List Bytes} (x ∷ xs) (y ∷ ys)
    same true true q f g = cc (f refl, g refl)
    same true false q f g = cc
    same false b q f g = cc

-- What //base documents of `UTF8ToUTF16` on the UTF-8 of Unicode scalar values.
pub record Utf16Law (conv : Conversions) : Type 0 where
  pub utf16_of :
      (cps : List ℕ) → AllScalar cps → conv.to_utf16 (encode_utf8 cps) ≡ codepoints_to_u16 cps

all_scalar-AllScalar : (cps : List ℕ) → all_scalar cps ≡ true → AllScalar cps
unfolding all_scalar
all_scalar-AllScalar [] h = tt
all_scalar-AllScalar (cp ∷ cps) h =
    both (is_scalar cp) (all_scalar cps) h (all_scalar-AllScalar cps)
  where
    both : (a b : Bool) → (a && b) ≡ true → (b ≡ true → AllScalar cps) → (a ≡ true) × AllScalar cps
    both true true q f = (refl, f refl)
    both true false q f = cc
    both false b q f = cc

module _ (conv : Conversions) (law : Utf16Law conv) where
  to_utf16-units : (b : Bytes) → is_utf8 b ≡ true → conv.to_utf16 b ≡ units b
  unfolding is_utf8
  to_utf16-units b h =
      both (bytes_eq (encode_utf8 (decode_utf8 b)) b) (all_scalar (decode_utf8 b)) h
        (bytes_eq_iff (encode_utf8 (decode_utf8 b)) b).0 (all_scalar-AllScalar (decode_utf8 b))
    where
      both :
          (x y : Bool)
          → (x && y) ≡ true
          → (x ≡ true → encode_utf8 (decode_utf8 b) ≡ b)
          → (y ≡ true → AllScalar (decode_utf8 b))
          → conv.to_utf16 b ≡ units b
      both true true q f g = ap conv.to_utf16 (sym (f refl)) ∙ law.utf16_of (decode_utf8 b) (g refl)
      both true false q f g = cc
      both false y q f g = cc

  all_read-Written : (ps : List Pair) → all_read ps ≡ true → (rs : List Re) × Written conv ps rs
  unfolding all_read
  all_read-Written [] h = ([], tt)
  all_read-Written ((from, to) ∷ ps) h =
      three (is_utf8 from) (read_pattern (units from)) (all_read ps) h (to_utf16-units from)
        (all_read-Written ps)
    where
      three :
          (a : Bool) (o : Option Re) (c : Bool)
          → (a && reads_back (units from) o && c) ≡ true
          → (a ≡ true → conv.to_utf16 from ≡ units from)
          → (c ≡ true → (rs : List Re) × Written conv ps rs)
          → (rs : List Re) × Written conv ((from, to) ∷ ps) rs
      three true (some r) c q f g =
          elim (Bool-cases (bytes_eq (units from) (print_all (tokens r)))) [
            | inl same ↦
                let (rs, w) = g (rw same at q) in
                (r ∷ rs, (f refl ∙ (bytes_eq_iff (units from) (print_all (tokens r))).0 same, w))
            | inr other ↦ cc (rw other at q)
          ]
      three true none c q f g = cc
      three false o c q f g = cc

  -- Let //base convert UTF-8 to UTF-16 as documented. In every supported layout but six, in which a
  -- pattern has an anchor or a `.` outside brackets, the transforms are rules, as many as are counted,
  -- and each pattern is a tree of characters, bracket expressions, groups, alternatives and
  -- repetitions, as it is written.
  pub supported-Written :
      (id : Bytes) (e : RawDataEntry)
      → find_entry id raw_data ≡ some e
      → is_among id left_out ≡ false
      → (ps : List Pair) × (rs : List Re) × (e.transforms ≡ flat ps)
        × (e.transforms_count ≡ count_of ps)
        × Written conv ps rs
  unfolding entry_read
  supported-Written id e found apart =
      taken (same_list e.transforms (flat ps)) (e.transforms_count == count_of ps) (all_read ps)
        (rw apart at (find_entry-pass is_read raw_data id e raw_data_read found))
        (same_list-eq e.transforms (flat ps)) (==_iff e.transforms_count (count_of ps)).0
        (all_read-Written ps)
    where
      ps : List Pair
      ps = rules_of e.transforms

      taken :
          (a b c : Bool)
          → (a && b && c) ≡ true
          → (a ≡ true → e.transforms ≡ flat ps)
          → (b ≡ true → e.transforms_count ≡ count_of ps)
          → (c ≡ true → (rs : List Re) × Written conv ps rs)
          → (qs : List Pair) × (rs : List Re) × (e.transforms ≡ flat qs)
            × (e.transforms_count ≡ count_of qs)
            × Written conv qs rs
      taken true true true q f g h = let (rs, w) = h refl in (ps, rs, f refl, g refl, w)
      taken true true false q f g h = cc
      taken true false c q f g h = cc
      taken false b c q f g h = cc
