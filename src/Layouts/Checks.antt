-- ===== src/Layouts/Checks.antt =====
-- What holds of every supported layout.
use chromiumos_devenv.Common.{
  ℕ, zero, suc, get_elem?, ◌≡◌, refl, ap, Bool, true, false, not, ◌&&◌, List, [], ◌∷◌, Option, some,
  Bytes, bytes_eq, bytes_eq_iff, arith, length, returns, Option-cases, inl, inr,
}
use chromiumos_devenv.Platform.Regex.{Re2}
use chromiumos_devenv.Platform.Text.{Conversions}
use chromiumos_devenv.Rulebased.RulesData.{
  RawDataEntry, RulesData, key_map_count, find_entry, is_some, is_id_supported, get_by_id,
}
use chromiumos_devenv.Rulebased.RulesData.Building.{is_complete, create-returns, SameShape}
use chromiumos_devenv.Layouts.{raw_data, c_string}

all_complete : List (Bytes × RawDataEntry) → Bool
all_complete [] = true
all_complete ((id, e) ∷ es) = is_complete e && all_complete es

raw_data_complete : all_complete raw_data ≡ true
unfolding all_complete is_complete raw_data
raw_data_complete = refl

find_entry_complete :
    (es : List (Bytes × RawDataEntry)) (id : Bytes) (e : RawDataEntry)
    → all_complete es ≡ true
    → find_entry id es ≡ some e
    → is_complete e ≡ true
unfolding all_complete find_entry
find_entry_complete [] id e h f = cc
find_entry_complete ((k, d) ∷ es) id e h f = ground (arith, find_entry_complete es id e)

absent : Bytes → List (Bytes × RawDataEntry) → Bool
absent id [] = true
absent id ((k, e) ∷ es) = not (bytes_eq k id) && absent id es

-- No two layouts share an id, so the map that is initialised from the table drops none.
distinct_ids : List (Bytes × RawDataEntry) → Bool
distinct_ids [] = true
distinct_ids ((k, e) ∷ es) = absent k es && distinct_ids es

-- Every entry of the table of layouts is complete.
pub supported-is_complete :
    (id : Bytes) (e : RawDataEntry) → find_entry id raw_data ≡ some e → is_complete e ≡ true
supported-is_complete id e = find_entry_complete raw_data id e raw_data_complete

-- For every supported id, `GetById` returns a `RulesData`: no array of its layout is read past its
-- end. It has eight key maps, and a merged regexp exactly if it has a prefix regexp.
pub get_by_id-supported :
    (re2 : Re2) (conv : Conversions) (id : Bytes)
    → is_id_supported raw_data id ≡ true
    → (d : RulesData re2.Regex) × (get_by_id re2 conv raw_data id ≡ returns (some d))
      × (length d.key_maps ≡ key_map_count)
      × SameShape d.transform_re_merged d.prefix_re
unfolding get_by_id is_id_supported
get_by_id-supported re2 conv id h = elim (Option-cases (find_entry id raw_data)) [
  | inl missing ↦ cc (h, ap is_some missing)
  | inr (e, found) ↦
      let (d, made, len, shape) = create-returns re2 conv e (supported-is_complete id e found) in
      (d, rw (found, made) refl, len, shape)
]

raw_data-distinct : distinct_ids raw_data ≡ true
unfolding distinct_ids absent raw_data bytes_eq c_string
raw_data-distinct = refl

listed-absent :
    (es : List (Bytes × RawDataEntry)) (i : ℕ) (id id' : Bytes) (e : RawDataEntry)
    → absent id es ≡ true
    → get_elem? es i ≡ some (id', e)
    → bytes_eq id id' ≡ false
unfolding absent
listed-absent [] i id id' e h g = cc
listed-absent ((k, x) ∷ es) zero id id' e h g =
    ground (
      arith,
      bytes_eq_iff id id',
      bytes_eq_iff k id,
      ap (λ (o : Option (Bytes × RawDataEntry)). o) g,
    )
listed-absent ((k, x) ∷ es) (suc i) id id' e h g = listed-absent es i id id' e (ground arith) g

find-listed :
    (es : List (Bytes × RawDataEntry)) (i : ℕ) (id : Bytes) (e : RawDataEntry)
    → distinct_ids es ≡ true
    → get_elem? es i ≡ some (id, e)
    → find_entry id es ≡ some e
unfolding distinct_ids find_entry
find-listed [] i id e h g = cc
find-listed ((k, x) ∷ es) zero id e h g = ground (arith, bytes_eq_iff k id)
find-listed ((k, x) ∷ es) (suc i) id e h g =
    ground (arith, listed-absent es i k id e, find-listed es i id e)

-- Every layout of the table is found under its own id: none is hidden by another with the same id.
pub raw_data-listed :
    (i : ℕ) (id : Bytes) (e : RawDataEntry)
    → get_elem? raw_data i ≡ some (id, e)
    → find_entry id raw_data ≡ some e
raw_data-listed i id e = find-listed raw_data i id e raw_data-distinct
