-- ===== src/Rulebased/KeyMap/Lookup.antt =====
-- What `find` returns in a parsed key map: the raw entry with the key's index.
use chromiumos_devenv.Common.{
  ℕ, zero, suc, ◌+◌, ◌≤◌, ◌≡◌, refl, sym, ap, ◌∙◌, subst, inl, inr, ◌++◌, append_assoc,
  length-append, Bool, true, false, not, ◌&&◌, List, [], ◌∷◌, Option, none, some, Bytes, arith,
  if◌then◌else◌, returns, length, get_elem?, Bool-cases,
}
use chromiumos_devenv.Platform.DomCode.{DomCode, code_eq, code_eq_iff}
use chromiumos_devenv.Rulebased.KeyMap.{KeyMap, find, assign, std_keys, parse_keys, parse_key_map}

find-assign :
    (d k : DomCode) (v : Bytes) (m : KeyMap)
    → find d (assign k v m) ≡ (if code_eq k d then some v else find d m)
unfolding find assign
find-assign d k v [] = refl
find-assign d k v ((j, w) ∷ m) =
    ground (arith, find-assign d k v m, code_eq_iff j k, code_eq_iff k d, code_eq_iff j d)

-- The index of a code in a list of keys.
unfoldable pub index_from : ℕ → DomCode → List DomCode → Option ℕ
index_from i d [] = none
index_from i d (k ∷ keys) = if code_eq k d then some i else index_from (i + 1) d keys

abbrev pub entry_at : List Bytes → Option ℕ → Option Bytes
entry_at raw none = none
entry_at raw (some i) = get_elem? raw i

-- The raw entry that stands at the position of a code, and `other` for a code that is no key.
entry_for : DomCode → List DomCode → List Bytes → Option Bytes → Option Bytes
entry_for d [] raw other = other
entry_for d (k ∷ keys) [] other = other
entry_for d (k ∷ keys) (c ∷ raw) other = if code_eq k d then some c else entry_for d keys raw other

absent : DomCode → List DomCode → Bool
absent d [] = true
absent d (k ∷ keys) = not (code_eq k d) && absent d keys

distinct : List DomCode → Bool
distinct [] = true
distinct (k ∷ keys) = absent k keys && distinct keys

entry_for-absent :
    (d : DomCode) (keys : List DomCode) (raw : List Bytes) (other : Option Bytes)
    → absent d keys ≡ true
    → entry_for d keys raw other ≡ other
unfolding entry_for absent
entry_for-absent d [] raw other h = refl
entry_for-absent d (k ∷ keys) [] other h = refl
entry_for-absent d (k ∷ keys) (c ∷ raw) other h = ground (arith, entry_for-absent d keys raw other)

find-parse_keys :
    (d : DomCode) (keys : List DomCode) (raw : List Bytes) (m m' : KeyMap)
    → distinct keys ≡ true
    → parse_keys keys raw m ≡ returns m'
    → find d m' ≡ entry_for d keys raw (find d m)
unfolding parse_keys entry_for distinct absent
find-parse_keys d [] raw m m' h e = ground arith
find-parse_keys d (k ∷ keys) [] m m' h e = cc
find-parse_keys d (k ∷ keys) (c ∷ raw) m m' h e = elim (Bool-cases (code_eq k d)) [
  | inl same ↦ rw same (
      find-parse_keys d keys raw (assign k c m) m' (ground arith) e
      ∙ ap (entry_for d keys raw) (find-assign d k c m ∙ rw same refl)
      ∙ entry_for-absent d keys raw (some c)
          (subst (λ x. absent x keys ≡ true) ((code_eq_iff k d).0 same) (ground arith)))
  | inr other ↦ rw other (
      find-parse_keys d keys raw (assign k c m) m' (ground arith) e
      ∙ ap (entry_for d keys raw) (find-assign d k c m ∙ rw other refl))
]

get_elem?-append :
    (before : List Bytes) (c : Bytes) (raw : List Bytes) (i : ℕ)
    → length before ≡ i
    → get_elem? (before ++ c ∷ raw) i ≡ some c
get_elem?-append [] c raw zero e = refl
get_elem?-append [] c raw (suc i) e = absurd (omega arith)
get_elem?-append (x ∷ before) c raw zero e = absurd (omega arith)
get_elem?-append (x ∷ before) c raw (suc i) e = get_elem?-append before c raw i (omega arith)

entry_for-index :
    (i : ℕ) (d : DomCode) (keys : List DomCode) (before raw : List Bytes)
    → length before ≡ i
    → length keys ≤ length raw
    → entry_for d keys raw none ≡ entry_at (before ++ raw) (index_from i d keys)
unfolding entry_for index_from
entry_for-index i d [] before raw e h = refl
entry_for-index i d (k ∷ keys) before [] e h = absurd (omega arith)
entry_for-index i d (k ∷ keys) before (c ∷ raw) e h = elim (Bool-cases (code_eq k d)) [
  | inl same ↦ rw same (sym (get_elem?-append before c raw i e))
  | inr other ↦ rw other (
      entry_for-index (i + 1) d keys (before ++ c ∷ []) raw
        (omega (arith, length-append before (c ∷ []))) (omega arith)
      ∙ ap (λ l. entry_at l (index_from (i + 1) d keys)) (append_assoc before (c ∷ []) raw))
]

std_keys-distinct : (is_102 : Bool) → distinct (std_keys is_102) ≡ true
unfolding distinct absent code_eq
std_keys-distinct true = refl
std_keys-distinct false = refl

parse_keys-returns :
    (keys : List DomCode) (raw : List Bytes) (m : KeyMap)
    → length keys ≤ length raw
    → (m' : KeyMap) × (parse_keys keys raw m ≡ returns m')
unfolding parse_keys
parse_keys-returns [] raw m h = (m, refl)
parse_keys-returns (k ∷ keys) [] m h = absurd (omega arith)
parse_keys-returns (k ∷ keys) (c ∷ raw) m h =
    parse_keys-returns keys raw (assign k c m) (omega arith)

-- A raw array with an entry for each key of the keyboard is parsed without reading past its end,
-- and the key map then holds, for each code, the raw entry at the code's position in the list of
-- keys, and nothing for a code that is not in the list.
pub parse_key_map-find :
    (raw : List Bytes) (is_102 : Bool)
    → length (std_keys is_102) ≤ length raw
    → (m : KeyMap) × (parse_key_map raw is_102 ≡ returns m)
      × ((d : DomCode) → find d m ≡ entry_at raw (index_from 0 d (std_keys is_102)))
unfolding parse_key_map find
parse_key_map-find raw is_102 h =
    let (m, e) = parse_keys-returns (std_keys is_102) raw [] h in
    (
      m,
      e,
      λ d.
          find-parse_keys d (std_keys is_102) raw [] m (std_keys-distinct is_102) e
          ∙ entry_for-index 0 d (std_keys is_102) [] raw refl h,
    )
