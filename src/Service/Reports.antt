-- ===== src/Service/Reports.antt =====
-- What a connection on the shipped table of layouts reports.
use chromiumos_devenv.Common.{
  ◌≡◌, ◌↔◌, refl, ap, ◌∙◌, Bool, true, false, ◌&&◌, [], ◌∷◌, ◌++◌, Option, none, some, Bytes,
  bytes_eq, drop, length, ◌==◌, ==_iff, Bool-cases, Option-cases, inl, inr, returns,
}
use chromiumos_devenv.Platform.Regex.{Re2}
use chromiumos_devenv.Platform.Text.{Conversions}
use chromiumos_devenv.Rulebased.RulesData.{RawDataEntry, find_entry, is_id_supported, is_some}
use chromiumos_devenv.Rulebased.Engine.{Engine, new_engine, reset, activate}
use chromiumos_devenv.Layouts.{raw_data, c_string}
use chromiumos_devenv.Layouts.Checks.{get_by_id-supported}
use chromiumos_devenv.Service.{
  RuleBasedEngine, m17n_prefix, starts_with, get_id_from_ime_spec, connect_to_input_method,
  is_connected,
}
use chromiumos_devenv.Service.Connection.{get_id_from_ime_spec-prefix}

starts_with-append : (p s : Bytes) → starts_with p s ≡ true → s ≡ p ++ drop (length p) s
unfolding starts_with
starts_with-append [] s h = refl
starts_with-append (x ∷ p) [] h = cc
starts_with-append (x ∷ p) (c ∷ s) h =
    both (c == x) (starts_with p s) h (==_iff c x).0 (starts_with-append p s)
  where
    both :
        (a b : Bool)
        → (a && b) ≡ true
        → (a ≡ true → c ≡ x)
        → (b ≡ true → s ≡ p ++ drop (length p) s)
        → ◌≡◌ {A = Bytes} (c ∷ s) (x ∷ (p ++ drop (length p) s))
    both true true q f g = cc (f refl, g refl)
    both true false q f g = cc
    both false b q f g = cc

no_empty_id : is_id_supported raw_data [] ≡ false
unfolding is_id_supported raw_data c_string bytes_eq
no_empty_id = refl

-- A specification that is the prefix with the id of a layout of the table.
abbrev pub Supported : Bytes → Type 0
Supported ime_spec =
    (id : Bytes) × (e : RawDataEntry) × (ime_spec ≡ m17n_prefix ++ id)
    × (find_entry id raw_data ≡ some e)

found :
    (id : Bytes)
    → is_id_supported raw_data id ≡ true
    → (e : RawDataEntry) × (find_entry id raw_data ≡ some e)
unfolding is_id_supported
found id h = elim (Option-cases (find_entry id raw_data)) [
  | inl missing ↦ cc (h, ap is_some missing)
  | inr (e, q) ↦ (e, q)
]

is_id_supported-Supported :
    (ime_spec : Bytes)
    → is_id_supported raw_data (get_id_from_ime_spec ime_spec) ≡ true
    → Supported ime_spec
unfolding get_id_from_ime_spec
is_id_supported-Supported ime_spec h = elim (Bool-cases (starts_with m17n_prefix ime_spec)) [
  | inl starts ↦
      let (e, q) = found (drop (length m17n_prefix) ime_spec) (rw starts at h) in
      (drop (length m17n_prefix) ime_spec, e, starts_with-append m17n_prefix ime_spec starts, q)
  | inr other ↦ cc (rw other at h, no_empty_id)
]

Supported-is_id_supported :
    (ime_spec : Bytes)
    → Supported ime_spec
    → is_id_supported raw_data (get_id_from_ime_spec ime_spec) ≡ true
unfolding is_id_supported
Supported-is_id_supported ime_spec (id, e, eq, q) =
    ap (λ (s : Bytes). is_id_supported raw_data (get_id_from_ime_spec s)) eq
    ∙ ap (is_id_supported raw_data) (get_id_from_ime_spec-prefix id)
    ∙ ap is_some q

module _ (re2 : Re2) (conv : Conversions) where
  activated :
      (id : Bytes)
      → is_id_supported raw_data id ≡ true
      → (e : Engine re2.Regex) × (activate re2 conv raw_data id (new_engine re2.Regex) ≡ returns e)
  unfolding activate
  activated id h = elim (Bool-cases (bytes_eq [] id)) [
    | inl same ↦ (new_engine re2.Regex, rw same refl)
    | inr other ↦
        let (d, er, maps, shape) = get_by_id-supported re2 conv id h in
        (
          record (reset (new_engine re2.Regex)) { current_id = id; current_data = some d },
          rw (other, er) refl,
        )
  ]

  -- Whatever specification comes in, and whatever engine the factory holds, a connection on the table
  -- of layouts returns. What the callback reports is whether the factory is then connected, and that is
  -- so exactly if the specification is `m17n:` with the id of a layout of the table.
  pub connect-reports :
      (ime_spec : Bytes) (old : Option (RuleBasedEngine re2.Regex))
      → (made : Option (RuleBasedEngine re2.Regex)) × (reported : Bool) × (connect_to_input_method
            re2 conv raw_data ime_spec old
          ≡ returns (made, reported))
        × (is_connected made ≡ reported)
        × ((reported ≡ true) ↔ Supported ime_spec)
  unfolding connect_to_input_method is_connected
  connect-reports ime_spec old =
      elim (Bool-cases (is_id_supported raw_data (get_id_from_ime_spec ime_spec))) [
        | inl taken ↦
            let (e, er) = activated (get_id_from_ime_spec ime_spec) taken in
            (
              some (record { engine = e; is_alt_right_key_down = false; bound = true }),
              true,
              rw (taken, er) refl,
              refl,
              ((λ q. is_id_supported-Supported ime_spec taken), (λ q. refl)),
            )
        | inr no' ↦ (
          none,
          false,
          rw no' refl,
          refl,
          ((λ q. cc), (λ q. cc (no', Supported-is_id_supported ime_spec q))),
        )
      ]
