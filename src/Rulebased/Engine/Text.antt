-- ===== src/Rulebased/Engine/Text.antt =====
-- What becomes of the text when a key of a layout with transforms is typed, and the change of layout.
use chromiumos_devenv.Common.{
  ℕ, ◌≡◌, ◌≢◌, refl, sym, ap, ◌∙◌, Bool, true, false, List, [], ◌++◌, append-nil, Option, none,
  some, Bytes, arith, if◌then◌else◌, Bool-cases, inl, inr, bytes_eq, bytes_eq_iff, Outcome, returns,
  ◌>>=◌, >>=-eq-returns,
}
use chromiumos_devenv.Platform.DomCode.{DomCode}
use chromiumos_devenv.Platform.Regex.{Re2}
use chromiumos_devenv.Platform.Text.{Conversions}
use chromiumos_devenv.Rulebased.Rules.Groups.{Pair, flat, count_of}
use chromiumos_devenv.Rulebased.RulesData.{
  RawDataEntry, RulesData, create, find_entry, is_id_supported, get_by_id, is_some,
}
use chromiumos_devenv.Rulebased.RulesData.Building.{is_complete, CountsGroups, create-IsWellFormed}
use chromiumos_devenv.Rulebased.Engine.{
  ProcessKeyResult, Engine, new_engine, clear_history, reset, fall_back, process_key, activate,
  change_state, match_key, update_history, may_go_on, finish_key, transform_key,
}
use chromiumos_devenv.Rulebased.Engine.Safety.{Inv}

module _ (re2 : Re2) (d : RulesData re2.Regex) where
  finish_key-text :
      (e : Engine re2.Regex) (go_on : Bool)
      → (finish_key re2 d e go_on).0.commit_text ++ (finish_key re2 d e go_on).0.composition_text
        ≡ e.context
  unfolding finish_key
  finish_key-text e true = refl
  finish_key-text e false = append-nil e.context

  moved-context :
      (e : Engine re2.Regex) (o : Option Bytes) (key_char : Bytes)
      → (change_state o key_char (update_history re2 d e key_char)).context
        ≡ (change_state o key_char e).context
  unfolding change_state update_history
  moved-context e o key_char = ground arith

  -- When a key of a layout with transforms returns, the committed and the composed text together are
  -- the result of the transform, if a rule matched, and otherwise the old composition with the key's
  -- text behind it.
  pub transform_key-text :
      (e e' : Engine re2.Regex) (key_char : Bytes) (matched : Option Bytes) (res : ProcessKeyResult)
      → match_key re2 d e key_char ≡ returns matched
      → transform_key re2 d e key_char ≡ returns (res, e')
      → res.commit_text ++ res.composition_text
        ≡ elim matched [ some composition ↦ composition | none ↦ e.context ++ key_char ]
  transform_key-text e e' key_char matched res em h =
      let e1 = change_state matched key_char (update_history re2 d e key_char) in
      let (go_on, eg, done) =
        >>=-eq-returns (may_go_on re2 d e1) (λ b. returns (finish_key re2 d e1 b))
          (sym (steps e key_char matched em) ∙ h) in
      ap (λ (r : Outcome (ProcessKeyResult × Engine re2.Regex)). text_of r) (sym done)
      ∙ finish_key-text e1 go_on
      ∙ moved-context e matched key_char
      ∙ changed matched e key_char
    where
      text_of : Outcome (ProcessKeyResult × Engine re2.Regex) → Bytes
      text_of (returns r) = r.0.commit_text ++ r.0.composition_text
      text_of _ = []

      steps :
          (x : Engine re2.Regex) (c : Bytes) (o : Option Bytes)
          → match_key re2 d x c ≡ returns o
          → transform_key re2 d x c ≡ (
              may_go_on re2 d (change_state o c (update_history re2 d x c)) >>= λ b.
              returns (finish_key re2 d (change_state o c (update_history re2 d x c)) b))
      steps x c o eo =
          unfold transform_key in
          ap
            (λ m. m >>= λ o'.
              may_go_on re2 d (change_state o' c (update_history re2 d x c)) >>= λ b.
              returns (finish_key re2 d (change_state o' c (update_history re2 d x c)) b))
            eo

      changed :
          (o : Option Bytes) (x : Engine re2.Regex) (c : Bytes)
          → (change_state o c x).context
            ≡ elim o [ some composition ↦ composition | none ↦ x.context ++ c ]
      changed (some t) x c = unfold change_state in refl
      changed none x c = unfold change_state in refl

module _ (re2 : Re2) (conv : Conversions) where
  activate-get_by_id :
      (raw_data : List (Bytes × RawDataEntry)) (id : Bytes) (e : Engine re2.Regex)
      → e.current_id ≢ id
      → activate re2 conv raw_data id e ≡ (
          get_by_id re2 conv raw_data id >>= λ made.
          returns (record (reset e) { current_id = id; current_data = made }))
  unfolding activate
  activate-get_by_id raw_data id e h =
      ap
        (λ b.
          if b
          then returns e
          else (get_by_id re2 conv raw_data id >>= λ made.
              returns (record (reset e) { current_id = id; current_data = made })))
        differ
    where
      differ : bytes_eq e.current_id id ≡ false
      differ = elim (Bool-cases (bytes_eq e.current_id id)) [
        | inl same ↦ absurd (h ((bytes_eq_iff e.current_id id).0 same))
        | inr other ↦ other
      ]

  -- Activating another layout that the raw data has, complete and with transforms that RE2 counts,
  -- returns: the engine then holds the layout that `Create` makes of its entry, under the new id,
  -- with nothing composed, and satisfies its invariant, whatever state it was in.
  pub activate-supported :
      (raw_data : List (Bytes × RawDataEntry)) (id : Bytes) (e : Engine re2.Regex)
      (entry : RawDataEntry) (ps : List Pair)
      → e.current_id ≢ id
      → find_entry id raw_data ≡ some entry
      → is_complete entry ≡ true
      → entry.transforms ≡ flat ps
      → entry.transforms_count ≡ count_of ps
      → CountsGroups re2 conv ps
      → (e' : Engine re2.Regex) × (d : RulesData re2.Regex) × (activate re2 conv raw_data id e
          ≡ returns e')
        × (create re2 conv entry ≡ returns d)
        × (e'.current_data ≡ some d)
        × (e'.current_id ≡ id)
        × (e'.context ≡ [])
        × Inv re2 e'
  unfolding get_by_id reset
  activate-supported raw_data id e entry ps other found complete et ec counted =
      let (d, made, well) = create-IsWellFormed re2 conv entry ps complete et ec counted in
      (
        record (reset e) { current_id = id; current_data = some d },
        d,
        activate-get_by_id raw_data id e other ∙ rw (found, made) refl,
        made,
        refl,
        refl,
        refl,
        record { data_ok = well; in_range = tt; history_in_range = tt; idle = λ n. refl },
      )

  -- Whatever an engine composes, after activating another id, which is not supported, it is a new
  -- engine with that id and no layout, and every key is left to the system, commits nothing and
  -- changes nothing.
  pub activate-unsupported :
      (raw_data : List (Bytes × RawDataEntry)) (id : Bytes) (e : Engine re2.Regex) (code : DomCode)
      (modifiers : ℕ)
      → e.current_id ≢ id
      → is_id_supported raw_data id ≡ false
      → let e' : Engine re2.Regex = record (new_engine re2.Regex) { current_id = id } in
        (activate re2 conv raw_data id e ≡ returns e')
        × (process_key re2 conv e' code modifiers
            ≡ returns (record { key_handled = false; commit_text = []; composition_text = [] }, e'))
  unfolding get_by_id is_id_supported reset clear_history
  activate-unsupported raw_data id e code modifiers other h = (
    activate-get_by_id raw_data id e other ∙ rw (missing (find_entry id raw_data) h) refl,
    (unfold process_key fall_back in refl),
  )
    where
      missing : (o : Option RawDataEntry) → is_some o ≡ false → o ≡ none
      missing o q = ground arith
