-- ===== src/Service/Session.antt =====
-- A connected `RuleBasedEngine` and the text field it writes to, over any series of events.
use chromiumos_devenv.Common.{
  ◌≡◌, ◌≢◌, refl, sym, ap, ◌∙◌, subst, true, List, [], ◌++◌, Option, some, Bytes, Outcome, returns,
}
use chromiumos_devenv.Platform.Regex.{Re2, MatchLaws}
use chromiumos_devenv.Platform.Text.{Conversions}
use chromiumos_devenv.Platform.Host.{PhysicalKeyEvent, KeyEventResult, HostCall}
use chromiumos_devenv.Platform.Document.{Document, apply_calls}
use chromiumos_devenv.Rulebased.Rules.Groups.{Pair, flat, count_of}
use chromiumos_devenv.Rulebased.RulesData.{RawDataEntry, find_entry}
use chromiumos_devenv.Rulebased.RulesData.Building.{is_complete, CountsGroups}
use chromiumos_devenv.Rulebased.Engine.{reset}
use chromiumos_devenv.Rulebased.Engine.Safety.{Inv}
use chromiumos_devenv.Service.{
  RuleBasedEngine, m17n_prefix, connect_to_input_method, process_key_event,
  on_composition_canceled_by_system, Handled,
}
use chromiumos_devenv.Service.Connection.{connect-supported}
use chromiumos_devenv.Service.Events.{Mirrors, shown, process_key_event-Mirrors}

-- The raw data has a layout of the id that is complete, and RE2 counts its groups as the rules do.
pub record Supports (re2 : Re2) (conv : Conversions) (raw_data : List (Bytes × RawDataEntry))
    (id : Bytes) : Type 0 where
  pub entry : RawDataEntry
  pub rules : List Pair
  pub full : id ≢ []
  pub found : find_entry id raw_data ≡ some entry
  pub complete : is_complete entry ≡ true
  pub transforms : entry.transforms ≡ flat rules
  pub count : entry.transforms_count ≡ count_of rules
  pub counted : CountsGroups re2 conv rules

-- What a session may have come to: a layout that is supported is connected to an empty preedit; then
-- key events arrive, or the system cancels the composition and with it the preedit.
pub data Session (re2 : Re2) (conv : Conversions) (raw_data : List (Bytes × RawDataEntry))
    : RuleBasedEngine re2.Regex → Document → Type 0 where
  connected :
      (id : Bytes) (old : Option (RuleBasedEngine re2.Regex)) {s : RuleBasedEngine re2.Regex}
      {doc : Document}
      → Supports re2 conv raw_data id
      → connect_to_input_method re2 conv raw_data (m17n_prefix ++ id) old ≡ returns (some s, true)
      → doc.preedit ≡ []
      → Session re2 conv raw_data s doc
  key_event :
      {s s' : RuleBasedEngine re2.Regex} {doc : Document} {calls : List HostCall}
      {result : KeyEventResult} (event : PhysicalKeyEvent)
      → Session re2 conv raw_data s doc
      → process_key_event re2 conv event s ≡ returns (s', calls, result)
      → Session re2 conv raw_data s' (apply_calls calls doc)
  canceled :
      {s : RuleBasedEngine re2.Regex} {doc : Document}
      → Session re2 conv raw_data s doc
      → Session re2 conv raw_data
          (on_composition_canceled_by_system s)
          (record doc { preedit = [] })

module _ (re2 : Re2) (conv : Conversions) (raw_data : List (Bytes × RawDataEntry)) where
  -- The engine satisfies its invariant and the text field shows its composition.
  Good : RuleBasedEngine re2.Regex → Document → Type 0
  Good s doc = Inv re2 s.engine × Mirrors re2 conv doc s.engine

  connected-Good :
      (id : Bytes) (old : Option (RuleBasedEngine re2.Regex)) (s : RuleBasedEngine re2.Regex)
      (doc : Document)
      → shown re2 conv [] ≡ []
      → Supports re2 conv raw_data id
      → connect_to_input_method re2 conv raw_data (m17n_prefix ++ id) old ≡ returns (some s, true)
      → doc.preedit ≡ []
      → Good s doc
  unfolding Good
  connected-Good id old s doc empty sup made quiet =
      let (t, er, up, ei, ectx, inv) =
        connect-supported re2 conv raw_data id old sup.entry sup.rules sup.full sup.found
          sup.complete sup.transforms sup.count sup.counted in
      let same : t ≡ s = cc (sym er ∙ made) in
      (
        subst (λ (x : RuleBasedEngine re2.Regex). Inv re2 x.engine) same inv,
        quiet
            ∙ sym empty
            ∙ ap (λ (b : Bytes). shown re2 conv b)
                (sym ectx ∙ ap (λ (x : RuleBasedEngine re2.Regex). x.engine.context) same),
      )

  canceled-Good :
      (s : RuleBasedEngine re2.Regex) (doc : Document)
      → shown re2 conv [] ≡ []
      → Good s doc
      → Good (on_composition_canceled_by_system s) (record doc { preedit = [] })
  unfolding Good on_composition_canceled_by_system reset
  canceled-Good s doc empty g = (
    record { data_ok = g.0.data_ok; in_range = tt; history_in_range = tt; idle = λ n. refl },
    sym empty,
  )

  key_event-Good :
      MatchLaws re2
      → (event : PhysicalKeyEvent) (s s' : RuleBasedEngine re2.Regex) (doc : Document)
        (calls : List HostCall) (result : KeyEventResult)
      → shown re2 conv [] ≡ []
      → Good s doc
      → process_key_event re2 conv event s ≡ returns (s', calls, result)
      → Good s' (apply_calls calls doc)
  unfolding Good
  key_event-Good laws event s s' doc calls result empty g done =
      let (t, made, r, er, inv, mirror, added) =
        process_key_event-Mirrors re2 conv laws event s doc empty g.0 g.1 in
      let same : (t, made, r) ≡ (s', calls, result) = handled (sym er ∙ done) in
      subst
        (λ (x : Handled re2 conv).
          Inv re2 x.0.engine × Mirrors re2 conv (apply_calls x.1 doc) x.0.engine)
        same (inv, mirror)
    where
      handled :
          {a b : Handled re2 conv}
          → ◌≡◌ {A = Outcome (Handled re2 conv)} (returns a) (returns b)
          → a ≡ b
      handled q = cc q

  Session-Good :
      MatchLaws re2
      → shown re2 conv [] ≡ []
      → {s : RuleBasedEngine re2.Regex} {doc : Document} → Session re2 conv raw_data s doc
      → Good s doc
  Session-Good laws empty (connected id old {s} {doc} sup made quiet) =
      connected-Good id old s doc empty sup made quiet
  Session-Good laws empty (key_event {s} {s'} {doc} {calls} {result} event before done) =
      key_event-Good laws event s s' doc calls result empty (Session-Good laws empty before) done
  Session-Good laws empty (canceled {s} {doc} before) =
      canceled-Good s doc empty (Session-Good laws empty before)

  -- Let RE2 keep its laws for matches, and the conversions map the empty text to itself. At every
  -- point of a session with a supported layout, after any keys and cancellations, the preedit of the
  -- text field is the engine's composition, and `ProcessKeyEvent` returns on whatever event comes
  -- next: no series of events ends in a fault.
  pub Session-returns :
      MatchLaws re2
      → shown re2 conv [] ≡ []
      → {s : RuleBasedEngine re2.Regex} {doc : Document} (event : PhysicalKeyEvent)
      → Session re2 conv raw_data s doc
      → (doc.preedit ≡ shown re2 conv s.engine.context)
        × ((s' : RuleBasedEngine re2.Regex) × (calls : List HostCall) × (result : KeyEventResult)
            × (process_key_event re2 conv event s ≡ returns (s', calls, result)))
  unfolding Good
  Session-returns laws empty {s} {doc} event before =
      let (inv, mirror) = Session-Good laws empty before in
      let (s', calls, result, er, inv', mirror', added) =
        process_key_event-Mirrors re2 conv laws event s doc empty inv mirror in
      (mirror, (s', calls, result, er))
