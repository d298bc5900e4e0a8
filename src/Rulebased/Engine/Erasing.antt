-- ===== src/Rulebased/Engine/Erasing.antt =====
-- What backspaces do to a composition, one after the other.
use chromiumos_devenv.Common.{
  ℕ, zero, suc, ◌≡◌, ◌≢◌, refl, ap, ◌∙◌, false, not, ◌&&◌, List, [], ◌∷◌, none, some, Bytes, arith,
  init, length, is_empty, inr, returns,
}
use chromiumos_devenv.Platform.DomCode.{DomCode, code_eq, backspace}
use chromiumos_devenv.Platform.Regex.{Re2}
use chromiumos_devenv.Platform.Text.{Conversions, Units}
use chromiumos_devenv.Rulebased.KeyMap.{KeyMap, find}
use chromiumos_devenv.Rulebased.RulesData.{RulesData, get_key_map_by_modifiers}
use chromiumos_devenv.Rulebased.Engine.{Engine, reset, process_backspace, process_key}
use chromiumos_devenv.Rulebased.Engine.Results.{
  process_key-IsUnmapped, process_key-erases, process_keys,
}

-- The conversions between UTF-8 and UTF-16 lose nothing entirely: text that is not empty stays so,
-- and a unit that is no text of its own becomes one replacement character.
pub record ErasingLaws (conv : Conversions) : Type 0 where
  pub keeps_length : (us : Units) → length (conv.to_utf16 (conv.to_utf8 us)) ≡ length us
  pub empty_text : conv.to_utf16 [] ≡ []
  pub text_empty : (s : Bytes) → conv.to_utf16 s ≡ [] → s ≡ []

length-init : (us : List ℕ) (n : ℕ) → length us ≡ suc n → length (init us) ≡ n
length-init [] n h = absurd (omega arith)
length-init (u ∷ []) n h = omega arith
length-init (u ∷ v ∷ us) zero h = absurd (omega arith)
length-init (u ∷ v ∷ us) (suc n) h = ap suc (length-init (v ∷ us) n (omega arith))

none_left : (us : List ℕ) → length us ≡ 0 → us ≡ []
none_left [] h = refl
none_left (u ∷ us) h = absurd (omega arith)

abbrev pub presses : ℕ → DomCode × ℕ → List (DomCode × ℕ)
presses zero key = []
presses (suc n) key = key ∷ presses n key

module _ (re2 : Re2) (conv : Conversions) (modifiers : ℕ) where
  -- What is left after the backspaces: an empty composition, to which the next backspace is nothing.
  pub record Erased (e : Engine re2.Regex) (count : ℕ) : Type 0 where
    pub last : Engine re2.Regex
    pub typed : process_keys re2 conv e (presses count (backspace, modifiers)) ≡ returns ([], last)
    pub empty : last.context ≡ []
    pub next :
        process_key re2 conv last backspace modifiers
        ≡ returns
            (record { key_handled = false; commit_text = []; composition_text = [] }, reset last)

module _ (re2 : Re2) (conv : Conversions) (laws : ErasingLaws conv) (d : RulesData re2.Regex)
    (m : KeyMap) (modifiers : ℕ) where
  full_text :
      (e : Engine re2.Regex) (n : ℕ) → length (conv.to_utf16 e.context) ≡ suc n → e.context ≢ []
  full_text e n h q =
      let nothing : length (conv.to_utf16 e.context) ≡ 0 =
        ap (λ (s : Bytes). length (conv.to_utf16 s)) q ∙ ap length laws.empty_text in
      absurd (omega arith)

  same_data :
      (e : Engine re2.Regex) → (process_backspace re2 conv e).1.current_data ≡ e.current_data
  unfolding process_backspace
  same_data e = ground arith

  shorter :
      (e : Engine re2.Regex)
      → (process_backspace re2 conv e).1.context ≡ conv.to_utf8 (init (conv.to_utf16 e.context))
  unfolding process_backspace
  shorter e = ground arith

  one_less :
      (e : Engine re2.Regex) (n : ℕ)
      → length (conv.to_utf16 e.context) ≡ suc n
      → length (conv.to_utf16 (process_backspace re2 conv e).1.context) ≡ n
  one_less e n h =
      ap (λ (s : Bytes). length (conv.to_utf16 s)) (shorter e)
      ∙ laws.keeps_length (init (conv.to_utf16 e.context))
      ∙ length-init (conv.to_utf16 e.context) n h

  not_taken :
      (e : Engine re2.Regex)
      → e.current_data ≡ some d
      → get_key_map_by_modifiers re2 d modifiers ≡ some m
      → find backspace m ≡ none
      → e.context ≡ []
      → process_key re2 conv e backspace modifiers
        ≡ returns (record { key_handled = false; commit_text = []; composition_text = [] }, reset e)
  not_taken e ed em found empty =
      process_key-IsUnmapped re2 conv e backspace modifiers
        (inr (inr (d, m, ed, em, found, rw empty no_text)))
      ∙ ap
          (λ (s : Bytes).
            returns
              (record { key_handled = false; commit_text = s; composition_text = [] }, reset e))
          empty
    where
      no_text : (code_eq backspace backspace && not (is_empty {A = ℕ} [])) ≡ false
      no_text = unfold code_eq in refl

  first_key :
      (e : Engine re2.Regex) (keys : List (DomCode × ℕ)) (last : Engine re2.Regex)
      → process_key re2 conv e backspace modifiers ≡ returns (process_backspace re2 conv e)
      → process_keys re2 conv (process_backspace re2 conv e).1 keys ≡ returns ([], last)
      → process_keys re2 conv e ((backspace, modifiers) ∷ keys) ≡ returns ([], last)
  unfolding process_keys process_backspace
  first_key e keys last first rest = rw first (rw rest refl)

  -- Let the conversions between UTF-8 and UTF-16 keep `ErasingLaws`. On a layout whose key map for
  -- the modifiers has no backspace, a composition of some count of UTF-16 units is erased by that
  -- count of backspaces: each returns, nothing is committed, the composition is empty in the end, and
  -- the next backspace is left to the system.
  pub process_keys-Erased :
      (count : ℕ) (e : Engine re2.Regex)
      → e.current_data ≡ some d
      → get_key_map_by_modifiers re2 d modifiers ≡ some m
      → find backspace m ≡ none
      → length (conv.to_utf16 e.context) ≡ count
      → Erased re2 conv modifiers e count
  unfolding process_keys
  process_keys-Erased zero e ed em found h =
      let empty = laws.text_empty e.context (none_left (conv.to_utf16 e.context) h) in
      record { last = e; typed = refl; empty = empty; next = not_taken e ed em found empty }
  process_keys-Erased (suc n) e ed em found h =
      let rest =
        process_keys-Erased n (process_backspace re2 conv e).1 (same_data e ∙ ed) em found
          (one_less e n h) in
      record {
        last = rest.last;
        typed =
            first_key e (presses n (backspace, modifiers)) rest.last
              (process_key-erases re2 conv e d m modifiers ed em found (full_text e n h))
              rest.typed;
        empty = rest.empty;
        next = rest.next;
      }
