-- ===== src/Layouts.antt =====
-- `GetRawData` of rules_data.cc: the supported layouts. Each module below is one file of
-- chromium-patches/rulebased-payload/chromeos/ash/services/ime/public/cpp/rulebased/def.
-- A string literal stands for its bytes in UTF-8.
pub mod Ar
pub mod BnPhone
pub mod CkbAr
pub mod CkbEn
pub mod DevaPhone
pub mod Ethi
pub mod Fa
pub mod GuPhone
pub mod HiInscript
pub mod Km
pub mod KnPhone
pub mod Lo
pub mod MlPhone
pub mod My
pub mod MyMyansan
pub mod NeInscript
pub mod NePhone
pub mod RuPhoneAatseel
pub mod RuPhoneYazhert
pub mod Si
pub mod TaInscript
pub mod TaItrans
pub mod TaPhone
pub mod TaTamil99
pub mod TaTypewriter
pub mod TePhone
pub mod Th
pub mod ThPattajoti
pub mod ThTis
pub mod Us
pub mod ViTcvn
pub mod ViTelex
pub mod ViViqr
pub mod ViVni
pub mod Checks
pub mod Patterns
use Prim.Native.String.{String}
use chromiumos_devenv.Common.{ℕ, Bool, List, [], ◌∷◌, map, Option, none, some, Bytes, codes}
use chromiumos_devenv.Unikey.Utf8.{encode_utf8}
use chromiumos_devenv.Rulebased.RulesData.{RawDataEntry, keys_only}

-- A `const char*` from its literal.
unfoldable pub c_string : String → Bytes
unfolding encode_utf8
c_string s = encode_utf8 (codes s)

abbrev pub c_strings : List String → List Bytes
c_strings [] = []
c_strings (s ∷ ss) = c_string s ∷ c_strings ss

abbrev pub c_tables : List (List String) → List (List Bytes)
c_tables [] = []
c_tables (t ∷ ts) = c_strings t ∷ c_tables ts

abbrev optional : Option String → Option Bytes
optional none = none
optional (some s) = some (c_string s)

-- The two constructors of `RawDataEntry`, with the id of the layout.
abbrev pub keyed : String → List (List String) → Bool → Bytes × RawDataEntry
keyed id key_map is_102 = (c_string id, keys_only (c_tables key_map) is_102)

abbrev pub transforming :
    String → List (List String) → Bool → List String → ℕ → Option String → Bytes × RawDataEntry
transforming id key_map is_102 transforms transforms_len history_prune = (
  c_string id,
  record {
    key_map = c_tables key_map;
    is_102_keyboard = is_102;
    transforms = c_strings transforms;
    transforms_count = transforms_len;
    history_prune = optional history_prune;
  },
)

unfoldable pub raw_data : List (Bytes × RawDataEntry)
raw_data =
    keyed Ar.id Ar.key_map Ar.is_102
    ∷ transforming BnPhone.id BnPhone.key_map BnPhone.is_102 BnPhone.transforms
        BnPhone.transforms_len BnPhone.history_prune
    ∷ keyed CkbAr.id CkbAr.key_map CkbAr.is_102
    ∷ keyed CkbEn.id CkbEn.key_map CkbEn.is_102
    ∷ transforming DevaPhone.id Us.key_map Us.is_102 DevaPhone.transforms DevaPhone.transforms_len
        DevaPhone.history_prune
    ∷ transforming Ethi.id Ethi.key_map Ethi.is_102 Ethi.transforms Ethi.transforms_len
        Ethi.history_prune
    ∷ keyed Fa.id Fa.key_map Fa.is_102
    ∷ transforming GuPhone.id GuPhone.key_map GuPhone.is_102 GuPhone.transforms
        GuPhone.transforms_len GuPhone.history_prune
    ∷ keyed HiInscript.id HiInscript.key_map HiInscript.is_102
    ∷ keyed Km.id Km.key_map Km.is_102
    ∷ transforming KnPhone.id Us.key_map Us.is_102 KnPhone.transforms KnPhone.transforms_len
        KnPhone.history_prune
    ∷ keyed Lo.id Lo.key_map Lo.is_102
    ∷ transforming MlPhone.id Us.key_map Us.is_102 MlPhone.transforms MlPhone.transforms_len
        MlPhone.history_prune
    ∷ transforming My.id My.key_map My.is_102 My.transforms My.transforms_len My.history_prune
    ∷ transforming MyMyansan.id MyMyansan.key_map MyMyansan.is_102 MyMyansan.transforms
        MyMyansan.transforms_len MyMyansan.history_prune
    ∷ keyed NeInscript.id NeInscript.key_map NeInscript.is_102
    ∷ keyed NePhone.id NePhone.key_map NePhone.is_102
    ∷ keyed RuPhoneAatseel.id RuPhoneAatseel.key_map RuPhoneAatseel.is_102
    ∷ keyed RuPhoneYazhert.id RuPhoneYazhert.key_map RuPhoneYazhert.is_102
    ∷ transforming Si.id Si.key_map Si.is_102 Si.transforms Si.transforms_len Si.history_prune
    ∷ keyed TaInscript.id TaInscript.key_map TaInscript.is_102
    ∷ transforming TaItrans.id Us.key_map Us.is_102 TaItrans.transforms TaItrans.transforms_len
        TaItrans.history_prune
    ∷ transforming TaPhone.id TaPhone.key_map TaPhone.is_102 TaPhone.transforms
        TaPhone.transforms_len TaPhone.history_prune
    ∷ transforming TaTamil99.id TaTamil99.key_map TaTamil99.is_102 TaTamil99.transforms
        TaTamil99.transforms_len TaTamil99.history_prune
    ∷ keyed TaTypewriter.id TaTypewriter.key_map TaTypewriter.is_102
    ∷ transforming TePhone.id Us.key_map Us.is_102 TePhone.transforms TePhone.transforms_len
        TePhone.history_prune
    ∷ keyed Th.id Th.key_map Th.is_102
    ∷ keyed ThPattajoti.id ThPattajoti.key_map ThPattajoti.is_102
    ∷ keyed ThTis.id ThTis.key_map ThTis.is_102
    ∷ transforming ViTcvn.id Us.key_map Us.is_102 ViTcvn.transforms ViTcvn.transforms_len
        ViTcvn.history_prune
    ∷ transforming ViTelex.id Us.key_map Us.is_102 ViTelex.transforms ViTelex.transforms_len
        ViTelex.history_prune
    ∷ transforming ViViqr.id Us.key_map Us.is_102 ViViqr.transforms ViViqr.transforms_len
        ViViqr.history_prune
    ∷ transforming ViVni.id Us.key_map Us.is_102 ViVni.transforms ViVni.transforms_len
        ViVni.history_prune
    ∷ []
