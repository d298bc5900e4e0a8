-- ===== src/Platform/Document.antt =====
-- The text field behind an `InputMethodHost`: `CommitText` inserts text in place of the preedit, and
-- `SetComposition` replaces the preedit.
use chromiumos_devenv.Common.{List, [], ◌∷◌, ◌++◌}
use chromiumos_devenv.Platform.Text.{Units}
use chromiumos_devenv.Platform.Host.{HostCall, commit_text, set_composition}

pub record Document : Type 0 where
  pub committed : Units
  pub preedit : Units

abbrev pub apply_call : HostCall → Document → Document
apply_call (commit_text t) doc = record { committed = doc.committed ++ t; preedit = [] }
apply_call (set_composition t spans cursor) doc = record doc { preedit = t }

abbrev pub apply_calls : List HostCall → Document → Document
apply_calls [] doc = doc
apply_calls (c ∷ cs) doc = apply_calls cs (apply_call c doc)

-- What the text field shows.
abbrev pub shown_text : Document → Units
shown_text doc = doc.committed ++ doc.preedit
