-- ===== src/Platform/Host.antt =====
-- The mojo messages between the IME service and the browser: key events, and the calls that an
-- engine makes on its `InputMethodHost`.
use chromiumos_devenv.Common.{ℕ, Bool, List}
use chromiumos_devenv.Platform.DomCode.{DomCode}
use chromiumos_devenv.Platform.Text.{Units}

pub data KeyEventType : Type 0 where
  key_down key_up : KeyEventType

pub record ModifierState : Type 0 where
  pub alt : Bool
  pub alt_graph : Bool
  pub caps_lock : Bool
  pub control : Bool
  pub shift : Bool

pub record PhysicalKeyEvent : Type 0 where
  pub type : KeyEventType
  pub code : DomCode
  pub modifier_state : ModifierState

pub data KeyEventResult : Type 0 where
  consumed_by_ime needs_handling_by_system : KeyEventResult

pub data SpanStyle : Type 0 where
  default none_style : SpanStyle

pub record CompositionSpan : Type 0 where
  pub start : ℕ
  pub end : ℕ
  pub style : SpanStyle

-- `CommitText` is always called with `kMoveCursorAfterText`.
pub data HostCall : Type 0 where
  commit_text : Units → HostCall
  set_composition : Units → List CompositionSpan → ℕ → HostCall
