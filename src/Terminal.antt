-- ===== src/Terminal.antt =====
-- web/src/components/Terminal.tsx: the messages of an interactive terminal. The terminal emulator is
-- the library's: its size, what is typed into it, and the resizes are events, and what is written to
-- it is kept. `decode` is `atob`, `none` where it throws.
pub mod Session
use bastiondeck.Prelude.{
  ℕ, Bool, true, false, ◌&&◌, Option, none, some, List, [], ◌∷◌, ◌++◌, Text, js, if◌then◌else◌,
}

-- `WebSocket.readyState`; closing counts as closed.
pub data Ready : Type 0 where
  connecting connected closed : Ready

abbrev pub is_connected : Ready → Bool
is_connected connecting = false
is_connected connected = true
is_connected closed = false

pub data Message : Type 0 where
  open_at : Text → ℕ → ℕ → Message
  input : Text → Message
  resize : ℕ → ℕ → Message

-- `opened`, the state of the socket, what was sent and what was written to the terminal
pub record Terminal : Type 0 where
  pub host_id : Text
  pub opened : Bool
  pub ready : Ready
  pub sent : List Message
  pub written : List Text

abbrev pub fresh_terminal : Text → Terminal
fresh_terminal host_id = record {
  host_id = host_id;
  opened = false;
  ready = connecting;
  sent = [];
  written = [];
}

-- A frame after `JSON.parse`
pub data Frame : Type 0 where
  output : Text → Frame
  closed_frame : Frame
  error_frame : Text → Frame
  other_frame : Frame

pub data TerminalEvent : Type 0 where
  opens : ℕ → ℕ → TerminalEvent
  types : Text → TerminalEvent
  resizes : ℕ → ℕ → TerminalEvent
  frames : Option Frame → TerminalEvent
  closes : TerminalEvent

-- What the terminal writes in a colour, on a line of its own
abbrev note : Text → Text → Text
note colour s =
    (13 ∷ 10 ∷ 27 ∷ []) ++ js "[" ++ colour ++ js "m" ++ s ++ (27 ∷ []) ++ js "[0m" ++ 13 ∷ 10 ∷ []

abbrev written_for : (Text → Option Text) → Option Frame → List Text
written_for decode none = []
written_for decode (some (output s)) = elim (decode s) [ none ↦ [] | some bytes ↦ bytes ∷ [] ]
written_for decode (some closed_frame) = note (js "33") (js "[session closed]") ∷ []
written_for decode (some (error_frame m)) = note (js "31") (js "[error] " ++ m) ∷ []
written_for decode (some other_frame) = []

abbrev pub send_if : Bool → Message → Terminal → Terminal
send_if b m s = if b then record s { sent = s.sent ++ m ∷ [] } else s

abbrev pub opened_at : Ready → ℕ → ℕ → Terminal → Terminal
opened_at connecting cols rows s = record s {
  ready = connected;
  opened = true;
  sent = s.sent ++ open_at s.host_id cols rows ∷ [];
}
opened_at connected cols rows s = s
opened_at closed cols rows s = s

-- A socket opens at most once, from `connecting`. Input and sizes are sent only once it is open.
unfoldable pub terminal_step : (Text → Option Text) → TerminalEvent → Terminal → Terminal
terminal_step decode (opens cols rows) s = opened_at s.ready cols rows s
terminal_step decode (types data') s = send_if (s.opened && is_connected s.ready) (input data') s
terminal_step decode (resizes cols rows) s =
    send_if (s.opened && is_connected s.ready) (resize cols rows) s
terminal_step decode (frames f) s = record s { written = s.written ++ written_for decode f }
terminal_step decode closes s = record s {
  ready = closed;
  written = s.written ++ note (js "33") (js "[disconnected]") ∷ [];
}

unfoldable pub terminal_run : (Text → Option Text) → List TerminalEvent → Terminal → Terminal
unfolding terminal_step
terminal_run decode [] s = s
terminal_run decode (e ∷ es) s = terminal_run decode es (terminal_step decode e s)
