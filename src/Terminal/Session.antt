-- ===== src/Terminal/Session.antt =====
-- What a terminal sends is one session.
use bastiondeck.Prelude.{
  ℕ, Bool, true, false, ◌&&◌, Option, List, [], ◌∷◌, ◌++◌, Text, ◌≡◌, refl, sym, ◌∙◌, arith,
}
use bastiondeck.Terminal.{
  Ready, connecting, connected, closed, is_connected, Message, open_at, input, resize, Terminal,
  fresh_terminal, TerminalEvent, opens, types, resizes, frames, closes, send_if, opened_at,
  terminal_step, terminal_run,
}

-- Nothing but input and sizes
abbrev are_later : List Message → Bool
are_later [] = true
are_later (open_at h c r ∷ ms) = false
are_later (input d ∷ ms) = are_later ms
are_later (resize c r ∷ ms) = are_later ms

-- Nothing, or the opening for this host and then only input and sizes
abbrev pub IsSession : Text → List Message → Type 0
IsSession h [] = Unit
IsSession h (open_at k c r ∷ ms) = (k ≡ h) × (are_later ms ≡ true)
IsSession h (input d ∷ ms) = ⊥
IsSession h (resize c r ∷ ms) = ⊥

abbrev has_sent : List Message → Bool
has_sent [] = false
has_sent (m ∷ ms) = true

abbrev is_connecting : Ready → Bool
is_connecting connecting = true
is_connecting connected = false
is_connecting closed = false

-- What was sent is a session, begun exactly once the socket has opened, which it has not while it is
-- connecting.
abbrev IsConsistent : Terminal → Type 0
IsConsistent s =
    IsSession s.host_id s.sent
    × (has_sent s.sent ≡ s.opened)
    × ((is_connecting s.ready && s.opened) ≡ false)

are_later-append :
    (ms ns : List Message) → are_later ms ≡ true → are_later ns ≡ true → are_later (ms ++ ns) ≡ true
are_later-append [] ns h k = k
are_later-append (open_at _ _ _ ∷ ms) ns h k = absurd (cc)
are_later-append (input d ∷ ms) ns h k = are_later-append ms ns h k
are_later-append (resize c r ∷ ms) ns h k = are_later-append ms ns h k

append-IsSession :
    (h : Text) (ms : List Message) (m : Message)
    → has_sent ms ≡ true
    → are_later (m ∷ []) ≡ true
    → IsSession h ms
    → IsSession h (ms ++ m ∷ []) × (has_sent (ms ++ m ∷ []) ≡ true)
append-IsSession h [] m there later k = absurd (cc)
append-IsSession h (open_at _ _ _ ∷ ms) m there later (e, k) =
    ((e, are_later-append ms (m ∷ []) k later), refl)
append-IsSession h (input _ ∷ ms) m there later k = absurd k
append-IsSession h (resize _ _ ∷ ms) m there later k = absurd k

send_if-IsConsistent :
    (b : Bool) (m : Message) (s : Terminal)
    → (b ≡ true → s.opened ≡ true)
    → are_later (m ∷ []) ≡ true
    → IsConsistent s
    → IsConsistent (send_if b m s)
send_if-IsConsistent false m s only later h = h
send_if-IsConsistent true m s only later (session, there, waiting) =
    let (longer, still) = append-IsSession s.host_id s.sent m (there ∙ only refl) later session in
    (longer, still ∙ sym (only refl), waiting)

has_sent-nil : (ms : List Message) → has_sent ms ≡ false → ms ≡ []
has_sent-nil [] h = refl
has_sent-nil (m ∷ ms) h = absurd (cc)

opened_at-IsConsistent :
    (ready : Ready) (c r : ℕ) (s : Terminal)
    → s.ready ≡ ready
    → IsConsistent s
    → IsConsistent (opened_at ready c r s)
opened_at-IsConsistent connected c r s e h = h
opened_at-IsConsistent closed c r s e h = h
opened_at-IsConsistent connecting c r s e (session, there, waiting) =
    let shut : s.opened ≡ false = rw e at waiting in
    rw (has_sent-nil s.sent (there ∙ shut)) ((refl, refl), refl, refl)

terminal_step-IsConsistent :
    (decode : Text → Option Text) (e : TerminalEvent) (s : Terminal)
    → IsConsistent s
    → IsConsistent (terminal_step decode e s)
unfolding terminal_step
terminal_step-IsConsistent decode (opens c r) s h = opened_at-IsConsistent s.ready c r s refl h
terminal_step-IsConsistent decode (types d) s h =
    send_if-IsConsistent (s.opened && is_connected s.ready) (input d) s (λ e. ground arith) refl h
terminal_step-IsConsistent decode (resizes c r) s h =
    send_if-IsConsistent (s.opened && is_connected s.ready) (resize c r) s (λ e. ground arith) refl
      h
terminal_step-IsConsistent decode (frames f) s h = h
terminal_step-IsConsistent decode closes s (session, there, waiting) = (session, there, refl)

terminal_run-IsConsistent :
    (decode : Text → Option Text) (es : List TerminalEvent) (s : Terminal)
    → IsConsistent s
    → IsConsistent (terminal_run decode es s)
unfolding terminal_run
terminal_run-IsConsistent decode [] s h = h
terminal_run-IsConsistent decode (e ∷ es) s h =
    terminal_run-IsConsistent decode es (terminal_step decode e s)
      (terminal_step-IsConsistent decode e s h)

host_id-opened_at :
    (ready : Ready) (c r : ℕ) (s : Terminal) → (opened_at ready c r s).host_id ≡ s.host_id
host_id-opened_at connecting c r s = refl
host_id-opened_at connected c r s = refl
host_id-opened_at closed c r s = refl

host_id-send_if : (b : Bool) (m : Message) (s : Terminal) → (send_if b m s).host_id ≡ s.host_id
host_id-send_if true m s = refl
host_id-send_if false m s = refl

host_id-terminal_step :
    (decode : Text → Option Text) (e : TerminalEvent) (s : Terminal)
    → (terminal_step decode e s).host_id ≡ s.host_id
unfolding terminal_step
host_id-terminal_step decode (opens c r) s = host_id-opened_at s.ready c r s
host_id-terminal_step decode (types d) s =
    host_id-send_if (s.opened && is_connected s.ready) (input d) s
host_id-terminal_step decode (resizes c r) s =
    host_id-send_if (s.opened && is_connected s.ready) (resize c r) s
host_id-terminal_step decode (frames f) s = refl
host_id-terminal_step decode closes s = refl

host_id-terminal_run :
    (decode : Text → Option Text) (es : List TerminalEvent) (s : Terminal)
    → (terminal_run decode es s).host_id ≡ s.host_id
unfolding terminal_run
host_id-terminal_run decode [] s = refl
host_id-terminal_run decode (e ∷ es) s =
    host_id-terminal_run decode es (terminal_step decode e s) ∙ host_id-terminal_step decode e s

-- Whatever the socket does and is typed, what a terminal sends is nothing, or the opening for its host
-- and after it only input and sizes: no input before the opening, and no second opening.
pub terminal_run-IsSession :
    (decode : Text → Option Text) (es : List TerminalEvent) (host_id : Text)
    → IsSession host_id (terminal_run decode es (fresh_terminal host_id)).sent
terminal_run-IsSession decode es host_id =
    rw (host_id-terminal_run decode es (fresh_terminal host_id)) at
      (terminal_run-IsConsistent decode es (fresh_terminal host_id) (tt, refl, refl)).0
