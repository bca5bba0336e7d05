-- ===== src/Server/Routes/Mux.antt =====
-- internal/httpx/routes.go: the table of the routes, and which of them a request meets.
use bastiondeck.Prelude.{
  eqb, length, Bool, true, false, ◌&&◌, not, Option, filter, none, some, drop, is_empty, List, [],
  ◌∷◌, Text, js, ◌==◌,
}
use bastiondeck.Pages.Files.{split}
use bastiondeck.Server.Routes.{
  read, exec, manage_inventory, audit, manage_users, owner, Segment, lit, id, Route, on, open_on,
}

-- What `routes` registers, but for the agents' own connection, which is there only if agents are, and
-- the pages, which are served for all that meets no other route.
unfoldable pub routes : List Route
routes =
    open_on (js "GET") (lit (js "api") ∷ lit (js "status") ∷ [])
    ∷ open_on (js "GET") (lit (js "api") ∷ lit (js "healthz") ∷ [])
    ∷ open_on (js "POST") (lit (js "api") ∷ lit (js "setup") ∷ [])
    ∷ open_on (js "POST") (lit (js "api") ∷ lit (js "auth") ∷ lit (js "login") ∷ [])
    ∷ open_on (js "POST") (lit (js "api") ∷ lit (js "auth") ∷ lit (js "logout") ∷ [])
    ∷ on (js "GET") (lit (js "api") ∷ lit (js "auth") ∷ lit (js "me") ∷ []) read
    ∷ on (js "POST") (lit (js "api") ∷ lit (js "auth") ∷ lit (js "totp") ∷ lit (js "setup") ∷ [])
        read
    ∷ on (js "POST") (lit (js "api") ∷ lit (js "auth") ∷ lit (js "totp") ∷ lit (js "enable") ∷ [])
        read
    ∷ on (js "POST") (lit (js "api") ∷ lit (js "auth") ∷ lit (js "password") ∷ []) read
    ∷ on (js "GET") (lit (js "api") ∷ lit (js "users") ∷ []) manage_users
    ∷ on (js "POST") (lit (js "api") ∷ lit (js "users") ∷ []) manage_users
    ∷ on (js "PATCH") (lit (js "api") ∷ lit (js "users") ∷ id ∷ []) manage_users
    ∷ on (js "DELETE") (lit (js "api") ∷ lit (js "users") ∷ id ∷ []) manage_users
    ∷ on (js "GET") (lit (js "api") ∷ lit (js "users") ∷ id ∷ lit (js "sessions") ∷ []) manage_users
    ∷ on (js "GET") (lit (js "api") ∷ lit (js "sessions") ∷ []) read
    ∷ on (js "POST") (lit (js "api") ∷ lit (js "sessions") ∷ lit (js "revoke-all") ∷ []) read
    ∷ on (js "DELETE") (lit (js "api") ∷ lit (js "sessions") ∷ id ∷ []) read
    ∷ on (js "GET") (lit (js "api") ∷ lit (js "credentials") ∷ []) exec
    ∷ on (js "POST") (lit (js "api") ∷ lit (js "credentials") ∷ []) manage_inventory
    ∷ on (js "PATCH") (lit (js "api") ∷ lit (js "credentials") ∷ id ∷ []) manage_inventory
    ∷ on (js "DELETE") (lit (js "api") ∷ lit (js "credentials") ∷ id ∷ []) manage_inventory
    ∷ on (js "GET") (lit (js "api") ∷ lit (js "hosts") ∷ []) read
    ∷ on (js "POST") (lit (js "api") ∷ lit (js "hosts") ∷ []) manage_inventory
    ∷ on (js "GET") (lit (js "api") ∷ lit (js "hosts") ∷ id ∷ []) read
    ∷ on (js "PATCH") (lit (js "api") ∷ lit (js "hosts") ∷ id ∷ []) manage_inventory
    ∷ on (js "DELETE") (lit (js "api") ∷ lit (js "hosts") ∷ id ∷ []) manage_inventory
    ∷ on (js "POST") (lit (js "api") ∷ lit (js "hosts") ∷ id ∷ lit (js "test") ∷ []) exec
    ∷ on (js "POST") (lit (js "api") ∷ lit (js "hosts") ∷ id ∷ lit (js "reset-host-key") ∷ [])
        manage_inventory
    ∷ on (js "POST") (lit (js "api") ∷ lit (js "hosts") ∷ id ∷ lit (js "facts") ∷ []) exec
    ∷ on (js "POST") (lit (js "api") ∷ lit (js "hosts") ∷ id ∷ lit (js "metrics") ∷ []) exec
    ∷ on (js "POST") (lit (js "api") ∷ lit (js "hosts") ∷ lit (js "import-sshconfig") ∷ [])
        manage_inventory
    ∷ on (js "GET") (lit (js "api") ∷ lit (js "groups") ∷ []) read
    ∷ on (js "POST") (lit (js "api") ∷ lit (js "groups") ∷ []) manage_inventory
    ∷ on (js "PATCH") (lit (js "api") ∷ lit (js "groups") ∷ id ∷ []) manage_inventory
    ∷ on (js "DELETE") (lit (js "api") ∷ lit (js "groups") ∷ id ∷ []) manage_inventory
    ∷ on (js "POST") (lit (js "api") ∷ lit (js "exec") ∷ []) exec
    ∷ on (js "POST") (lit (js "api") ∷ lit (js "jobs") ∷ lit (js "run") ∷ []) exec
    ∷ on (js "GET") (lit (js "api") ∷ lit (js "jobs") ∷ []) read
    ∷ on (js "POST") (lit (js "api") ∷ lit (js "jobs") ∷ []) exec
    ∷ on (js "PATCH") (lit (js "api") ∷ lit (js "jobs") ∷ id ∷ []) exec
    ∷ on (js "DELETE") (lit (js "api") ∷ lit (js "jobs") ∷ id ∷ []) exec
    ∷ on (js "GET") (lit (js "api") ∷ lit (js "runs") ∷ []) read
    ∷ on (js "GET") (lit (js "api") ∷ lit (js "runs") ∷ id ∷ []) read
    ∷ on (js "GET")
        (lit (js "api") ∷ lit (js "runs") ∷ id ∷ lit (js "targets") ∷ id ∷ lit (js "output") ∷ [])
        read
    ∷ on (js "POST") (lit (js "api") ∷ lit (js "runs") ∷ id ∷ lit (js "cancel") ∷ []) exec
    ∷ on (js "POST") (lit (js "api") ∷ lit (js "runs") ∷ id ∷ lit (js "retry-failed") ∷ []) exec
    ∷ on (js "GET") (lit (js "ws") ∷ lit (js "term") ∷ []) exec
    ∷ on (js "GET") (lit (js "api") ∷ lit (js "tunnels") ∷ []) read
    ∷ on (js "POST") (lit (js "api") ∷ lit (js "tunnels") ∷ []) exec
    ∷ on (js "POST") (lit (js "api") ∷ lit (js "tunnels") ∷ id ∷ lit (js "stop") ∷ []) exec
    ∷ on (js "GET") (lit (js "api") ∷ lit (js "fs") ∷ lit (js "list") ∷ []) exec
    ∷ on (js "GET") (lit (js "api") ∷ lit (js "fs") ∷ lit (js "read") ∷ []) exec
    ∷ on (js "POST") (lit (js "api") ∷ lit (js "fs") ∷ lit (js "write") ∷ []) exec
    ∷ on (js "POST") (lit (js "api") ∷ lit (js "fs") ∷ lit (js "stat") ∷ []) exec
    ∷ on (js "POST") (lit (js "api") ∷ lit (js "fs") ∷ lit (js "mkdir") ∷ []) exec
    ∷ on (js "POST") (lit (js "api") ∷ lit (js "fs") ∷ lit (js "rename") ∷ []) exec
    ∷ on (js "POST") (lit (js "api") ∷ lit (js "fs") ∷ lit (js "delete") ∷ []) exec
    ∷ on (js "GET") (lit (js "api") ∷ lit (js "snippets") ∷ []) read
    ∷ on (js "POST") (lit (js "api") ∷ lit (js "snippets") ∷ []) manage_inventory
    ∷ on (js "PATCH") (lit (js "api") ∷ lit (js "snippets") ∷ id ∷ []) manage_inventory
    ∷ on (js "DELETE") (lit (js "api") ∷ lit (js "snippets") ∷ id ∷ []) manage_inventory
    ∷ on (js "POST") (lit (js "api") ∷ lit (js "snippets") ∷ lit (js "render") ∷ []) read
    ∷ on (js "GET") (lit (js "api") ∷ lit (js "metrics") ∷ lit (js "hosts") ∷ id ∷ []) read
    ∷ on (js "GET") (lit (js "api") ∷ lit (js "audit") ∷ []) audit
    ∷ on (js "GET") (lit (js "api") ∷ lit (js "audit") ∷ lit (js "export") ∷ []) audit
    ∷ on (js "POST") (lit (js "api") ∷ lit (js "audit") ∷ lit (js "verify") ∷ []) audit
    ∷ on (js "GET") (lit (js "api") ∷ lit (js "settings") ∷ []) read
    ∷ on (js "PUT") (lit (js "api") ∷ lit (js "settings") ∷ []) manage_inventory
    ∷ on (js "POST") (lit (js "api") ∷ lit (js "backup") ∷ lit (js "export") ∷ []) owner
    ∷ on (js "POST") (lit (js "api") ∷ lit (js "backup") ∷ lit (js "inspect") ∷ []) owner
    ∷ on (js "POST") (lit (js "api") ∷ lit (js "backup") ∷ lit (js "restore") ∷ []) owner
    ∷ on (js "GET") (lit (js "api") ∷ lit (js "agents") ∷ []) manage_inventory
    ∷ on (js "POST") (lit (js "api") ∷ lit (js "agents") ∷ lit (js "enroll") ∷ []) manage_inventory
    ∷ on (js "POST") (lit (js "api") ∷ lit (js "agents") ∷ id ∷ lit (js "approve") ∷ [])
        manage_inventory
    ∷ on (js "POST") (lit (js "api") ∷ lit (js "agents") ∷ id ∷ lit (js "block") ∷ [])
        manage_inventory
    ∷ on (js "GET") (lit (js "api") ∷ lit (js "doctor") ∷ []) exec
    ∷ on (js "GET") (lit (js "api") ∷ lit (js "events") ∷ []) read
    ∷ []

unfoldable pub fits : List Segment → List Text → Bool
unfolding ◌==◌
fits [] [] = true
fits [] (s ∷ ss) = false
fits (p ∷ ps) [] = false
fits (lit t ∷ ps) (s ∷ ss) = t == s && fits ps ss
fits (id ∷ ps) (s ∷ ss) = not (is_empty s) && fits ps ss

-- A pattern fits only as many segments as it has.
abbrev pub is_met : Text → List Text → Route → Bool
is_met verb segments r =
    r.verb == verb && eqb (length r.pattern) (length segments) && fits r.pattern segments

abbrev pub only : List Route → Option Route
only [] = none
only (r ∷ []) = some r
only (r ∷ q ∷ rs) = none

-- The route whose pattern fits, if there is just one, so that the mux of the standard library need not
-- weigh patterns against one another; `none` otherwise, for the pages or where it would have to.
unfoldable pub serve : Text → Text → Option Route
unfolding routes fits split ◌==◌
serve verb path = only (filter (is_met verb (drop 1 (split path))) routes)
