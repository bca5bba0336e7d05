-- ===== src/Server/Roles.antt =====
-- internal/auth/model.go: how the server ranks roles, and who may grant which.
use bastiondeck.Prelude.{ℕ, Bool, false, ◌&&◌, not, Text, js, ◌==◌, ltb, leb, if◌then◌else◌}

unfoldable pub rank : Text → ℕ
unfolding ◌==◌
rank role =
    if role == js "viewer"
    then 1
    else if role == js "operator"
    then 2
    else if role == js "admin"
    then 3
    else if role == js "owner"
    then 4
    else 0

unfoldable pub is_valid_role : Text → Bool
unfolding rank
is_valid_role r = ltb 0 (rank r)

unfoldable pub can_assign_role : Text → Text → Bool
unfolding is_valid_role
can_assign_role actor target =
    if not (is_valid_role target)
    then false
    else if target == js "owner"
    then actor == js "owner"
    else if target == js "admin"
    then actor == js "owner"
    else leb (rank (js "admin")) (rank actor) && ltb (rank target) (rank actor)
