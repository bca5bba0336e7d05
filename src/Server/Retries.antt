-- ===== src/Server/Retries.antt =====
-- internal/jobs/engine.go, `RetryFailed`: which hosts the server runs again.
use bastiondeck.Prelude.{◌||◌, List, [], ◌∷◌, Text, js, ◌==◌, if◌then◌else◌}
use bastiondeck.Api.Activity.{RunTarget}

unfoldable pub retried_hosts : List RunTarget → List Text
unfolding ◌==◌
retried_hosts [] = []
retried_hosts (t ∷ ts) =
    if t.status == js "failed" || t.status == js "lost" || t.status == js "timeout"
    then t.host_id ∷ retried_hosts ts
    else retried_hosts ts
