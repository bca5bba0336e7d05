-- ===== src/Server/Csrf.antt =====
-- internal/httpx/middleware.go: the guard against forged requests, csrfGuard.
use bastiondeck.Prelude.{
  Bool, true, false, ◌&&◌, ◌||◌, not, Option, none, some, List, [], ◌∷◌, Text, js, ◌==◌, is_empty,
  eqb, ◌≡◌, refl, arith, Bool-cases, inl, inr, if◌then◌else◌,
}
use bastiondeck.Client.Headers.{header}

-- `strings.HasPrefix(s, p)`
unfoldable has_prefix : Text → Text → Bool
has_prefix [] s = true
has_prefix (c ∷ p) [] = false
has_prefix (c ∷ p) (d ∷ s) = eqb c d && has_prefix p s

-- `r.Header.Get`, with nothing for a header that is not there
abbrev header_text : Option Text → Text
header_text none = []
header_text (some v) = v

-- The methods that the guard lets through as they are
unfoldable pub is_safe_method : Text → Bool
unfolding ◌==◌
is_safe_method method = method == js "GET" || method == js "HEAD" || method == js "OPTIONS"

-- `bearer`, whether there is one
unfoldable is_bearer : List (Text × Text) → Bool
unfolding has_prefix
is_bearer headers = has_prefix (js "Bearer ") (header_text (header (js "Authorization") headers))

-- `csrfGuard` lets a request with this method and these headers through.
unfoldable pub csrf_guard : Text → List (Text × Text) → Bool
unfolding is_safe_method is_bearer
csrf_guard method headers =
    is_safe_method method
    || is_bearer headers
    || not (is_empty (header_text (header (js "X-BDK-CSRF") headers)))

-- Headers that have the guard's own exactly if the method is not safe pass it.
pub csrf_guard-passes :
    (method : Text) (headers : List (Text × Text)) (b : Bool)
    → b ≡ not (is_safe_method method)
    → header (js "X-BDK-CSRF") headers ≡ (if b then some (js "1") else none)
    → (csrf_guard method headers ≡ true)
      × (header (js "X-BDK-CSRF") headers ≡ (if is_safe_method method then none else some (js "1")))
unfolding csrf_guard
csrf_guard-passes method headers b e h = elim (Bool-cases (is_safe_method method)) [
  | inl safe ↦ rw safe (refl, rw (e, safe) at h)
  | inr unsafe ↦
      let sent : header (js "X-BDK-CSRF") headers ≡ some (js "1") = rw (e, unsafe) at h in
      rw (unsafe, sent) (ground arith, refl)
]
