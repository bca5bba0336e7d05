-- ===== src/Client/Headers.antt =====
-- Which headers a request has.
use bastiondeck.Prelude.{
  Bool, true, false, ◌&&◌, not, Option, none, some, List, [], ◌∷◌, ◌++◌, Text, js, ◌==◌,
  if◌then◌else◌, ◌≡◌, refl,
}
use bastiondeck.Prelude.Json.{Json}
use bastiondeck.Client.{QueryValue, header_if, bearer, is_there, build}

abbrev pub header : Text → List (Text × Text) → Option Text
header k [] = none
header k ((j, v) ∷ hs) = if j == k then some v else header k hs

abbrev pub is_write : Text → Bool
is_write method = not (method == js "GET") && not (method == js "HEAD")

abbrev auth_of : Option Text → Option Text
auth_of none = none
auth_of (some []) = none
auth_of (some (c ∷ t)) = some (js "Bearer " ++ c ∷ t)

three_headers :
    (b w : Bool) (token : Option Text)
    → let hs =
        header_if b
          (js "Content-Type")
          (js "application/json")
          (header_if w (js "X-BDK-CSRF") (js "1") (bearer token)) in
      (header (js "X-BDK-CSRF") hs ≡ (if w then some (js "1") else none))
      × (header (js "Content-Type") hs ≡ (if b then some (js "application/json") else none))
      × (header (js "Authorization") hs ≡ auth_of token)
unfolding ◌==◌
three_headers true true none = (refl, refl, refl)
three_headers true true (some []) = (refl, refl, refl)
three_headers true false none = (refl, refl, refl)
three_headers true false (some []) = (refl, refl, refl)
three_headers false true none = (refl, refl, refl)
three_headers false true (some []) = (refl, refl, refl)
three_headers false false none = (refl, refl, refl)
three_headers false false (some []) = (refl, refl, refl)
three_headers _ _ _ = (refl, refl, refl)

module _ (encode : List (Text × Text) → Text) (stringify : Json → Text) where
  -- A request carries the CSRF header exactly if its method is neither GET nor HEAD, the content type
  -- exactly if it has a body, and the token exactly if that is not empty.
  pub header-build :
      (token : Option Text) (method path : Text) (body : Option Json)
      (query : Option (List (Text × QueryValue)))
      → let hs = (build encode stringify token method path body query).headers in
        (header (js "X-BDK-CSRF") hs ≡ (if is_write method then some (js "1") else none))
        × (header (js "Content-Type") hs
            ≡ (if is_there body then some (js "application/json") else none))
        × (header (js "Authorization") hs ≡ auth_of token)
  unfolding build
  header-build token method path body query = three_headers (is_there body) (is_write method) token
