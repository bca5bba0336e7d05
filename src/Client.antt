-- ===== src/Client.antt =====
-- web/src/api/client.ts: the request that is sent and what becomes of the response. `fetch`, the
-- encoding of a query, and `JSON` are parameters: a response is given, `encode` is
-- `URLSearchParams.toString`, `parse` is `JSON.parse` with `none` for a throw, and `stringify` is
-- `JSON.stringify`.
pub mod Headers
pub mod Responses
use bastiondeck.Prelude.{
  ℕ, Bool, true, false, ◌&&◌, ◌||◌, not, Option, none, some, List, [], ◌∷◌, ◌++◌, Text, js, ◌==◌,
  is_empty, if◌then◌else◌,
}
use bastiondeck.Prelude.Decimal.{show}
use bastiondeck.Prelude.Json.{Json, null, bool, num, str, arr, obj, Items, Fields, end, field}
use bastiondeck.Prelude.Ints.{ℤ, pos}
use Prim.Native.Nat.{zero, suc}

-- `string | number | undefined`
pub data QueryValue : Type 0 where
  text : Text → QueryValue
  number : ℕ → QueryValue
  undefined : QueryValue

-- `if (v !== undefined && v !== '') params.set(k, String(v))`; the keys of an object are distinct.
unfoldable query_params : List (Text × QueryValue) → List (Text × Text)
query_params [] = []
query_params ((k, text []) ∷ q) = query_params q
query_params ((k, text (c ∷ s)) ∷ q) = (k, c ∷ s) ∷ query_params q
query_params ((k, number n) ∷ q) = (k, show n) ∷ query_params q
query_params ((k, undefined) ∷ q) = query_params q

pub record Request : Type 0 where
  pub method : Text
  pub url : Text
  pub headers : List (Text × Text)
  pub body : Option Text

abbrev with_query : Text → Text → Text
with_query path [] = path
with_query path (c ∷ qs) = path ++ js "?" ++ c ∷ qs

abbrev pub header_if : Bool → Text → Text → List (Text × Text) → List (Text × Text)
header_if b k v hs = if b then (k, v) ∷ hs else hs

abbrev pub is_there : Option Json → Bool
is_there none = false
is_there (some b) = true

-- `Authorization` only for a token that is not empty
abbrev pub bearer : Option Text → List (Text × Text)
bearer none = []
bearer (some []) = []
bearer (some (c ∷ t)) = (js "Authorization", js "Bearer " ++ c ∷ t) ∷ []

module _ (encode : List (Text × Text) → Text) (stringify : Json → Text) where
  -- The part of `request` before `fetch`; `none` for a body or a query that is `undefined`.
  unfoldable pub build :
      Option Text → Text → Text → Option Json → Option (List (Text × QueryValue)) → Request
  unfolding query_params ◌==◌
  build token method path body query = record {
    method = method;
    url = elim query [ none ↦ path | some q ↦ with_query path (encode (query_params q)) ];
    headers = header_if (is_there body) (js "Content-Type") (js "application/json") (
        header_if (not (method == js "GET") && not (method == js "HEAD")) (js "X-BDK-CSRF") (js "1")
          (bearer token));
    body = elim body [ none ↦ none | some b ↦ some (stringify b) ];
  }

pub record Response : Type 0 where
  pub ok : Bool
  pub status : ℕ
  pub status_text : Text
  pub text : Text

-- The promise of `request`: a value, `none` for `undefined`; an `ApiError`; or the `TypeError` of
-- `in` on a primitive.
pub data Reply : Type 0 where
  resolved : Option Json → Reply
  api_error : ℕ → Json → Json → Reply
  type_error : Reply

unfoldable pub get_field : Text → Fields → Option Json
get_field k end = none
get_field k (field j v fs) = if j == k then some v else get_field k fs

-- `o?.k ?? missing`
abbrev member_or : Text → Option Json → Json → Json
member_or k none missing = missing
member_or k (some (obj fs)) missing = elim (get_field k fs) [
  | none ↦ missing
  | some null ↦ missing
  | some v ↦ v
]
member_or k (some _) missing = missing

-- What `parsed && 'k' in parsed` finds: nothing, the member, or a throw.
pub data Found : Type 0 where
  nothing : Found
  member : Json → Found
  throws : Found

abbrev member_of : Text → Fields → Found
member_of k fs = elim (get_field k fs) [ none ↦ nothing | some v ↦ member v ]

abbrev found_in : Text → Json → Found
found_in k null = nothing
found_in k (bool b) = if b then throws else nothing
found_in k (num (pos zero)) = nothing
found_in k (num n) = throws
found_in k (str []) = nothing
found_in k (str (c ∷ s)) = throws
found_in k (arr xs) = nothing
found_in k (obj fs) = member_of k fs

abbrev pub found : Text → Option Json → Found
found k none = nothing
found k (some j) = found_in k j

abbrev pub failure : Response → Option Json → Reply
failure r err =
    api_error r.status (member_or (js "code") err (str (js "http_error")))
      (member_or (js "message") err (str r.status_text))

abbrev pub on_error : Response → Found → Reply
on_error r nothing = failure r none
on_error r (member e) = failure r (some e)
on_error r throws = type_error

abbrev on_data : Found → Reply
on_data nothing = resolved none
on_data (member v) = resolved (some v)
on_data throws = type_error

-- The part of `request` after `fetch`.
unfoldable pub receive : (Text → Option Json) → Response → Reply
unfolding get_field ◌==◌
receive parse r =
    let parsed : Option Json = if is_empty r.text then none else parse r.text in
    if not r.ok then on_error r (found (js "error") parsed) else on_data (found (js "data") parsed)
