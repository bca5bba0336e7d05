-- ===== src/Endpoints/Calls.antt =====
-- web/src/api/client.ts, the object `api`: what each verb passes to `request`. A body leaves out the
-- members that are `undefined`, as `JSON.stringify` does.
use bastiondeck.Prelude.{ℕ, Option, none, some, List, [], ◌∷◌, Text, js}
use bastiondeck.Prelude.Json.{Json, str, obj, Fields, end, field}
use bastiondeck.Client.{QueryValue, text, number, undefined}

pub record Call : Type 0 where
  pub method : Text
  pub path : Text
  pub body : Option Json
  pub query : Option (List (Text × QueryValue))

abbrev pub api_get : Text → Option (List (Text × QueryValue)) → Call
api_get p q = record { method = js "GET"; path = p; body = none; query = q }

-- `b ?? {}`
abbrev or_empty : Option Json → Json
or_empty none = obj end
or_empty (some b) = b

abbrev pub api_post : Text → Option Json → Call
api_post p b = record { method = js "POST"; path = p; body = some (or_empty b); query = none }

abbrev pub api_patch : Text → Option Json → Call
api_patch p b = record { method = js "PATCH"; path = p; body = b; query = none }

abbrev pub api_put : Text → Option Json → Call
api_put p b = record { method = js "PUT"; path = p; body = b; query = none }

abbrev pub api_del : Text → Call
api_del p = record { method = js "DELETE"; path = p; body = none; query = none }

abbrev fields : List (Text × Option Json) → Fields
fields [] = end
fields ((k, none) ∷ fs) = fields fs
fields ((k, some v) ∷ fs) = field k v (fields fs)

-- An object literal
abbrev pub json : List (Text × Option Json) → Json
json fs = obj (fields fs)

abbrev pub text_of : Option Text → Option Json
text_of none = none
text_of (some s) = some (str s)

abbrev pub number_of : Option ℕ → QueryValue
number_of none = undefined
number_of (some n) = number n

abbrev pub query_text : Option Text → QueryValue
query_text none = undefined
query_text (some s) = text s
