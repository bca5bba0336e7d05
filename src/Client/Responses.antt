-- ===== src/Client/Responses.antt =====
-- What becomes of a response.
use bastiondeck.Prelude.{
  Bool, true, false, Option, none, some, [], ◌∷◌, Text, js, is_empty, ◌≡◌, ◌≢◌, ◌⊎◌, inl, inr, refl,
  if◌then◌else◌,
}
use Prim.Native.Nat.{zero, suc}
use bastiondeck.Prelude.Ints.{pos, negsuc}
use bastiondeck.Prelude.Json.{Json, null, bool, num, str, arr, obj, Fields, field, end}
use bastiondeck.Client.{
  Response, Reply, found, failure, get_field, resolved, api_error, type_error, receive, nothing,
  member, on_error,
}

-- The body that was parsed is a primitive value that is truthy, on which `in` throws.
abbrev is_primitive : Option Json → Bool
is_primitive none = false
is_primitive (some null) = false
is_primitive (some (bool b)) = b
is_primitive (some (num (pos zero))) = false
is_primitive (some (num n)) = true
is_primitive (some (str [])) = false
is_primitive (some (str (c ∷ s))) = true
is_primitive (some (arr xs)) = false
is_primitive (some (obj fs)) = false

-- Rejected by a `TypeError` on a primitive value, and else by an `ApiError` with the status.
abbrev pub IsRejected : Response → Option Json → Reply → Type 0
IsRejected r o reply =
    ((is_primitive o ≡ true) × (reply ≡ type_error))
    ⊎ ((is_primitive o ≡ false)
        × (code : Json) × (message : Json) × (reply ≡ api_error r.status code message))

api-IsRejected :
    (r : Response) (o err : Option Json) → is_primitive o ≡ false → IsRejected r o (failure r err)
api-IsRejected r o err h = inr (h, _, _, refl)

member-IsRejected :
    (r : Response) (fs : Fields) (found_field : Option Json)
    → IsRejected r
        (some (obj fs))
        (on_error r (elim found_field [ none ↦ nothing | some v ↦ member v ]))
member-IsRejected r fs none = api-IsRejected r (some (obj fs)) none refl
member-IsRejected r fs (some v) = api-IsRejected r (some (obj fs)) (some v) refl

on_error-IsRejected :
    (r : Response) (o : Option Json) → IsRejected r o (on_error r (found (js "error") o))
on_error-IsRejected r none = api-IsRejected r none none refl
on_error-IsRejected r (some null) = api-IsRejected r (some null) none refl
on_error-IsRejected r (some (bool true)) = inl (refl, refl)
on_error-IsRejected r (some (bool false)) = api-IsRejected r (some (bool false)) none refl
on_error-IsRejected r (some (num (pos zero))) = api-IsRejected r (some (num (pos zero))) none refl
on_error-IsRejected r (some (num (pos (suc n)))) = inl (refl, refl)
on_error-IsRejected r (some (num (negsuc n))) = inl (refl, refl)
on_error-IsRejected r (some (str [])) = api-IsRejected r (some (str [])) none refl
on_error-IsRejected r (some (str (c ∷ s))) = inl (refl, refl)
on_error-IsRejected r (some (arr xs)) = api-IsRejected r (some (arr xs)) none refl
on_error-IsRejected r (some (obj fs)) = member-IsRejected r fs (get_field (js "error") fs)

text_there : (s : Text) → s ≢ [] → is_empty s ≡ false
text_there [] h = absurd (h refl)
text_there (c ∷ s) h = refl

-- What `request` parses of a response: nothing of an empty text, or of one that is no JSON.
abbrev pub parsed_of : (Text → Option Json) → Response → Option Json
parsed_of parse r = if is_empty r.text then none else parse r.text

-- A response that is not ok never resolves: the promise is rejected, by a `TypeError` if the body is
-- a truthy primitive value, and in every other case by an `ApiError` with the status of the response.
pub receive_not_ok :
    (parse : Text → Option Json) (r : Response)
    → r.ok ≡ false
    → IsRejected r (parsed_of parse r) (receive parse r)
unfolding receive
receive_not_ok parse r bad = rw bad (on_error-IsRejected r (parsed_of parse r))

-- An ok response with a body `{ data: v }`, the envelope of the API contract, resolves to `v`.
receive_data :
    (parse : Text → Option Json) (r : Response) (v : Json)
    → r.ok ≡ true
    → r.text ≢ []
    → parse r.text ≡ some (obj (field (js "data") v end))
    → receive parse r ≡ resolved (some v)
unfolding receive
receive_data parse r v fine some_text p = simp (fine, text_there r.text some_text, p)

-- An error response with a body `{ error: { code, message } }` is rejected with that code, that
-- message and the status of the response.
receive_error :
    (parse : Text → Option Json) (r : Response) (code message : Text)
    → r.ok ≡ false
    → r.text ≢ []
    → parse r.text
      ≡ some (
          obj (
            field
              (js "error")
              (obj (field (js "code") (str code) (field (js "message") (str message) end)))
              end))
    → receive parse r ≡ api_error r.status (str code) (str message)
unfolding receive
receive_error parse r code message bad some_text p = simp (bad, text_there r.text some_text, p)
