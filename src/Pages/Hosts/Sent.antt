-- ===== src/Pages/Hosts/Sent.antt =====
-- What is sent for a new host.
use bastiondeck.Prelude.{some, [], ◌∷◌, Text, js, ◌==◌, All, ◌≡◌, ◌≢◌, refl}
use bastiondeck.Prelude.Json.{arr}
use bastiondeck.Client.{get_field}
use bastiondeck.Hooks.{Outcome, ok, fail}
use bastiondeck.Fields.{parse_tags}
use bastiondeck.Fields.Tags.{IsTag, parse_tags-IsTag}
use bastiondeck.Endpoints.Fleet.{host_call}
use bastiondeck.Pages.{calls_of}
use bastiondeck.Pages.Credentials.Secrets.{sent}
use bastiondeck.Pages.Wizard.{items_of}
use bastiondeck.Pages.Hosts.{HostForm, unless_empty, host_request, HostDraft, create_host}

-- A new host is sent in one call, with tags none of which is empty, has a comma or white space at
-- its ends; an id that was not chosen is left out.
sent-host_request :
    (f : HostForm)
    → (sent (js "tags") (host_request f) ≡ some (arr (items_of (parse_tags f.tags))))
      × All IsTag (parse_tags f.tags)
      × (sent (js "credentialId") (host_request f) ≡ unless_empty f.credential_id)
      × (sent (js "jumpHostId") (host_request f) ≡ unless_empty f.jump_host_id)
      × (sent (js "groupId") (host_request f) ≡ unless_empty f.group_id)
unfolding get_field host_call ◌==◌
sent-host_request f = go f.credential_id f.jump_host_id f.group_id
  where
    go :
        (c j g : Text)
        → let r = host_request (record f { credential_id = c; jump_host_id = j; group_id = g }) in
          (sent (js "tags") r ≡ some (arr (items_of (parse_tags f.tags))))
          × All IsTag (parse_tags f.tags)
          × (sent (js "credentialId") r ≡ unless_empty c)
          × (sent (js "jumpHostId") r ≡ unless_empty j)
          × (sent (js "groupId") r ≡ unless_empty g)
    go [] [] [] = (refl, parse_tags-IsTag f.tags, refl, refl, refl)
    go [] [] (_ ∷ _) = (refl, parse_tags-IsTag f.tags, refl, refl, refl)
    go [] (_ ∷ _) [] = (refl, parse_tags-IsTag f.tags, refl, refl, refl)
    go [] (_ ∷ _) (_ ∷ _) = (refl, parse_tags-IsTag f.tags, refl, refl, refl)
    go (_ ∷ _) [] [] = (refl, parse_tags-IsTag f.tags, refl, refl, refl)
    go (_ ∷ _) [] (_ ∷ _) = (refl, parse_tags-IsTag f.tags, refl, refl, refl)
    go (_ ∷ _) (_ ∷ _) [] = (refl, parse_tags-IsTag f.tags, refl, refl, refl)
    go (_ ∷ _) (_ ∷ _) (_ ∷ _) = (refl, parse_tags-IsTag f.tags, refl, refl, refl)

-- The form is put away exactly if the server takes the host; else it stays as it was.
create_host-kept :
    (o : Outcome (Unit {0})) (d : HostDraft)
    → (calls_of (create_host o d).1 ≡ host_request d.form ∷ [])
      × ((o ≢ ok tt) → (create_host o d).0 ≡ d)
unfolding create_host
create_host-kept (ok tt) d = (refl, λ h. absurd (h refl))
create_host-kept (fail m) d = (refl, λ h. refl)
