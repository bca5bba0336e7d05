-- ===== src/Pages.antt =====
-- web/src/pages: the handlers of the pages, as functions from a page's state and the outcome of the
-- call that they await to the next state and what they do besides. Every error that a call throws is
-- an `Error`, so its message is shown and the fallback beside it is never used.
pub mod Users
pub mod Wizard
pub mod Tail
pub mod Files
pub mod Snippets
pub mod Jobs
pub mod Tunnels
pub mod Credentials
pub mod Runs
pub mod Backup
pub mod Groups
pub mod Forms
pub mod Operations
pub mod Account
pub mod Hosts
pub mod Entry
use bastiondeck.Prelude.{List, [], ◌∷◌, Text}
use bastiondeck.Hooks.{Outcome, ok, fail}
use bastiondeck.Toast.{ToastKind, error}
use bastiondeck.Endpoints.Calls.{Call}

-- `goes` is `navigate`, or the hash that the router follows; `reloads` fetches again what the page
-- lists.
pub data Effect : Type 0 where
  calls : Call → Effect
  says : ToastKind → Text → Effect
  reloads : Effect
  goes : Text → Effect
  downloads : Text → Text → Effect

-- The calls among the effects, in order.
abbrev pub calls_of : List Effect → List Call
calls_of [] = []
calls_of (calls c ∷ es) = c ∷ calls_of es
calls_of (says k m ∷ es) = calls_of es
calls_of (reloads ∷ es) = calls_of es
calls_of (goes to ∷ es) = calls_of es
calls_of (downloads name bytes ∷ es) = calls_of es

-- `try { await call; … } catch (e) { toast.error(e.message) }`: what follows the call, if it is
-- answered, gives the next state and the effects; if it throws, the state stays.
abbrev pub attempt {ℓ κ} :
    {A : Type ℓ} {S : Type κ} → Call → S → Outcome A → (A → S × List Effect) → S × List Effect
attempt c s (fail m) then = (s, calls c ∷ says error m ∷ [])
attempt c s (ok a) then = let (s', es) = then a in (s', calls c ∷ es)

-- The same for a handler that keeps no state
abbrev pub attempt_only {ℓ} : {A : Type ℓ} → Call → Outcome A → (A → List Effect) → List Effect
attempt_only c (fail m) then = calls c ∷ says error m ∷ []
attempt_only c (ok a) then = calls c ∷ then a

-- The `onConfirm` of a `ConfirmButton`, which shows the error of a call that throws in its dialog
abbrev pub confirmed {ℓ} : {A : Type ℓ} → Call → Outcome A → (A → List Effect) → List Effect
confirmed c (fail m) then = calls c ∷ []
confirmed c (ok a) then = calls c ∷ then a
