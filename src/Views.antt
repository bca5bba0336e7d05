-- ===== src/Views.antt =====
-- What the components render: the parts of a page in the order of the document, without boxes and
-- styles. A button carries the calls that it may make, once the checks of its handler pass. The
-- widgets are those of web/src/components/Common.tsx, web/src/components/Badge.tsx and
-- web/src/components/Modal.tsx.
pub mod Widgets
pub mod Served
pub mod Offered
pub mod Dashboard
pub mod Groups
pub mod Hosts
pub mod HostDetail
pub mod Users
pub mod Runs
pub mod Jobs
pub mod Wizard
pub mod Files
pub mod Tunnels
pub mod Vault
pub mod Snippets
pub mod Agents
pub mod Audit
pub mod Settings
use bastiondeck.Prelude.{
  ℕ, ◌*◌, Bool, true, false, Option, none, some, List, [], ◌∷◌, ◌++◌, Text, js, All, is_empty,
  if◌then◌else◌, ltb, ◌≡◌,
}
use bastiondeck.Prelude.Ints.{ℤ}
use bastiondeck.Endpoints.Operations.{Operation}
use bastiondeck.Format.{badge_class, status_label, fmt_time, fmt_relative}

-- A badge has a class and a label, `none` where a function of the prototype was found; a button a
-- label, whether it is enabled, and its calls; a choice its value, its options and what choosing
-- calls; a row the key of a line of a table, and whether it is marked; a bar its height, as a
-- fraction of a hundredth.
pub data Node : Type 0 where
  text : Text → Node
  badge : Option Text → Option Text → Node
  link : Text → Text → Node
  button : Text → Bool → List Operation → Node
  input : Text → Text → Node
  tick : Bool → Node
  choice : Text → Text → List (Text × Text) → List Operation → Node
  choices : Text → List Text → List (Text × Text) → Node
  row : Text → Bool → Node
  bar : ℕ → ℕ → Node
  dialog : Text → Node
  terminal : Text → Node
  feed : Node

abbrev pub asks : Node → List Operation
asks (text s) = []
asks (badge c l) = []
asks (link to l) = []
asks (button l enabled cs) = cs
asks (input l v) = []
asks (tick b) = []
asks (choice l v os cs) = cs
asks (choices l vs os) = []
asks (row k marked) = []
asks (bar n d) = []
asks (dialog title) = []
asks (terminal host) = []
asks feed = []

-- Every call that a control among these makes
unfoldable pub asked : List Node → List Operation
asked [] = []
asked (n ∷ ns) = asks n ++ asked ns

-- `b && <…/>`
unfoldable pub only_if : Bool → List Node → List Node
only_if b ns = if b then ns else []

-- `xs.map((x) => <…/>)`
unfoldable pub each {ℓ} : {A : Type ℓ} → (A → List Node) → List A → List Node
each f [] = []
each f (a ∷ as_) = f a ++ each f as_

-- The browser's dates: `new Date(·).getTime()`, `none` for NaN, `toLocaleString` of a time, and
-- `Date.now()`.
pub record Dates : Type 0 where
  pub time : Text → Option ℤ
  pub locale : ℤ → Text
  pub now : ℤ

abbrev pub time_of : Dates → Option Text → Text
time_of d = fmt_time d.time d.locale

abbrev pub age_at : Dates → Option Text → Text
age_at d = fmt_relative d.time d.now

abbrev label_or : Option Text → Text → Option Text
label_or none status = status_label status
label_or (some l) status = some l

-- `StatusBadge`, with its label if it is given
abbrev pub status_badge : Text → Option Text → Node
status_badge status label = badge (badge_class status) (label_or label status)

-- `Empty`
abbrev pub empty : Text → List Node
empty s = text s ∷ []

-- `Loading`
abbrev pub loading : List Node
loading = text (js "加载中…") ∷ []

abbrev unless_empty : Text → List Node
unless_empty [] = []
unless_empty (c ∷ s) = text (js "⚠ " ++ c ∷ s) ∷ []

-- `ErrorBox`
abbrev pub error_box : Option Text → List Node
error_box none = []
error_box (some m) = unless_empty m

-- `PageTitle`
abbrev pub page_title : Text → List Node → List Node
page_title title extra = text title ∷ extra

-- `Stat`
abbrev pub stat : Text → Text → List Node
stat value label = text value ∷ text label ∷ []

abbrev pub or_dash : Option Text → Text
or_dash none = js "—"
or_dash (some s) = s

-- `KeyVal`
abbrev pub key_val : List (Text × Option Text) → List Node
key_val rows =
    each (λ (r : Text × Option Text). row r.0 false ∷ text r.0 ∷ text (or_dash r.1) ∷ []) rows

-- `a || b` of two texts that may be missing
abbrev pub or_else : Option Text → Option Text → Option Text
or_else none b = b
or_else (some []) b = b
or_else (some (c ∷ s)) b = some (c ∷ s)

-- `data ?? null`, for a call that may have been skipped
abbrev pub flat {ℓ} : {A : Type ℓ} → Option (Option A) → Option A
flat none = none
flat (some o) = o

-- `xs ?? []`
abbrev pub or_nil {ℓ} : {A : Type ℓ} → Option (List A) → List A
or_nil none = []
or_nil (some xs) = xs
