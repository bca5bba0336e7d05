-- ===== src/Pages/Files.antt =====
-- web/src/pages/Files.tsx: the paths that the file manager forms, and the editor. `encode` and
-- `decode` stand for the base64 helpers of web/src/api/endpoints.ts, built on the browser's functions;
-- `decode` is `none` where those throw.
pub mod Paths
pub mod Editor
pub mod Tree
pub mod Crumbs
use bastiondeck.Prelude.{
  ℕ, Bool, true, false, not, Option, none, some, List, [], ◌∷◌, ◌++◌, Text, js, eqb, leb, filter,
  is_empty, if◌then◌else◌,
}
use bastiondeck.Hooks.{Outcome, ok, fail}
use bastiondeck.Toast.{ToastKind, success, error}
use bastiondeck.Endpoints.Calls.{Call}
use bastiondeck.Endpoints.Fleet.{FsOp, fs_call}
use bastiondeck.Pages.{Effect, calls, says, reloads}

abbrev pub is_slash : ℕ → Bool
is_slash c = eqb c b'/'

abbrev pub joined : ℕ → Text → Text
joined c [] = c ∷ []
joined c (d ∷ s) = if is_slash c then (if is_slash d then d ∷ s else c ∷ d ∷ s) else c ∷ d ∷ s

-- `s.replace(/\/+/g, '/')`
unfoldable pub squeeze : Text → Text
squeeze [] = []
squeeze (c ∷ s) = joined c (squeeze s)

-- `s.replace(/\/$/, '')`
unfoldable pub without_last_slash : Text → Text
without_last_slash [] = []
without_last_slash (c ∷ []) = if is_slash c then [] else c ∷ []
without_last_slash (c ∷ d ∷ s) = c ∷ without_last_slash (d ∷ s)

-- The function `join`
unfoldable pub join : Text → Text → Text
unfolding squeeze without_last_slash
join dir name = squeeze (without_last_slash dir ++ js "/" ++ name)

abbrev pub starts_with_slash : Text → Bool
starts_with_slash [] = false
starts_with_slash (c ∷ s) = is_slash c

-- The path that `go` sets
unfoldable pub go : Text → Text → Text
unfolding squeeze without_last_slash
go path p = squeeze (if starts_with_slash p then p else without_last_slash path ++ js "/" ++ p)

abbrev pub cons_to_first : ℕ → List Text → List Text
cons_to_first c [] = (c ∷ []) ∷ []
cons_to_first c (s ∷ ss) = (c ∷ s) ∷ ss

-- `path.split('/')`
unfoldable pub split : Text → List Text
split [] = [] ∷ []
split (c ∷ s) = let rest = split s in if is_slash c then [] ∷ rest else cons_to_first c rest

unfoldable pub crumbs : Text → List Text
unfolding split
crumbs path = filter (λ s. not (is_empty s)) (split path)

-- `ss.join('/')`
unfoldable pub slashed : List Text → Text
slashed [] = []
slashed (s ∷ []) = s
slashed (s ∷ t ∷ ss) = s ++ js "/" ++ slashed (t ∷ ss)

abbrev pub all_but_last : List Text → List Text
all_but_last [] = []
all_but_last (s ∷ []) = []
all_but_last (s ∷ t ∷ ss) = s ∷ all_but_last (t ∷ ss)

-- The row `..`
unfoldable pub up : Text → Text
unfolding crumbs slashed
up path = js "/" ++ slashed (all_but_last (crumbs path))

pub record Editing : Type 0 where
  pub path : Text
  pub sha : Option Text
  pub content : Text
  pub read_only : Bool

-- What the server answers to a read.
pub record FileRead : Type 0 where
  pub size : ℕ
  pub sha256 : Option Text
  pub content_base64 : Text

-- `try { … } catch { return '' }`
unfoldable pub utf8_from_b64 : (Text → Option Text) → Text → Text
utf8_from_b64 decode b64 = elim (decode b64) [ none ↦ [] | some s ↦ s ]

-- `openFile`
unfoldable pub open_file :
    (Text → Option Text)
    → Text
    → Text
    → Text
    → Outcome FileRead
    → Option Editing
    → Option Editing × List Effect
unfolding utf8_from_b64 join
open_file decode host_id path name (ok r) e = (
  some (record {
    path = join path name;
    sha = r.sha256;
    content = utf8_from_b64 decode r.content_base64;
    read_only = leb 1000000 r.size;
  }),
  calls (fs_call (FsOp.read host_id (join path name) 1000000)) ∷ [],
)
open_file decode host_id path name (fail m) e =
    (e, calls (fs_call (FsOp.read host_id (join path name) 1000000)) ∷ says error m ∷ [])

abbrev write_call : (Text → Text) → Text → Editing → Call
write_call encode host_id e = fs_call (FsOp.write host_id e.path (encode e.content) e.sha)

-- `saveFile`, and its button, which a file that is only to be read disables.
unfoldable save_file :
    (Text → Text) → Text → Outcome (Unit {0}) → Option Editing → Option Editing × List Effect
save_file encode host_id o none = (none, [])
save_file encode host_id (ok _) (some e) = (
  none,
  calls (write_call encode host_id e) ∷ says success (js "已保存（乐观并发：远端未被改动才写入）") ∷ reloads ∷ [],
)
save_file encode host_id (fail m) (some e) =
    (some e, calls (write_call encode host_id e) ∷ says error m ∷ [])

unfoldable pub save_button :
    (Text → Text) → Text → Outcome (Unit {0}) → Option Editing → Option Editing × List Effect
unfolding save_file
save_button encode host_id o none = (none, [])
save_button encode host_id o (some e) =
    if e.read_only then (some e, []) else save_file encode host_id o (some e)

-- The `onChange` of the text area
abbrev pub edit : Text → Option Editing → Option Editing
edit content none = none
edit content (some e) = some (record e { content = content })

-- `upload`; its content is bytes, encoded already.
unfoldable upload : Text → Text → Text → Text → Outcome (Unit {0}) → List Effect
unfolding join
upload host_id path name bytes (ok _) =
    calls (fs_call (FsOp.write host_id (join path name) bytes none))
    ∷ says success (js "已上传 " ++ name)
    ∷ reloads
    ∷ []
upload host_id path name bytes (fail m) =
    calls (fs_call (FsOp.write host_id (join path name) bytes none)) ∷ says error m ∷ []
