-- ===== src/Views/Files.antt =====
-- web/src/pages/Files.tsx: what the file manager reads and shows, and which host it starts with.
-- `iso` is the text of a time in seconds, as `toISOString` writes it.
use bastiondeck.Prelude.{
  ℕ, true, false, not, Option, none, some, List, [], ◌∷◌, ◌++◌, Text, js, ◌==◌, map, is_empty,
  if◌then◌else◌,
}
use bastiondeck.Prelude.Ints.{ℤ}
use bastiondeck.Api.Inventory.{Host, DirEntry}
use bastiondeck.Format.{finite, fmt_bytes, mode_string}
use bastiondeck.Hooks.Async.{View}
use bastiondeck.Endpoints.Operations.{Operation, host_op, fs_op}
use bastiondeck.Endpoints.Fleet.{HostOp, FsOp}
use bastiondeck.Pages.Files.{join, crumbs, Editing}
use bastiondeck.Views.{
  Node, text, button, input, choice, row, dialog, only_if, each, Dates, time_of, loading, error_box,
  page_title, flat, or_nil,
}

pub record FilesPage : Type 0 where
  pub hosts : View (List Host)
  pub host_id : Text
  pub path : Text
  pub listing : View (Option (List DirEntry))
  pub editing : Option Editing
  pub mkdir_at : Option Text
  pub rename : Option (DirEntry × Text)

abbrev first_host : Text → Option (List Host) → Text
first_host id none = id
first_host id (some []) = id
first_host id (some (h ∷ hs)) = h.id

-- The effect that chooses a host while none is chosen
unfoldable start_host : FilesPage → FilesPage
start_host p = record p {
  host_id = if is_empty p.host_id then first_host p.host_id p.hosts.value else p.host_id;
}

-- The choice of another host goes to its root.
unfoldable set_host : Text → FilesPage → FilesPage
set_host id p = record p { host_id = id; path = js "/" }

abbrev pub listing_load : Text → Text → List Operation
listing_load [] path = []
listing_load (c ∷ id) path = fs_op (FsOp.list (c ∷ id) path) ∷ []

unfoldable pub files_loads : FilesPage → List Operation
files_loads p = host_op (HostOp.list none) ∷ listing_load p.host_id p.path

-- The file that the button of a new file opens in the editor
unfoldable new_file : Text → Editing
unfolding join
new_file path = record {
  path = join path (js "newfile.txt");
  sha = none;
  content = [];
  read_only = false;
}

abbrev pub crumb_nodes : List Text → List Node
crumb_nodes [] = []
crumb_nodes (c ∷ cs) = button c true [] ∷ crumb_nodes cs

module _ (dates : Dates) (iso : ℤ → Text) (to_fixed : ℕ → ℕ → ℕ → Text) where
  abbrev entry_row : Text → Text → DirEntry → List Node
  entry_row host_id path e =
      row e.name false
        ∷ text ((if e.is_dir then js "📁 " else js "📄 ") ++ e.name)
        ∷ text (mode_string e.mode)
        ∷ text (if e.is_dir then js "—" else fmt_bytes to_fixed (finite e.size))
        ∷ text (time_of dates (some (iso e.mtime)))
        ∷ only_if (not e.is_dir)
            (button (js "编辑") true (fs_op (FsOp.read host_id (join path e.name) 1000000) ∷ []) ∷ [])
      ++ button (js "重命名") true []
        ∷ button (js "删") true (fs_op (FsOp.remove host_id (join path e.name)) ∷ [])
        ∷ []

  unfoldable pub listing_table : FilesPage → List Node
  unfolding mode_string join ◌==◌
  listing_table p =
      if p.listing.loading
      then loading
      else only_if (not (p.path == js "/")) (button (js "..") true [] ∷ [])
        ++ each (entry_row p.host_id p.path) (or_nil (flat p.listing.value))

  abbrev encoded_save : (Text → Text) → Text → Editing → List Operation
  encoded_save encode host_id e = fs_op (FsOp.write host_id e.path (encode e.content) e.sha) ∷ []

  abbrev pub editor : (Text → Text) → Text → Option Editing → List Node
  editor encode host_id none = []
  editor encode host_id (some e) =
      dialog e.path ∷ input [] e.content ∷ only_if e.read_only (text (js "文件过大，只读") ∷ [])
      ++ button (js "取消") true []
        ∷ button (js "保存") (not e.read_only) (encoded_save encode host_id e)
        ∷ []

  -- `MkdirModal`, with the name that has been typed
  abbrev pub mkdir_modal : Text → Text → Option Text → List Node
  mkdir_modal host_id path none = []
  mkdir_modal host_id path (some name) =
      dialog (js "新建目录")
      ∷ input (js "目录名") name
      ∷ button (js "取消") true []
      ∷ button (js "创建") (not (is_empty name)) (fs_op (FsOp.mkdir host_id (join path name)) ∷ [])
      ∷ []

  -- `RenameModal`, with the name that has been typed
  abbrev pub rename_modal : Text → Text → Option (DirEntry × Text) → List Node
  rename_modal host_id path none = []
  rename_modal host_id path (some (e, name)) =
      dialog (js "重命名 " ++ e.name)
      ∷ input [] name
      ∷ button (js "取消") true []
      ∷ button (js "确定") true (fs_op (FsOp.rename host_id (join path e.name) (join path name)) ∷ [])
      ∷ []

  -- An upload writes the bytes of the file that is chosen, of this name and encoded.
  unfoldable pub files_view : (Text → Text) → Text → Text → FilesPage → List Node
  unfolding crumbs
  files_view encode file_name file_bytes p =
      text (js "文件管理") ∷ error_box p.listing.error
      ++ page_title [] (
          choice [] p.host_id (map (λ (h : Host). (h.id, h.name)) (or_nil p.hosts.value)) []
          ∷ button (js "根目录") true []
          ∷ button (js "+ 目录") true []
          ∷ button (js "+ 新建文件") true []
          ∷ button (js "上传") true
              (fs_op (FsOp.write p.host_id (join p.path file_name) file_bytes none) ∷ [])
          ∷ [])
      ++ button (js "/") true [] ∷ crumb_nodes (crumbs p.path)
      ++ listing_table p
      ++ editor encode p.host_id p.editing
      ++ mkdir_modal p.host_id p.path p.mkdir_at
      ++ rename_modal p.host_id p.path p.rename
