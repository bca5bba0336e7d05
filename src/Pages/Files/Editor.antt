-- ===== src/Pages/Files/Editor.antt =====
-- What the editor writes back.
use bastiondeck.Prelude.{
  ◌<◌, false, Option, none, [], ◌∷◌, Text, leb, ltb, if◌then◌else◌, ◌≡◌, refl, arith,
}
use bastiondeck.Hooks.{Outcome, ok, fail}
use bastiondeck.Endpoints.Fleet.{FsOp, fs_call}
use bastiondeck.Pages.{calls_of}
use bastiondeck.Pages.Files.{join, FileRead, Editing, utf8_from_b64, open_file, save_button, edit}

module _ (encode : Text → Text) (decode : Text → Option Text) where
  -- A file that was read with fewer than 1,000,000 bytes is written back by the button in one call:
  -- to the path that it was read from, with the text of the editor, and with the hash that came with
  -- the read, whether or not the server takes it. A larger one is not written.
  pub calls_of-save_button :
      (host_id path name content : Text) (r : FileRead) (before : Option Editing)
      (o : Outcome (Unit {0}))
      → let opened = (open_file decode host_id path name (ok r) before).0 in
        calls_of (save_button encode host_id o (edit content opened)).1 ≡ (
          if ltb r.size 1000000
          then fs_call (FsOp.write host_id (join path name) (encode content) r.sha256) ∷ []
          else [])
  unfolding open_file save_button
  calls_of-save_button host_id path name content r before (ok u) = ground arith
  calls_of-save_button host_id path name content r before (fail m) = ground arith

  -- A file of fewer than 1,000,000 bytes whose content is not text opens as an empty one, and the
  -- button, with nothing typed, writes an empty file over it, with the hash that came with the read.
  pub emptied_file :
      (host_id path name : Text) (r : FileRead) (before : Option Editing) (o : Outcome (Unit {0}))
      → r.size < 1000000
      → decode r.content_base64 ≡ none
      → let opened = (open_file decode host_id path name (ok r) before).0 in
        calls_of (save_button encode host_id o opened).1
        ≡ fs_call (FsOp.write host_id (join path name) (encode []) r.sha256) ∷ []
  unfolding open_file save_button utf8_from_b64
  emptied_file host_id path name r before (ok u) small h =
      let shut : leb 1000000 r.size ≡ false = ground arith in rw (shut, utf8_from_b64, h) refl
  emptied_file host_id path name r before (fail m) small h =
      let shut : leb 1000000 r.size ≡ false = ground arith in rw (shut, utf8_from_b64, h) refl
