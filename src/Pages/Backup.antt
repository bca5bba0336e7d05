-- ===== src/Pages/Backup.antt =====
-- web/src/pages/Backup.tsx: export, inspection and restore of an encrypted backup. `atob`, `btoa` and
-- the clock are the browser's: what they give is an argument.
pub mod Stale
use bastiondeck.Prelude.{
  ℕ, Bool, true, Option, none, some, List, [], ◌∷◌, ◌++◌, Text, js, length, ltb, if◌then◌else◌,
}
use bastiondeck.Prelude.Decimal.{show}
use bastiondeck.Hooks.{Outcome, ok, fail}
use bastiondeck.Toast.{success, error}
use bastiondeck.Endpoints.Calls.{Call}
use bastiondeck.Endpoints.Session.{BackupOp, backup_call}
use bastiondeck.Pages.{Effect, calls, says, downloads, attempt, attempt_only, confirmed}

abbrev pub Counts : Type 0
Counts = List (Text × ℕ)

pub record BackupState : Type 0 where
  pub pass : Text
  pub bundle : Text
  pub report : Option Counts

abbrev pub fresh_backup : BackupState
fresh_backup = record { pass = []; bundle = []; report = none }

pub record Exported : Type 0 where
  pub backup_base64 : Text
  pub bytes : ℕ

abbrev downloaded : Text → ℕ → Outcome Text → List Effect
downloaded stamp n (fail m) = says error m ∷ []
downloaded stamp n (ok bytes) =
    downloads (js "bastiondeck-backup-" ++ stamp ++ js ".bak") bytes
    ∷ says success (js "已导出加密备份（" ++ show n ++ js " 字节）")
    ∷ []

-- `stamp` is the time in the file's name; `decode` is `atob`, which throws on what is no base64.
unfoldable do_export : (Text → Outcome Text) → Text → Outcome Exported → BackupState → List Effect
do_export decode stamp o s =
    if ltb (length s.pass) 8
    then says error (js "备份口令至少 8 位") ∷ []
    else attempt_only (backup_call (BackupOp.«export» s.pass)) o
        (λ r. downloaded stamp r.bytes (decode r.backup_base64))

unfoldable pub inspect : Outcome Counts → BackupState → BackupState × List Effect
inspect o s = attempt (backup_call (BackupOp.inspect s.bundle s.pass)) s o (λ (counts : Counts).
    (record s { report = some counts }, says success (js "暂存校验通过，口令正确、内容完整") ∷ []))

-- `onFile`, when the file has been read: its bytes, encoded
unfoldable pub choose_file : Text → BackupState → BackupState
choose_file encoded s = record s { bundle = encoded }

unfoldable pub type_pass : Text → BackupState → BackupState
type_pass pass s = record s { pass = pass }

abbrev restore_call : BackupState → Call
restore_call s = backup_call (BackupOp.restore s.bundle s.pass true)

-- The button that restores is there once there is a report. Its dialog shows the error of a call that
-- throws.
unfoldable pub restore : Outcome Text → BackupState → List Effect
restore o s = elim s.report [
  | none ↦ []
  | some counts ↦
      confirmed (restore_call s) o
        (λ safety_copy. says success (js "恢复完成，安全副本：" ++ safety_copy) ∷ [])
]
