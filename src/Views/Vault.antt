-- ===== src/Views/Vault.antt =====
-- web/src/pages/Credentials.tsx and web/src/pages/Backup.tsx: what they read and show.
use bastiondeck.Prelude.{
  Bool, true, false, Option, none, some, List, [], ◌∷◌, ◌++◌, Text, js, if◌then◌else◌,
}
use bastiondeck.Prelude.Decimal.{show}
use bastiondeck.Api.Inventory.{Credential, CredentialKind, password, private_key}
use bastiondeck.Format.{short_id, join}
use bastiondeck.Hooks.Async.{View}
use bastiondeck.Auth.{Auth, can}
use bastiondeck.Endpoints.Operations.{Operation, cred_op, backup_op}
use bastiondeck.Endpoints.Session.{CredOp, BackupOp}
use bastiondeck.Pages.Backup.{BackupState, Counts}
use bastiondeck.Pages.Credentials.{CredentialForm, credential_op}
use bastiondeck.Views.{
  Node, text, button, input, choice, row, dialog, only_if, each, Dates, time_of, loading, empty,
  error_box, page_title, or_nil,
}

abbrev pub vault_loads : List Operation
vault_loads = cred_op CredOp.list ∷ []

abbrev kind_label : CredentialKind → Text
kind_label password = js "密码"
kind_label private_key = js "私钥"

abbrev short_print : Option Text → Text
short_print none = js "—"
short_print (some []) = js "—"
short_print (some (c ∷ s)) = short_id (some (c ∷ s)) 20

abbrev credential_row : Dates → Auth → Credential → List Node
credential_row dates s c =
    row c.id false
    ∷ text c.name
    ∷ text (kind_label c.kind)
    ∷ text (short_print c.fingerprint)
    ∷ text (time_of dates (some c.created_at))
    ∷ only_if (can s (js "manage_inventory"))
        (button (js "删除") true (cred_op (CredOp.remove c.id) ∷ []) ∷ [])

abbrev is_no_credential : Option (List Credential) → Bool
is_no_credential none = false
is_no_credential (some []) = true
is_no_credential (some (c ∷ cs)) = false

unfoldable pub credential_table : Dates → Auth → View (List Credential) → List Node
credential_table dates s v =
    if v.loading
    then loading
    else if is_no_credential v.value
    then empty (js "暂无凭据")
    else each (credential_row dates s) (or_nil v.value)

abbrev kind_value : CredentialKind → Text
kind_value password = js "password"
kind_value private_key = js "private_key"

abbrev secret_label : CredentialKind → Text
secret_label password = js "密码"
secret_label private_key = js "私钥内容（-----BEGIN ...-----）"

abbrev pub passphrase_input : CredentialKind → Text → List Node
passphrase_input password s = []
passphrase_input private_key s = input (js "私钥口令（可选）") s ∷ []

abbrev pub credential_dialog : Option CredentialForm → List Node
credential_dialog none = []
credential_dialog (some f) =
    dialog (js "添加凭据")
      ∷ input (js "名称") f.name
      ∷ choice (js "类型") (kind_value f.kind)
          ((js "password", js "密码") ∷ (js "private_key", js "SSH 私钥（PEM/OpenSSH）") ∷ []) []
      ∷ input (secret_label f.kind) f.secret
      ∷ passphrase_input f.kind f.passphrase
    ++ button (js "取消") true [] ∷ button (js "加密保存") true (cred_op (credential_op f) ∷ []) ∷ []

unfoldable pub vault_view :
    Dates → Auth → View (List Credential) → Option CredentialForm → List Node
vault_view dates s v form =
    text (js "凭据保险库") ∷ error_box v.error
    ++ page_title (js "凭据（密文存储，界面永不回显明文）")
        (only_if (can s (js "manage_inventory")) (button (js "+ 添加凭据") true [] ∷ []))
    ++ credential_table dates s v
    ++ credential_dialog form

-- The inputs of the form
pub data CredentialEdit : Type 0 where
  name secret passphrase : Text → CredentialEdit
  kind : CredentialKind → CredentialEdit

unfoldable edit_credential : CredentialEdit → CredentialForm → CredentialForm
edit_credential (CredentialEdit.name v) f = record f { name = v }
edit_credential (CredentialEdit.secret v) f = record f { secret = v }
edit_credential (CredentialEdit.passphrase v) f = record f { passphrase = v }
edit_credential (CredentialEdit.kind k) f = record f { kind = k }

abbrev count_lines : Counts → List Text
count_lines [] = []
count_lines ((k, n) ∷ cs) = (k ++ js ": " ++ show n) ∷ count_lines cs

abbrev pub restore_button : BackupState → Option Counts → List Node
restore_button s none = []
restore_button s (some counts) =
    button (js "校验通过，执行恢复") true (backup_op (BackupOp.restore s.bundle s.pass true) ∷ []) ∷ []

abbrev pub report_text : Option Counts → List Node
report_text none = []
report_text (some counts) = text (join (js "\n") (count_lines counts)) ∷ []

-- The page of the backups
unfoldable pub backup_view : BackupState → List Node
backup_view s =
    text (js "加密备份与恢复") ∷ page_title (js "导出") []
    ++ text (js "导出内容包含主机、凭据密文、任务、审计等逻辑表；用口令派生密钥做 AES-256-GCM 加密。")
      ∷ input (js "备份口令") s.pass
      ∷ button (js "下载加密备份") true (backup_op (BackupOp.«export» s.pass) ∷ [])
      ∷ page_title (js "恢复（先暂存校验，再确认覆盖）") []
    ++ input (js "选择 .bak 文件") []
      ∷ input (js "备份口令") s.pass
      ∷ button (js "暂存并校验") true (backup_op (BackupOp.inspect s.bundle s.pass) ∷ [])
      ∷ restore_button s s.report
    ++ report_text s.report
