-- ===== src/Pages/Backup/Stale.antt =====
-- What is restored, against what was inspected.
use bastiondeck.Prelude.{
  true, none, some, List, [], ◌∷◌, Text, ◌≡◌, ◌≢◌, refl, inl, inr, Option-cases,
}
use bastiondeck.Hooks.{Outcome, ok, fail}
use bastiondeck.Endpoints.Session.{BackupOp, backup_call}
use bastiondeck.Pages.{calls_of}
use bastiondeck.Pages.Backup.{
  BackupState, Counts, fresh_backup, inspect, choose_file, type_pass, restore,
}

-- What the user does before the restore.
pub data Deed : Type 0 where
  inspects : Outcome Counts → Deed
  chooses : Text → Deed
  types : Text → Deed

unfoldable deed : Deed → BackupState → BackupState
unfolding inspect choose_file type_pass
deed (inspects o) s = (inspect o s).0
deed (chooses encoded) s = choose_file encoded s
deed (types pass) s = type_pass pass s

unfoldable pub deeds : List Deed → BackupState → BackupState
unfolding deed
deeds [] s = s
deeds (d ∷ ds) s = deeds ds (deed d s)

-- Some inspection among the deeds went well.
abbrev pub HasInspected : List Deed → Type 0
HasInspected [] = ⊥
HasInspected (inspects (ok counts) ∷ ds) = Unit
HasInspected (inspects (fail m) ∷ ds) = HasInspected ds
HasInspected (chooses encoded ∷ ds) = HasInspected ds
HasInspected (types pass ∷ ds) = HasInspected ds

HasInspected-of_report :
    (ds : List Deed) (s : BackupState) (counts : Counts)
    → s.report ≡ none
    → (deeds ds s).report ≡ some counts
    → HasInspected ds
unfolding deeds
HasInspected-of_report [] s counts h k = absurd (cc)
HasInspected-of_report (inspects (ok c) ∷ ds) s counts h k = tt
HasInspected-of_report (inspects (fail m) ∷ ds) s counts h k =
    HasInspected-of_report ds s counts h k
HasInspected-of_report (chooses encoded ∷ ds) s counts h k =
    HasInspected-of_report ds (choose_file encoded s) counts (unfold choose_file in h) k
HasInspected-of_report (types pass ∷ ds) s counts h k =
    HasInspected-of_report ds (type_pass pass s) counts (unfold type_pass in h) k

-- On a page just opened, the button that restores makes no call before an inspection went well.
pub restore_needs_inspection :
    (ds : List Deed) (o : Outcome Text)
    → calls_of (restore o (deeds ds fresh_backup)) ≢ []
    → HasInspected ds
unfolding restore
restore_needs_inspection ds o h = elim (Option-cases (deeds ds fresh_backup).report) [
  | inl e ↦ absurd (h (rw e refl))
  | inr (counts, e) ↦ HasInspected-of_report ds fresh_backup counts refl e
]

-- Once some inspection went well, another file and another passphrase can be put in its place, and
-- the button then restores that file with that passphrase, neither of which was ever inspected.
pub restore_stale :
    (s : BackupState) (counts : Counts) (encoded pass : Text) (o : Outcome Text)
    → s.report ≡ some counts
    → calls_of (restore o (deeds (chooses encoded ∷ types pass ∷ []) s))
      ≡ backup_call (BackupOp.restore encoded pass true) ∷ []
unfolding restore deeds
restore_stale s counts encoded pass (ok copy) h = rw h refl
restore_stale s counts encoded pass (fail m) h = rw h refl
