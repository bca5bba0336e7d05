-- ===== src/Views/Wizard/Ticks.antt =====
-- The boxes that the wizard shows as ticked.
use bastiondeck.Pages.Wizard.{Wizard}
