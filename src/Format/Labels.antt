-- ===== src/Format/Labels.antt =====
-- Labels and classes tell the eight target states apart.
use bastiondeck.Prelude.{◌≡◌, refl, arith}
use bastiondeck.RunMath.Status.{
  Status, pending, running, success, failed, timeout, cancelled, lost, skipped, name,
}
use bastiondeck.Format.{status_label, badge_class}

-- Of the eight target states, two whose labels are the same are the same.
status_label_injective : (e f : Status) → status_label (name e) ≡ status_label (name f) → e ≡ f
unfolding status_label
status_label_injective pending pending h = refl
status_label_injective running pending h = ground arith
status_label_injective success pending h = ground arith
status_label_injective failed pending h = ground arith
status_label_injective timeout pending h = ground arith
status_label_injective cancelled pending h = ground arith
status_label_injective lost pending h = ground arith
status_label_injective skipped pending h = ground arith
status_label_injective _ _ h = ground arith

-- Of the eight target states, two whose badges have the same class are the same.
badge_class_injective : (e f : Status) → badge_class (name e) ≡ badge_class (name f) → e ≡ f
unfolding badge_class
badge_class_injective pending pending h = refl
badge_class_injective running pending h = ground arith
badge_class_injective success pending h = ground arith
badge_class_injective failed pending h = ground arith
badge_class_injective timeout pending h = ground arith
badge_class_injective cancelled pending h = ground arith
badge_class_injective lost pending h = ground arith
badge_class_injective skipped pending h = ground arith
badge_class_injective _ _ h = ground arith
