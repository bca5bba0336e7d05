-- ===== src/Prelude/Objects.antt =====
-- Plain objects used as dictionaries. A key that is not an own property may still be found on
-- `Object.prototype`, where its value is a function or an object.
use mathlib.Core.List.{List, [], ◌∷◌}
use bastiondeck.Prelude.Tests.{if◌then◌else◌}
use bastiondeck.Prelude.Texts.{Text, js, ◌==◌}
use bastiondeck.Prelude.Sets.{contains}

pub data Slot {ℓ} (A : Type ℓ) : Type ℓ where
  own : A → Slot A
  inherited : Slot A
  absent : Slot A

abbrev pub prototype_names : List Text
prototype_names =
    js "constructor"
    ∷ js "__defineGetter__"
    ∷ js "__defineSetter__"
    ∷ js "hasOwnProperty"
    ∷ js "__lookupGetter__"
    ∷ js "__lookupSetter__"
    ∷ js "isPrototypeOf"
    ∷ js "propertyIsEnumerable"
    ∷ js "toString"
    ∷ js "valueOf"
    ∷ js "__proto__"
    ∷ js "toLocaleString"
    ∷ []

-- `o[k]`
unfoldable pub slot {ℓ} : {A : Type ℓ} → Text → List (Text × A) → Slot A
unfolding ◌==◌ contains
slot k [] = if contains k prototype_names then inherited else absent
slot k ((j, v) ∷ o) = if j == k then own v else slot k o
