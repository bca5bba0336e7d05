-- ===== src/Prelude/Json.antt =====
-- Values that the source types as `unknown`: parsed JSON.
use mathlib.Core.Bool.{Bool}
use bastiondeck.Prelude.Texts.{Text}
use bastiondeck.Prelude.Ints.{ℤ}

mutual
  pub data Json : Type 0 where
    null : Json
    bool : Bool → Json
    num : ℤ → Json
    str : Text → Json
    arr : Items → Json
    obj : Fields → Json

  pub data Items : Type 0 where
    nil : Items
    cons : Json → Items → Items

  pub data Fields : Type 0 where
    end : Fields
    field : Text → Json → Fields → Fields
