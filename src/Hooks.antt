-- ===== src/Hooks.antt =====
-- web/src/lib/hooks.ts: the state that `useAsync` and `useDebouncedValue` keep, as steps between
-- which anything else may happen. A promise settles with an outcome that the environment chooses.
pub mod Async
pub mod Order
pub mod Debounce
use bastiondeck.Prelude.{Text}

-- How a promise settles: with a value, or rejected with a message, which is `e.message` of an
-- `Error` and `String(e)` of anything else.
pub data Outcome {ℓ} (A : Type ℓ) : Type ℓ where
  ok : A → Outcome A
  fail : Text → Outcome A
