-- ===== src/Format.antt =====
-- web/src/lib/format.ts, and the class names of web/src/components/Badge.tsx. `toFixed`, `Date` and
-- its `toLocaleString` are parameters; `download` only drives the browser and is left out.
pub mod Labels
pub mod Ages
pub mod Modes
pub mod Sizes
use bastiondeck.Prelude.{
  ℕ, zero, suc, ◌+◌, ◌-◌, ◌*◌, ◌/◌, ◌%◌, ◌^◌, Bool, true, false, Option, none, some, List, [], ◌∷◌,
  ◌++◌, Text, js, length, take, ltb, leb, eqb, is_empty, if◌then◌else◌,
}
use bastiondeck.Prelude.Ints.{ℤ, pos, negsuc}
use bastiondeck.Prelude.Decimal.{show}
use bastiondeck.Prelude.Objects.{Slot, own, inherited, absent, slot}

unfoldable pub short_id : Option Text → ℕ → Text
short_id none n = js "—"
short_id (some []) n = js "—"
short_id (some (c ∷ id)) n = if ltb n (length (c ∷ id)) then take n (c ∷ id) else c ∷ id

-- `time` is `new Date(·).getTime()`, `none` for NaN; `locale` is `toLocaleString` of that time.
unfoldable pub fmt_time : (Text → Option ℤ) → (ℤ → Text) → Option Text → Text
fmt_time time locale none = js "—"
fmt_time time locale (some []) = js "—"
fmt_time time locale (some (c ∷ iso)) = elim (time (c ∷ iso)) [ none ↦ c ∷ iso | some t ↦ locale t ]

pub data AgeUnit : Type 0 where
  seconds minutes hours days : AgeUnit

-- The number and the unit shown for an age in whole seconds.
unfoldable pub age_of : ℕ → ℕ × AgeUnit
age_of s =
    let m = s / 60 in
    let h = m / 60 in
    let d = h / 24 in
    if ltb s 60
    then (s, seconds)
    else if ltb m 60
    then (m, minutes)
    else if ltb h 24
    then (h, hours)
    else (d, days)

abbrev suffix : AgeUnit → Text
suffix seconds = js "s ago"
suffix minutes = js "m ago"
suffix hours = js "h ago"
suffix days = js "d ago"

-- `now - then`, in milliseconds, and `Math.floor(diff / 1000)`
abbrev difference : ℤ → ℤ → ℤ
difference (pos a) (pos b) = if leb b a then pos (a - b) else negsuc (b - a - 1)
difference (pos a) (negsuc b) = pos (a + b + 1)
difference (negsuc a) (pos b) = negsuc (a + b)
difference (negsuc a) (negsuc b) = if leb a b then pos (b - a) else negsuc (a - b - 1)

-- A time that lies ahead has a negative age, which is less than 60 seconds.
unfoldable fmt_age : ℤ → Text
unfolding age_of
fmt_age (pos ms) = show (age_of (ms / 1000)).0 ++ suffix (age_of (ms / 1000)).1
fmt_age (negsuc n) = js "-" ++ show (suc (n / 1000)) ++ js "s ago"

unfoldable pub fmt_relative : (Text → Option ℤ) → ℤ → Option Text → Text
unfolding fmt_age
fmt_relative time now none = js "—"
fmt_relative time now (some []) = js "—"
fmt_relative time now (some (c ∷ iso)) = elim (time (c ∷ iso)) [
  | none ↦ c ∷ iso
  | some t ↦ fmt_age (difference now t)
]

abbrev unit_name : ℕ → Text
unit_name zero = js "B"
unit_name (suc zero) = js "KiB"
unit_name (suc (suc zero)) = js "MiB"
unit_name (suc (suc (suc zero))) = js "GiB"
unit_name (suc (suc (suc (suc i)))) = js "TiB"

-- The loop `while (v >= 1024 && i < units.length - 1) { v /= 1024; i++ }`: the first number is the
-- rounds that `i` allows, and `v` is `n / d`, exactly, since it is divided by powers of two only.
unfoldable pub unit_from : ℕ → ℕ → ℕ → ℕ → ℕ × ℕ
unit_from zero n d i = (i, d)
unit_from (suc rounds) n d i =
    let next = unit_from rounds n (d * 1024) (i + 1) in if leb (d * 1024) n then next else (i, d)

unfoldable pub unit_of : ℕ → ℕ × ℕ
unfolding unit_from
unit_of n = unit_from 4 n 1 0

-- A number that may be no finite one.
pub data Amount : Type 0 where
  finite : ℤ → Amount
  not_finite : Amount

-- `to_fixed a b k` is `(a / b).toFixed(k)`.
unfoldable pub fmt_bytes : (ℕ → ℕ → ℕ → Text) → Amount → Text
unfolding unit_of
fmt_bytes to_fixed not_finite = js "0 B"
fmt_bytes to_fixed (finite (negsuc n)) = js "0 B"
fmt_bytes to_fixed (finite (pos n)) =
    let (i, d) = unit_of n in to_fixed n d (if eqb i 0 then 0 else 1) ++ js " " ++ unit_name i

unfoldable pub fmt_uptime : ℤ → Text
fmt_uptime (negsuc n) = js "—"
fmt_uptime (pos sec) =
    let d = sec / 86400 in
    let h = (sec % 86400) / 3600 in
    let m = (sec % 3600) / 60 in
    if eqb sec 0
    then js "—"
    else if ltb 0 d
    then show d ++ js "d " ++ show h ++ js "h"
    else if ltb 0 h
    then show h ++ js "h " ++ show m ++ js "m"
    else show m ++ js "m"

-- `['x', 'w', 'r'][shift % 3]`
abbrev letter : ℕ → ℕ
letter zero = b'x'
letter (suc zero) = b'w'
letter (suc (suc i)) = b'r'

unfoldable pub mode_char : ℕ → ℕ → ℕ
mode_char mode shift = if eqb ((mode / 2 ^ shift) % 2) 0 then b'-' else letter (shift % 3)

-- The loop from the given shift down to 0; `rounds` is the shift plus one.
unfoldable mode_from : ℕ → ℕ → Text → Text
unfolding mode_char
mode_from zero mode out = out
mode_from (suc shift) mode out = mode_from shift mode (out ++ mode_char mode shift ∷ [])

unfoldable pub mode_string : ℕ → Text
unfolding mode_from
mode_string mode = mode_from 9 mode []

abbrev status_labels : List (Text × Text)
status_labels =
    (js "pending", js "等待")
    ∷ (js "running", js "执行中")
    ∷ (js "success", js "成功")
    ∷ (js "failed", js "失败")
    ∷ (js "timeout", js "超时")
    ∷ (js "cancelled", js "已取消")
    ∷ (js "lost", js "失联")
    ∷ (js "skipped", js "跳过")
    ∷ (js "starting", js "建立中")
    ∷ (js "active", js "运行中")
    ∷ (js "stopped", js "已停止")
    ∷ (js "error", js "异常")
    ∷ (js "approved", js "已批准")
    ∷ (js "blocked", js "已拉黑")
    ∷ (js "denied", js "已拒绝")
    ∷ (js "failure", js "失败")
    ∷ []

-- `table[s] ?? missing`; `none` stands for a function found on the prototype.
abbrev look_up : List (Text × Text) → Text → Text → Option Text
look_up table s missing = elim (slot s table) [
  | own l ↦ some l
  | inherited ↦ none
  | absent ↦ some missing
]

unfoldable pub status_label : Text → Option Text
unfolding slot
status_label s = look_up status_labels s s

abbrev badge_classes : List (Text × Text)
badge_classes =
    (js "success", js "b-success")
    ∷ (js "failed", js "b-failed")
    ∷ (js "lost", js "b-lost")
    ∷ (js "running", js "b-running")
    ∷ (js "pending", js "b-pending")
    ∷ (js "timeout", js "b-timeout")
    ∷ (js "cancelled", js "b-cancelled")
    ∷ (js "skipped", js "b-skipped")
    ∷ (js "online", js "b-success")
    ∷ (js "offline", js "b-timeout")
    ∷ (js "approved", js "b-success")
    ∷ (js "blocked", js "b-failed")
    ∷ (js "active", js "b-success")
    ∷ (js "starting", js "b-pending")
    ∷ (js "stopped", js "b-skipped")
    ∷ (js "error", js "b-failed")
    ∷ (js "denied", js "b-timeout")
    ∷ (js "failure", js "b-failed")
    ∷ []

unfoldable pub badge_class : Text → Option Text
unfolding slot
badge_class s = look_up badge_classes s (js "b-timeout")

-- `xs.filter(Boolean).join(' ')`; `none` is `false`, `null` or `undefined`.
abbrev truthy : List (Option Text) → List Text
truthy [] = []
truthy (none ∷ xs) = truthy xs
truthy (some s ∷ xs) = if is_empty s then truthy xs else s ∷ truthy xs

abbrev pub join : Text → List Text → Text
join sep [] = []
join sep (s ∷ []) = s
join sep (s ∷ t ∷ xs) = s ++ sep ++ join sep (t ∷ xs)

unfoldable class_names : List (Option Text) → Text
class_names xs = join (js " ") (truthy xs)
