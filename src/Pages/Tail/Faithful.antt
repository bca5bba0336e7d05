-- ===== src/Pages/Tail/Faithful.antt =====
-- When the output that is shown is that of the stream. What the server answers is a parameter: the text
-- of a target's stream between two offsets.
use bastiondeck.Prelude.{
  ℕ, ◌≤◌, Bool, List, [], ◌∷◌, ◌++◌, Text, ◌≡◌, refl, sym, arith, Bool-cases, inl, inr,
}
use bastiondeck.Hooks.Async.{is_there, without}
use bastiondeck.Pages.Tail.{
  Source, Asked, Tail, opened, asks, answers, throws, turns, selects, is_same, is_same_bool, going,
  received, pull_step,
}

-- What the server gives for a stream between two offsets, and which offsets fall between two characters
-- of it. The server cuts bytes and makes a text of each piece by itself, so two pieces make the whole
-- only if they meet between two characters.
module _ (chunk : Source → ℕ → ℕ → Text) (IsCut : Source → ℕ → Type 0)
    (cut_start : (k : Source) → IsCut k 0) (chunk_empty : (k : Source) (a : ℕ) → chunk k a a ≡ [])
    (chunk_append : (k : Source) (a b c : ℕ)
      → a ≤ b
      → b ≤ c
      → IsCut k b
      → chunk k a b ++ chunk k b c ≡ chunk k a c) where
  -- Steps in which a call is made only when none is left on its way, and answered by what its stream
  -- holds from its offset on, up to an offset between two characters.
  pub data Serial : Tail → Tail → Type 0 where
    ask : (s : Tail) → s.in_flight ≡ [] → Serial s (pull_step asks s)
    answer :
        (s : Tail) (c : Asked) (n : ℕ)
        → s.in_flight ≡ c ∷ []
        → c.offset ≤ n
        → IsCut c.source n
        → Serial s (pull_step (answers 0 (chunk c.source c.offset n) n) s)
    throw : (s : Tail) → Serial s (pull_step (throws 0) s)
    turn : (s : Tail) (live : Bool) → going s.in_flight ≡ [] → Serial s (pull_step (turns live) s)
    select : (s : Tail) (k : Source) → going s.in_flight ≡ [] → Serial s (pull_step (selects k) s)

  pub data ReachesTail : Tail → Type 0 where
    start : (k : Source) (live : Bool) → ReachesTail (opened k live)
    next : {s t : Tail} → ReachesTail s → Serial s t → ReachesTail t

  abbrev AreFrom : Source → ℕ → List Asked → Type 0
  AreFrom k o [] = Unit
  AreFrom k o (c ∷ cs) = (c.source ≡ k) × (c.offset ≡ o) × (cs ≡ [])

  -- The text is the stream's up to the offset, which is between two characters, and a call on its way
  -- asks from there on.
  abbrev IsFaithful : Tail → Type 0
  IsFaithful s =
      (s.text ≡ chunk s.source 0 s.offset)
      × IsCut s.source s.offset
      × AreFrom s.source s.offset s.in_flight

  received-IsFaithful :
      (s : Tail) (n : ℕ) (new : Text)
      → s.in_flight ≡ []
      → s.offset ≤ n
      → IsCut s.source n
      → new ≡ chunk s.source s.offset n
      → IsCut s.source s.offset
      → s.text ≡ chunk s.source 0 s.offset
      → IsFaithful (received new n s)
  received-IsFaithful s n [] e p b q a h = (h, a, rw e tt)
  received-IsFaithful s n (c ∷ new) e p b q a h =
      (rw (q, h) (chunk_append s.source 0 s.offset n (omega arith) p a), b, rw e tt)

  -- The first call is off its way, and was the only one.
  without-AreFrom :
      (k : Source) (o : ℕ) (cs : List Asked) → AreFrom k o cs → AreFrom k o (without 0 cs)
  without-AreFrom k o [] h = tt
  without-AreFrom k o (c ∷ cs) (h, _, e) = rw e tt

  throw-IsFaithful : (s : Tail) → IsFaithful s → IsFaithful (pull_step (throws 0) s)
  unfolding pull_step
  throw-IsFaithful s (h, a, f) = elim (Bool-cases (is_there 0 s.in_flight)) [
    | inl e ↦ rw e (h, a, without-AreFrom s.source s.offset s.in_flight f)
    | inr e ↦ rw e (h, a, f)
  ]

  answer-IsFaithful :
      (s : Tail) (c : Asked) (n : ℕ)
      → s.in_flight ≡ c ∷ []
      → c.offset ≤ n
      → IsCut c.source n
      → IsFaithful s
      → IsFaithful (received (chunk c.source c.offset n) n (record s { in_flight = [] }))
  answer-IsFaithful s c n e p b (h, a, f) =
      let (same_source, same_offset, _) = rw e at f in
      received-IsFaithful (record s { in_flight = [] }) n (chunk c.source c.offset n) refl
        (omega arith) (rw (sym same_source) b) (rw (same_source, same_offset) refl) a h

  turn-IsFaithful :
      (s : Tail) (live : Bool)
      → going s.in_flight ≡ []
      → IsFaithful s
      → IsFaithful (pull_step (turns live) s)
  unfolding pull_step
  turn-IsFaithful s live e (h, a, f) = elim (Bool-cases (is_same_bool s.live live)) [
    | inl same ↦ rw same (h, a, f)
    | inr other ↦ rw (other, e) (h, a, (refl, refl, refl))
  ]

  select-IsFaithful :
      (s : Tail) (k : Source)
      → going s.in_flight ≡ []
      → IsFaithful s
      → IsFaithful (pull_step (selects k) s)
  unfolding pull_step
  select-IsFaithful s k e (h, a, f) = elim (Bool-cases (is_same s.source k)) [
    | inl same ↦ rw same (h, a, f)
    | inr other ↦ rw (other, e) (sym (chunk_empty k 0), cut_start k, (refl, refl, refl))
  ]

  Serial-IsFaithful : {s t : Tail} → Serial s t → IsFaithful s → IsFaithful t
  unfolding pull_step
  Serial-IsFaithful (ask s e) (h, a, f) = elim (Bool-cases s.live) [
    | inl l ↦ rw (l, e) (h, a, (refl, refl, refl))
    | inr l ↦ rw l (h, a, f)
  ]
  Serial-IsFaithful (answer s c n e p b) h = rw e (answer-IsFaithful s c n e p b h)
  Serial-IsFaithful (throw s) h = throw-IsFaithful s h
  Serial-IsFaithful (turn s live e) h = turn-IsFaithful s live e h
  Serial-IsFaithful (select s k e) h = select-IsFaithful s k e h

  ReachesTail-IsFaithful : {s : Tail} → ReachesTail s → IsFaithful s
  ReachesTail-IsFaithful (start k live) = (sym (chunk_empty k 0), cut_start k, (refl, refl, refl))
  ReachesTail-IsFaithful (next r i) = Serial-IsFaithful i (ReachesTail-IsFaithful r)

  -- If a call is made only when none is left on its way, and every answer ends between two characters
  -- of its stream, the text shown is, after any answers, errors and selections, exactly that of the
  -- selected stream up to the offset: nothing is lost and nothing is shown twice.
  pub text-eq-chunk : (s : Tail) → ReachesTail s → s.text ≡ chunk s.source 0 s.offset
  text-eq-chunk s r = (ReachesTail-IsFaithful r).0
