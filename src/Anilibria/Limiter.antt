-- ===== src/Anilibria/Limiter.antt =====
-- The limiter of internal/anilibria/client.go: attempts start one interval apart at least.
pub mod Spacing
use anilibria_torznab.Prelude.{
  ℕ, ◌+◌, ◌-◌, Bool, true, false, Option, none, some, List, [], ◌∷◌, ltb, if◌then◌else◌,
}

-- `intervalLimiter`
pub record Limiter : Type 0 where
  pub interval : ℕ
  pub next : ℕ

-- What `wait` does in its lock, at a reading of the clock: it takes the slot, or has to wait for so long.
pub data Turn : Type 0 where
  start : Turn
  delay : ℕ → Turn

unfoldable pub turn : ℕ → Limiter → Limiter × Turn
turn now l =
    if ltb now l.next
    then (l, delay (l.next - now))
    else (record l { next = now + l.interval }, start)

-- One round of the loop of `wait`: whether the context is done, the clock, and whether the context
-- ends the wait after it.
pub record Round : Type 0 where
  pub done : Bool
  pub now : ℕ
  pub interrupted : Bool

-- `wait`, as far as its rounds go: the time of the start, or `none` for the context's error.
pub data Wait : Type 0 where
  started : ℕ → Wait
  stopped : Wait
  waiting : Wait

unfoldable pub wait : List Round → Limiter → Limiter × Wait
wait [] l = (l, waiting)
wait (r ∷ rounds) l =
    let (l', t) = turn r.now l in
    let rest = wait rounds l' in
    if r.done then (l, stopped) else elim t [
      | start ↦ (l', started r.now)
      | delay d ↦ if r.interrupted then (l', stopped) else rest
    ]

-- The lock of the limiter as all goroutines take it: the readings of the clock in the order of the
-- lock, and the times at which attempts start.
unfoldable pub starts : List ℕ → Limiter → List ℕ
starts [] l = []
starts (now ∷ clock) l =
    let (l', t) = turn now l in
    let rest = starts clock l' in elim t [ start ↦ now ∷ rest | delay d ↦ rest ]
