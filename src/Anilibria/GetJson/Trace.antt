-- ===== src/Anilibria/GetJson/Trace.antt =====
-- The events of `getJSON`: how many attempts it makes, and how it holds the gate.
use anilibria_torznab.Prelude.{
  ℕ, zero, suc, ◌+◌, ◌≤◌, ◌≡◌, ◌≢◌, refl, sym, inl, inr, ◌⊎◌, Bool, true, false, not, ◌&&◌, List,
  [], ◌∷◌, ◌++◌, ◌==◌, arith,
}
use anilibria_torznab.Anilibria.GetJson.{
  Event, took, gave, attempted, slept, acquire, Attempted, attempt, Fetched, fetched, failed,
  panicked, Round, Client, Next, stop, again, deliver, retry_or_fail, judge, pass, get_json_loop,
  get_json, maximum_attempts,
}

-- The number of HTTP attempts among events.
unfoldable pub attempts : List Event → ℕ
attempts [] = 0
attempts (took ∷ es) = attempts es
attempts (gave ∷ es) = attempts es
attempts (attempted ∷ es) = suc (attempts es)
attempts (slept d ∷ es) = attempts es

-- A slot is taken when none is held, given back when it is, attempts are made with it, waits without
-- it, and none is held at the end.
unfoldable pub is_balanced : Bool → List Event → Bool
is_balanced held [] = not held
is_balanced held (took ∷ es) = not held && is_balanced true es
is_balanced held (gave ∷ es) = held && is_balanced false es
is_balanced held (attempted ∷ es) = held && is_balanced held es
is_balanced held (slept d ∷ es) = not held && is_balanced held es

-- What a result says of the attempts that were made.
unfoldable pub counted : {A : Type 0} → ℕ → Fetched A → Bool
counted made (fetched a) = true
counted made (failed class status n) = n == made
counted made panicked = false

attempts-append : (es fs : List Event) → attempts (es ++ fs) ≡ attempts es + attempts fs
unfolding attempts
attempts-append [] fs = omega arith
attempts-append (took ∷ es) fs = attempts-append es fs
attempts-append (gave ∷ es) fs = attempts-append es fs
attempts-append (attempted ∷ es) fs = omega (arith, attempts-append es fs)
attempts-append (slept d ∷ es) fs = attempts-append es fs

is_balanced-append :
    (held : Bool) (es fs : List Event)
    → is_balanced held es ≡ true
    → is_balanced held (es ++ fs) ≡ is_balanced false fs
unfolding is_balanced
is_balanced-append true [] fs h = ground arith
is_balanced-append false [] fs h = refl
is_balanced-append held (took ∷ es) fs h = ground (arith, is_balanced-append true es fs)
is_balanced-append held (gave ∷ es) fs h = ground (arith, is_balanced-append false es fs)
is_balanced-append held (attempted ∷ es) fs h = ground (arith, is_balanced-append held es fs)
is_balanced-append held (slept d ∷ es) fs h = ground (arith, is_balanced-append held es fs)

-- What a pass gives: its events, and its end with the number of the attempt.
judge-counted :
    {A : Type 0} (client : Client A) (n : ℕ) (r : Round) (a : Attempted) (result : Fetched A)
    → judge client n r a ≡ stop result
    → counted n result ≡ true
unfolding judge deliver retry_or_fail counted
judge-counted client n r a result h = ground arith

counted_subst :
    {A : Type 0} (m n : ℕ) (result : Fetched A)
    → m ≡ n
    → counted m result ≡ true
    → counted n result ≡ true
counted_subst m n result e h = rw (sym e) h

-- The last attempt ends.
judge-last :
    {A : Type 0} (client : Client A) (n : ℕ) (r : Round) (a : Attempted) (status delay : ℕ)
    → n ≡ maximum_attempts
    → judge client n r a ≢ again status delay
unfolding judge deliver retry_or_fail
judge-last client n r a status delay hn h = ground arith

pub Next-cases :
    {A : Type 0} (next : Next A)
    → ((result : Fetched A) × (next ≡ stop result))
      ⊎ ((status : ℕ) × (delay : ℕ) × (next ≡ again status delay))
Next-cases (stop result) = inl (result, refl)
Next-cases (again status delay) = inr (status, delay, refl)

-- The events of one pass are balanced, with one attempt at most, which a further attempt follows.
pass-balanced :
    {A : Type 0} (client : Client A) (n : ℕ) (r : Round)
    → is_balanced false (pass client n r).0 ≡ true
unfolding pass acquire is_balanced
pass-balanced client n r = ground arith

pass-again :
    {A : Type 0} (client : Client A) (n : ℕ) (r : Round) (status delay : ℕ)
    → (pass client n r).1 ≡ again status delay
    → (attempts (pass client n r).0 ≡ 1)
      × (judge client n r (attempt client.maximum_response_bytes r.exchange) ≡ again status delay)
unfolding pass acquire attempts
pass-again client n r status delay h = ground arith

pass-stop :
    {A : Type 0} (client : Client A) (n : ℕ) (r : Round) (result : Fetched A)
    → (pass client (suc n) r).1 ≡ stop result
    → (counted (n + attempts (pass client (suc n) r).0) result ≡ true)
      × (attempts (pass client (suc n) r).0 ≤ 1)
unfolding pass acquire attempts counted
pass-stop client n r result h = ground (
  arith,
  judge-counted client (suc n) r (attempt client.maximum_response_bytes r.exchange) result,
)

loop-attempts_again :
    {A : Type 0} (client : Client A) (rounds : ℕ → Round) (left made : ℕ)
    → suc left + made ≡ maximum_attempts
    → (status delay : ℕ) → (pass client (suc made) (rounds (suc made))).1 ≡ again status delay
    → (1 ≤ left
        → (attempts (get_json_loop client rounds left (suc (suc made))).0 ≤ left)
          × (counted
                (suc made + attempts (get_json_loop client rounds left (suc (suc made))).0)
                (get_json_loop client rounds left (suc (suc made))).1
              ≡ true))
    → (attempts (get_json_loop client rounds (suc left) (suc made)).0 ≤ suc left)
      × (counted
            (made + attempts (get_json_loop client rounds (suc left) (suc made)).0)
            (get_json_loop client rounds (suc left) (suc made)).1
          ≡ true)
unfolding get_json_loop attempts counted
loop-attempts_again client rounds left made h status delay e rest =
    let p = pass client (suc made) (rounds (suc made)) in
    let later = get_json_loop client rounds left (suc (suc made)) in
    let once = pass-again client (suc made) (rounds (suc made)) status delay e in
    ground (
      arith,
      once,
      rest,
      attempts-append p.0 (slept delay ∷ []),
      attempts-append p.0 (slept delay ∷ later.0),
      λ (hn : suc made ≡ maximum_attempts).
          judge-last client (suc made) (rounds (suc made))
            (attempt client.maximum_response_bytes (rounds (suc made)).exchange) status delay hn
            once.1,
      counted_subst (suc made + attempts later.0) (made + attempts (p.0 ++ slept delay ∷ later.0))
          later.1,
    )

-- The loop from an attempt on, when `made` attempts came before.
loop-attempts :
    {A : Type 0} (client : Client A) (rounds : ℕ → Round) (left made : ℕ)
    → left + made ≡ maximum_attempts
    → 1 ≤ left
    → (attempts (get_json_loop client rounds left (suc made)).0 ≤ left)
      × (counted
            (made + attempts (get_json_loop client rounds left (suc made)).0)
            (get_json_loop client rounds left (suc made)).1
          ≡ true)
unfolding get_json_loop attempts
loop-attempts client rounds zero made h h1 = absurd (omega arith)
loop-attempts client rounds (suc left) made h h1 =
    elim (Next-cases (pass client (suc made) (rounds (suc made))).1) [
      | inl (result, e) ↦ ground (arith, pass-stop client made (rounds (suc made)) result e)
      | inr (status, delay, e) ↦
          loop-attempts_again client rounds left made h status delay e
            (λ h'. loop-attempts client rounds left (suc made) (omega arith) h')
    ]

loop-balanced :
    {A : Type 0} (client : Client A) (rounds : ℕ → Round) (left n : ℕ)
    → is_balanced false (get_json_loop client rounds left n).0 ≡ true
unfolding get_json_loop is_balanced
loop-balanced client rounds zero n = refl
loop-balanced client rounds (suc left) n = elim (Next-cases (pass client n (rounds n)).1) [
  | inl (result, e) ↦ ground (arith, pass-balanced client n (rounds n))
  | inr (status, delay, e) ↦ ground (
    arith,
    loop-balanced client rounds left (suc n),
    is_balanced-append false (pass client n (rounds n)).0 (slept delay ∷ [])
        (pass-balanced client n (rounds n)),
    is_balanced-append false (pass client n (rounds n)).0
        (slept delay ∷ (get_json_loop client rounds left (suc n)).0)
        (pass-balanced client n (rounds n)),
  )
]

-- However the attempts go, at most three are made, an error reports exactly as many attempts as were
-- made, and the end of the loop is never reached.
pub get_json-attempts :
    {A : Type 0} (client : Client A) (rounds : ℕ → Round)
    → (attempts (get_json client rounds).0 ≤ maximum_attempts)
      × (counted (attempts (get_json client rounds).0) (get_json client rounds).1 ≡ true)
unfolding get_json
get_json-attempts client rounds = ground (
  arith,
  loop-attempts client rounds maximum_attempts 0 refl (omega arith),
  counted_subst (0 + attempts (get_json_loop client rounds maximum_attempts 1).0)
      (attempts (get_json_loop client rounds maximum_attempts 1).0)
      (get_json_loop client rounds maximum_attempts 1).1,
)

-- On every path the slot of the gate is taken before an attempt, given back before a wait, and held
-- no longer at the end.
pub get_json-is_balanced :
    {A : Type 0} (client : Client A) (rounds : ℕ → Round)
    → is_balanced false (get_json client rounds).0 ≡ true
unfolding get_json
get_json-is_balanced client rounds = loop-balanced client rounds maximum_attempts 1
