-- ===== src/Cache/Coalescer.antt =====
-- internal/cache/coalescer.go: concurrent loads of equal keys collapse into one. A `call` is an object
-- that the map and its goroutines share: a number points to it in a store. What the mutex makes atomic
-- is one function; the goroutines are the step relation of the module Interleaving.
pub mod Interleaving
pub mod SingleFlight
pub mod Deadline
use anilibria_torznab.Prelude.{
  ℕ, zero, suc, ◌+◌, ◌-◌, ◌%◌, ◌^◌, Bool, true, false, not, ◌&&◌, ◌||◌, Option, none, some, List,
  [], ◌∷◌, ltb, ◌==◌, ite, ℕ_discrete, without, if◌then◌else◌,
}

-- `waiterBudget`: the deadline of a waiter, `none` where it is not bounded
abbrev pub Budget : Type 0
Budget = Option ℕ

-- `call`, with the key that its goroutine was started with. `outcome` is the value and the error, and
-- `cancelled` says whether its own `cancel` was called; see `is_cancelled` for the state of its context.
pub record Call (K R : Type 0) : Type 0 where
  pub key : K
  pub waiters : ℕ
  pub next_waiter_id : ℕ
  pub budgets : List (ℕ × Budget)
  pub completed : Bool
  pub outcome : Option R
  pub cancelled : Bool

-- `Coalescer`, with the store of the calls: the pointers below `next` are allocated. Of the base context
-- it is known whether it is cancelled.
pub record Coalescer (K R : Type 0) : Type 0 where
  pub base_cancelled : Bool
  pub calls : K → Option ℕ
  pub heap : ℕ → Call K R
  pub next : ℕ

-- What `DoShared` holds while it waits.
pub record Joined : Type 0 where
  pub call : ℕ
  pub waiter : ℕ
  pub shared : Bool

-- `nextWaiterID++` on a uint64
unfoldable pub next_id : ℕ → ℕ
next_id n = (n + 1) % 2 ^ 64

module _ {K R : Type 0} where
  unfoldable pub write : ℕ → Call K R → (ℕ → Call K R) → ℕ → Call K R
  write p c heap q = ite (ℕ_discrete q p) c (heap q)

  unfoldable pub new_call : K → Call K R
  new_call k = record {
    key = k;
    waiters = 0;
    next_waiter_id = 0;
    budgets = [];
    completed = false;
    outcome = none;
    cancelled = false;
  }

  -- `addWaiter`: the new waiter's id is the call's last one
  unfoldable pub add_waiter : Budget → Call K R → Call K R
  unfolding next_id
  add_waiter b c =
      let w = next_id c.next_waiter_id in
      record c {
        waiters = c.waiters + 1;
        next_waiter_id = w;
        budgets = (w, b) ∷ without ℕ_discrete w c.budgets;
      }

  -- The context of a load, which `context.WithCancel` derives from the base: it is done as soon as its own
  -- `cancel` is called or the base is cancelled.
  unfoldable pub is_cancelled : Coalescer K R → ℕ → Bool
  is_cancelled s p = s.base_cancelled || (s.heap p).cancelled

  -- The base context is cancelled.
  unfoldable pub cancel_base : Coalescer K R → Coalescer K R
  cancel_base s = record s { base_cancelled = true }

  -- the call's fields after `run` has taken the lock
  unfoldable pub complete : R → Call K R → Call K R
  complete r c = record c { outcome = some r; completed = true; cancelled = true }

  -- the call's fields after `detach`, where it was not completed
  unfoldable pub drop_waiter : ℕ → Call K R → Call K R
  drop_waiter w c =
      let left = c.waiters - 1 in
      record c {
        waiters = left;
        budgets = without ℕ_discrete w c.budgets;
        cancelled = if left == 0 then true else c.cancelled;
      }

module _ {K : Type 0} (dec : Discrete K) where
  unfoldable pub bind_key : K → Option ℕ → (K → Option ℕ) → K → Option ℕ
  bind_key k p calls j = ite (dec j k) p (calls j)

  -- `if calls[key] == current { delete(calls, key) }`
  unfoldable pub forget : K → ℕ → (K → Option ℕ) → K → Option ℕ
  unfolding bind_key
  forget k p calls = elim (calls k) [
    | none ↦ calls
    | some q ↦ ite (ℕ_discrete q p) (bind_key k none calls) calls
  ]

module _ {K R : Type 0} (dec : Discrete K) where
  -- The part of `DoShared` under the lock. Where `shared` is false it has started `run`.
  unfoldable pub join : Budget → K → Coalescer K R → Coalescer K R × Joined
  unfolding write new_call add_waiter bind_key
  join b k s = elim (s.calls k) [
    | some p ↦
        let c = add_waiter b (s.heap p) in
        (
          record s { heap = write p c s.heap },
          record { call = p; waiter = c.next_waiter_id; shared = true },
        )
    | none ↦
        let c = add_waiter b (new_call k) in
        (
          record {
            base_cancelled = s.base_cancelled;
            calls = bind_key dec k (some s.next) s.calls;
            heap = write s.next c s.heap;
            next = suc s.next;
          },
          record { call = s.next; waiter = c.next_waiter_id; shared = false },
        )
  ]

  -- The entry of `DoShared`: a context that is done already is an error, and nothing happens.
  unfoldable pub enter : Bool → Budget → K → Coalescer K R → Coalescer K R × Option Joined
  unfolding join
  enter ctx_done b k s =
      if ctx_done then (s, none) else (let (s', joined) = join b k s in (s', some joined))

  -- `run`, once the load has returned
  unfoldable pub finish : ℕ → R → Coalescer K R → Coalescer K R
  unfolding write complete forget
  finish p r s = record s {
    heap = write p (complete r (s.heap p)) s.heap;
    calls = forget dec (s.heap p).key p s.calls;
  }

  -- `detach`
  unfoldable pub detach : ℕ → ℕ → Coalescer K R → Coalescer K R
  unfolding write drop_waiter forget
  detach p w s =
      let c = s.heap p in
      if c.completed then s else record s {
        heap = write p (drop_waiter w c) s.heap;
        calls = if c.waiters - 1 == 0 then forget dec c.key p s.calls else s.calls;
      }

-- The loop of `EffectiveDeadline` over the budgets. The zero time is 0.
unfoldable pub latest_loop : ℕ → List (ℕ × Budget) → Option ℕ
latest_loop latest [] = some latest
latest_loop latest ((w, none) ∷ rest) = none
latest_loop latest ((w, some d) ∷ rest) =
    latest_loop (if latest == 0 || ltb latest d then d else latest) rest

-- `latest` if all waiters are bounded and there is one
unfoldable pub waiters_deadline : List (ℕ × Budget) → Option ℕ
unfolding latest_loop
waiters_deadline [] = none
waiters_deadline (b ∷ bs) = latest_loop 0 (b ∷ bs)

-- the `switch` of `EffectiveDeadline`
unfoldable pub choose_deadline : Option ℕ → Option ℕ → Option ℕ
choose_deadline none latest = latest
choose_deadline (some d) none = some d
choose_deadline (some d) (some latest) = if ltb d latest then some d else some latest

-- `EffectiveDeadline`, given the deadline of the base context
unfoldable pub effective_deadline : Option ℕ → List (ℕ × Budget) → Option ℕ
unfolding waiters_deadline choose_deadline
effective_deadline base budgets = choose_deadline base (waiters_deadline budgets)
