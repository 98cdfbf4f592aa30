-- ===== src/Process/Shutdown.antt =====
-- What a run holds, and how it lets go of it.
use anilibria_torznab.Prelude.{
  ◌≡◌, ◌||◌, refl, Bool, true, false, not, ◌&&◌, Option, none, some, List, [], ◌∷◌, if◌then◌else◌,
  if_rule,
}
use anilibria_torznab.Config.{Loaded, loaded, invalid, Config}
use anilibria_torznab.Config.Load.{load_from}
use anilibria_torznab.Process.{
  listen_error, configuration_error, ServeResult, no_error, server_closed, serve_failed, Machine,
  Event, listener_opened, listener_closed, root_created, root_cancelled, signals_watched,
  signals_ignored, serving, signalled, shut_down, shutdown_failed, server_closed_now, Outcome,
  Built, built, failed, build, deferring, serve_until_signal, serve, serve_built, run,
}

-- What is held at a time; requests are drained from a signal until `Shutdown` has ended.
record Held : Type 0 where
  listener : Bool
  root : Bool
  signals : Bool
  draining : Bool

abbrev nothing : Held
nothing = record { listener = false; root = false; signals = false; draining = false }

abbrev when : Bool → Held → Option Held
when allowed h = if allowed then some h else none

-- What may happen: the root context, under which requests run, lives within the listener, a signal is seen
-- while both are there, and nothing cancels the requests as they are drained.
abbrev happen : Event → Held → Option Held
happen listener_opened h = when (not h.listener) (record h { listener = true })
happen listener_closed h =
    when (h.listener && not (h.root || h.signals)) (record h { listener = false })
happen root_created h = when (h.listener && not h.root) (record h { root = true })
happen root_cancelled h = when (not h.draining) (record h { root = false })
happen signals_watched h = when (h.root && not h.signals) (record h { signals = true })
happen signals_ignored h = when h.signals (record h { signals = false })
happen serving h = when (h.listener && h.root) h
happen signalled h = when (h.signals && h.root) (record h { draining = true })
happen shut_down h = when h.draining (record h { draining = false })
happen shutdown_failed h = when h.draining (record h { draining = false })
happen server_closed_now h = when (not h.root) h

-- The events may happen one after the other, and nothing is held at their end.
abbrev let_go : Held → List Event → Bool
let_go h [] = not (h.listener || (h.root || (h.signals || h.draining)))
let_go h (e ∷ es) = elim (happen e h) [ none ↦ false | some h' ↦ let_go h' es ]

abbrev pub lets_go : List Event → Bool
lets_go es = let_go nothing es

Run-rule :
    (m : Machine) (P : List Event × Outcome → Type 0)
    → ((o : Outcome) → P ([], o))
    → ((cfg : Config)
        → load_from m.env ≡ loaded cfg
        → m.listen cfg.listen_addr ≡ true
        → P (deferring listener_opened listener_closed (serve_built m (build m cfg))))
    → P (run m)
unfolding run
Run-rule m P fails opened = by_config (load_from m.env) refl
  where
    by_config :
        (r : Loaded Config)
        → load_from m.env ≡ r
        → P (elim r as (λ _. List Event × Outcome) [
          | invalid name ↦ ([], configuration_error name)
          | loaded cfg ↦
              if m.listen cfg.listen_addr
              then deferring listener_opened listener_closed (serve_built m (build m cfg))
              else ([], listen_error)
        ])
    by_config (invalid name) e = fails (configuration_error name)
    by_config (loaded cfg) e =
        if_rule P (m.listen cfg.listen_addr) (opened cfg e) (λ closed. fails listen_error)

serve-lets_go :
    (m : Machine) → lets_go (deferring listener_opened listener_closed (serve m)).0 ≡ true
unfolding deferring serve serve_until_signal
serve-lets_go m = by_end m.serve m.shutdown
  where
    by_end :
        (first : Option ServeResult) (shutdown : Bool)
        → lets_go
            (deferring listener_opened listener_closed
              (serve (record m { serve = first; shutdown = shutdown }))).0
          ≡ true
    by_end (some server_closed) shutdown = refl
    by_end (some no_error) shutdown = refl
    by_end (some serve_failed) shutdown = refl
    by_end none true = refl
    by_end none false = refl

-- However a run ends, also by an error or a panic of a constructor, it has closed its listener, cancelled
-- the context of its requests and let go of the signals; and it has not cancelled the requests before
-- `Shutdown` had ended.
pub run-lets_go : (m : Machine) → lets_go (run m).0 ≡ true
unfolding serve_built deferring
run-lets_go m = Run-rule m (λ r. lets_go r.0 ≡ true) (λ o. refl) (λ cfg e l. by_build (build m cfg))
  where
    by_build :
        (b : Built) → lets_go (deferring listener_opened listener_closed (serve_built m b)).0 ≡ true
    by_build (built parts) = serve-lets_go m
    by_build (failed o) = refl
