-- ===== src/Service/Execution/Refusal.antt =====
-- Which requests `Execute` of internal/service/service.go refuses, and for which parameter.
use anilibria_torznab.Prelude.{
  ◌&&◌, not, sym, if_false, if_rule, ℕ, ◌≡◌, refl, ap, ◌∙◌, inl, inr, ◌⊎◌, ◌↔◌, true, false, Bool,
  Option, none, some, List, [], ◌∷◌, arith,
}
use anilibria_torznab.Text.{Bytes, is_empty, trim_space}
use anilibria_torznab.Torznab.Parameter.{Parameter, query}
use anilibria_torznab.Torznab.Query.{NormalizedQuery, Checked, checked, incorrect, normalize_query}
use anilibria_torznab.Service.Request.{
  Error, Request, incorrect_parameter, upstream, Result, ok, err,
}
use anilibria_torznab.Service.Processing.{Torrent, Item}
use anilibria_torznab.Service.Loading.{Counters, gather, fan_out, load_search}
use anilibria_torznab.Service.Execution.{
  no_counters, World, load_torrents, respond, execute_loaded, execute_normalized, execute,
}

-- A query that is not blank, or any of a TV search, of which nothing is left to search for
abbrev pub IsBlankSearch : Request → NormalizedQuery → Type 0
IsBlankSearch req n =
    (n.clean_query ≡ []) × ((req.tv_search ≡ true) ⊎ (is_empty (trim_space req.query) ≡ false))

-- What the request is refused for: the parameter of the error of `NormalizeQuery`, or q.
abbrev pub IsRefusedFor : World → Request → Parameter → Type 0
IsRefusedFor w req p =
    let normalized = normalize_query w.unicode req.query req.explicit_season req.explicit_episode in
    (normalized ≡ incorrect p)
    ⊎ ((p ≡ query) × ((n : NormalizedQuery) × (normalized ≡ checked n) × IsBlankSearch req n))

is_empty-nil : (xs : Bytes) → is_empty xs ≡ true → xs ≡ []
is_empty-nil [] e = refl
is_empty-nil (x ∷ xs) e = absurd (ground arith)

fan_out-upstream :
    (branch : ℕ → Option (List Torrent)) (done : Bool) (ids : List ℕ) (counters : Counters)
    (e : Error)
    → (fan_out branch done ids counters).1 ≡ err e
    → e ≡ upstream
unfolding fan_out gather
fan_out-upstream branch done [] counters e h = absurd (ground arith)
fan_out-upstream branch done (id ∷ ids) counters e h = ground arith

load_search-upstream :
    (limit : ℕ) (found : Option (List ℕ)) (branch : ℕ → Option (List Torrent)) (done : Bool)
    (counters : Counters) (e : Error)
    → (load_search limit found branch done counters).1 ≡ err e
    → e ≡ upstream
unfolding load_search
load_search-upstream limit none branch done counters e h = ground arith
load_search-upstream limit (some found) branch done counters e h =
    fan_out-upstream branch done _ _ e h

load_torrents-IsBlankSearch :
    (w : World) (req : Request) (n : NormalizedQuery) (p : Parameter)
    → (load_torrents w req n).1 ≡ err (incorrect_parameter p)
    → (p ≡ query) × IsBlankSearch req n
unfolding load_torrents
load_torrents-IsBlankSearch w req n p h =
    let P : Counters × Result (List Torrent) → Type 0 =
      λ r. r.1 ≡ err (incorrect_parameter p) → (p ≡ query) × IsBlankSearch req n in
    if_rule P (req.tv_search && is_empty n.clean_query)
      (λ c refused. (ground arith, (is_empty-nil n.clean_query (ground arith), inl (ground arith))))
      (λ c.
        if_rule P
          (not req.tv_search && (not (is_empty (trim_space req.query)) && is_empty n.clean_query))
          (λ c' refused.
            (ground arith, (is_empty-nil n.clean_query (ground arith), inr (ground arith))))
          (λ c'.
            if_rule P (not req.tv_search && is_empty (trim_space req.query))
              (λ c'' refused. absurd (from_latest w.latest refused))
              (λ c'' refused. absurd (
                not_upstream p (
                  load_search-upstream w.max_releases (w.search n.clean_query) w.branch
                    w.done_in_search no_counters _ refused)))))
      h
  where
    not_upstream : (p : Parameter) → ¬ (incorrect_parameter p ≡ upstream)
    not_upstream p e = absurd (ground arith)

    from_latest :
        (o : Option (List Torrent))
        → ¬ (
            elim o as (λ x. Result (List Torrent)) [
              | none ↦ err upstream
              | some torrents ↦ ok torrents
            ]
            ≡ err (incorrect_parameter p))
    from_latest none e = absurd (ground arith)
    from_latest (some torrents) e = absurd (ground arith)

respond-upstream :
    (w : World) (req : Request) (counters : Counters) (o : Option (List Item)) (e : Error)
    → respond w req counters o ≡ err e
    → e ≡ upstream
unfolding respond
respond-upstream w req counters none e h = ground arith
respond-upstream w req counters (some processed) e h = ground arith

execute_loaded-refused :
    (w : World) (req : Request) (n : NormalizedQuery) (p : Parameter)
    (loaded : Counters × Result (List Torrent))
    → execute_loaded w req n loaded ≡ err (incorrect_parameter p)
    → loaded.1 ≡ err (incorrect_parameter p)
unfolding execute_loaded
execute_loaded-refused w req n p (counters, err e) h = ground arith
execute_loaded-refused w req n p (counters, ok torrents) h =
    if_rule (λ r. r ≡ err (incorrect_parameter p) → ok torrents ≡ err (incorrect_parameter p))
      w.done_loaded (λ c refused. absurd (ground arith))
      (λ c refused. let e = respond-upstream w req counters _ _ refused in absurd (ground arith)) h

load_torrents-refused :
    (w : World) (req : Request) (n : NormalizedQuery)
    → IsBlankSearch req n
    → load_torrents w req n ≡ (no_counters, err (incorrect_parameter query))
unfolding load_torrents
load_torrents-refused w req n (blank, inl tv) = let e = ap is_empty blank in ground arith
load_torrents-refused w req n (blank, inr text) = let e = ap is_empty blank in ground arith

-- A request whose context is not done at first is refused for a parameter just where `NormalizeQuery` refuses
-- its query for that parameter, or that is q and the query, of a TV search or not blank, is accepted with
-- nothing left to search for. What the caches and the client return plays no part in it.
pub execute-refused :
    (w : World) (req : Request) (p : Parameter)
    → w.done_at_start ≡ false
    → (execute w req ≡ err (incorrect_parameter p)) ↔ IsRefusedFor w req p
unfolding execute execute_normalized execute_loaded
execute-refused w req p started =
    (λ h. forth normalized refl (from_start h), λ r. started_with ∙ back r)
  where
    normalized : Checked NormalizedQuery
    normalized = normalize_query w.unicode req.query req.explicit_season req.explicit_episode

    started_with : execute w req ≡ execute_normalized w req normalized
    started_with = if_false w.done_at_start _ _ started

    from_start :
        execute w req ≡ err (incorrect_parameter p)
        → execute_normalized w req normalized ≡ err (incorrect_parameter p)
    from_start h = sym started_with ∙ h

    forth :
        (m : Checked NormalizedQuery)
        → normalized ≡ m
        → execute_normalized w req m ≡ err (incorrect_parameter p)
        → IsRefusedFor w req p
    forth (incorrect q) e h = inl (ground arith)
    forth (checked n) e h =
        let (same, blank) =
          load_torrents-IsBlankSearch w req n p
            (execute_loaded-refused w req n p (load_torrents w req n) h) in
        inr (same, (n, e, blank))

    back : IsRefusedFor w req p → execute_normalized w req normalized ≡ err (incorrect_parameter p)
    back (inl e) = ap (execute_normalized w req) e
    back (inr (same, (n, e, blank))) =
        ap (execute_normalized w req) e
        ∙ ap (execute_loaded w req n) (load_torrents-refused w req n blank)
        ∙ ap (λ q. err (incorrect_parameter q)) (sym same)
