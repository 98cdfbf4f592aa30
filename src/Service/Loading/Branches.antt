-- ===== src/Service/Loading/Branches.antt =====
-- What `loadSearch` makes of its branches.
use anilibria_torznab.Prelude.{
  ◌+◌, ◌≡◌, refl, Bool, true, false, Option, none, some, List, [], ◌∷◌, ◌++◌, length, select, ◌==◌,
  if◌then◌else◌, arith,
}
use anilibria_torznab.Service.Request.{upstream, ok, err}
use anilibria_torznab.Service.Processing.{Torrent}
use anilibria_torznab.Service.Loading.{Counters, collect, gather}

-- The torrents of the branches that succeed, in the order of the branches.
unfoldable pub successes : List (Option (List Torrent)) → List Torrent
successes [] = []
successes (none ∷ branches) = successes branches
successes (some ts ∷ branches) = ts ++ successes branches

unfoldable pub is_failure : Option (List Torrent) → Bool
is_failure none = true
is_failure (some ts) = false

collect-parts :
    (branches : List (Option (List Torrent)))
    → ((collect branches).0 ≡ length (select is_failure branches))
      × ((collect branches).1 + (collect branches).0 ≡ length branches)
      × ((collect branches).2 ≡ successes branches)
unfolding collect successes is_failure
collect-parts [] = (refl, omega arith, refl)
collect-parts (none ∷ branches) =
    let h = collect-parts branches in (ground arith, ground arith, ground arith)
collect-parts (some ts ∷ branches) =
    let h = collect-parts branches in (ground arith, ground arith, ground arith)

-- Of one branch at least, all failures are an upstream failure; otherwise those that succeed give
-- their torrents in the order of the branches. Either way every failure is counted.
pub gather_lem :
    (branches : List (Option (List Torrent))) (counters : Counters)
    → ((gather branches counters).0.failed_branches
        ≡ counters.failed_branches + length (select is_failure branches))
      × ((gather branches counters).1 ≡ (
          if length (select is_failure branches) == length branches
          then err upstream
          else ok (successes branches)))
unfolding gather
gather_lem branches counters = ground (arith, collect-parts branches)
