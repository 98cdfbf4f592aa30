-- ===== src/Service/Processing/Rejections.antt =====
-- The counters of the torrents that `process` rejects.
use anilibria_torznab.Prelude.{
  ℕ, suc, ◌+◌, ◌≤◌, ◌≡◌, refl, min, Bool, Option, none, some, List, [], ◌∷◌, length, if_rule, arith,
}
use anilibria_torznab.Text.{Bytes, to_lower}
use anilibria_torznab.Service.Processing.{
  Torrent, Item, Filters, Reason, unsupported_release_type, invalid_title, peer_count_overflow,
  ProcessRejections, sample_limit, count, drop, Verdict, kept, rejected, filtered, see, verdict_on,
  tally, add_item, process_loop, no_rejections, process,
}

-- The total is the sum over the reasons, and the first five are logged.
unfoldable pub IsTallied : ProcessRejections → Type 0
IsTallied r =
    (r.total ≡ r.unsupported_release_types + r.invalid_titles + r.peer_count_overflows)
    × (r.sampled ≡ min sample_limit r.total)

drop-IsTallied :
    (reason : Reason) (r : ProcessRejections)
    → IsTallied r
    → IsTallied (drop reason r) × ((drop reason r).total ≡ suc r.total)
unfolding IsTallied drop count
drop-IsTallied unsupported_release_type r h = ground arith
drop-IsTallied invalid_title r h = ground arith
drop-IsTallied peer_count_overflow r h = ground arith

no_rejections-IsTallied : IsTallied no_rejections
unfolding IsTallied
no_rejections-IsTallied = (refl, refl)

-- What the loop has counted and made, when it has run to an end.
unfoldable pub made : Option (List Item) → ℕ
made none = 0
made (some items) = length items

tally-IsTallied :
    (v : Verdict) (r : ProcessRejections) (o : Option (List Item))
    → IsTallied r
    → IsTallied (tally v r)
      × ((tally v r).total + made (elim o [ none ↦ none | some items ↦ some (add_item v items) ])
          ≤ suc (r.total + made o))
unfolding tally add_item made
tally-IsTallied (kept item) r none h = (h, omega arith)
tally-IsTallied (kept item) r (some items) h = (h, omega arith)
tally-IsTallied (rejected reason) r none h =
    let (h', e) = drop-IsTallied reason r h in (h', omega arith)
tally-IsTallied (rejected reason) r (some items) h =
    let (h', e) = drop-IsTallied reason r h in (h', omega arith)
tally-IsTallied filtered r none h = (h, omega arith)
tally-IsTallied filtered r (some items) h = (h, omega arith)

loop-IsTallied :
    (f : Filters) (done : ℕ → Bool) (i : ℕ) (seen : List Bytes) (r : ProcessRejections)
    (ts : List Torrent)
    → IsTallied r
    → IsTallied (process_loop f done i seen r ts).0
      × ((process_loop f done i seen r ts).0.total + made (process_loop f done i seen r ts).1
          ≤ r.total + length ts)
unfolding process_loop made
loop-IsTallied f done i seen r [] h = (h, omega arith)
loop-IsTallied f done i seen r (t ∷ ts) h =
    if_rule
      (λ (p : ProcessRejections × Option (List Item)).
        IsTallied p.0 × (p.0.total + made p.1 ≤ r.total + suc (length ts)))
      (done i) (λ e. (h, omega arith))
      (λ e.
        let v = verdict_on f seen t in
        let seen' = see (to_lower f.lower t.hash) seen in
        let rest = process_loop f done (suc i) seen' (tally v r) ts in
        let (tallied, grows) = tally-IsTallied v r rest.1 h in
        let (later, bound) = loop-IsTallied f done (suc i) seen' (tally v r) ts tallied in
        (later, omega (arith, grows, bound)))

-- Whatever the torrents and wherever the context ends: the total of the rejections is the sum over
-- their reasons, the first five are logged, and with the items there are no more than torrents.
pub process-IsTallied :
    (f : Filters) (done : ℕ → Bool) (done_before done_after : Bool) (torrents : List Torrent)
    → IsTallied (process f done done_before done_after torrents).0
      × ((process f done done_before done_after torrents).0.total
            + made (process_loop f done 0 [] no_rejections torrents).1
          ≤ length torrents)
unfolding process
process-IsTallied f done done_before done_after torrents =
    let (tallied, bound) =
      loop-IsTallied f done 0 [] no_rejections torrents no_rejections-IsTallied in
    (tallied, omega (arith, bound))
