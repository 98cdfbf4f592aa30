-- ===== src/Torznab/Query/Removal.antt =====
-- What `NormalizeQuery` takes out of a query, and what it leaves.
use anilibria_torznab.Prelude.{
  ℕ, zero, suc, ◌+◌, ◌≤◌, ◌<◌, ◌≡◌, refl, sym, ap, ◌∙◌, subst, ◌⊎◌, inl, inr, true, false, not,
  Option, none, some, List, [], ◌∷◌, length, if_rule, arith,
}
use anilibria_torznab.Text.{Runes}
use anilibria_torznab.Text.Regexp.{Match, find_all}
use anilibria_torznab.Text.Regexp.Search.{Occurs}
use anilibria_torznab.Torznab.Parameter.{query, season, episode}
use anilibria_torznab.Torznab.Tokens.{
  Unicode, query_token, slice, complete_token, unsupported_numeric_continuation, Token,
  parse_query_token,
}
use anilibria_torznab.Torznab.Marks.{flag, mark_bytes, mark_both}
use anilibria_torznab.Torznab.Marks.Removable.{is_soft, OnlyMarks, Follows, mark_bytes-OnlyMarks}
use anilibria_torznab.Torznab.Marks.Growing.{
  length-mark_bytes, flag-mark_bytes_kept, flag-mark_bytes_set,
}
use anilibria_torznab.Torznab.Query.{
  Checked, checked, incorrect, State, agree, absorb, take_token, take_tokens,
}
use anilibria_torznab.Torznab.Query.Filters.{Ensures, Ensures-bind}

-- The rune at a position
abbrev pub rune_at : Runes → ℕ → Option ℕ
rune_at [] i = none
rune_at (r ∷ rest) zero = some r
rune_at (r ∷ rest) (suc i) = rune_at rest i

-- A complete token of the query, and the positions of one
unfoldable pub IsToken : Unicode → Runes → Match → Type 0
IsToken u value m =
    Occurs m (find_all query_token value) × (complete_token u value m.start m.end ≡ true)

unfoldable pub InToken : Unicode → Runes → ℕ → Type 0
InToken u value i = (m : Match) × IsToken u value m × (m.start ≤ i) × (i < m.end)

-- A position that may be taken out: that of a complete token, or of a space, a bracket or a separator
unfoldable pub IsRemovable : Unicode → Runes → ℕ → Type 0
IsRemovable u value i =
    InToken u value i ⊎ ((r : ℕ) × (rune_at value i ≡ some r) × (is_soft r ≡ true))

Follows-of :
    (P : ℕ → Type 0) (index : ℕ) (rest : Runes)
    → ((i r : ℕ) → rune_at rest i ≡ some r → is_soft r ≡ true → P (index + i))
    → Follows P index rest
Follows-of P index [] h = tt
Follows-of P index (r ∷ rest) h = (
  λ soft. let e : index + 0 ≡ index = omega arith in subst P e (h 0 r refl soft),
  Follows-of P (suc index) rest (λ i r' at soft.
      let e : index + suc i ≡ suc index + i = omega arith in subst P e (h (suc i) r' at soft)),
)

token-IsRemovable :
    (u : Unicode) (value : Runes) (m : Match) (i : ℕ)
    → IsToken u value m
    → m.start ≤ i
    → i < m.end
    → IsRemovable u value i
unfolding IsRemovable InToken
token-IsRemovable u value m i t low high = inl (m, t, low, high)

module _ (u : Unicode) (value : Runes) where
  pub value-Follows : Follows (IsRemovable u value) 0 value
  unfolding IsRemovable
  value-Follows = Follows-of (IsRemovable u value) 0 value (λ i r at soft.
      let e : i ≡ 0 + i = omega arith in subst (IsRemovable u value) e (inr (r, at, soft)))

  -- After the tokens of a list: marks stay, they are set on removable positions alone, and on all
  -- positions of every token of the list.
  pub record IsTaken (matches : List Match) (s t : State) : Type 0 where
    pub same_length : length t.marks.remove ≡ length s.marks.remove
    pub grown : (i : ℕ) → flag s.marks.remove i ≡ true → flag t.marks.remove i ≡ true
    pub only :
        OnlyMarks (IsRemovable u value) s.marks.remove
        → OnlyMarks (IsRemovable u value) t.marks.remove
    pub covered :
        (m : Match)
        → Occurs m matches
        → complete_token u value m.start m.end ≡ true
        → (i : ℕ) → m.start ≤ i
        → i < m.end
        → i < length s.marks.remove
        → flag t.marks.remove i ≡ true

  absorb-marks :
      (m : Match) (token : Token) (s : State)
      → Ensures (λ t. t.marks ≡ mark_both s.marks m.start m.end) (absorb m token s)
  unfolding absorb
  absorb-marks m token s =
      Ensures-bind (λ x. Unit {0}) Good (agree season s.season token.season) _
        (no_claim (agree season s.season token.season))
        λ new_season a.
          Ensures-bind (λ x. Unit {0}) Good (agree episode s.episode token.episode) _
            (no_claim (agree episode s.episode token.episode)) λ new_episode b. refl
    where
      Good : State → Type 0
      Good t = t.marks ≡ mark_both s.marks m.start m.end

      no_claim : (r : Checked (Option ℕ)) → Ensures (λ x. Unit {0}) r
      no_claim (checked x) = tt
      no_claim (incorrect x) = tt

  -- The marks of a token that is absorbed
  marked-IsTaken :
      (m : Match) (s t : State)
      → IsToken u value m
      → t.marks ≡ mark_both s.marks m.start m.end
      → IsTaken (m ∷ []) s t
  marked-IsTaken m s t token e =
      let same : t.marks.remove ≡ mark_bytes s.marks.remove m.start m.end = ap (λ x. x.remove) e in
      record {
        same_length = ap length same ∙ length-mark_bytes s.marks.remove m.start m.end;
        grown = λ i h. rw same (flag-mark_bytes_kept s.marks.remove m.start m.end i h);
        only = λ o. rw same (
            mark_bytes-OnlyMarks (IsRemovable u value) s.marks.remove m.start m.end o
              (λ i low high. in_token i low high));
        covered = λ m' o c i low high within. rw same (set m' o i low high within);
      }
    where
      in_token : (i : ℕ) → m.start ≤ i → i < m.end → IsRemovable u value i
      in_token i low high = token-IsRemovable u value m i token low high

      set :
          (m' : Match)
          → Occurs m' (m ∷ [])
          → (i : ℕ) → m'.start ≤ i
          → i < m'.end
          → i < length s.marks.remove
          → flag (mark_bytes s.marks.remove m.start m.end) i ≡ true
      set m' (inl e') i low high within =
          flag-mark_bytes_set s.marks.remove m.start m.end i (rw (sym e') low) (rw (sym e') high)
            within
      set m' (inr o) i low high within = absurd o

  -- A match that is no complete token changes nothing.
  skipped-IsTaken :
      (m : Match) (s : State) → complete_token u value m.start m.end ≡ false → IsTaken (m ∷ []) s s
  skipped-IsTaken m s e = record {
    same_length = refl;
    grown = λ i h. h;
    only = λ o. o;
    covered = λ m' o c i low high within. absurd (never m' o c);
  }
    where
      never : (m' : Match) → Occurs m' (m ∷ []) → complete_token u value m'.start m'.end ≡ true → ⊥
      never m' (inl e') c =
          let c' = subst (λ (x : Match). complete_token u value x.start x.end ≡ true) e' c in cc
      never m' (inr o) c = absurd o

  take_token-IsTaken :
      (m : Match) (s : State)
      → Occurs m (find_all query_token value)
      → Ensures (IsTaken (m ∷ []) s) (take_token u value m s)
  unfolding take_token IsToken
  take_token-IsTaken m s o =
      if_rule Good (not (complete_token u value m.start m.end))
        (λ e. skipped-IsTaken m s (ground arith))
        (λ e.
          if_rule Good (unsupported_numeric_continuation value m.start m.end) (λ e'. tt)
            (λ e'. with_token (ground arith) (parse_query_token (slice value m.start m.end))))
    where
      Good : Checked State → Type 0
      Good r = Ensures (IsTaken (m ∷ []) s) r

      widen :
          complete_token u value m.start m.end ≡ true
          → (r : Checked State) → Ensures (λ t. t.marks ≡ mark_both s.marks m.start m.end) r
          → Good r
      widen c (checked t) e = marked-IsTaken m s t (o, c) e
      widen c (incorrect p) e = tt

      with_token :
          complete_token u value m.start m.end ≡ true
          → (x : Option Token)
          → Good (elim x as (λ _. Checked State) [
            | none ↦ incorrect query
            | some token ↦ absorb m token s
          ])
      with_token c none = tt
      with_token c (some token) = widen c (absorb m token s) (absorb-marks m token s)

  IsTaken-more :
      (m : Match) (matches : List Match) (s next t : State)
      → IsTaken (m ∷ []) s next
      → IsTaken matches next t
      → IsTaken (m ∷ matches) s t
  IsTaken-more m matches s next t a b = record {
    same_length = b.same_length ∙ a.same_length;
    grown = λ i h. b.grown i (a.grown i h);
    only = λ o. b.only (a.only o);
    covered = covers;
  }
    where
      covers :
          (m' : Match)
          → Occurs m' (m ∷ matches)
          → complete_token u value m'.start m'.end ≡ true
          → (i : ℕ) → m'.start ≤ i
          → i < m'.end
          → i < length s.marks.remove
          → flag t.marks.remove i ≡ true
      covers m' (inl e) c i low high within = b.grown i (a.covered m' (inl e) c i low high within)
      covers m' (inr o) c i low high within = b.covered m' o c i low high (rw a.same_length within)

  pub take_tokens-IsTaken :
      (matches : List Match) (s : State)
      → ((m : Match) → Occurs m matches → Occurs m (find_all query_token value))
      → Ensures (IsTaken matches s) (take_tokens u value matches s)
  unfolding take_tokens
  take_tokens-IsTaken [] s sub = record {
    same_length = refl;
    grown = λ i h. h;
    only = λ o. o;
    covered = λ m o c i low high within. absurd o;
  }
  take_tokens-IsTaken (m ∷ matches) s sub =
      Ensures-bind (IsTaken (m ∷ []) s) (IsTaken (m ∷ matches) s) (take_token u value m s) _
        (take_token-IsTaken m s (sub m (inl refl)))
        λ next first.
          widen next first (take_tokens u value matches next)
            (take_tokens-IsTaken matches next (λ m' o. sub m' (inr o)))
    where
      widen :
          (next : State)
          → IsTaken (m ∷ []) s next
          → (r : Checked State) → Ensures (IsTaken matches next) r
          → Ensures (IsTaken (m ∷ matches) s) r
      widen next first (checked t) h = IsTaken-more m matches s next t first h
      widen next first (incorrect p) h = tt
