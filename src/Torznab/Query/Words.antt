-- ===== src/Torznab/Query/Words.antt =====
-- The text of a clean query: its words, with one space between them.
use mathlib.Core.List.{reverse, reverse-cons, reverse-reverse, append_assoc, append-nil}
use anilibria_torznab.Prelude.{
  ℕ, ◌≡◌, refl, sym, ap, ◌∙◌, inl, inr, Bool, true, false, not, List, [], ◌∷◌, ◌++◌, select, All,
  All-append, if◌then◌else◌, if_rule, elim_rule, Bool-cases, arith,
}
use anilibria_torznab.Text.{Runes, is_empty, is_space, skip_space, trim_runes}
use anilibria_torznab.Torznab.Query.{
  write, clean_loop, fields, join_words, collapse_whitespace, clean,
}

unfoldable pub is_visible : ℕ → Bool
is_visible r = not (is_space r)

abbrev pub visible : Runes → Runes
visible value = select is_visible value

-- The runes that are not marked
unfoldable pub kept : Runes → List Bool → Runes
kept [] remove = []
kept (r ∷ rest) [] = r ∷ rest
kept (r ∷ rest) (m ∷ remove) = let later = kept rest remove in if m then later else r ∷ later

-- A word: some runes, none of them a space
unfoldable pub IsWord : Runes → Type 0
IsWord word = (is_empty word ≡ false) × All (λ r. is_visible r ≡ true) word

visible-append : (a b : Runes) → visible (a ++ b) ≡ visible a ++ visible b
visible-append [] b = refl
visible-append (r ∷ a) b = ground (arith, visible-append a b)

visible_space : (r : ℕ) → is_space r ≡ true → visible (r ∷ []) ≡ []
unfolding is_visible
visible_space r h = ground arith

visible_one : (r : ℕ) → is_space r ≡ false → visible (r ∷ []) ≡ r ∷ []
unfolding is_visible
visible_one r h = ground arith

-- The runes without one that is hidden
visible-hidden : (a : Runes) (r : ℕ) → is_space r ≡ true → visible (a ++ r ∷ []) ≡ visible a
visible-hidden a r h =
    visible-append a (r ∷ [])
    ∙ ap (λ (s : Runes). visible a ++ s) (visible_space r h)
    ∙ append-nil (visible a)

blank : is_space 32 ≡ true
unfolding is_space
blank = refl

visible-write :
    (cleaned : Runes) (r : ℕ) → visible (write cleaned r) ≡ visible cleaned ++ visible (r ∷ [])
unfolding write
visible-write cleaned r = elim (Bool-cases (is_space r)) [
  | inl e ↦ rw (e, visible_space r e, append-nil) (spaced cleaned)
  | inr e ↦ rw e (visible-append cleaned (r ∷ []))
]
  where
    spaced : (c : Runes) → visible (if is_empty c then [] else c ++ 32 ∷ []) ≡ visible c
    spaced [] = refl
    spaced (x ∷ c) = visible-hidden (x ∷ c) 32 blank

visible-cons : (r : ℕ) (rest : Runes) → visible (r ∷ []) ++ visible rest ≡ visible (r ∷ rest)
visible-cons r rest = ground arith

visible-clean_loop :
    (value : Runes) (remove : List Bool) (cleaned : Runes)
    → visible (clean_loop value remove cleaned) ≡ visible cleaned ++ visible (kept value remove)
unfolding clean_loop kept
visible-clean_loop [] remove cleaned = sym (append-nil (visible cleaned))
visible-clean_loop (r ∷ rest) [] cleaned =
    visible-clean_loop rest [] (write cleaned r)
    ∙ ap (λ (s : Runes). s ++ visible (kept rest [])) (visible-write cleaned r)
    ∙ append_assoc (visible cleaned) (visible (r ∷ [])) (visible (kept rest []))
    ∙ ap (λ (s : Runes). visible cleaned ++ s)
        (ap (λ (s : Runes). visible (r ∷ []) ++ visible s) (kept_all rest) ∙ visible-cons r rest)
  where
    kept_all : (v : Runes) → kept v [] ≡ v
    kept_all [] = refl
    kept_all (x ∷ v) = refl
visible-clean_loop (r ∷ rest) (true ∷ remove) cleaned = visible-clean_loop rest remove cleaned
visible-clean_loop (r ∷ rest) (false ∷ remove) cleaned =
    visible-clean_loop rest remove (write cleaned r)
    ∙ ap (λ (s : Runes). s ++ visible (kept rest remove)) (visible-write cleaned r)
    ∙ append_assoc (visible cleaned) (visible (r ∷ [])) (visible (kept rest remove))
    ∙ ap (λ (s : Runes). visible cleaned ++ s) (visible-cons r (kept rest remove))

visible-skip_space : (value : Runes) → visible (skip_space value) ≡ visible value
unfolding skip_space is_visible
visible-skip_space [] = refl
visible-skip_space (r ∷ rest) = ground (arith, visible-skip_space rest)

visible-reverse : (value : Runes) → visible (reverse value) ≡ reverse (visible value)
visible-reverse [] = refl
visible-reverse (r ∷ rest) =
    ap visible (reverse-cons r rest)
    ∙ visible-append (reverse rest) (r ∷ [])
    ∙ ap (λ (s : Runes). s ++ visible (r ∷ [])) (visible-reverse rest)
    ∙ by_head (is_visible r)
  where
    by_head :
        (b : Bool)
        → reverse (visible rest) ++ (if b then r ∷ [] else [])
          ≡ reverse (if b then r ∷ visible rest else visible rest)
    by_head true = sym (reverse-cons r (visible rest))
    by_head false = append-nil (reverse (visible rest))

visible-trim_runes : (value : Runes) → visible (trim_runes value) ≡ visible value
unfolding trim_runes
visible-trim_runes value =
    visible-reverse (skip_space (reverse (skip_space value)))
    ∙ ap reverse
        (visible-skip_space (reverse (skip_space value)) ∙ visible-reverse (skip_space value))
    ∙ reverse-reverse (visible (skip_space value))
    ∙ visible-skip_space value

-- The visible runes of some words
visible_words : List Runes → Runes
visible_words [] = []
visible_words (word ∷ words) = visible word ++ visible_words words

visible-join_words : (words : List Runes) → visible (join_words words) ≡ visible_words words
unfolding join_words visible_words
visible-join_words [] = refl
visible-join_words (word ∷ []) = sym (append-nil (visible word))
visible-join_words (word ∷ next ∷ words) =
    visible-append word (32 ∷ join_words (next ∷ words))
    ∙ ap (λ (s : Runes). visible word ++ s)
        (sym (visible-cons 32 (join_words (next ∷ words)))
          ∙ ap (λ (s : Runes). s ++ visible (join_words (next ∷ words))) (visible_space 32 blank)
          ∙ visible-join_words (next ∷ words))

-- The words behind a space
visible-at_space :
    (r : ℕ) (rest word : Runes) (later : List Runes)
    → is_space r ≡ true
    → visible_words later ≡ visible rest
    → visible_words (if is_empty word then later else word ∷ later)
      ≡ visible word ++ visible (r ∷ rest)
unfolding visible_words
visible-at_space r rest word later e same = by_word word
  where
    unseen : visible rest ≡ visible (r ∷ rest)
    unseen = ap (λ (s : Runes). s ++ visible rest) (sym (visible_space r e)) ∙ visible-cons r rest

    by_word :
        (w : Runes)
        → visible_words (if is_empty w then later else w ∷ later) ≡ visible w ++ visible (r ∷ rest)
    by_word [] = same ∙ unseen
    by_word (x ∷ w) = ap (λ (s : Runes). visible (x ∷ w) ++ s) (same ∙ unseen)

visible-fields :
    (word rest : Runes) → visible_words (fields word rest) ≡ visible word ++ visible rest
unfolding fields visible_words
visible-fields [] [] = refl
visible-fields (x ∷ word) [] = refl
visible-fields word (r ∷ rest) =
    elim_rule (λ (words : List Runes). visible_words words ≡ visible word ++ visible (r ∷ rest))
      (is_space r) (λ e. visible-at_space r rest word (fields [] rest) e (visible-fields [] rest))
      (λ e.
        visible-fields (word ++ r ∷ []) rest
        ∙ ap (λ (s : Runes). s ++ visible rest) (visible-append word (r ∷ []))
        ∙ append_assoc (visible word) (visible (r ∷ [])) (visible rest)
        ∙ ap (λ (s : Runes). visible word ++ s) (visible-cons r rest))

fields-IsWord :
    (word rest : Runes) → All (λ r. is_visible r ≡ true) word → All IsWord (fields word rest)
unfolding fields IsWord is_visible
fields-IsWord [] [] a = tt
fields-IsWord (x ∷ word) [] a = ((refl, a), tt)
fields-IsWord word (r ∷ rest) a =
    elim_rule (All IsWord) (is_space r)
      (λ e.
        if_rule (All IsWord) (is_empty word) (λ e'. fields-IsWord [] rest tt)
          (λ e'. ((e', a), fields-IsWord [] rest tt)))
      (λ e.
        fields-IsWord (word ++ r ∷ []) rest
          (All-append (λ r. is_visible r ≡ true) word (r ∷ []) a (ground arith, tt)))

-- The words of a clean query
unfoldable pub words_of : Runes → List Bool → List Runes
words_of value remove = fields [] (trim_runes (clean_loop value remove []))

pub clean-join_words :
    (value : Runes) (remove : List Bool) → clean value remove ≡ join_words (words_of value remove)
unfolding clean collapse_whitespace words_of
clean-join_words value remove = refl

pub words_of-IsWord : (value : Runes) (remove : List Bool) → All IsWord (words_of value remove)
unfolding words_of
words_of-IsWord value remove = fields-IsWord [] (trim_runes (clean_loop value remove [])) tt

-- Every rune that stays and is no space stands in the clean query, in its order, and no other does.
pub visible-clean :
    (value : Runes) (remove : List Bool)
    → visible (clean value remove) ≡ visible (kept value remove)
unfolding clean collapse_whitespace
visible-clean value remove =
    visible-join_words (fields [] (trim_runes (clean_loop value remove [])))
    ∙ visible-fields [] (trim_runes (clean_loop value remove []))
    ∙ visible-trim_runes (clean_loop value remove [])
    ∙ visible-clean_loop value remove []
