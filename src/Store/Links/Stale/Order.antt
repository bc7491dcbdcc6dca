-- ===== src/Store/Links/Stale/Order.antt =====
-- The order in which `staleOpenRows` of src/store/native-links.ts answers.
use codedeck.Common.{
  inr, inl, Bool-cases, arith, leb, IsSorted, ◌≡◌, Bool, true, List, [], ◌∷◌, filter_by, map,
  sort_by, insert_by, All, if_both,
}
use codedeck.Core.Session.{Session}
use codedeck.Store.Links.Stale.{by_created}
use codedeck.Store.Sessions.Row.{SessionRow, row_to_session}

module _ {ℓ κ} {A : Type ℓ} (P : A → Type κ) where
  pub All-filter_by : (p : A → Bool) (xs : List A) → All P xs → All P (filter_by p xs)
  All-filter_by p [] h = h
  All-filter_by p (x ∷ xs) h =
      if_both (All P) (p x) (h.0, All-filter_by p xs h.1) (All-filter_by p xs h.1)

  pub All-insert_by :
      (le : A → A → Bool) (a : A) (xs : List A) → P a → All P xs → All P (insert_by le a xs)
  unfolding insert_by
  All-insert_by le a [] h hs = (h, hs)
  All-insert_by le a (x ∷ xs) h hs =
      if_both (All P) (le a x) (h, hs) (hs.0, All-insert_by le a xs h hs.1)

  pub All-sort_by : (le : A → A → Bool) (xs : List A) → All P xs → All P (sort_by le xs)
  unfolding sort_by
  All-sort_by le [] h = h
  All-sort_by le (x ∷ xs) h = All-insert_by le x _ h.0 (All-sort_by le xs h.1)

-- In the order of creation.
abbrev pub older : Session → Session → Bool
older a b = leb a.created_at b.created_at

abbrev pub older_row : SessionRow → SessionRow → Bool
older_row a b = leb a.created_at b.created_at

older-All :
    (a b : SessionRow) (rows : List SessionRow)
    → older_row a b ≡ true
    → All (λ x. older_row b x ≡ true) rows
    → All (λ x. older_row a x ≡ true) rows
older-All a b [] h hs = tt
older-All a b (x ∷ rows) h hs = (ground arith, older-All a b rows h hs.1)

insert_by-IsSorted :
    (r : SessionRow) (rows : List SessionRow)
    → IsSorted older_row rows
    → IsSorted older_row (insert_by by_created r rows)
unfolding insert_by
insert_by-IsSorted r [] h = (tt, tt)
insert_by-IsSorted r (x ∷ rows) h = elim (Bool-cases (by_created r x)) [
  | inl e ↦
      let first : older_row r x ≡ true = ground arith in
      rw e ((first, older-All r x rows first h.0), h)
  | inr e ↦
      let first : older_row x r ≡ true = ground arith in
      rw e (
        All-insert_by (λ y. older_row x y ≡ true) by_created r rows first h.0,
        insert_by-IsSorted r rows h.1,
      )
]

pub sort_by-IsSorted : (rows : List SessionRow) → IsSorted older_row (sort_by by_created rows)
unfolding sort_by
sort_by-IsSorted [] = tt
sort_by-IsSorted (r ∷ rows) = insert_by-IsSorted r _ (sort_by-IsSorted rows)

pub filter_by-IsSorted :
    (p : SessionRow → Bool) (rows : List SessionRow)
    → IsSorted older_row rows
    → IsSorted older_row (filter_by p rows)
filter_by-IsSorted p [] h = tt
filter_by-IsSorted p (r ∷ rows) h =
    if_both (IsSorted older_row) (p r)
      (All-filter_by (λ x. older_row r x ≡ true) p rows h.0, filter_by-IsSorted p rows h.1)
      (filter_by-IsSorted p rows h.1)

map-older :
    (r : SessionRow) (rows : List SessionRow)
    → All (λ x. older_row r x ≡ true) rows
    → All (λ s. older (row_to_session r) s ≡ true) (map row_to_session rows)
unfolding row_to_session
map-older r [] h = tt
map-older r (x ∷ rows) h = (h.0, map-older r rows h.1)

pub map-IsSorted :
    (rows : List SessionRow) → IsSorted older_row rows → IsSorted older (map row_to_session rows)
map-IsSorted [] h = tt
map-IsSorted (r ∷ rows) h = (map-older r rows h.0, map-IsSorted rows h.1)
