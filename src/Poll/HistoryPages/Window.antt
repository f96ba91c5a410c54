-- ===== src/Poll/HistoryPages/Window.antt =====
-- What HistorySince returns: records behind the cursor, in the order of their ids.
use journarr.Base.{
  ℕ, zero, suc, ◌+◌, ◌≤◌, ◌<◌, Bool, Option, none, some, List, [], ◌∷◌, arith, ltb, maybe_case,
  if_case, select, All, All-append, All-map,
}
use mathlib.Core.List.{reverse, reverse_aux}
use journarr.Poll.HistoryPages.{
  HistoryRecord, is_new, is_last_page, collect_pages, and_later, oldest_first, insert_by_id,
  sort_from, history_since,
}

-- In the order of the ids.
abbrev pub IsAscending : List HistoryRecord → Type 0
IsAscending [] = Unit
IsAscending (x ∷ xs) = All (λ (y : HistoryRecord). x.id ≤ y.id) xs × IsAscending xs

module _ (P : HistoryRecord → Type 0) where
  All-insert_by_id :
      (r : HistoryRecord) (xs : List HistoryRecord) → P r → All P xs → All P (insert_by_id r xs)
  unfolding insert_by_id
  All-insert_by_id r [] p h = (p, tt)
  All-insert_by_id r (x ∷ xs) p h =
      if_case (All P) (ltb r.id x.id) (λ _. (p, h)) (λ _. (h.0, All-insert_by_id r xs p h.1))

  All-sort_from : (out rs : List HistoryRecord) → All P out → All P rs → All P (sort_from out rs)
  unfolding sort_from
  All-sort_from out [] o h = o
  All-sort_from out (r ∷ rs) o h =
      All-sort_from (insert_by_id r out) rs (All-insert_by_id r out h.0 o) h.1

All-below :
    (m n : ℕ) (xs : List HistoryRecord)
    → m ≤ n
    → All (λ (y : HistoryRecord). n ≤ y.id) xs
    → All (λ (y : HistoryRecord). m ≤ y.id) xs
All-below m n xs h a =
    All-map (λ (y : HistoryRecord). n ≤ y.id) (λ (y : HistoryRecord). m ≤ y.id) (λ y g. omega arith)
      xs a

insert_by_id-IsAscending :
    (r : HistoryRecord) (xs : List HistoryRecord) → IsAscending xs → IsAscending (insert_by_id r xs)
unfolding insert_by_id
insert_by_id-IsAscending r [] h = (tt, tt)
insert_by_id-IsAscending r (x ∷ xs) h =
    if_case IsAscending (ltb r.id x.id)
      (λ lt. let le : r.id ≤ x.id = ground arith in ((le, All-below r.id x.id xs le h.0), h))
      (λ ge.
        let le : x.id ≤ r.id = ground arith in
        (
          All-insert_by_id (λ (y : HistoryRecord). x.id ≤ y.id) r xs le h.0,
          insert_by_id-IsAscending r xs h.1,
        ))

sort_from-IsAscending :
    (out rs : List HistoryRecord) → IsAscending out → IsAscending (sort_from out rs)
unfolding sort_from
sort_from-IsAscending out [] h = h
sort_from-IsAscending out (r ∷ rs) h =
    sort_from-IsAscending (insert_by_id r out) rs (insert_by_id-IsAscending r out h)

abbrev pub IsBehind : ℕ → HistoryRecord → Type 0
IsBehind since r = since < r.id

All-select_new :
    (since : ℕ) (xs : List HistoryRecord) → All (IsBehind since) (select (is_new since) xs)
All-select_new since [] = tt
All-select_new since (x ∷ xs) =
    if_case (All (IsBehind since)) (is_new since x) (λ h. (ground arith, All-select_new since xs))
      (λ _. All-select_new since xs)

All-reverse_aux :
    (P : HistoryRecord → Type 0) (out xs : List HistoryRecord)
    → All P out
    → All P xs
    → All P (reverse_aux xs out)
All-reverse_aux P out [] o h = o
All-reverse_aux P out (x ∷ xs) o h = All-reverse_aux P (x ∷ out) xs (h.0, o) h.1

-- A fetch that did not fail.
abbrev pub Fetched : (List HistoryRecord → Type 0) → Option (List HistoryRecord × Bool) → Type 0
Fetched P none = Unit
Fetched P (some (records, complete)) = P records

Fetched-append :
    (P : HistoryRecord → Type 0) (found : List HistoryRecord)
    (o : Option (List HistoryRecord × Bool))
    → All P found
    → Fetched (All P) o
    → Fetched (All P) (and_later found o)
Fetched-append P found none h g = tt
Fetched-append P found (some (rest, complete)) h g = All-append P found rest h g

collect_pages-IsBehind :
    (pages : ℕ → Option (List HistoryRecord)) (since page budget : ℕ)
    → Fetched (All (IsBehind since)) (collect_pages pages since page budget)
unfolding collect_pages
collect_pages-IsBehind pages since page zero = tt
collect_pages-IsBehind pages since page (suc budget) =
    maybe_case (Fetched (All (IsBehind since))) (pages page) tt λ records _.
      let new = All-select_new since records in
      if_case (Fetched (All (IsBehind since))) (is_last_page since records) (λ _. new)
        (λ _.
          Fetched-append (IsBehind since) (select (is_new since) records)
            (collect_pages pages since (page + 1) budget) new
            (collect_pages-IsBehind pages since (page + 1) budget))

-- What HistorySince returns is newer than the cursor, in the order of the ids.
abbrev pub IsWindow : ℕ → List HistoryRecord → Type 0
IsWindow since records = IsAscending records × All (IsBehind since) records

sorted-IsWindow :
    (since : ℕ) (o : Option (List HistoryRecord × Bool))
    → Fetched (All (IsBehind since)) o
    → Fetched (IsWindow since) (oldest_first o)
sorted-IsWindow since none h = tt
sorted-IsWindow since (some (records, complete)) h = (
  sort_from-IsAscending [] (reverse records) tt,
  All-sort_from (IsBehind since) [] (reverse records) tt
      (All-reverse_aux (IsBehind since) [] records tt h),
)

pub history_since-IsWindow :
    (pages : ℕ → Option (List HistoryRecord)) (since budget : ℕ)
    → Fetched (IsWindow since) (history_since pages since budget)
unfolding history_since
history_since-IsWindow pages since budget =
    sorted-IsWindow since (collect_pages pages since 1 budget)
      (collect_pages-IsBehind pages since 1 budget)
