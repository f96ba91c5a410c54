-- ===== src/Poll/History/Lossless.antt =====
-- What a pass of backend/internal/poll/arrhistory.go leaves in the log, whatever fails on the way.
use journarr.Base.{
  ℕ, ◌^◌, ◌≤◌, ◌<◌, ◌≡◌, refl, sym, ap, ◌∙◌, subst, ◌⊎◌, inl, inr, Bool, true, false, not, ◌&&◌,
  Option, some, List, [], ◌∷◌, arith, ◌==◌, ==_iff, Bool-cases, Option-cases, maybe_case, if_case,
  exists, All, text_eq_iff,
}
use journarr.Pipeline.Ops.{Arr}
use journarr.Pipeline.Seasons.{itoa64}
use journarr.Store.Rows.{Db}
use journarr.Store.Events.{insert_event}
use journarr.Poll.Cursors.{PollState, get_poll_cursor, parse_int}
use journarr.Poll.Cursors.RoundTrip.{parse_int-itoa64, get-set_poll_cursor}
use journarr.Poll.HistoryPages.{HistoryRecord, history_since}
use journarr.Poll.HistoryPages.Window.{
  IsAscending, IsBehind, IsWindow, Fetched, history_since-IsWindow,
}
use journarr.Poll.History.{
  normalize, history_key, cursor_key, Poller, Round, insert_record, later, insert_records,
  max_pages, saved, process_records, since_id, pass,
}
use journarr.Poll.History.Inserted.{
  is_logged, has_kind, is_record, is_foreign, IsInserted, Inserted, insert_record-Inserted,
}

-- A record in order that is in the log, or still to come behind the cursor.
abbrev Covered : Arr → ℕ → ℕ → List HistoryRecord → Db → Type 0
Covered arr id cursor records db =
    (is_logged arr id db ≡ true) ⊎ ((cursor < id) × (exists (is_record id) records ≡ true))

-- A record of the window that is not the head is not before it.
member-above :
    (n id : ℕ) (xs : List HistoryRecord)
    → All (λ (y : HistoryRecord). n ≤ y.id) xs
    → exists (is_record id) xs ≡ true
    → n ≤ id
member-above n id [] a e = cc
member-above n id (x ∷ xs) a e = ground (arith, a.0, member-above n id xs a.1)

Covered-step :
    (arr : Arr) (id cursor : ℕ) (x : HistoryRecord) (xs : List HistoryRecord) (db db' : Db)
    → IsAscending (x ∷ xs)
    → exists (is_foreign arr id) (x ∷ xs) ≡ false
    → IsInserted arr x db db'
    → Covered arr id cursor (x ∷ xs) db
    → Covered arr id (later cursor x.id) xs db'
Covered-step arr id cursor x xs db db' asc known ins (inl h) = inl (ins.keeps id h)
Covered-step arr id cursor x xs db db' asc known ins (inr (lt, e)) =
    elim (Bool-cases (x.id == id)) [
      | inl same ↦
          let kind : has_kind arr x ≡ true = ground arith in
          inl (subst (λ n. is_logged arr n db' ≡ true) ((==_iff x.id id).0 same) (ins.logs kind))
      | inr other ↦
          let rest : exists (is_record id) xs ≡ true = ground arith in
          let above = member-above x.id id xs asc.0 rest in inr (ground arith, rest)
    ]

abbrev Ends : Arr → ℕ → ℕ × ℕ × Db → Type 0
Ends arr id r = (is_logged arr id r.2 ≡ true) ⊎ (r.0 < id)

stopped :
    (arr : Arr) (id cursor : ℕ) (xs : List HistoryRecord) (db : Db)
    → Covered arr id cursor xs db
    → Ends arr id (cursor, 0, db)
stopped arr id cursor xs db (inl h) = inl h
stopped arr id cursor xs db (inr (lt, e)) = inr lt

insert_records-Ends :
    (arr : Arr) (fails : ℕ → Bool) (id : ℕ) (xs : List HistoryRecord) (cursor : ℕ) (db : Db)
    → IsAscending xs
    → exists (is_foreign arr id) xs ≡ false
    → Covered arr id cursor xs db
    → Ends arr id (insert_records arr fails false xs cursor db)
unfolding insert_records
insert_records-Ends arr fails id [] cursor db asc known cov = stopped arr id cursor [] db cov
insert_records-Ends arr fails id (x ∷ xs) cursor db asc known cov =
    maybe_case (Ends arr id) (insert_record arr fails false x db)
      (stopped arr id cursor (x ∷ xs) db cov)
      λ done e.
        insert_records-Ends arr fails id xs (later cursor x.id) done.1 asc.1 (ground arith) (
          Covered-step arr id cursor x xs db done.1 asc known
            (subst (Inserted arr x db) e (insert_record-Inserted arr fails x db)) cov)

reached :
    (id cursor : ℕ) (x : HistoryRecord) (xs : List HistoryRecord)
    → (id ≤ cursor) ⊎ (exists (is_record id) (x ∷ xs) ≡ true)
    → (id ≤ later cursor x.id) ⊎ (exists (is_record id) xs ≡ true)
reached id cursor x xs (inl h) = inl (ground arith)
reached id cursor x xs (inr e) = elim (Bool-cases (x.id == id)) [
  | inl same ↦ inl (ground arith)
  | inr other ↦ inr (ground arith)
]

-- Without a failure the loop goes to the end.
insert_records-end :
    (arr : Arr) (id : ℕ) (xs : List HistoryRecord) (cursor : ℕ) (db : Db)
    → (id ≤ cursor) ⊎ (exists (is_record id) xs ≡ true)
    → id ≤ (insert_records arr (λ _. false) false xs cursor db).0
unfolding insert_records insert_record
insert_records-end arr id [] cursor db (inl h) = h
insert_records-end arr id [] cursor db (inr e) = cc
insert_records-end arr id (x ∷ xs) cursor db h = elim (Option-cases (normalize arr x)) [
  | inl e ↦ rw e (insert_records-end arr id xs (later cursor x.id) db (reached id cursor x xs h))
  | inr (op, e) ↦ rw e (
      insert_records-end arr id xs (later cursor x.id) (insert_event (history_key arr x.id) op db).1
        (reached id cursor x xs h))
]

-- The cursor that the next pass reads is the one that was saved, or the old one.
since-saved :
    (arr : Arr) (saves : Bool) (since end : ℕ) (cursors : PollState)
    → end < 2 ^ 63
    → let next = parse_int (get_poll_cursor (cursor_key arr) (saved arr saves since end cursors)) in
      (next ≡ end) ⊎ (next ≡ parse_int (get_poll_cursor (cursor_key arr) cursors))
unfolding saved
since-saved arr saves since end cursors h =
    let key = cursor_key arr in
    if_case
      (λ (rows : PollState).
        (parse_int (get_poll_cursor key rows) ≡ end)
        ⊎ (parse_int (get_poll_cursor key rows) ≡ parse_int (get_poll_cursor key cursors)))
      (not (end == since) && saves)
      (λ _. inl (
        ap parse_int (get-set_poll_cursor key key (itoa64 end) cursors)
        ∙ rw ((text_eq_iff key key).1 refl) (parse_int-itoa64 end h)))
      (λ _. inr refl)

member-ahead :
    (since id : ℕ) (xs : List HistoryRecord)
    → All (IsBehind since) xs
    → exists (is_record id) xs ≡ true
    → since < id
member-ahead since id [] a e = cc
member-ahead since id (x ∷ xs) a e = ground (arith, a.0, member-ahead since id xs a.1)

process_records-Ends :
    (arr : Arr) (round : Round) (records : List HistoryRecord) (p : Poller) (id : ℕ)
    → let since = since_id arr p in
      (since == 0) ≡ false
      → IsWindow since records
      → id < 2 ^ 63
      → exists (is_record id) records ≡ true
      → exists (is_foreign arr id) records ≡ false
      → let q = process_records arr round since records p in
        (is_logged arr id q.db ≡ true) ⊎ (since_id arr q < id)
unfolding process_records since_id
process_records-Ends arr round records p id later_run w fits found known =
    let since = since_id arr p in
    let ahead : since < id = member-ahead since id records w.1 found in
    let end = insert_records arr round.fails (since == 0) records since p.db in
    let ends : Ends arr id end =
      subst (λ first. Ends arr id (insert_records arr round.fails first records since p.db))
        (sym later_run)
        (insert_records-Ends arr round.fails id records since p.db w.0 known
          (inr (ahead, found))) in
    elim ends [
      | inl h ↦ inl h
      | inr lt ↦ inr (elim (since-saved arr round.saves since end.0 p.cursors (omega arith)) [
        | inl e ↦ subst (λ n. n < id) (sym e) lt
        | inr e ↦ subst (λ n. n < id) (sym e) ahead
      ])
    ]

-- Whatever fails on the way, a pass that is not the first leaves a record that it fetched, of a type
-- that it reads and with an id in int64, either in the log or ahead of the cursor from which the next
-- pass fetches.
pub pass-IsLossless :
    (arr : Arr) (round : Round) (p : Poller) (records : List HistoryRecord) (complete : Bool)
    (id : ℕ)
    → (since_id arr p == 0) ≡ false
    → history_since round.pages (since_id arr p) max_pages ≡ some (records, complete)
    → id < 2 ^ 63
    → exists (is_record id) records ≡ true
    → exists (is_foreign arr id) records ≡ false
    → (is_logged arr id (pass arr round p).db ≡ true) ⊎ (since_id arr (pass arr round p) < id)
unfolding pass
pass-IsLossless arr round p records complete id later_run e fits found known =
    let since = since_id arr p in
    let w =
      subst (Fetched (IsWindow since)) e (history_since-IsWindow round.pages since max_pages) in
    if_case (λ (q : Poller). (is_logged arr id q.db ≡ true) ⊎ (since_id arr q < id))
      (not round.loads) (λ _. inr (member-ahead since id records w.1 found))
      (λ _. rw e (process_records-Ends arr round records p id later_run w fits found known))

-- A round in which every statement but SetPollCursor succeeds.
abbrev pub calm : (ℕ → Option (List HistoryRecord)) → Bool → Round
calm pages saves = record { pages = pages; fails = λ _. false; loads = true; saves = saves }

-- A pass that is not the first and meets no failure leaves every record that it fetched, of a type that
-- it reads, in the log, also those at which an earlier pass was aborted.
pub pass-logged :
    (arr : Arr) (pages : ℕ → Option (List HistoryRecord)) (saves : Bool) (p : Poller)
    (records : List HistoryRecord) (complete : Bool) (id : ℕ)
    → (since_id arr p == 0) ≡ false
    → history_since pages (since_id arr p) max_pages ≡ some (records, complete)
    → exists (is_record id) records ≡ true
    → exists (is_foreign arr id) records ≡ false
    → is_logged arr id (pass arr (calm pages saves) p).db ≡ true
unfolding pass process_records
pass-logged arr pages saves p records complete id later_run e found known =
    let since = since_id arr p in
    let w = subst (Fetched (IsWindow since)) e (history_since-IsWindow pages since max_pages) in
    let ahead : since < id = member-ahead since id records w.1 found in
    let ends =
      insert_records-Ends arr (λ _. false) id records since p.db w.0 known (inr (ahead, found)) in
    rw (e, later_run)
      (elim ends [
        | inl h ↦ h
        | inr lt ↦
            let le = insert_records-end arr id records since p.db (inr found) in
            absurd (omega arith)
      ])
