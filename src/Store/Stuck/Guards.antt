-- ===== src/Store/Stuck/Guards.antt =====
-- What MarkStuck (backend/internal/store/stuck.go) flags and what it leaves alone.
use journarr.Base.{
  ℕ, ◌≡◌, refl, ap, ◌∙◌, ◌≢◌, ◌⊎◌, inl, inr, true, false, Option, none, some, List, [], ◌∷◌, arith,
  ◌==◌, if◌then◌else◌, Bool-cases, is_some, Text, is_empty, map_option, first-update,
}
use journarr.Store.Stages.{Stage}
use journarr.Store.Rows.{Db, MediaItem}
use journarr.Store.Items.{get_media_item, is_request_active}
use journarr.Store.Stuck.{should_mark, mark_stage, mark_stuck}

-- An item that may be flagged: it makes no progress, and neither waits nor failed nor was given up.
pub record MayFlag (db : Db) (m : MediaItem) : Type 0 where
  pub unflagged : m.stuck_since ≡ none
  pub no_error : m.last_error ≡ []
  pub not_waiting : m.awaiting_release_at ≡ none
  pub is_requested : is_request_active db m.request_id ≡ true

is_empty-eq : (s : Text) → is_empty s ≡ true → s ≡ []
is_empty-eq [] h = refl
is_empty-eq (c ∷ s) h = cc

is_some-none {ℓ} : {A : Type ℓ} (o : Option A) → is_some o ≡ false → o ≡ none
is_some-none none h = refl
is_some-none (some a) h = cc

should_mark-MayFlag :
    (stage : Stage) (secs : ℕ) (db : Db) (m : MediaItem)
    → should_mark stage secs db m ≡ true
    → MayFlag db m
unfolding should_mark
should_mark-MayFlag stage secs db m h = record {
  unflagged = is_some-none m.stuck_since (ground arith);
  no_error = is_empty-eq m.last_error (ground arith);
  not_waiting = is_some-none m.awaiting_release_at (ground arith);
  is_requested = ground arith;
}

-- The item that an item is after one pass: itself, or itself with the flag.
abbrev pub flagged : Db → MediaItem → MediaItem
flagged db m = record m { stuck_since = some db.now }

mark_stage-get :
    (stage : Stage) (secs : ℕ) (db : Db) (id : ℕ) (m : MediaItem)
    → get_media_item id db ≡ some m
    → get_media_item id (mark_stage stage secs db)
      ≡ some (if should_mark stage secs db m then flagged db m else m)
unfolding mark_stage get_media_item
mark_stage-get stage secs db id m h =
    first-update (should_mark stage secs db) (λ (m : MediaItem). m.id == id) (flagged db)
      (λ m. refl) db.items
    ∙ ap (map_option _) h

mark_stage-flagged :
    (stage : Stage) (secs : ℕ) (db : Db) (m : MediaItem)
    → flagged (mark_stage stage secs db) m ≡ flagged db m
unfolding mark_stage
mark_stage-flagged stage secs db m = refl

active_after :
    (stage : Stage) (secs : ℕ) (db : Db) (request_id : Option ℕ)
    → is_request_active db request_id ≡ is_request_active (mark_stage stage secs db) request_id
unfolding mark_stage is_request_active
active_after stage secs db none = refl
active_after stage secs db (some id) = refl

mark_stage-MayFlag :
    (stage : Stage) (secs : ℕ) (db : Db) (m : MediaItem)
    → MayFlag (mark_stage stage secs db) m
    → MayFlag db m
mark_stage-MayFlag stage secs db m may = record {
  unflagged = may.unflagged;
  no_error = may.no_error;
  not_waiting = may.not_waiting;
  is_requested = active_after stage secs db m.request_id ∙ may.is_requested;
}

some-not_none : (n : ℕ) → some n ≢ none
some-not_none n h = cc

-- Whatever the thresholds and their order, an item is the same after MarkStuck, or is flagged with the
-- time of the pass; it is flagged only where it had no flag, no error and no release to wait for, and
-- its request is active.
pub mark_stuck_lem :
    (thresholds : List (Stage × ℕ)) (db : Db) (id : ℕ) (m : MediaItem)
    → get_media_item id db ≡ some m
    → (get_media_item id (mark_stuck thresholds db).1 ≡ some m)
      ⊎ ((get_media_item id (mark_stuck thresholds db).1 ≡ some (flagged db m)) × MayFlag db m)
unfolding mark_stuck
mark_stuck_lem [] db id m h = inl h
mark_stuck_lem ((stage, secs) ∷ ts) db id m h = elim (Bool-cases (should_mark stage secs db m)) [
  | inl e ↦
      elim (mark_stuck_lem ts (mark_stage stage secs db) id (flagged db m)
        (mark_stage-get stage secs db id m h ∙ rw e refl)) [
          | inl same ↦ inr (same, should_mark-MayFlag stage secs db m e)
          | inr (at, may) ↦ absurd (some-not_none db.now may.unflagged)
        ]
  | inr e ↦
      elim (mark_stuck_lem ts (mark_stage stage secs db) id m
        (mark_stage-get stage secs db id m h ∙ rw e refl)) [
          | inl same ↦ inl same
          | inr (at, may) ↦ inr (
            at ∙ ap some (mark_stage-flagged stage secs db m),
            mark_stage-MayFlag stage secs db m may,
          )
        ]
]
