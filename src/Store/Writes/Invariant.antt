-- ===== src/Store/Writes/Invariant.antt =====
-- What the tables satisfy after any statements of the projector.
use journarr.Base.{
  ℕ, ◌≤◌, ◌≡◌, refl, sym, ◌∙◌, subst, ◌⊎◌, inl, inr, true, some, [], ◌∷◌, arith, ◌==◌, Bool-cases,
  exists, next_id, Text, exists-append, first_of_exists,
}
use mathlib.Core.Option.{some_inj}
use journarr.Store.Stages.{Stage, ordinal-injective}
use journarr.Store.Rows.{Db, MediaItem, StageTransition}
use journarr.Store.Items.{NewItem, upsert_item, get_media_item, bump_item_cycle}
use journarr.Store.Transitions.{
  is_transition, insert_transition, transition_row, advance_pointer, has_item, has_transition,
}
use journarr.Store.Transitions.Pointer.{position, item_position, applied_db}
use journarr.Store.Transitions.Convergence.{applied_item, has_item_of_get}
use journarr.Store.Downloads.{link_download_item}
use journarr.Store.Writes.{
  Write, Writes, upserts, applies, bumps, edits, connects, elsewhere, done, next,
}
use journarr.Store.Writes.Progress.{Advances, Write-Advances}

-- Every transition belongs to an item, whose pointer is not behind it.
pub record IsDominated (db : Db) : Type 0 where
  pub attached : (i c : ℕ) (s : Stage) → has_transition i c s db ≡ true → has_item i db ≡ true
  pub dominated :
      (i c : ℕ) (s : Stage) (m : MediaItem)
      → has_transition i c s db ≡ true
      → get_media_item i db ≡ some m
      → position c s ≤ item_position m

get_of_has :
    (i : ℕ) (db : Db) → has_item i db ≡ true → (m : MediaItem) × (get_media_item i db ≡ some m)
unfolding get_media_item
get_of_has i db h = first_of_exists (λ (m : MediaItem). m.id == i) db.items h

pub Advances-has_item :
    (a b : Db) → Advances a b → (i : ℕ) → has_item i a ≡ true → has_item i b ≡ true
Advances-has_item a b adv i h =
    let (m, at) = get_of_has i a h in
    let (m', at', l) = adv.items i m at in has_item_of_get i b m' at'

-- A statement that records no transition.
still-IsDominated :
    (a b : Db) → Advances a b → b.transitions ≡ a.transitions → IsDominated a → IsDominated b
unfolding has_transition
still-IsDominated a b adv e inv = record {
  attached = λ i c s h. Advances-has_item a b adv i (inv.attached i c s (rw e at h));
  dominated = λ i c s m h at.
      let old = rw e at h in
      let (m0, at0) = get_of_has i a (inv.attached i c s old) in
      let (m', at', l) = adv.items i m0 at0 in
      let bound = inv.dominated i c s m0 old at0 in
      let same : m' ≡ m = some_inj.0 (sym at' ∙ at) in
      let moved = l.moved in subst (λ m. position c s ≤ item_position m) same (omega arith);
}

-- A transition after ApplyStage is the new one or was there.
applied_db-only :
    (item cycle : ℕ) (stage : Stage) (event : ℕ) (note : Text) (db : Db) (i c : ℕ) (s : Stage)
    → has_transition i c s (applied_db item cycle stage event note db) ≡ true
    → (has_transition i c s db ≡ true) ⊎ ((item ≡ i) × (cycle ≡ c) × (stage ≡ s))
unfolding applied_db advance_pointer insert_transition has_transition transition_row
applied_db-only item cycle stage event note db i c s h =
    elim (Bool-cases (exists (is_transition item cycle stage) db.transitions)) [
      | inl e ↦ inl (rw e at h)
      | inr e ↦
          let row =
            transition_row (next_id (λ (t : StageTransition). t.id) db.transitions) db.now item
              cycle stage event note in
          let split =
            sym (exists-append (is_transition i c s) db.transitions (row ∷ [])) ∙ (rw e at h) in
          elim (Bool-cases (exists (is_transition i c s) db.transitions)) [
            | inl old ↦ inl old
            | inr fresh ↦ inr (ground arith, ground arith, ordinal-injective stage s (ground arith))
          ]
    ]

applied_db-IsDominated :
    (item cycle : ℕ) (stage : Stage) (event : ℕ) (note : Text) (db : Db)
    → has_item item db ≡ true
    → IsDominated db
    → IsDominated (applied_db item cycle stage event note db)
applied_db-IsDominated item cycle stage event note db there inv =
    let adv = Write-Advances _ _ (applies item cycle stage event note db there) in
    record {
      attached = λ i c s h.
          Advances-has_item _ _ adv i
            (elim (applied_db-only item cycle stage event note db i c s h) [
              | inl old ↦ inv.attached i c s old
              | inr eq ↦ subst (λ k. has_item k db ≡ true) eq.0 there
            ]);
      dominated = λ i c s m h at. elim (applied_db-only item cycle stage event note db i c s h) [
        | inl old ↦
            let (m0, at0) = get_of_has i db (inv.attached i c s old) in
            let (m', at', l) = adv.items i m0 at0 in
            let bound = inv.dominated i c s m0 old at0 in
            let moved = l.moved in
            subst (λ m. position c s ≤ item_position m) (some_inj.0 (sym at' ∙ at)) (omega arith)
        | inr eq ↦
            let (m0, at0) = get_of_has item db there in
            let (m', at', moved) = applied_item item cycle stage event note db m0 at0 in
            let at_item =
              subst (λ k. get_media_item k (applied_db item cycle stage event note db) ≡ some m)
                (sym eq.0) at in
            let same = some_inj.0 (sym at' ∙ at_item) in
            let reached : position cycle stage ≤ item_position m' = omega arith in
            subst (λ m. position c s ≤ item_position m) same
              (subst (λ k. position k s ≤ item_position m') eq.1
                (subst (λ t. position cycle t ≤ item_position m') eq.2 reached))
      ];
    }

upsert_item-transitions : (n : NewItem) (db : Db) → (upsert_item n db).transitions ≡ db.transitions
unfolding upsert_item
upsert_item-transitions n db = ground arith

link_download_item-transitions :
    (d i c : ℕ) (db : Db) → (link_download_item d i c db).transitions ≡ db.transitions
unfolding link_download_item
link_download_item-transitions d i c db = ground arith

Write-IsDominated : (a b : Db) → Write a b → IsDominated a → IsDominated b
unfolding bump_item_cycle
Write-IsDominated _ _ (upserts n db h) inv =
    still-IsDominated _ _ (Write-Advances _ _ (upserts n db h)) (upsert_item-transitions n db) inv
Write-IsDominated _ _ (applies item cycle stage event note db h) inv =
    applied_db-IsDominated item cycle stage event note db h inv
Write-IsDominated _ _ (bumps id db) inv =
    still-IsDominated _ _ (Write-Advances _ _ (bumps id db)) refl inv
Write-IsDominated _ _ (edits p f db e) inv =
    still-IsDominated _ _ (Write-Advances _ _ (edits p f db e)) refl inv
Write-IsDominated _ _ (connects d i c db) inv =
    still-IsDominated _ _ (Write-Advances _ _ (connects d i c db))
      (link_download_item-transitions d i c db) inv
Write-IsDominated a b (elsewhere e) inv =
    still-IsDominated a b (Write-Advances a b (elsewhere e)) e.transitions inv

pub Writes-IsDominated : {a b : Db} → Writes a b → IsDominated a → IsDominated b
Writes-IsDominated done inv = inv
Writes-IsDominated {a} {b = c} (next {b = b} v w) inv =
    Write-IsDominated b c w (Writes-IsDominated v inv)
