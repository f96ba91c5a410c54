-- ===== src/Store/Correlate/Cycles.antt =====
-- The cycles of a download's links (backend/internal/store/correlate.go), before and after
-- LinkDownloadItem and BumpItemCycle.
use journarr.Base.{
  ℕ, ◌<◌, ◌≡◌, refl, sym, ap, ◌∙◌, subst, inl, inr, Bool, true, false, ◌&&◌, Option, none, some,
  List, [], ◌∷◌, ◌++◌, arith, leb, ◌==◌, if◌then◌else◌, ==_refl, Bool-cases, Option-cases,
  from_option, first, exists, update, All, first_sound, Text, text_eq, row_update, map_option,
  exists-update, first-update,
}
use Prim.Native.Nat.{max}
use mathlib.Core.Option.{some_inj}
use journarr.Store.Rows.{Db, Download, Link, MediaItem}
use journarr.Store.Items.{bump_item_cycle, get_media_item, next_attempt}
use journarr.Store.Normalize.{normalize_download_id}
use journarr.Store.Downloads.{is_link, link_row, link_download_item, has_download}
use journarr.Store.Transitions.{has_item}
use journarr.Store.Correlate.{cycle_for_item_download, max_cycle, is_client_link}

-- The larger cycle, as the scan takes it, and as a maximum.
larger : (n m : ℕ) → (if leb n m then m else n) ≡ max n m
larger n m = ground arith

max-step :
    (b c : Bool) (n m k : ℕ)
    → (let rest = if c then max m k else m in if b then max n rest else rest)
      ≡ (let most = if b then max n m else m in if c then max most k else most)
max-step true true n m k = omega arith
max-step true false n m k = refl
max-step false true n m k = refl
max-step false false n m k = refl

max_cycle-cons :
    (p : Link → Bool) (l : Link) (ls : List Link)
    → max_cycle p (l ∷ ls) ≡ (if p l then max l.cycle (max_cycle p ls) else max_cycle p ls)
unfolding max_cycle
max_cycle-cons p l ls =
    ap (λ n. if p l then n else max_cycle p ls) (larger l.cycle (max_cycle p ls))

pub max_cycle-append :
    (p : Link → Bool) (ls : List Link) (l : Link)
    → max_cycle p (ls ++ l ∷ []) ≡ (if p l then max (max_cycle p ls) l.cycle else max_cycle p ls)
max_cycle-append p [] l =
    max_cycle-cons p l [] ∙ (unfold max_cycle in ap (λ n. if p l then n else 0) (omega arith))
max_cycle-append p (x ∷ ls) l =
    max_cycle-cons p x (ls ++ l ∷ [])
    ∙ ap (λ n. if p x then max x.cycle n else n) (max_cycle-append p ls l)
    ∙ max-step (p x) (p l) x.cycle (max_cycle p ls) l.cycle
    ∙ ap (λ n. if p l then max n l.cycle else n) (sym (max_cycle-cons p x ls))

-- A link of a positive cycle that meets the condition is found.
max_cycle-pos :
    (p q : Link → Bool) (ls : List Link)
    → ((l : Link) → q l ≡ true → p l ≡ true)
    → All (λ (l : Link). 0 < l.cycle) ls
    → exists q ls ≡ true
    → 0 < max_cycle p ls
unfolding max_cycle
max_cycle-pos p q [] f h e = cc
max_cycle-pos p q (x ∷ ls) f h e = elim (Bool-cases (q x)) [
  | inl t ↦ let pos = h.0 in let px = f x t in ground arith
  | inr n ↦ let rest = max_cycle-pos p q ls f h.1 (ground arith) in ground arith
]

-- The download has the client id under which the grab came.
abbrev pub is_download_of : ℕ → Text → Db → Bool
is_download_of download key db =
    exists
      (λ (d : Download).
        d.id == download && text_eq d.client_download_id (normalize_download_id key))
      db.downloads

-- What is linked is read from two tables.
pub cycle_for_item_download-ext :
    (item : ℕ) (key : Text) (a b : Db)
    → b.links ≡ a.links
    → b.downloads ≡ a.downloads
    → cycle_for_item_download item key b ≡ cycle_for_item_download item key a
unfolding cycle_for_item_download
cycle_for_item_download-ext item key a b hl hd = rw (hl, hd) refl

-- BumpItemCycle reports a cycle that is not 0.
cycle-pos :
    (default : ℕ) (o : Option MediaItem)
    → 0 < default
    → ((m : MediaItem) → o ≡ some m → 0 < m.current_cycle)
    → 0 < from_option default (elim o [ none ↦ none | some m ↦ some m.current_cycle ])
cycle-pos default none h f = h
cycle-pos default (some m) h f = f m refl

pub bumped-pos :
    (id : ℕ) (db : Db) (default : ℕ)
    → 0 < default
    → 0 < from_option default (bump_item_cycle id db).0
unfolding bump_item_cycle next_attempt get_media_item
bumped-pos id db default h =
    let p : MediaItem → Bool = λ m. m.id == id in
    let f : MediaItem → MediaItem = next_attempt db.now in
    let at = first-update p p f (λ m. refl) db.items in
    cycle-pos default (first p (update p f db.items)) h λ m e.
      elim (Option-cases (first p db.items)) [
        | inl none_there ↦
            let impossible = sym (ap (map_option (row_update p f)) none_there) ∙ sym at ∙ e in cc
        | inr (old, is) ↦
            let moved = ap (map_option (row_update p f)) is in
            let same = some_inj.0 (sym moved ∙ sym at ∙ e) in
            subst (λ (m : MediaItem). 0 < m.current_cycle) same
              (rw (first_sound p db.items is) (omega arith))
      ]

pub bump_item_cycle-has_item :
    (item id : ℕ) (db : Db) → has_item item (bump_item_cycle id db).1 ≡ has_item item db
unfolding bump_item_cycle next_attempt
bump_item_cycle-has_item item id db =
    exists-update (λ (m : MediaItem). m.id == id) (λ (m : MediaItem). m.id == item)
      (next_attempt db.now) (λ m. refl) db.items

pub exists-weaken {ℓ} :
    {A : Type ℓ} (q p : A → Bool) (xs : List A)
    → ((a : A) → q a ≡ true → p a ≡ true)
    → exists q xs ≡ true
    → exists p xs ≡ true
exists-weaken q p [] f h = h
exists-weaken q p (x ∷ xs) f h = ground (arith, f x, exists-weaken q p xs f)

pub link_download_item-same :
    (download item cycle : ℕ) (db : Db)
    → exists (is_link download item) db.links ≡ true
    → link_download_item download item cycle db ≡ db
unfolding link_download_item
link_download_item-same download item cycle db h = rw h refl

pub link_download_item-new :
    (download item cycle : ℕ) (db : Db)
    → exists (is_link download item) db.links ≡ false
    → has_download download db ≡ true
    → has_item item db ≡ true
    → link_download_item download item cycle db
      ≡ record db { links = db.links ++ link_row download item cycle ∷ [] }
unfolding link_download_item
link_download_item-new download item cycle db h hd hi = rw (h, hd, hi) refl

pub linked-pos :
    (c : ℕ) (s : Text) (item download : ℕ) (db : Db)
    → is_download_of download (c ∷ s) db ≡ true
    → All (λ (l : Link). 0 < l.cycle) db.links
    → exists (is_link download item) db.links ≡ true
    → 0 < cycle_for_item_download item (c ∷ s) db
unfolding cycle_for_item_download
linked-pos c s item download db own pos e =
    max_cycle-pos (is_client_link item (normalize_download_id (c ∷ s)) db) (is_link download item)
      db.links
      (λ l h.
        let same : l.download_id ≡ download = ground arith in
        let mine : (l.media_item_id == item) ≡ true = ground arith in rw (mine, same, own) refl)
      pos e

pub added-cycle :
    (c : ℕ) (s : Text) (item download cycle : ℕ) (db : Db)
    → is_download_of download (c ∷ s) db ≡ true
    → cycle_for_item_download item
        (c ∷ s)
        (record db { links = db.links ++ link_row download item cycle ∷ [] })
      ≡ max (cycle_for_item_download item (c ∷ s) db) cycle
unfolding cycle_for_item_download
added-cycle c s item download cycle db own =
    max_cycle-append (is_client_link item (normalize_download_id (c ∷ s)) db) db.links
      (link_row download item cycle)
    ∙ rw (==_refl item, own) refl
