-- ===== src/Ingest/Guarded.antt =====
-- Who may write through the webhooks of backend/internal/ingest, and what a retried one writes.
use journarr.Base.{
  ℕ, ◌≡◌, refl, sym, ap, ◌∙◌, inl, inr, Bool, true, false, not, ◌&&◌, ◌||◌, some, [], ◌∷◌,
  Bool-cases, if_case, first, Text, text, text_eq, is_empty,
}
use journarr.Pipeline.Ops.{Op}
use journarr.Store.Rows.{Db}
use journarr.Store.Events.Keyed.{insert_event_again}
use journarr.Poll.Emit.{Emitter, emit_event}
use journarr.Ingest.OtherHooks.{
  ArrarrEvent, arrarr_key, handle_arrarr, TdarrEvent, tdarr_key, tdarr_phase, handle_tdarr,
}

or_false : (b : Bool) → (b || false) ≡ b
or_false true = refl
or_false false = refl

-- A second event under a key that is not empty changes nothing.
emit_again :
    (c : ℕ) (k : Text) (op later : Op) (s : Emitter)
    → let s' = emit_event (c ∷ k) op s in emit_event (c ∷ k) later s' ≡ s'
unfolding emit_event
emit_again c k op later s =
    let s' = emit_event (c ∷ k) op s in
    ap (λ (r : (ℕ × Bool) × Db). record { db = r.1; woken = s'.woken || r.0.1 })
      (insert_event_again c k op later s.db)
    ∙ ap (λ (b : Bool). record { db = s'.db; woken = b }) (or_false s'.woken)

emit_under_key :
    (key key' : Text) (op later : Op) (s : Emitter)
    → is_empty key ≡ false
    → key' ≡ key
    → emit_event key' later (emit_event key op s) ≡ emit_event key op s
emit_under_key [] key' op later s h e = cc
emit_under_key (c ∷ k) key' op later s h e =
    ap (λ (j : Text). emit_event j later (emit_event (c ∷ k) op s)) e ∙ emit_again c k op later s

arrarr_key-nonempty : (id : Text) → is_empty id ≡ false → is_empty (arrarr_key id) ≡ false
unfolding arrarr_key
arrarr_key-nonempty [] h = cc
arrarr_key-nonempty (c ∷ s) h = refl

tdarr_key-nonempty :
    (phase file : Text) → is_empty file ≡ false → is_empty (tdarr_key phase file) ≡ false
unfolding tdarr_key
tdarr_key-nonempty phase [] h = cc
tdarr_key-nonempty phase (c ∷ s) h = refl

-- An event of Arrarr that is not refused is one delivery under its key.
handle_arrarr_emits :
    (e : ArrarrEvent) (s : Emitter)
    → (handle_arrarr (some e) s).0 ≡ true
    → (op : Op) × ((handle_arrarr (some e) s).1 ≡ emit_event (arrarr_key e.event_id) op s)
unfolding handle_arrarr
handle_arrarr_emits e s =
    let Emits = λ (r : Bool × Emitter).
      r.0 ≡ true → (op : Op) × (r.1 ≡ emit_event (arrarr_key e.event_id) op s) in
    if_case Emits (not (text_eq e.event (text "job.transition")) || is_empty e.to) (λ _ h. cc)
      (λ _.
        if_case Emits (is_empty e.nzo_id && is_empty e.nzb_sha256) (λ _ h. cc) (λ _ h. (_, refl)))

handle_arrarr_refused :
    (e : ArrarrEvent) (s : Emitter)
    → (handle_arrarr (some e) s).0 ≡ false
    → (handle_arrarr (some e) s).1 ≡ s
unfolding handle_arrarr
handle_arrarr_refused e s =
    let Refused = λ (r : Bool × Emitter). r.0 ≡ false → r.1 ≡ s in
    if_case Refused (not (text_eq e.event (text "job.transition")) || is_empty e.to) (λ _ h. refl)
      (λ _. if_case Refused (is_empty e.nzo_id && is_empty e.nzb_sha256) (λ _ h. refl) (λ _ h. cc))

-- A webhook of Arrarr that is sent again under its event id writes nothing more, whatever else it says.
pub handle_arrarr_again :
    (e f : ArrarrEvent) (s : Emitter)
    → is_empty e.event_id ≡ false
    → f.event_id ≡ e.event_id
    → (handle_arrarr (some e) s).0 ≡ true
    → (handle_arrarr (some f) (handle_arrarr (some e) s).1).1 ≡ (handle_arrarr (some e) s).1
handle_arrarr_again e f s he hf ok =
    let (op, first) = handle_arrarr_emits e s ok in
    let s' = (handle_arrarr (some e) s).1 in
    elim (Bool-cases (handle_arrarr (some f) s').0) [
      | inl taken ↦
          let (later, second) = handle_arrarr_emits f s' taken in
          second
          ∙ ap (λ (x : Emitter). emit_event (arrarr_key f.event_id) later x) first
          ∙ emit_under_key (arrarr_key e.event_id) (arrarr_key f.event_id) op later s
              (arrarr_key-nonempty e.event_id he) (ap arrarr_key hf)
          ∙ sym first
      | inr refused ↦ handle_arrarr_refused f s' refused
    ]

-- So does one of Tdarr for the same phase of the same file.
pub handle_tdarr_again :
    (t u : TdarrEvent) (s : Emitter)
    → is_empty t.file ≡ false
    → u.file ≡ t.file
    → tdarr_phase u ≡ tdarr_phase t
    → (handle_tdarr (some u) (handle_tdarr (some t) s).1).1 ≡ (handle_tdarr (some t) s).1
unfolding handle_tdarr
handle_tdarr_again t u s ht hu hp =
    emit_under_key (tdarr_key (tdarr_phase t) t.file) (tdarr_key (tdarr_phase u) u.file) _ _ s
      (tdarr_key-nonempty (tdarr_phase t) t.file ht)
      (ap (λ (p : Text). tdarr_key p u.file) hp ∙ ap (λ (f : Text). tdarr_key (tdarr_phase t) f) hu)
