-- ===== src/Storage/Reporters.antt =====
-- Which instances stand under a mount of backend/internal/storage/storage.go.
use journarr.Base.{
  ◌≡◌, refl, ◌↔◌, Bool, true, List, [], ◌∷◌, arith, if◌then◌else◌, maybe, first, exists, Text,
  text_eq_iff,
}
use journarr.Storage.{DiskEntry, Instance, Mount, Key, key_eq, entry_key, add_reporter, stands_at}

-- What `merged` holds under a key.
abbrev pub reporters_at : Key → List Mount → List Text
reporters_at k ms = maybe (first (stands_at k) ms) [] λ m. m.reported_by

-- An independent description: the instances that report an entry of the key, each once, in the order of
-- the registry.
abbrev pub reports : Key → List DiskEntry → Bool
reports k es = exists (λ e. key_eq (entry_key e) k) es

abbrev pub reporters : Key → List Instance → List Text → List Text
reporters k [] ids = ids
reporters k (i ∷ is) ids =
    reporters k is
      (maybe i.disk_space ids λ es. if reports k es then add_reporter i.id ids else ids)

key_eq_iff : (a b : Key) → (key_eq a b ≡ true) ↔ (a ≡ b)
key_eq_iff a b = ground (arith, text_eq_iff a.path b.path)

key_eq_refl : (a : Key) → key_eq a a ≡ true
key_eq_refl a = (key_eq_iff a a).1 refl

abbrev reported : Text → Mount → Mount
reported id m = record m { reported_by = add_reporter id m.reported_by }

module _ (id : Text) (e : DiskEntry) (k : Key) where
  abbrev here : Mount → Bool
  here m = stands_at (entry_key e) m

  abbrev heard : List Text → List Text
  heard ids = if key_eq (entry_key e) k then add_reporter id ids else ids
