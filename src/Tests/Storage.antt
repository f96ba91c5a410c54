-- ===== src/Tests/Storage.antt =====
-- The mounts of backend/internal/storage/storage.go on concrete data.
use journarr.Base.{◌≡◌, refl, none, some, List, [], ◌∷◌, text}
use journarr.Storage.{DiskEntry, Instance, Key, merge}
use journarr.Storage.Reporters.{reporters_at}

abbrev disk : DiskEntry
disk = record { path = text "/media/"; label = []; free_space = 40; total_space = 100 }

-- Two instances see the same disk, one of them twice and with a slash; one does not answer.
abbrev instances : List Instance
instances =
    record {
      id = text "sonarr";
      disk_space = some (disk ∷ record disk { path = text "/media" } ∷ []);
      root_folders = some (text "/media/tv" ∷ []);
    }
    ∷ record { id = text "lidarr"; disk_space = none; root_folders = none }
    ∷ record { id = text "radarr"; disk_space = some (disk ∷ []); root_folders = none }
    ∷ []

abbrev media : Key
media = record { path = text "/media"; free = 40; total = 100 }

both_report : reporters_at media (merge instances []) ≡ text "sonarr" ∷ text "radarr" ∷ []
unfolding merge
both_report = refl
