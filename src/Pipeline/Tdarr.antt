-- ===== src/Pipeline/Tdarr.antt =====
-- backend/internal/pipeline/tdarr.go: the optional transcode stage.
use journarr.Base.{
  ℕ, Bool, true, false, ◌&&◌, Option, none, ltb, if◌then◌else◌, maybe, or_else, from_option, Text,
  text,
}
use journarr.Pipeline.Ops.{TranscodeOp}
use journarr.Store.Stages.{transcode, matched, orphan}
use journarr.Store.Rows.{Db, MediaItem}
use journarr.Store.Items.{find_episode_item_by_tvdb, find_movie_item_by_tmdb}
use journarr.Store.Paths.{find_item_by_imported_path}
use journarr.Pipeline.Projector.{Projector, Outcome, outcome, apply}

-- resolveTranscodeItem: ids first, then the path (which finds nothing where it is empty).
unfoldable pub resolve_transcode_item : TranscodeOp → Db → Option MediaItem
resolve_transcode_item op db =
    or_else
      (if ltb 0 op.tvdb_id && ltb 0 op.episode
        then find_episode_item_by_tvdb op.tvdb_id op.season op.episode db
        else none)
      (or_else (if ltb 0 op.tmdb_id then find_movie_item_by_tmdb op.tmdb_id db else none)
        (find_item_by_imported_path op.file db))

abbrev pub transcode_note : Bool → Text
transcode_note true = text "tdarr complete"
transcode_note false = text "tdarr"

-- applyTranscode.
unfoldable pub apply_transcode : ℕ → TranscodeOp → Projector → Outcome × Projector
unfolding resolve_transcode_item
apply_transcode event op p =
    maybe (resolve_transcode_item op p.db) (outcome orphan 0 0 0, p)
      λ m.
        let request_id = from_option 0 m.request_id in
        (
          outcome matched request_id m.id 0,
          apply m.id request_id event transcode (transcode_note op.is_complete) p,
        )
