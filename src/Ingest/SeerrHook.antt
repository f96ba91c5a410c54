-- ===== src/Ingest/SeerrHook.antt =====
-- backend/internal/ingest/seerr.go: the notifications of Seerr, whose numbers are texts.
use journarr.Base.{
  ℕ, ◌-◌, ◌+◌, ◌*◌, true, false, not, ◌&&◌, ◌||◌, Option, none, some, List, [], ◌∷◌, ◌++◌, ◌==◌,
  ltb, ◌^◌, if◌then◌else◌, maybe, exists, Text, text, text_eq,
}
use mathlib.Core.List.{reverse}
use journarr.Pipeline.Ops.{
  RequestType, SeerrKind, pending_kind, approved_kind, declined_kind, available_kind, failed_kind,
  SeerrOp, seerr_op,
}
use journarr.Pipeline.Seasons.{is_digit}
use journarr.Store.Normalize.{is_space, trim_space}
use journarr.Poll.Cursors.{digits_value, parse_int}
use journarr.Poll.Emit.{emit_event}
use journarr.Ingest.{Handler}
use journarr.Ingest.ArrHooks.{equal_fold}

pub record SeerrMedia : Type 0 where
  pub media_type : RequestType
  pub tmdb_id : Text
  pub tvdb_id : Text

pub record SeerrRequester : Type 0 where
  pub request_id : Text
  pub requested_by_username : Text

pub record SeerrWebhook : Type 0 where
  pub notification_type : Text
  pub subject : Text
  pub image : Text
  pub media : Option SeerrMedia
  pub request : Option SeerrRequester
  pub extra : List (Text × Text)

unfoldable pub notification_kind : Text → Option SeerrKind
notification_kind type =
    if text_eq type (text "MEDIA_PENDING") || text_eq type (text "MEDIA_AUTO_REQUESTED")
    then some pending_kind
    else if text_eq type (text "MEDIA_APPROVED") || text_eq type (text "MEDIA_AUTO_APPROVED")
    then some approved_kind
    else if text_eq type (text "MEDIA_DECLINED")
    then some declined_kind
    else if text_eq type (text "MEDIA_AVAILABLE")
    then some available_kind
    else if text_eq type (text "MEDIA_FAILED")
    then some failed_kind
    else none

abbrev pub year_of_digits : ℕ → ℕ → ℕ → ℕ → ℕ
year_of_digits a b c d = (((a - b'0') * 10 + (b - b'0')) * 10 + (c - b'0')) * 10 + (d - b'0')

-- `^(.*)\s\((\d{4})\)$` on the reversed subject, where `.` is no newline: the title and the year.
unfoldable pub subject_year : Text → Option (Text × ℕ)
unfolding is_digit is_space
subject_year (r ∷ d ∷ c ∷ b ∷ a ∷ l ∷ s ∷ title) =
    if r == b')'
      && is_digit d
      && is_digit c
      && is_digit b
      && is_digit a
      && l == b'('
      && (is_space s && not (s == 11))
      && not (exists (λ x. x == 10) title)
    then some (reverse title, year_of_digits a b c d)
    else none
subject_year _ = none

-- strings.Split(s, ","), of which `part` is the part in hand, reversed.
unfoldable pub split_comma : Text → Text → List Text
split_comma part [] = reverse part ∷ []
split_comma part (c ∷ s) =
    let longer = split_comma (c ∷ part) s in
    let next = reverse part ∷ split_comma [] s in if c == b',' then next else longer

-- A number that strconv.ParseInt takes without an error.
abbrev pub in_int64 : Option ℕ → Option ℕ
in_int64 none = none
in_int64 (some n) = if ltb n (2 ^ 63) then some n else none

unfoldable pub parse_number : Text → Option ℕ
unfolding digits_value
parse_number [] = none
parse_number (c ∷ s) = in_int64 (digits_value 0 (c ∷ s))

unfoldable pub numbers : List Text → List ℕ
unfolding parse_number trim_space
numbers [] = []
numbers (part ∷ parts) =
    let rest = numbers parts in maybe (parse_number (trim_space part)) rest λ n. n ∷ rest

unfoldable pub requested_seasons : List (Text × Text) → List ℕ
unfolding equal_fold split_comma numbers
requested_seasons [] = []
requested_seasons ((name, value) ∷ extra) =
    let rest = requested_seasons extra in
    if equal_fold name (text "Requested Seasons")
    then numbers (split_comma [] value) ++ rest
    else rest

unfoldable pub seerr_hook_op : SeerrWebhook → SeerrKind → ℕ → SeerrMedia → SeerrRequester → SeerrOp
unfolding parse_int subject_year requested_seasons
seerr_hook_op w kind id media request =
    let found = subject_year (reverse w.subject) in
    record {
      seerr_request_id = id;
      kind = kind;
      media_type = media.media_type;
      tmdb_id = parse_int media.tmdb_id;
      tvdb_id = parse_int media.tvdb_id;
      title = maybe found w.subject λ t. t.0;
      year = maybe found 0 λ t. t.1;
      poster = w.image;
      requested_by = request.requested_by_username;
      seasons = requested_seasons w.extra;
    }

unfoldable pub handle_seerr : Handler SeerrWebhook
unfolding notification_kind seerr_hook_op emit_event parse_int
handle_seerr none s = (false, s)
handle_seerr (some w) s =
    if text_eq w.notification_type (text "TEST_NOTIFICATION")
    then (true, s)
    else maybe (notification_kind w.notification_type) (false, s)
        λ kind.
          maybe w.request (false, s)
            λ request.
              maybe w.media (false, s)
                λ media.
                  let id = parse_int request.request_id in
                  if id == 0
                  then (false, s)
                  else (true, emit_event [] (seerr_op (seerr_hook_op w kind id media request)) s)
