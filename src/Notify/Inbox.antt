-- ===== src/Notify/Inbox.antt =====
-- The dashboard's inbox of linkmoth_notify.py: `in_app_notifications`.
use linkmoth.Prelude.{
  ℕ, suc, String, Bool, true, false, not, ◌&&◌, ◌||◌, Option, none, some, List, [], ◌∷◌, ◌++◌, any,
  all, update, length-update, count, ◌+◌, ◌≡◌, refl, arith, length, newest, min, max, leb, ◌==◌,
  str_eq, if◌then◌else◌,
}
use linkmoth.Text.{is_empty, strip, truncate}

abbrev pub max_in_app_notifications : ℕ
max_in_app_notifications = 500

abbrev pub max_page : ℕ
max_page = 100

pub record Notification : Type 0 where
  pub id : ℕ
  pub event_key : String
  pub created : ℕ
  pub event_type : String
  pub severity : String
  pub title : String
  pub detail : String
  pub source_kind : String
  pub source_id : String
  pub source_ref : Option String
  pub read_at : Option ℕ

-- The row id that SQLite gives to the next row.
unfoldable pub next_notification_id : List Notification → ℕ
next_notification_id [] = 1
next_notification_id (r ∷ rows) = max (suc r.id) (next_notification_id rows)

abbrev default_to : String → String → String
default_to default s = if is_empty s then default else s

abbrev or_none : String → Option String
or_none s = if is_empty s then none else some s

-- The row that is stored for a notification that was asked for, "" where a text is missing.
unfoldable pub cut_notification : ℕ → Notification → Notification
cut_notification id n = record n {
  id = id;
  event_key = truncate 300 (strip n.event_key);
  event_type = truncate 80 (strip n.event_type);
  severity = truncate 20 (strip (default_to "unknown" n.severity));
  title = truncate 200 (strip (default_to "Linkmoth alert" n.title));
  detail = truncate 500 (strip n.detail);
  source_kind = truncate 40 (strip (default_to "linkmoth" n.source_kind));
  source_id = truncate 200 (strip (default_to "linkmoth" n.source_id));
  source_ref = elim n.source_ref [ none ↦ none | some s ↦ or_none (truncate 100 (strip s)) ];
  read_at = none;
}

abbrev pub has_key : String → List Notification → Bool
has_key key rows = any (λ (r : Notification). str_eq r.event_key key) rows

-- `record_in_app_notification`: the table and whether a row was inserted; `none` for the ValueError.
unfoldable pub record_notification :
    Notification → List Notification → Option (List Notification × Bool)
record_notification asked rows =
    let n = cut_notification (next_notification_id rows) asked in
    if is_empty n.event_key || is_empty n.event_type
    then none
    else if has_key n.event_key rows
    then some (rows, false)
    else some (newest max_in_app_notifications (rows ++ n ∷ []), true)

abbrev pub is_unread : Notification → Bool
is_unread n = elim n.read_at [ none ↦ true | some t ↦ false ]

unfoldable pub reversed : List Notification → List Notification → List Notification
reversed [] out = out
reversed (n ∷ rows) out = reversed rows (n ∷ out)

-- `list_in_app_notifications`: the newest first, and how many are unread.
unfoldable pub list_notifications : ℕ → List Notification → List Notification × ℕ
list_notifications limit rows =
    (reversed (newest (max 1 (min max_page limit)) rows) [], count is_unread rows)

-- What is to be marked: every row, or the rows with these ids.
pub data Marking : Type 0 where
  every_row : Marking
  rows_with : List ℕ → Marking

-- `read_in_app_notifications` on whole numbers: the table, how many rows were marked, and how many are
-- unread; `none` for the ValueError.
abbrev pub is_marking : Marking → Bool
is_marking every_row = true
is_marking (rows_with ids) =
    not (length ids == 0) && (leb (length ids) max_page && all (λ i. not (i == 0)) ids)

abbrev pub is_chosen : Marking → Notification → Bool
is_chosen every_row n = is_unread n
is_chosen (rows_with ids) n = is_unread n && any (λ i. i == n.id) ids

unfoldable pub read_notifications :
    ℕ → Marking → List Notification → Option (List Notification × (ℕ × ℕ))
read_notifications now marking rows =
    let left =
      update (is_chosen marking) (λ (n : Notification). record n { read_at = some now }) rows in
    if is_marking marking
    then some (left, (count (is_chosen marking) rows, count is_unread left))
    else none

count-read :
    (now : ℕ) (marking : Marking) (rows : List Notification)
    → count is_unread
          (update (is_chosen marking) (λ (n : Notification). record n { read_at = some now }) rows)
        + count (is_chosen marking) rows
      ≡ count is_unread rows
count-read now marking [] = refl
count-read now every_row (n ∷ rows) = ground (arith, count-read now every_row rows)
count-read now (rows_with ids) (n ∷ rows) = ground (arith, count-read now (rows_with ids) rows)

-- Reading marks only unread notifications, each once: what was marked and what is still unread make up
-- what was unread before.
pub read_notifications_lem :
    (now marked unread : ℕ) (marking : Marking) (rows left : List Notification)
    → read_notifications now marking rows ≡ some (left, (marked, unread))
    → (unread + marked ≡ count is_unread rows) × (length left ≡ length rows)
unfolding read_notifications
read_notifications_lem now marked unread marking rows left h = ground (
  arith,
  h,
  count-read now marking rows,
  length-update (is_chosen marking) (λ (n : Notification). record n { read_at = some now }) rows,
)
