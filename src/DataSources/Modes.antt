-- ===== src/DataSources/Modes.antt =====
-- db_sources.py, class DataSourceStore: the storage mode of a table and the marks on its row.
use pdc_client.Base.{
  ℕ, Bool, true, false, not, ◌&&◌, ◌||◌, Option, none, some, [], map, if◌then◌else◌, Text, nat_Eq,
  text_Eq, pair_Eq, str_eq,
}
use pdc_client.Base.Lists.{filter, any, length, is_nil}
use pdc_client.Base.Strings.{codes, fold_case}
use pdc_client.Schedules.{Schedule}
use pdc_client.DataSources.{Table, Doc, change_first}

abbrev pub live : Text
live = codes "live"

abbrev pub snapshot : Text
snapshot = codes "snapshot"

-- `mode == "live"`
unfoldable pub is_live_mode : Option Text → Bool
is_live_mode none = false
is_live_mode (some m) = str_eq m live

unfoldable pub table_mode : Option Text → Text
table_mode m = if is_live_mode m then live else snapshot

unfoldable pub is_mode : Text → Bool
is_mode m = str_eq m snapshot || str_eq m live

unfoldable pub is_live_reason : Text → Bool
is_live_reason r = str_eq r (codes "threshold") || str_eq r (codes "manual")

none_or : (Text → Bool) → Option Text → Bool
none_or p none = true
none_or p (some s) = p s

-- `validate_mode_fields`; the two fields that it wants to be texts are texts here.
unfoldable pub valid_mode_fields : Table → Bool
unfolding none_or
valid_mode_fields t = none_or is_mode t.mode && none_or is_live_reason t.live_reason

abbrev pub has_id : Text → Table → Bool
has_id tid t = str_eq t.table_id tid

-- The loops that change one row: `none` for an unknown table.
unfoldable pub change_table : Text → (Table → Table) → Doc → Option Doc
change_table tid f doc =
    if any (has_id tid) doc.tables
    then some (record doc { tables = change_first (has_id tid) f doc.tables })
    else none

-- The switch of `set_table_mode`.
unfoldable pub switched : Text → Text → Text → ℕ → Table → Table
switched mode reason actor now t =
    if str_eq (table_mode t.mode) mode
    then t
    else if str_eq mode live
    then record t {
      mode = some mode;
      live_reason = some reason;
      live_set_by = some actor;
      live_set_at = some now;
    }
    else record t {
      mode = some mode;
      live_reason = none;
      live_set_by = none;
      live_set_at = none;
      live_profiled_at = none;
      live_sample_rows = none;
    }

pub data ModeAnswer : Type 0 where
  bad_mode : ModeAnswer
  bad_reason : ModeAnswer
  unknown_table : ModeAnswer
  set_mode : Doc → ModeAnswer

-- `reason or "manual"`
reason_or_manual : Option Text → Text
reason_or_manual none = codes "manual"
reason_or_manual (some r) = if is_nil r then codes "manual" else r

answer_of : Option Doc → ModeAnswer
answer_of none = unknown_table
answer_of (some doc) = set_mode doc

unfoldable pub set_table_mode : Text → Text → Text → Option Text → ℕ → Doc → ModeAnswer
unfolding reason_or_manual answer_of
set_table_mode tid mode actor reason now doc =
    if not (is_mode mode)
    then bad_mode
    else if str_eq mode live && not (is_live_reason (reason_or_manual reason))
    then bad_reason
    else answer_of (change_table tid (switched mode (reason_or_manual reason) actor now) doc)

-- `set_table_schedule`, after `validate_schedule`
unfoldable pub set_table_schedule : Text → Option Schedule → Doc → Option Doc
set_table_schedule tid s doc =
    change_table tid (λ t. record t { schedule = s; schedule_last_fired_at = none }) doc

unfoldable pub mark_table_fired : Text → Text → Doc → Option Doc
mark_table_fired tid at doc =
    change_table tid (λ t. record t { schedule_last_fired_at = some at }) doc

unfoldable pub mark_checked : Text → ℕ → Doc → Option Doc
mark_checked tid now doc = change_table tid (λ t. record t { last_checked_at = some now }) doc

-- `get` with a default that leaves the count.
given_rows : Option ℕ → Option ℕ → Option ℕ
given_rows none old = old
given_rows (some n) old = some n

-- `mark_live_profiled`; the columns are carried.
unfoldable pub mark_live_profiled : Text → Option ℕ → Text → ℕ → Doc → Option Doc
unfolding given_rows
mark_live_profiled tid rows at sample doc =
    change_table tid
      (λ t. record t {
        row_count = given_rows rows t.row_count;
        live_profiled_at = some at;
        live_sample_rows = some sample;
      })
      doc

unfoldable pub is_registrar : Text → Table → Bool
is_registrar email t = str_eq (fold_case t.registered_by) email

unfoldable pub released : Text → Table → Table
released email t = if is_registrar email t then record t { registered_by = [] } else t

-- The document after `release_registrations`, and the count.
unfoldable pub release_registrations : Text → Doc → Doc × ℕ
release_registrations email doc = if is_nil (fold_case email) then (doc, 0) else (
  record doc { tables = map (released (fold_case email)) doc.tables },
  length (filter (is_registrar (fold_case email)) doc.tables),
)
