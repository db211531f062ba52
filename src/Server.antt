-- ===== src/Server.antt =====
-- cmd/marchilogs/main.go: the handlers of the HTTP server, over a store. The options are those of the
-- store, with their defaults.
pub mod Replies
use marchilogs.Base.{
  Bool, Bytes, List, Option, Result, [], codes, err, false, if◌then◌else◌, is_nil, length, map,
  none, ok, some, true, ℕ,
}
use marchilogs.Calendar.{Time}
use marchilogs.Compaction.{force_merge}
use marchilogs.Deletes.{DeleteSpec}
use marchilogs.Engine.{append, delete_rows, flush}
use marchilogs.Entry.{Entry}
use marchilogs.Flush.{Io, Outcome}
use marchilogs.Options.{Options}
use marchilogs.Recovery.{to_nat}
use marchilogs.Requests.{
  Method, Request, TimeParser, decode_entries, get_method, limit_param, other_method, param,
  parse_time_param, post_method, spec_of, stream_params, trim_space, want_flush, want_truthy,
}
use marchilogs.Search.{QueryStats, search_with_stats}
use marchilogs.Store.{Store}
use marchilogs.Wal.{RecordCodec}
use marchilogs.Wal.Frames.{body}

-- `http.Error` with its status, or what a handler writes.
pub data Reply : Type 0 where
  http_error : ℕ → Reply
  reply_inserted : ℕ → Bool → Reply
  reply_flushed : Reply
  reply_merged : Bytes → Reply
  reply_purged : ℕ → Reply
  reply_rows : List Entry → QueryStats → Bool → Reply

-- `if r.Method != http.MethodPost`
abbrev pub only_post : Method → Store → Store × Reply → Store × Reply
only_post get_method s answer = (s, http_error 405)
only_post post_method s answer = answer
only_post other_method s answer = (s, http_error 405)

abbrev pub get_or_post : Method → Reply → Reply
get_or_post get_method reply = reply
get_or_post post_method reply = reply
get_or_post other_method reply = http_error 405

module _ (times : TimeParser) where
  abbrev pub deleted : Outcome × ℕ → Store × Reply
  deleted ((s, some e), n) = (s, http_error 400)
  deleted ((s, none), n) = (s, reply_purged n)

  abbrev pub delete_spec : Io → Time → Store → Result DeleteSpec → Store × Reply
  delete_spec io now s (err e) = (s, http_error 400)
  delete_spec io now s (ok spec) = deleted (delete_rows io now spec s)

  -- `handleDelete`
  unfoldable pub handle_delete : Io → List Bytes → Time → Request → Store → Store × Reply
  handle_delete io fields now r s =
      only_post r.method s (delete_spec io now s (spec_of times fields r))

  abbrev pub answered : Bool → Result (List Entry) × QueryStats → Reply
  answered want_stats (err e, st) = http_error 500
  answered want_stats (ok es, st) = reply_rows es st want_stats

  abbrev pub limited : List Bytes → Request → Store → Time → Time → Option ℕ → Reply
  limited fields r s start end none = http_error 400
  limited fields r s start end (some limit) = answered (want_truthy (param (codes "stats") r)) (
      search_with_stats
        (record {
          start = start;
          end = end;
          stream_eq = stream_params fields r.params [];
          contains = param (codes "contains") r;
          limit = limit;
        })
        s)

  abbrev pub until_end : List Bytes → Request → Store → Time → Result Time → Reply
  until_end fields r s start (err e) = http_error 400
  until_end fields r s start (ok end) =
      limited fields r s start end (limit_param (param (codes "limit") r))

  abbrev pub from_start : List Bytes → Request → Store → Result Time → Reply
  from_start fields r s (err e) = http_error 400
  from_start fields r s (ok start) =
      until_end fields r s start (parse_time_param times (param (codes "end") r))

  -- `handleQuery`
  unfoldable pub handle_query : List Bytes → Request → Store → Reply
  handle_query fields r s =
      let reply = from_start fields r s (parse_time_param times (param (codes "start") r)) in
      get_or_post r.method reply

abbrev pub after_flush : ℕ → Outcome → Store × Reply
after_flush n (s, some e) = (s, http_error 500)
after_flush n (s, none) = (s, reply_inserted n true)

abbrev pub flush_reply : Outcome → Store × Reply
flush_reply (s, some e) = (s, http_error 500)
flush_reply (s, none) = (s, reply_flushed)

abbrev pub merge_reply : Bytes → Outcome → Store × Reply
merge_reply day (s, some e) = (s, http_error 400)
merge_reply day (s, none) = (s, reply_merged day)

module _ (io : Io) (codec : RecordCodec) (o : Options) where
  abbrev pub after_append : ℕ → Request → Outcome → Store × Reply
  after_append n r (s, some e) = (s, http_error 500)
  after_append n r (s, none) =
      if want_flush r then after_flush n (flush io codec s) else (s, reply_inserted n false)

  abbrev pub insert_entries : Time → Request → Store → Result (List Entry) → Store × Reply
  insert_entries now r s (err e) = (s, http_error 400)
  insert_entries now r s (ok es) =
      if is_nil es
      then (s, http_error 400)
      else after_append (length es) r
          (append io codec o.stream_fields (to_nat o.max_rows_per_block) (map (λ e. (now, e)) es) s)

  -- `handleInsert`; the clock stands still in a request.
  unfoldable pub handle_insert : TimeParser → Time → Request → Store → Store × Reply
  handle_insert times now r s =
      only_post r.method s (insert_entries now r s (decode_entries times r.body))

  -- `handleFlush`
  unfoldable pub handle_flush : Request → Store → Store × Reply
  handle_flush r s = only_post r.method s (flush_reply (flush io codec s))

  -- `handleForceMerge`
  unfoldable pub handle_force_merge : Request → Store → Store × Reply
  handle_force_merge r s =
      let day = trim_space (param (codes "day") r) in
      only_post r.method s (
        merge_reply day
          (force_merge io day (to_nat o.merge_min_parts) (to_nat o.merge_max_parts_per_job) s))
