-- ===== src/Server/Replies.antt =====
-- cmd/marchilogs/main.go: what the replies of the handlers promise of the store.
use marchilogs.Base.{
  All, Bool, Bytes, List, Option, Result, [], ap, codes, err, false, if-both, is_nil, length, map,
  none, ok, refl, some, sym, true, ℕ, ◌<◌, ◌∙◌, ◌≡◌, ◌≢◌, ◌≤◌, decimal, decimal-ne-nil,
  digits_value-decimal, atoi, atoi_of_digits, inl, inr, ◌⊎◌, is_empty, ◌^◌, ◌∷◌,
}
use marchilogs.Block.{MemBlock, rows}
use marchilogs.Calendar.{Time}
use marchilogs.Engine.{append, flush}
use marchilogs.Engine.Empties.{flush-Empties}
use marchilogs.Engine.Keys.{IsKeyed, append-IsKeyed}
use marchilogs.Entry.{Entry}
use marchilogs.Flush.{Io, Outcome}
use marchilogs.Options.{Options}
use marchilogs.Recovery.{to_nat}
use marchilogs.Requests.{
  Method, Request, TimeParser, decode_entries, get_method, limit_param, other_method, param,
  parse_time_param, post_method, stream_params, want_flush, want_truthy, limit_of_number,
}
use marchilogs.Search.{Query, QueryStats, search_with_stats}
use marchilogs.Search.Limits.{search_store-length}
use marchilogs.Server.{
  Reply, after_append, after_flush, answered, from_start, get_or_post, handle_insert, handle_query,
  http_error, insert_entries, limited, only_post, reply_flushed, reply_inserted, reply_merged,
  reply_purged, reply_rows, until_end,
}
use marchilogs.Store.{Store}
use marchilogs.Wal.{RecordCodec}
use mathlib.Core.Path.{subst}

-- A reply that an insert was flushed is true: no buffer has a row.
Promises : Store × Reply → Type 0
Promises answer =
    (n : ℕ)
    → answer.1 ≡ reply_inserted n true
    → All (λ (item : Bytes × MemBlock). rows item.1 ≡ 0) answer.0.buffers

-- Whether a reply says that an insert was flushed.
flushed_flag : Reply → Bool
flushed_flag (reply_inserted n b) = b
flushed_flag (http_error c) = false
flushed_flag reply_flushed = false
flushed_flag (reply_merged day) = false
flushed_flag (reply_purged n) = false
flushed_flag (reply_rows es st b) = false

unflushed-Promises : (s : Store) (r : Reply) → flushed_flag r ≡ false → Promises (s, r)
unfolding Promises flushed_flag
unflushed-Promises s r h n e = absurd (other (sym h ∙ ap flushed_flag e))
  where
    other : false ≢ true
    other e' = cc

module _ (io : Io) (codec : RecordCodec) (o : Options) where
  after_flush-Promises :
      (n : ℕ) (out : Outcome)
      → (out.1 ≡ none → All (λ (item : Bytes × MemBlock). rows item.1 ≡ 0) out.0.buffers)
      → Promises (after_flush n out)
  unfolding Promises flushed_flag
  after_flush-Promises n (s, some e) h = unflushed-Promises s (http_error 500) refl
  after_flush-Promises n (s, none) h = λ m same. h refl

  after_append-Promises :
      (n : ℕ) (r : Request) (out : Outcome)
      → IsKeyed out.0
      → Promises (after_append io codec o n r out)
  unfolding flushed_flag
  after_append-Promises n r (s, some e) h = unflushed-Promises s (http_error 500) refl
  after_append-Promises n r (s, none) h =
      if-both Promises (want_flush r) (after_flush n (flush io codec s)) (s, reply_inserted n false)
        (λ wanted. after_flush-Promises n (flush io codec s) (flush-Empties io codec s h))
        (λ unwanted. unflushed-Promises s (reply_inserted n false) refl)

  insert_entries-Promises :
      (now : Time) (r : Request) (s : Store) (entries : Result (List Entry))
      → IsKeyed s
      → Promises (insert_entries io codec o now r s entries)
  unfolding flushed_flag
  insert_entries-Promises now r s (err e) h = unflushed-Promises s (http_error 400) refl
  insert_entries-Promises now r s (ok es) h =
      let max_rows = to_nat o.max_rows_per_block in
      let rows_of = map (λ (e : Entry). (now, e)) es in
      let out = append io codec o.stream_fields max_rows rows_of s in
      if-both Promises (is_nil es) (s, http_error 400) (after_append io codec o (length es) r out)
        (λ nothing. unflushed-Promises s (http_error 400) refl)
        (λ some_rows.
          after_append-Promises (length es) r out
            (append-IsKeyed io codec o.stream_fields max_rows rows_of s h))

  only_post-Promises :
      (m : Method) (s : Store) (answer : Store × Reply)
      → Promises answer
      → Promises (only_post m s answer)
  unfolding flushed_flag
  only_post-Promises get_method s answer h = unflushed-Promises s (http_error 405) refl
  only_post-Promises post_method s answer h = h
  only_post-Promises other_method s answer h = unflushed-Promises s (http_error 405) refl

  -- An insert that replies that it flushed leaves no row in any buffer, where the buffers of the store
  -- have keys of `bufKey` for names of days without a zero byte.
  pub handle_insert-flushes :
      (times : TimeParser) (now : Time) (r : Request) (s : Store) (n : ℕ)
      → IsKeyed s
      → (handle_insert io codec o times now r s).1 ≡ reply_inserted n true
      → All
          (λ (item : Bytes × MemBlock). rows item.1 ≡ 0)
          (handle_insert io codec o times now r s).0.buffers
  unfolding handle_insert Promises
  handle_insert-flushes times now r s n h =
      only_post-Promises r.method s
        (insert_entries io codec o now r s (decode_entries times r.body))
        (insert_entries-Promises now r s (decode_entries times r.body) h) n

-- The limit of a reply of rows.
FitsIn : ℕ → Reply → Type 0
FitsIn limit reply =
    (es : List Entry) (st : QueryStats) (b : Bool) → reply ≡ reply_rows es st b → length es ≤ limit

error-FitsIn : (limit c : ℕ) → FitsIn limit (http_error c)
unfolding FitsIn
error-FitsIn limit c es st b e = cc

module _ (times : TimeParser) (fields : List Bytes) (r : Request) (s : Store) (limit : ℕ)
    (positive : 0 < limit) where
  answered-FitsIn :
      (q : Query) (want_stats : Bool) (out : Result (List Entry) × QueryStats)
      → search_with_stats q s ≡ out
      → q.limit ≡ limit
      → FitsIn limit (answered times want_stats out)
  unfolding FitsIn
  answered-FitsIn q want_stats (err e, st) h hq es st' b same = cc
  answered-FitsIn q want_stats (ok found, st) h hq es st' b same =
      subst (λ (l : List Entry). length l ≤ limit) (rows_of same)
        (subst (λ (n : ℕ). length found ≤ n) hq
          (search_store-length q s found (subst (λ (n : ℕ). 0 < n) (sym hq) positive)
            (ap (λ (out : Result (List Entry) × QueryStats). out.0) h)))
    where
      rows_of :
          {a b : List Entry} {t t' : QueryStats} {c c' : Bool}
          → reply_rows a t c ≡ reply_rows b t' c'
          → a ≡ b
      rows_of e = cc

  limited-FitsIn :
      (start end : Time) (limit' : Option ℕ)
      → limit' ≡ some limit
      → FitsIn limit (limited times fields r s start end limit')
  limited-FitsIn start end none h = error-FitsIn limit 400
  limited-FitsIn start end (some limit') h =
      let q : Query = record {
        start = start;
        end = end;
        stream_eq = stream_params fields r.params [];
        contains = param (codes "contains") r;
        limit = limit';
      } in
      answered-FitsIn q (want_truthy (param (codes "stats") r)) (search_with_stats q s) refl
        (given h)
    where
      given : {a b : ℕ} → some a ≡ some b → a ≡ b
      given e = cc

  until_end-FitsIn :
      (start : Time) (end : Result Time)
      → limit_param (param (codes "limit") r) ≡ some limit
      → FitsIn limit (until_end times fields r s start end)
  until_end-FitsIn start (err e) h = error-FitsIn limit 400
  until_end-FitsIn start (ok end) h =
      limited-FitsIn start end (limit_param (param (codes "limit") r)) h

  from_start-FitsIn :
      (start : Result Time)
      → limit_param (param (codes "limit") r) ≡ some limit
      → FitsIn limit (from_start times fields r s start)
  from_start-FitsIn (err e) h = error-FitsIn limit 400
  from_start-FitsIn (ok start) h =
      until_end-FitsIn start (parse_time_param times (param (codes "end") r)) h

get_or_post-FitsIn :
    (m : Method) (limit : ℕ) (reply : Reply)
    → FitsIn limit reply
    → FitsIn limit (get_or_post m reply)
get_or_post-FitsIn get_method limit reply h = h
get_or_post-FitsIn post_method limit reply h = h
get_or_post-FitsIn other_method limit reply h = error-FitsIn limit 405

-- The limit that a request gives: 100 without one, or the number that is written in it.
abbrev pub GivesLimit : Request → ℕ → Type 0
GivesLimit r limit =
    ((param (codes "limit") r ≡ []) × (limit ≡ 100))
    ⊎ ((param (codes "limit") r ≡ decimal limit) × (limit < 2 ^ 63))

limit_of_decimal : (n : ℕ) → n < 2 ^ 63 → limit_param (decimal n) ≡ some n
limit_of_decimal n h =
    if-both (λ (o : Option ℕ). o ≡ some n) (is_empty (decimal n)) (some 100)
      (limit_of_number (atoi (decimal n)))
      (λ nothing. absurd (empty_nil (decimal n) (decimal-ne-nil n) nothing))
      (λ some_digits.
        ap limit_of_number
          (atoi_of_digits (decimal n) n (decimal-ne-nil n) (digits_value-decimal n) h))
  where
    empty_nil : (s : Bytes) → s ≢ [] → is_empty s ≡ true → ⊥
    empty_nil [] ne e = ne refl
    empty_nil (c ∷ s) ne e = cc

limit_param-given :
    (r : Request) (limit : ℕ)
    → GivesLimit r limit
    → limit_param (param (codes "limit") r) ≡ some limit
limit_param-given r limit (inl (absent, standard)) = ap limit_param absent ∙ ap some (sym standard)
limit_param-given r limit (inr (given, fits)) = ap limit_param given ∙ limit_of_decimal limit fits

-- A query replies with at most as many rows as its request gives as the limit: 100 where it has no
-- `limit`, and the number n where its `limit` is the decimal text of an n above 0 and below 2^63.
pub handle_query-length :
    (times : TimeParser) (fields : List Bytes) (r : Request) (s : Store) (limit : ℕ)
    → (es : List Entry) (st : QueryStats) (b : Bool) → GivesLimit r limit
    → 0 < limit
    → handle_query times fields r s ≡ reply_rows es st b
    → length es ≤ limit
unfolding handle_query FitsIn
handle_query-length times fields r s limit es st b h positive answer =
    let start = parse_time_param times (param (codes "start") r) in
    get_or_post-FitsIn r.method limit (from_start times fields r s start)
      (from_start-FitsIn times fields r s limit positive start (limit_param-given r limit h)) es st
      b answer
