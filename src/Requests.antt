-- ===== src/Requests.antt =====
-- cmd/marchilogs/main.go: the requests of the HTTP server. A request comes with the first values of its
-- query's parameters and with what `encoding/json` reads of its body; `time.Parse` is a parameter.
-- `strings.TrimSpace` and `strings.ToLower` are those of ASCII texts.
use marchilogs.Base.{
  Bool, Bytes, List, Map, Option, Result, [], atoi, bad_time, bad_time_type, bytes_eq, codes, eof,
  err, if◌then◌else◌, insert, is_empty, keep_if, leb, ltb_ℤ, map, mem_bytes, negsuc, none, not, ok,
  pos, some, split, ℕ, ℤ, ◌&&◌, ◌*◌, ◌+◌, ◌-◌, ◌==◌, ◌>>=◌, ◌||◌, ◌∷◌,
}
use marchilogs.Calendar.{Time}
use marchilogs.Deletes.{DeleteSpec}
use marchilogs.Entry.{Entry, field_of, field_time, zero_time}
use marchilogs.Options.{second}

-- A value of a JSON object: a number comes with its `int64`, and with the text that `fmt.Sprint` gives.
pub data Json : Type 0 where
  string_value : Bytes → Json
  number_value : ℤ → Bytes → Json
  other_value : Bytes → Json

-- What is read of a body: nothing, an array of objects, or objects until the end or an error.
pub data Body : Type 0 where
  no_body : Body
  array_body : Result (List (Map Json)) → Body
  values_body : List (Result (Map Json)) → Body

pub data Method : Type 0 where
  get_method post_method other_method : Method

pub record Request : Type 0 where
  pub method : Method
  pub params : Map Bytes
  pub body : Body

-- `time.Parse` for `time.RFC3339Nano` and for `time.RFC3339`.
pub record TimeParser : Type 0 where
  pub parse_nano : Bytes → Option Time
  pub parse_rfc3339 : Bytes → Option Time

abbrev pub is_blank : ℕ → Bool
is_blank c = c == b' ' || (leb 9 c && leb c 13)

unfoldable pub trim_left : Bytes → Bytes
trim_left [] = []
trim_left (c ∷ s) = let rest = trim_left s in if is_blank c then rest else c ∷ s

unfoldable pub trim_right : Bytes → Bytes
trim_right [] = []
trim_right (c ∷ s) = let rest = trim_right s in if is_empty rest && is_blank c then [] else c ∷ rest

-- `strings.TrimSpace`
abbrev pub trim_space : Bytes → Bytes
trim_space s = trim_right (trim_left s)

-- `strings.ToLower`
abbrev pub to_lower : Bytes → Bytes
to_lower s = map (λ c. if leb b'A' c && leb c b'Z' then c + 32 else c) s

-- `wantTruthy`
unfoldable pub want_truthy : Bytes → Bool
want_truthy v =
    mem_bytes (to_lower (trim_space v)) (codes "1" ∷ codes "true" ∷ codes "yes" ∷ codes "on" ∷ [])

-- `splitCSV`
unfoldable pub split_csv : Bytes → List Bytes
split_csv s = keep_if (λ (p : Bytes). not (is_empty p)) (map (λ p. trim_space p) (split b',' s))

-- `r.URL.Query().Get(key)`
abbrev pub param : Bytes → Request → Bytes
param key r = field_of key r.params

-- `wantFlush`
abbrev pub want_flush : Request → Bool
want_flush r = want_truthy (param (codes "flush") r)

-- `time.Unix(n, 0)`
abbrev pub unix_seconds : ℤ → Time
unix_seconds (pos n) = pos (n * second)
unix_seconds (negsuc n) = negsuc ((n + 1) * second - 1)

-- The last two tries of `parseTimeParam`.
abbrev pub integer_time : Result ℤ → Result Time
integer_time (err e) = err bad_time
integer_time (ok n) = if ltb_ℤ n (pos 1_000_000_000_000) then ok (unix_seconds n) else ok n

abbrev pub time_or : Option Time → Result Time → Result Time
time_or none other = other
time_or (some t) other = ok t

-- The parameters of the query that name stream fields.
unfoldable pub stream_params : List Bytes → Map Bytes → Map Bytes → Map Bytes
stream_params [] params out = out
stream_params (f ∷ fields) params out =
    stream_params fields params
      (if is_empty (field_of f params) then out else insert f (field_of f params) out)

-- The parameter `limit`: 100 where there is none.
abbrev pub limit_of_number : Result ℤ → Option ℕ
limit_of_number (err e) = none
limit_of_number (ok (pos n)) = some n
limit_of_number (ok (negsuc n)) = none

abbrev pub limit_param : Bytes → Option ℕ
limit_param v = if is_empty v then some 100 else limit_of_number (atoi v)

module _ (times : TimeParser) where
  -- `parseTimeParam`
  unfoldable pub parse_time_param : Bytes → Result Time
  parse_time_param text =
      let s = trim_space text in
      if is_empty s
      then ok zero_time
      else time_or (times.parse_nano s) (time_or (times.parse_rfc3339 s) (integer_time (atoi s)))

  -- The switch on the type of `_time`.
  abbrev pub time_value : Json → Result Time
  time_value (string_value s) = parse_time_param s
  time_value (number_value n text) = ok (unix_seconds n)
  time_value (other_value text) = err bad_time_type

  abbrev pub text_of : Json → Bytes
  text_of (string_value s) = s
  text_of (number_value n text) = text
  text_of (other_value text) = text

  -- The loop of `mapToEntry`.
  unfoldable pub map_entry : Map Json → Map Bytes → Time → Result Entry
  map_entry [] fields t = ok (record { time = t; fields = fields })
  map_entry ((k, v) ∷ m) fields t =
      let timed = λ (t' : Time). map_entry m fields t' in
      let named = map_entry m (insert k (text_of v) fields) t in
      if bytes_eq k field_time then time_value v >>= timed else named

  -- `mapToEntry`
  abbrev pub map_to_entry : Map Json → Result Entry
  map_to_entry m = map_entry m [] zero_time

  unfoldable pub array_entries : List (Map Json) → Result (List Entry)
  array_entries [] = ok []
  array_entries (m ∷ ms) = do e ← map_to_entry m; es ← array_entries ms; ok (e ∷ es)

  unfoldable pub value_entries : List (Result (Map Json)) → Result (List Entry)
  value_entries [] = ok []
  value_entries (value ∷ values) = do
    m ← value
    e ← map_to_entry m
    es ← value_entries values
    ok (e ∷ es)

  -- `decodeEntries`
  unfoldable pub decode_entries : Body → Result (List Entry)
  decode_entries no_body = err eof
  decode_entries (array_body values) = values >>= λ ms. array_entries ms
  decode_entries (values_body values) = value_entries values

  abbrev pub spec_of : List Bytes → Request → Result DeleteSpec
  spec_of fields r = do
    start ← parse_time_param (param (codes "start") r)
    end ← parse_time_param (param (codes "end") r)
    ok (record {
      start = start;
      end = end;
      stream_eq = stream_params fields r.params [];
      contains = param (codes "contains") r;
    })
