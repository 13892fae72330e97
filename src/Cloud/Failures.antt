-- ===== src/Cloud/Failures.antt =====
-- `cloudErrorFromPostgrest` of `src/cloud/errors.ts`: the codes that failures of the server become. The
-- messages, which are fixed by the branch, are not modelled.
pub mod Laws
use landed_compare.Prelude.{
  ℕ, String, Bool, true, false, ◌&&◌, ◌||◌, Option, none, some, List, [], ◌∷◌, ◌==◌, leb, str_eq,
  if◌then◌else◌,
}
use landed_compare.Prelude.Maps.{contains}
use landed_compare.Prelude.Text.{code_points, is_space}
use landed_compare.Cloud.Gateway.{
  CloudErrorCode, offline, server_unavailable, session_expired, forbidden, organization_locked,
  stale_write, duplicate_key, record_not_found, record_invalid, unexpected,
}
use text.Mathlib.Text.{starts_with}

pub record PostgrestFailure : Type 0 where
  pub code : Option String
  pub details : Option String
  pub hint : Option String
  pub message : String

pub record PostgrestContext : Type 0 where
  pub status : Option ℕ
  pub online : Option Bool

abbrev pub sqlstate_invalid_input : List String
sqlstate_invalid_input = "22001" ∷ "22003" ∷ "22007" ∷ "22008" ∷ "22023" ∷ "22P02" ∷ []

abbrev pub postgrest_unavailable : List String
postgrest_unavailable = "PGRST000" ∷ "PGRST001" ∷ "PGRST002" ∷ "PGRST003" ∷ []

-- `value ?? otherwise`
abbrev pub or_else : {A : Type 0} → A → Option A → A
or_else otherwise none = otherwise
or_else otherwise (some value) = value

-- `trim()`, on code points.
abbrev pub trim_start : List ℕ → List ℕ
trim_start [] = []
trim_start (c ∷ cs) = let rest = trim_start cs in if is_space c then rest else c ∷ cs

abbrev pub onto_trimmed : ℕ → List ℕ → List ℕ
onto_trimmed c [] = if is_space c then [] else c ∷ []
onto_trimmed c (d ∷ ds) = c ∷ d ∷ ds

abbrev pub trim_end : List ℕ → List ℕ
trim_end [] = []
trim_end (c ∷ cs) = onto_trimmed c (trim_end cs)

abbrev pub same_points : List ℕ → List ℕ → Bool
same_points [] [] = true
same_points (c ∷ cs) (d ∷ ds) = c == d && same_points cs ds
same_points _ _ = false

-- The trimmed detail of a failure is this word.
unfoldable pub is_detail : Option String → String → Bool
is_detail details word =
    same_points (trim_end (trim_start (code_points (or_else "" details)))) (code_points word)

unfoldable pub unavailable : Bool → CloudErrorCode
unavailable online = if online then server_unavailable else offline

-- `status === 0`
unfoldable pub no_answer : Option ℕ → Bool
no_answer none = false
no_answer (some status) = status == 0

-- The `switch` on the detail of an exception that a function of the server raised.
unfoldable pub raised : Option String → CloudErrorCode
raised details =
    if is_detail details "STALE_WRITE"
    then stale_write
    else if is_detail details "RECORD_INVALID"
    then record_invalid
    else if is_detail details "RECORD_NOT_FOUND"
    then record_not_found
    else if is_detail details "DUPLICATE_KEY"
    then duplicate_key
    else if is_detail details "FORBIDDEN"
    then forbidden
    else unexpected

-- 502, 503, 504, or a 5xx without a database code.
unfoldable pub gateway_failed : Option ℕ → String → Bool
gateway_failed none code = false
gateway_failed (some status) code =
    status == 502 || status == 503 || status == 504 || (leb 500 status && str_eq code "")

-- What follows the `switch` on the codes of the database.
unfoldable pub by_postgrest : Option ℕ → String → CloudErrorCode
by_postgrest status code =
    if contains code sqlstate_invalid_input
    then record_invalid
    else if starts_with code "PGRST3"
    then session_expired
    else if str_eq code "PGRST106" || str_eq code "PGRST202" || str_eq code "PGRST205"
    then server_unavailable
    else if contains code postgrest_unavailable
    then unavailable true
    else if gateway_failed status code
    then unavailable true
    else unexpected

unfoldable pub by_sqlstate : Option ℕ → String → CloudErrorCode
by_sqlstate status code =
    if str_eq code "55006"
    then organization_locked
    else if str_eq code "42501"
    then forbidden
    else if str_eq code "23505"
    then duplicate_key
    else if str_eq code "23514" || str_eq code "23502"
    then record_invalid
    else if str_eq code "23503"
    then record_not_found
    else by_postgrest status code

unfoldable pub cloud_error_from_postgrest : PostgrestFailure → PostgrestContext → CloudErrorCode
cloud_error_from_postgrest failure context =
    if no_answer context.status
    then unavailable (or_else true context.online)
    else if str_eq (or_else "" failure.code) "P0001"
    then raised failure.details
    else by_sqlstate context.status (or_else "" failure.code)

-- `cloudErrorFromTransport`, on a cause that may be an error of this vocabulary.
unfoldable pub cloud_error_from_transport : Option CloudErrorCode → Bool → CloudErrorCode
cloud_error_from_transport (some code) online = code
cloud_error_from_transport none online = unavailable online
