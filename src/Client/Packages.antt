-- ===== src/Client/Packages.antt =====
-- scripts/tinyagent-packages.py
pub mod Steps
pub mod Events
pub mod Screen
pub mod Polls
use Prim.Native.String.{len, slice}
use tiny_agent.Base.{
  ℕ, zero, suc, String, ◌<>◌, starts_with, Bool, true, false, ◌||◌, ◌&&◌, not, Option, none, some,
  List, [], ◌∷◌, ◌++◌, if◌then◌else◌, str_eq, Exception, Result, ok, err, assertion, value_error,
  runtime_error, key_error, type_error, os_error, file_exists, file_not_found, struct_error,
  decode_error, index_error, attribute_error, unicode_error, url_error, http_exception,
  timeout_error, incomplete_download, bridge_response_error, stop_iteration, process_error,
  name_error, system_exit,
}
use tiny_agent.Client.{
  Payload, no_body, package_job, Request, get, Reply, Event, announced, called, appended, refreshed,
  slept, reported, complained, Outcome, exits, raises, unfinished, Run, log, Call, send,
}

abbrev pub job_path : String → String
job_path job_id = "/packages/jobs/" <> job_id

-- `result['status'] in ('running', 'cancel_requested')`
unfoldable pub is_active : String → Bool
is_active status = str_eq status "running" || str_eq status "cancel_requested"

-- `operation = ['install', '--assumeyes', *operation[1:]]` for an installation
unfoldable pub submitted : String → List String → List String
submitted verb rest =
    if str_eq verb "install" then "install" ∷ "--assumeyes" ∷ rest else verb ∷ rest

abbrev pub refresh_header : String
refresh_header = "[package log tail refreshed]\n"

-- What is printed: the text of the log that was not printed yet, `output[len(previous):]`, or all of it behind a line of its own.
unfoldable pub show_event : String → String → Event
show_event output previous =
    if starts_with output previous
    then appended (slice output (len previous) (len output))
    else refreshed (refresh_header <> output)

module _ {W : Type 0} where
  unfoldable pub show : String → String → Run W → Run W
  unfolding show_event
  show output previous s = if str_eq output previous then s else log (show_event output previous) s

  -- The last two lines of `execute`.
  unfoldable pub report : Reply → Run W → Outcome × Run W
  report result s = elim result.status [
    | none ↦ (raises (key_error "status"), log (reported result) s)
    | some status ↦ (exits (if str_eq status "completed" then 0 else 1), log (reported result) s)
  ]

-- `not args.id`
abbrev pub is_missing : Option String → Bool
is_missing none = true
is_missing (some id) = str_eq id ""

-- `args.operation in (['status'], ['cancel'])`
abbrev pub is_query : List String → Bool
is_query (op ∷ []) = str_eq op "status" || str_eq op "cancel"
is_query _ = false

-- `except (OSError, ValueError, RuntimeError, http.client.HTTPException)`. URL errors and
-- timeouts are OS errors; decoding errors are value errors; a rejection is a runtime error.
unfoldable pub is_caught : Exception → Bool
is_caught (assertion _) = false
is_caught (key_error _) = false
is_caught (type_error _) = false
is_caught (index_error _) = false
is_caught (attribute_error _) = false
is_caught (struct_error _) = false
is_caught (stop_iteration _) = false
is_caught (process_error _) = false
is_caught (name_error _) = false
is_caught (system_exit _) = false
is_caught _ = true

-- The identifier of the job: `str(uuid.UUID(args.id)) if args.id else str(uuid.uuid4())`, where
-- `uuid` is the canonical form of a text that `uuid.UUID` accepts.
unfoldable pub job_id_of : (String → Option String) → String → Option String → Result String
job_id_of uuid fresh none = ok fresh
job_id_of uuid fresh (some id) = if str_eq id "" then ok fresh else elim (uuid id) [
  | none ↦ err (value_error "badly formed hexadecimal UUID string")
  | some job_id ↦ ok job_id
]

module _ {W : Type 0} (call : Call W) (sleep : W → W) (name : String) where
  abbrev asleep : Run W → Run W
  asleep s = record { world = sleep s.world; events = s.events ++ (slept ∷ []) }

  -- The loop of `execute`, for as many rounds as the fuel has.
  unfoldable pub poll : ℕ → String → Reply → String → Run W → Outcome × Run W
  unfolding show is_active report send
  poll zero path result previous s = (unfinished, s)
  poll (suc fuel) path result previous s =
      let s' = show result.output previous s in
      elim result.status [
        | none ↦ (raises (key_error "status"), s')
        | some status ↦ elim (is_active status) [
          | false ↦ report result s'
          | true ↦
              let (answer, s'') = send call name (get path) (asleep s') in
              elim answer [
                | err e ↦ (raises e, s'')
                | ok next ↦ poll fuel path next result.output s''
              ]
        ]
      ]

  -- `status` and `cancel` make one call and report its answer.
  unfoldable pub ask : Request → Run W → Outcome × Run W
  unfolding send report
  ask r s =
      let (answer, s') = send call name r s in
      elim answer [ err e ↦ (raises e, s') | ok result ↦ report result s' ]

  unfoldable pub submit : ℕ → List String → String → Run W → Outcome × Run W
  unfolding send poll
  submit fuel operation job_id s =
      let r : Request = record {
        method = "POST";
        path = "/packages/jobs";
        payload = package_job job_id operation;
      } in
      let (answer, s') = send call name r (log (announced job_id) s) in
      elim answer [ err e ↦ (raises e, s') | ok result ↦ poll fuel (job_path job_id) result "" s' ]

  unfoldable pub execute : ℕ → List String → String → Run W → Outcome × Run W
  unfolding ask submit submitted
  execute fuel [] job_id s = (raises (index_error "list index out of range"), s)
  execute fuel (op ∷ []) job_id s =
      if str_eq op "status"
      then ask (get (job_path job_id)) s
      else if str_eq op "cancel"
      then ask (record { method = "DELETE"; path = job_path job_id; payload = no_body }) s
      else submit fuel (submitted op []) job_id s
  execute fuel (op ∷ rest) job_id s = submit fuel (submitted op rest) job_id s

  unfoldable pub handle : Outcome × Run W → Outcome × Run W
  unfolding is_caught
  handle (raises e, s) = if is_caught e then (exits 2, log complained s) else (raises e, s)
  handle (outcome, s) = (outcome, s)

  -- `main`; `has_zero` tells whether the name of the bridge has the character of code 0. The
  -- parser ends the program with status 2 if `status` or `cancel` come with no identifier.
  unfoldable pub main :
      (String → Option String)
      → (String → Bool)
      → ℕ
      → String
      → Option String
      → List String
      → Run W
      → Outcome × Run W
  unfolding execute handle job_id_of
  main uuid has_zero fuel fresh id operation s =
      if is_query operation && is_missing id then (exits 2, s) else elim (job_id_of uuid fresh id) [
        | err e ↦ (raises e, s)
        | ok job_id ↦
            if starts_with name "tinyagent-android-" && not (has_zero name)
            then handle (execute fuel operation job_id s)
            else (raises (runtime_error "Invalid package bridge descriptor"), s)
      ]
