-- ===== src/Client/Android.antt =====
-- scripts/tinyagent-android.py: jobs on the Android side of the bridge.
pub mod Runs
use tiny_agent.Base.{
  ℕ, zero, suc, String, ◌<>◌, starts_with, Bool, true, false, ◌||◌, ◌&&◌, not, Option, none, some,
  [], ◌∷◌, ◌++◌, if◌then◌else◌, str_eq, contains, Exception, Result, ok, err, runtime_error,
  key_error, value_error, system_exit,
}
use tiny_agent.Client.{
  no_body, empty_object, android_job, Request, get, Reply, announced, slept, reported, complained,
  Outcome, exits, raises, unfinished, Run, log, Call, send,
}
use tiny_agent.Client.Packages.{is_missing, job_id_of}

-- The choices of the argument `action`.
pub data Action : Type 0 where
  shell install status cancel : Action

-- `args`, as the parser leaves it.
pub record Args : Type 0 where
  pub id : Option String
  pub mode : String
  pub cwd : String
  pub action : Action
  pub value : Option String

unfoldable pub is_pending : String → Bool
is_pending state =
    contains state ("queued" ∷ "starting" ∷ "checking" ∷ "running" ∷ "cancel_requested" ∷ [])

abbrev pub path_of : String → String
path_of job_id = "/android/jobs/" <> job_id

abbrev pub or_empty : Option String → String
or_empty none = ""
or_empty (some value) = value

-- The first request of `main`.
unfoldable pub first_request : Args → Action → String → Option String → Request
first_request args status job_id value = record {
  method = "POST";
  path = path_of job_id <> "/inspect";
  payload = empty_object;
}
first_request args cancel job_id value = record {
  method = "DELETE";
  path = path_of job_id;
  payload = no_body;
}
first_request args shell job_id value = record {
  method = "POST";
  path = "/android/jobs";
  payload = android_job job_id args.mode "shell" args.cwd (or_empty value) "";
}
first_request args install job_id value = record {
  method = "POST";
  path = "/android/jobs";
  payload = android_job job_id args.mode "install" args.cwd "" (or_empty value);
}

-- The tests behind the parser: each ends the program with status 2.
unfoldable pub is_usage_error : Action → Option String → Option String → Bool
is_usage_error status id value = is_missing id
is_usage_error cancel id value = is_missing id
is_usage_error shell id value = is_missing value
is_usage_error install id value = is_missing value

-- The one exception of the model that is no `Exception`.
abbrev pub is_system_exit : Exception → Bool
is_system_exit (system_exit _) = true
is_system_exit _ = false

module _ {W : Type 0} (call : Call W) (sleep : W → W) (name : String) where
  -- `except Exception`, with the handler for a rejection in front: both end with status 2. The exception of `sys.exit` goes on.
  unfoldable pub caught : Exception → Run W → Outcome × Run W
  caught e s = if is_system_exit e then (raises e, s) else (exits 2, log complained s)

  unfoldable pub finish : Reply → String → Run W → Outcome × Run W
  finish row state s = (exits (if str_eq state "completed" then 0 else 1), log (reported row) s)

  unfoldable pub watch : ℕ → String → Reply → Run W → Outcome × Run W
  unfolding is_pending caught finish send
  watch zero path row s = (unfinished, s)
  watch (suc fuel) path row s = elim row.status [
    | none ↦ caught (key_error "status") s
    | some state ↦ elim (is_pending state) [
      | false ↦ finish row state s
      | true ↦
          let (answer, s') =
            send call name (get path)
              (record { world = sleep s.world; events = s.events ++ (slept ∷ []) }) in
          elim answer [ err e ↦ caught e s' | ok next ↦ watch fuel path next s' ]
    ]
  ]

  -- The body of `try`.
  unfoldable pub attempt : ℕ → String → Request → Run W → Outcome × Run W
  unfolding watch
  attempt fuel path r s =
      let (answer, s') = send call name r s in
      elim answer [ err e ↦ caught e s' | ok row ↦ watch fuel path row s' ]

  unfoldable pub main :
      (String → Option String) → (String → Bool) → ℕ → String → Args → Run W → Outcome × Run W
  unfolding attempt first_request is_usage_error job_id_of
  main uuid has_zero fuel fresh args s =
      if is_usage_error args.action args.id args.value
      then (exits 2, s)
      else elim (job_id_of uuid fresh args.id) [
        | err e ↦ (raises e, s)
        | ok job_id ↦
            if starts_with name "tinyagent-android-" && not (has_zero name)
            then attempt fuel (path_of job_id) (first_request args args.action job_id args.value)
                (log (announced job_id) s)
            else (raises (runtime_error "Invalid Android bridge descriptor"), s)
      ]
