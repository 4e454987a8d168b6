-- ===== src/Client.antt =====
-- scripts/tinyagent-packages.py and scripts/tinyagent-android.py: the two clients of the app's
-- bridge. The data that they share, and `request`.
pub mod Events
pub mod Android
pub mod Packages
use tiny_agent.Base.{
  ℕ, ◌+◌, String, Bool, true, false, ◌||◌, Option, none, some, List, [], ◌∷◌, ◌++◌, if◌then◌else◌,
  ltb, ◌==◌, Bytes, length, take, str_eq, ◌<>◌, Exception, Result, ok, err, runtime_error,
  bridge_response_error, ◌>>=◌,
}

-- The JSON body of a request.
pub data Payload : Type 0 where
  no_body empty_object : Payload
  package_job : String → List String → Payload
  android_job : (id mode action cwd command path : String) → Payload

pub record Request : Type 0 where
  pub method : String
  pub path : String
  pub payload : Payload

abbrev pub get : String → Request
get path = record { method = "GET"; path = path; payload = no_body }

-- What the clients read of a JSON answer: `status`, `error`, and `get('output', '')`.
pub record Reply : Type 0 where
  pub status : Option String
  pub output : String
  pub error : Option String

-- What a client does that its caller or the bridge can see.
pub data Event : Type 0 where
  announced : String → Event
  called : Request → Event
  appended refreshed : String → Event
  slept : Event
  reported : Reply → Event
  complained : Event

-- How a client ends. With the polls of its loop used up it is still running.
pub data Outcome : Type 0 where
  exits : ℕ → Outcome
  raises : Exception → Outcome
  unfinished : Outcome

pub record Run (W : Type 0) : Type 0 where
  pub world : W
  pub events : List Event

module _ {W : Type 0} where
  abbrev pub log : Event → Run W → Run W
  log e s = record s { events = s.events ++ (e ∷ []) }

-- The bridge behind its socket: an answer and the state in which it leaves the rest of the world.
abbrev pub Call : Type 0 → Type 0
Call W = String → Request → W → Result Reply × W

-- The HTTP exchange of `http.client` over the socket, and `json.loads`.
abbrev pub Transport : Type 0 → Type 0
Transport W = String → Request → W → Result (ℕ × Bytes) × W

abbrev pub max_body : ℕ
max_body = 1048576

abbrev or_else : Option String → String → String
or_else none d = d
or_else (some s) d = s

module _ (decimal : ℕ → String) (loads : Bytes → Result Reply) where
  abbrev accept : ℕ → Reply → Result Reply
  accept status reply =
      if status == 200
      then ok reply
      else err (bridge_response_error (or_else reply.error ("Bridge HTTP " <> decimal status)))

  unfoldable pub check_response : ℕ → Bytes → Result Reply
  check_response status body =
      if ltb max_body (length body)
      then err (runtime_error "Bridge response exceeds 1 MiB")
      else loads body >>= accept status

  -- `response.read(1048577)` returns no more than one byte above the limit.
  unfoldable pub request : {W : Type 0} → Transport W → Call W
  unfolding check_response
  request transport name r w =
      let (answer, w') = transport name r w in
      (answer >>= (λ a. check_response a.0 (take (max_body + 1) a.1)), w')

module _ {W : Type 0} (call : Call W) (name : String) where
  -- A call of `request`. It is made, whatever comes of it.
  unfoldable pub send : Request → Run W → Result Reply × Run W
  send r s =
      let (answer, w) = call name r s.world in
      (answer, record { world = w; events = s.events ++ (called r ∷ []) })
