-- ===== src/Upstream.antt =====
-- scripts/collect_upstream.py: the collection of pinned artifacts. The data, and one transfer.
pub mod Download
pub mod Transfer
pub mod Retries
pub mod Checks
pub mod Reports
pub mod Collect
pub mod Verified
pub mod Digests
pub mod Assets
use tiny_agent.Base.{
  ℕ, ◌+◌, ◌*◌, String, ◌<>◌, Bool, true, false, not, ◌&&◌, Option, none, some, List, [], ◌∷◌, ◌++◌,
  if◌then◌else◌, ◌==◌, ltb, str_eq, starts_with, length, Bytes, Exception, Result, ok, err,
  runtime_error, incomplete_download,
}

-- `MAX_BYTES`
abbrev pub max_bytes : ℕ
max_bytes = 1024 * 1024 * 1024

-- What the reads of a response give: pieces, an end, or an exception.
pub data Body : Type 0 where
  end : Body
  broken : Exception → Body
  piece : Bytes → Body → Body

-- A response: where it came from in the end, its Content-Length (0 when there is none), and its
-- body.
pub record Response : Type 0 where
  pub url : String
  pub size : Result ℕ
  pub body : Body

-- The directory OUT.
abbrev pub Files : Type 0
Files = String → Option Bytes

abbrev pub put : String → Option Bytes → Files → Files
put name content files other = if str_eq name other then content else files other

-- What the transfers do outside the directory.
pub data Event : Type 0 where
  opened : String → Event
  slept : ℕ → Event

-- The directory, the rest of the world, and the events so far.
pub record Run (W : Type 0) : Type 0 where
  pub files : Files
  pub world : W
  pub events : List Event

-- What a transfer reports.
pub record Artifact : Type 0 where
  pub file : String
  pub url : String
  pub final_url : Option String
  pub sha256 : String
  pub bytes : ℕ
  pub reused : Bool

abbrev pub part_of : String → String
part_of name = name <> ".part"

-- The loop over the reads: what stands in the part behind it, and the number of bytes.
unfoldable pub receive : Body → Bytes → Bytes × Result ℕ
receive end part = (part, ok (length part))
receive (broken x) part = (part, err x)
receive (piece [] rest) part = (part, ok (length part))
receive (piece (b ∷ bs) rest) part =
    let more = receive rest (part ++ (b ∷ bs)) in
    if ltb max_bytes (length part + length (b ∷ bs))
    then (part, err (runtime_error "Artifact exceeds 1 GiB safety bound"))
    else more

-- `if size and received != size`
abbrev pub check_size : ℕ → Result ℕ → Result ℕ
check_size size (err x) = err x
check_size size (ok received) =
    if not (size == 0) && not (received == size)
    then err (incomplete_download "Incomplete download")
    else ok received

-- With the length that the response states.
abbrev pub receive_sized : Body → Result ℕ → Bytes × Result ℕ
receive_sized body (err x) = ([], err x)
receive_sized body (ok size) =
    if ltb max_bytes size
    then ([], err (runtime_error "Artifact exceeds 1 GiB safety bound"))
    else (let (part, received) = receive body [] in (part, check_size size received))

-- The block with the response and the opened part.
unfoldable pub receive_response : Response → Bytes × Result ℕ
unfolding receive
receive_response response =
    if starts_with response.url "https://"
    then receive_sized response.body response.size
    else ([], err (runtime_error "Refusing a non-HTTPS download redirect"))

-- `expected and actual != expected`
abbrev pub differs : Option String → String → Bool
differs none actual = false
differs (some expected) actual = not (str_eq expected "") && not (str_eq actual expected)
