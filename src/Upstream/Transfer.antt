-- ===== src/Upstream/Transfer.antt =====
-- What a transfer of scripts/collect_upstream.py leaves in the directory.
use tiny_agent.Base.{
  ℕ, zero, suc, ◌+◌, ◌≤◌, ◌≡◌, refl, sym, ap, ◌∙◌, subst, String, Bool, true, false, not, Option,
  none, some, [], ◌∷◌, ◌++◌, ◌==◌, ◌&&◌, ltb, if◌then◌else◌, length, length-append, str_eq, eq_refl,
  eq_iff, len-append, ◌≢◌, either_branch, Bool-cases, inl, inr, ◌⊎◌, Bytes, Result, ok, err, arith,
  starts_with,
}
use Prim.Native.String.{len}
use tiny_agent.Upstream.{
  max_bytes, Body, end, broken, piece, Response, Files, put, Run, Artifact, part_of, receive,
  check_size, receive_sized, receive_response, differs,
}
use tiny_agent.Upstream.Download.{
  is_transient, reuse, settle, settle_response, fetch, download_once, sleep, attempts, download,
}

len-ne : (a b c : ℕ) → a ≡ b → a ≡ b + suc c → b ≢ b
len-ne a b c e f = omega arith

pub part_of-ne : (name : String) → str_eq (part_of name) name ≡ false
part_of-ne name = elim (Bool-cases (str_eq (part_of name) name)) [
  | inr e ↦ e
  | inl e ↦
      let same : part_of name ≡ name = (eq_iff (part_of name) name).0 e in
      absurd (len-ne _ _ 4 (ap len same) (len-append name ".part") refl)
]

-- The number that is received is the size of the part, and within the bound.
abbrev IsReceived : Bytes × Result ℕ → Type 0
IsReceived (part, err x) = Unit
IsReceived (part, ok n) = (n ≡ length part) × (n ≤ max_bytes)

receive-IsReceived :
    (body : Body) (part : Bytes) → length part ≤ max_bytes → IsReceived (receive body part)
unfolding receive
receive-IsReceived end part le = (refl, le)
receive-IsReceived (broken x) part le = tt
receive-IsReceived (piece [] rest) part le = (refl, le)
receive-IsReceived (piece (b ∷ bs) rest) part le =
    either_branch IsReceived (ltb max_bytes (length part + length (b ∷ bs))) tt
      λ e. receive-IsReceived rest (part ++ (b ∷ bs)) (fits e)
  where
    fits :
        ltb max_bytes (length part + length (b ∷ bs)) ≡ false
        → length (part ++ (b ∷ bs)) ≤ max_bytes
    fits e = subst (λ k. k ≤ max_bytes) (sym (length-append part (b ∷ bs))) (ground arith)

check_size-IsReceived :
    (size : ℕ) (found : Bytes × Result ℕ)
    → IsReceived found
    → IsReceived (found.0, check_size size found.1)
check_size-IsReceived size (part, err x) h = tt
check_size-IsReceived size (part, ok n) h =
    either_branch (λ r. IsReceived (part, r)) (not (size == 0) && not (n == size)) tt (λ _. h)

receive_response-IsReceived : (r : Response) → IsReceived (receive_response r)
unfolding receive_response
receive_response-IsReceived r = elim (Bool-cases (starts_with r.url "https://")) [
  | inr e ↦ rw e tt
  | inl e ↦ rw e (sized r.size)
]
  where
    sized : (size : Result ℕ) → IsReceived (receive_sized r.body size)
    sized (err x) = tt
    sized (ok size) = either_branch IsReceived (ltb max_bytes size) tt λ _.
        check_size-IsReceived size (receive r.body []) (receive-IsReceived r.body [] (omega arith))

-- What a transfer has established when it is over: a file with the name, the reported digest and
-- size, and the digest that was asked for; or the file as it was.
abbrev pub IsArtifact : (Bytes → String) → Option String → Artifact → Option Bytes → Type 0
IsArtifact digest expected a found =
    (content : Bytes) × (found ≡ some content)
    × (a.sha256 ≡ digest content)
    × (a.bytes ≡ length content)
    × (differs expected (digest content) ≡ false)
    × ((a.reused ≡ true) ⊎ (length content ≤ max_bytes))

abbrev pub EndsWell :
    (Bytes → String) → String → Option String → Files → Result Artifact → Files → Type 0
EndsWell digest name expected before (ok a) after = IsArtifact digest expected a (after name)
EndsWell digest name expected before (err x) after = after name ≡ before name

put-same :
    (name : String) (found : Option Bytes) (files : Files) → put name found files name ≡ found
put-same name found files = ground (arith, eq_refl name)

put-part :
    (name : String) (found : Option Bytes) (files : Files)
    → put (part_of name) found files name ≡ files name
put-part name found files = rw (part_of-ne name) refl

module _ (digest : Bytes → String) {W : Type 0} (urlopen : String → W → Result Response × W) where
  reuse-EndsWell :
      (url name : String) (expected : Option String) (files : Files) (content : Bytes)
      → files name ≡ some content
      → EndsWell digest name expected files (reuse digest urlopen url name expected content) files
  unfolding reuse
  reuse-EndsWell url name expected files content e =
      elim (Bool-cases (differs expected (digest content))) [
        | inl d ↦ rw d refl
        | inr d ↦ rw d (content, e, refl, refl, d, inl refl)
      ]

  settle-EndsWell :
      (url final_url name : String) (expected : Option String) (files : Files)
      (found : Bytes × Result ℕ)
      → IsReceived found
      → (let (result, after) = settle digest urlopen url final_url name expected found files in
          EndsWell digest name expected files result after)
  unfolding settle
  settle-EndsWell url final_url name expected files (part, err x) h =
      put-part name (some part) files
  settle-EndsWell url final_url name expected files (part, ok n) (size, le) =
      either_branch (λ (p : Result Artifact × Files). EndsWell digest name expected files p.0 p.1)
        (differs expected (digest part)) (put-part name (some part) files)
        (λ d. (
          part,
          put-same name (some part) (put (part_of name) none files),
          refl,
          size,
          d,
          inr (subst (λ k. k ≤ max_bytes) size le),
        ))

  settle_response-EndsWell :
      (url name : String) (expected : Option String) (files : Files) (r : Result Response)
      → (let (result, after) = settle_response digest urlopen url name expected r files in
          EndsWell digest name expected files result after)
  unfolding settle_response
  settle_response-EndsWell url name expected files (err x) = refl
  settle_response-EndsWell url name expected files (ok response) =
      settle-EndsWell url response.url name expected files (receive_response response)
        (receive_response-IsReceived response)

  download_once-EndsWell :
      (url name : String) (expected : Option String) (refresh : Bool) (run : Run W)
      → (let (result, after) = download_once digest urlopen url name expected refresh run in
          EndsWell digest name expected run.files result after.files)
  unfolding download_once fetch
  download_once-EndsWell url name expected true run =
      settle_response-EndsWell url name expected run.files (urlopen url run.world).0
  download_once-EndsWell url name expected false run = go (run.files name) refl
    where
      go :
          (found : Option Bytes)
          → run.files name ≡ found
          → (let p : Result Artifact × Run W = elim found [
            | some content ↦ (reuse digest urlopen url name expected content, run)
            | none ↦ fetch digest urlopen url name expected run
          ] in
              EndsWell digest name expected run.files p.0 p.1.files)
      go none e = settle_response-EndsWell url name expected run.files (urlopen url run.world).0
      go (some content) e = reuse-EndsWell url name expected run.files content e

  -- An attempt that failed has left the file as it was for the next.
  EndsWell-later :
      (name : String) (expected : Option String) (before between after : Files)
      (result : Result Artifact)
      → between name ≡ before name
      → EndsWell digest name expected between result after
      → EndsWell digest name expected before result after
  EndsWell-later name expected before between after (ok a) e h = h
  EndsWell-later name expected before between after (err x) e h = h ∙ e

  attempts-EndsWell :
      (left attempt : ℕ) (url name : String) (expected : Option String) (refresh : Bool)
      (run : Run W)
      → (let (result, after) = attempts digest urlopen left attempt url name expected refresh run in
          EndsWell digest name expected run.files result after.files)
  unfolding attempts
  attempts-EndsWell zero attempt url name expected refresh run = refl
  attempts-EndsWell (suc left) attempt url name expected refresh run =
      go (download_once digest urlopen url name expected refresh run).0
        (download_once-EndsWell url name expected refresh run)
        (attempts-EndsWell left (attempt + 1) url name expected refresh (
          sleep digest urlopen (attempt + 1)
            (download_once digest urlopen url name expected refresh run).1))
    where
      tried : Run W
      tried = (download_once digest urlopen url name expected refresh run).1

      rest : Result Artifact × Run W
      rest =
          attempts digest urlopen left (attempt + 1) url name expected refresh
            (sleep digest urlopen (attempt + 1) tried)

      P : Result Artifact × Run W → Type 0
      P p = EndsWell digest name expected run.files p.0 p.1.files

      go :
          (result : Result Artifact)
          → EndsWell digest name expected run.files result tried.files
          → EndsWell digest name expected tried.files rest.0 rest.1.files
          → P (elim result [
            | ok artifact ↦ (ok artifact, tried)
            | err x ↦
                if is_transient x
                then (if attempt == 2 then (err x, tried) else rest)
                else (err x, tried)
          ])
      go (ok a) h k = h
      go (err x) h k =
          either_branch P (is_transient x)
            (either_branch P (attempt == 2) h
              λ _. EndsWell-later name expected run.files tried.files rest.1.files rest.0 h k)
            (λ _. h)

  -- A download that returns leaves under the name a file with the reported digest and size, and
  -- the expected digest where there is one, which is no larger than the bound if it was transferred; a
  -- download that raises leaves the file of that name as it was.
  pub download-EndsWell :
      (url name : String) (expected : Option String) (refresh : Bool) (run : Run W)
      → (let (result, after) = download digest urlopen url name expected refresh run in
          EndsWell digest name expected run.files result after.files)
  unfolding download
  download-EndsWell url name expected refresh run =
      attempts-EndsWell 3 0 url name expected refresh run
