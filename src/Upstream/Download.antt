-- ===== src/Upstream/Download.antt =====
-- `_download_once` and `download` of scripts/collect_upstream.py
use tiny_agent.Base.{
  ℕ, zero, suc, ◌+◌, String, Bool, true, false, Option, none, some, [], ◌∷◌, ◌++◌, if◌then◌else◌,
  ◌==◌, length, Bytes, Exception, Result, ok, err, runtime_error, incomplete_download, url_error,
  http_exception, timeout_error, assertion,
}
use tiny_agent.Upstream.{
  Response, Files, put, opened, slept, Run, Artifact, part_of, receive_response, differs,
}

-- `except (IncompleteDownload, URLError, HTTPException, TimeoutError)`
abbrev pub is_transient : Exception → Bool
is_transient (incomplete_download m) = true
is_transient (url_error m) = true
is_transient (http_exception m) = true
is_transient (timeout_error m) = true
is_transient _ = false

module _ (digest : Bytes → String) {W : Type 0}
    -- `urllib.request.urlopen`
    (urlopen : String → W → Result Response × W) where
  -- An artifact that is there already.
  unfoldable pub reuse : String → String → Option String → Bytes → Result Artifact
  reuse url name expected content =
      if differs expected (digest content)
      then err (runtime_error "Existing artifact checksum mismatch")
      else ok (record {
        file = name;
        url = url;
        final_url = none;
        sha256 = digest content;
        bytes = length content;
        reused = true;
      })

  -- The part is complete or given up; a complete one with the right checksum becomes the target.
  unfoldable pub settle :
      String → String → String → Option String → Bytes × Result ℕ → Files → Result Artifact × Files
  settle url final_url name expected (part, err x) files =
      (err x, put (part_of name) (some part) files)
  settle url final_url name expected (part, ok received) files =
      if differs expected (digest part)
      then (
        err (runtime_error "Downloaded artifact checksum mismatch"),
        put (part_of name) (some part) files,
      )
      else (
        ok (record {
          file = name;
          url = url;
          final_url = some final_url;
          sha256 = digest part;
          bytes = received;
          reused = false;
        }),
        put name (some part) (put (part_of name) none files),
      )

  unfoldable pub settle_response :
      String → String → Option String → Result Response → Files → Result Artifact × Files
  unfolding settle receive_response
  settle_response url name expected (err x) files = (err x, files)
  settle_response url name expected (ok response) files =
      settle url response.url name expected (receive_response response) files

  unfoldable pub fetch : String → String → Option String → Run W → Result Artifact × Run W
  unfolding settle_response
  fetch url name expected run =
      let (response, world) = urlopen url run.world in
      let (result, files) = settle_response url name expected response run.files in
      (result, record { files = files; world = world; events = run.events ++ (opened url ∷ []) })

  -- What stands there, unless it is to be refreshed.
  abbrev pub present : Bool → Option Bytes → Option Bytes
  present true found = none
  present false found = found

  unfoldable pub download_once :
      String → String → Option String → Bool → Run W → Result Artifact × Run W
  unfolding reuse fetch
  download_once url name expected refresh run = elim (present refresh (run.files name)) [
    | some content ↦ (reuse url name expected content, run)
    | none ↦ fetch url name expected run
  ]

  abbrev pub sleep : ℕ → Run W → Run W
  sleep seconds run = record run { events = run.events ++ (slept seconds ∷ []) }

  -- The attempts that are left, and the number of the next one.
  unfoldable pub attempts :
      ℕ → ℕ → String → String → Option String → Bool → Run W → Result Artifact × Run W
  unfolding download_once
  attempts zero attempt url name expected refresh run = (err (assertion "Unreachable"), run)
  attempts (suc left) attempt url name expected refresh run =
      let (result, after) = download_once url name expected refresh run in
      let rest =
        attempts left (attempt + 1) url name expected refresh (sleep (attempt + 1) after) in
      elim result [
        | ok artifact ↦ (ok artifact, after)
        | err x ↦
            if is_transient x
            then (if attempt == 2 then (err x, after) else rest)
            else (err x, after)
      ]

  unfoldable pub download : String → String → Option String → Bool → Run W → Result Artifact × Run W
  unfolding attempts
  download url name expected refresh run = attempts 3 0 url name expected refresh run
