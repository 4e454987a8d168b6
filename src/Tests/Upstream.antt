-- ===== src/Tests/Upstream.antt =====
-- Downloads of scripts/collect_upstream.py with a network that gives the responses of a list.
use tiny_agent.Base.{
  ◌≡◌, refl, String, false, none, some, List, [], ◌∷◌, if◌then◌else◌, ◌==◌, Bytes, Result, ok, err,
  url_error, runtime_error,
}
use tiny_agent.Upstream.{end, piece, Response, Run, Artifact}
use tiny_agent.Upstream.Download.{download}
use tiny_agent.Upstream.Transfer.{EndsWell, download-EndsWell}
use tiny_agent.Upstream.Retries.{AreTries, download-AreTries}

abbrev Network : Type 0
Network = List (Result Response)

abbrev urlopen : String → Network → Result Response × Network
urlopen url [] = (err (url_error "refused"), [])
urlopen url (response ∷ rest) = (response, rest)

abbrev digest : Bytes → String
digest [] = "none"
digest (x ∷ xs) = if x == 7 then "seven" else "other"

abbrev cut : Response
cut = record { url = "https://h/f"; size = ok 3; body = piece (7 ∷ 8 ∷ []) end }

abbrev whole : Response
whole = record { url = "https://h/f"; size = ok 3; body = piece (7 ∷ 8 ∷ []) (piece (9 ∷ []) end) }

abbrev wrong : Response
wrong = record { url = "https://h/f"; size = ok 0; body = piece (1 ∷ []) end }

abbrev start : Network → Run Network
start network = record { files = λ name. none; world = network; events = [] }

abbrev fetched : Result Artifact × Run Network
fetched =
    download digest urlopen "https://h/f" "f" (some "seven") false
      (start (ok cut ∷ err (url_error "reset") ∷ ok whole ∷ []))

-- A short transfer and a lost connection, and then the artifact.
downloads :
    fetched.0
    ≡ ok (record {
      file = "f";
      url = "https://h/f";
      final_url = some "https://h/f";
      sha256 = "seven";
      bytes = 3;
      reused = false;
    })
unfolding download
downloads = refl

-- A wrong checksum ends it at once.
rejects :
    (download digest urlopen "https://h/f" "f"
      (some "seven")
      false
      (start (ok wrong ∷ ok whole ∷ []))).0
    ≡ err (runtime_error "Downloaded artifact checksum mismatch")
unfolding download
rejects = refl

download-EndsWell_example :
    EndsWell digest "f"
      (some "seven")
      (start (ok cut ∷ err (url_error "reset") ∷ ok whole ∷ [])).files
      fetched.0
      fetched.1.files
download-EndsWell_example =
    download-EndsWell digest urlopen "https://h/f" "f" (some "seven") false
      (start (ok cut ∷ err (url_error "reset") ∷ ok whole ∷ []))

download-AreTries_example :
    AreTries digest urlopen "https://h/f" 0
      (start (ok cut ∷ err (url_error "reset") ∷ ok whole ∷ []))
      fetched
download-AreTries_example =
    download-AreTries digest urlopen "https://h/f" "f" (some "seven") false
      (start (ok cut ∷ err (url_error "reset") ∷ ok whole ∷ []))
