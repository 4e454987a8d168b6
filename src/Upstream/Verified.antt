-- ===== src/Upstream/Verified.antt =====
-- What it means that the collection of scripts/collect_upstream.py is verified.
use tiny_agent.Base.{
  ◌≡◌, refl, sym, ap, ◌∙◌, subst, String, ◌<>◌, true, false, Option, none, some, List, [], ◌∷◌, not,
  split, split_lines, guard-ok, arith, str_eq, eq_iff, Bytes, Result, ok, err, runtime_error,
  guard-eq-ok,
}
use tiny_agent.Json.{Json, natural, index, json_eq}
use tiny_agent.Upstream.{Response, Files, put, Artifact}
use tiny_agent.Upstream.Reports.{Ended, Gpgv, gpg_command, log_name, log_text, release_json}
use tiny_agent.Host.{is_success, code_text}
use tiny_agent.Upstream.Download.{download}
use tiny_agent.Upstream.Transfer.{EndsWell, download-EndsWell}
use tiny_agent.Upstream.Checks.{
  checksum_for, validate_signature, read_release, has_signature, has_failure, failures, entries,
  only_entry,
}
use tiny_agent.Upstream.Collect.{
  Pins, State, Exec, pure, on_result, ◌>>=◌, lift, guard, transfer, append, read_text, text_of,
  run_gpgv, write_log, note_signature, note_release, fetch_keys, fetch_fedora, fetch_opencode,
  collect,
}
use tiny_agent.Upstream.Digests.{
  ok_eq, IsDigest, differs-eq, checksum_for-IsDigest, asset_digest-IsDigest,
}
use tiny_agent.Upstream.Assets.{IsAsset, read_release-IsAsset}

put-other :
    (name other : String) (found : Option Bytes) (files : Files)
    → str_eq name other ≡ false
    → put name found files other ≡ files other
put-other name other found files e = rw e refl

validate_signature-ok :
    (fingerprint status : String)
    → validate_signature fingerprint status ≡ ok tt
    → (has_signature fingerprint (split_lines status) ≡ true)
      × (has_failure status failures ≡ false)
unfolding validate_signature
validate_signature-ok fingerprint status h =
    guard-ok (has_signature fingerprint (split_lines status)) _ _ h
      λ s h1. let f = guard-eq-ok (not (has_failure status failures)) _ h1 in (s, ground (arith, f))

only_entry-eq : (found : List String) (hex : String) → only_entry found ≡ ok hex → found ≡ hex ∷ []
only_entry-eq [] hex h = cc
only_entry-eq (x ∷ []) hex h = cc
only_entry-eq (x ∷ (y ∷ rest)) hex h = cc

checksum_for-entries :
    (content filename : String)
    → only_entry (entries filename (split b'\n' content)) ≡ checksum_for content filename
unfolding checksum_for
checksum_for-entries content filename = refl

module _ (digest : Bytes → String) {W : Type 0} (urlopen : String → W → Result Response × W)
    (gpgv : Gpgv) (decode : Bytes → Result String) (loads : String → Result Json)
    (pins : Pins) where
  abbrev Returns : {A : Type 0} → Exec W A → State W → (A → State W → Type 0) → Type 0
  Returns run state Q = (a : _) → (run state).0 ≡ ok a → Q a (run state).1

  Returns-bind :
      {A B : Type 0} (run : Exec W A) (next : A → Exec W B) (state : State W)
      (Q : B → State W → Type 0)
      → ((a : A) → (run state).0 ≡ ok a → Returns (next a) (run state).1 Q)
      → Returns (run >>= next) state Q
  Returns-bind {A} {B} run next state Q go = onto (run state).0 (run state).1 go
    where
      onto :
          (result : Result A) (after : State W)
          → ((a : A) → result ≡ ok a → Returns (next a) after Q)
          → (b : B) → (on_result result after next).0 ≡ ok b
          → Q b (on_result result after next).1
      onto (ok a) after f b h = f a refl b h
      onto (err x) after f b h = cc

  transfer-eq :
      (url name expected : String) (state : State W) (a : Artifact)
      → IsDigest expected
      → (transfer digest urlopen gpgv decode loads pins url name (some expected) false state).0
        ≡ ok a
      → a.sha256 ≡ expected
  transfer-eq url name expected (run, manifest) a d h =
      let (content, _, same, _, differ, _) =
        subst
          (λ r.
            EndsWell digest name (some expected) run.files r
              (download digest urlopen url name (some expected) false run).1.files)
          h (download-EndsWell digest urlopen url name (some expected) false run) in
      same ∙ differs-eq expected (digest content) d differ

  -- Among these files gpgv was called; the signed list of checksums, as it was verified, has one entry for the image,
  -- the pinned digest.
  pub record IsSigned (files : Files) : Type 0 where
    pub command : List String
    pub ended : Ended
    pub content : String
    pub called : gpg_command gpgv pins.checksum_name ≡ ok command
    pub signed : gpgv.run command files ≡ ok ended
    pub succeeded : is_success ended.code ≡ true
    pub valid : has_signature pins.fingerprint (split_lines ended.stdout) ≡ true
    pub no_failure : has_failure ended.stdout failures ≡ false
    pub stored :
        text_of digest urlopen gpgv decode loads pins (files pins.checksum_name) ≡ ok content
    pub listed : entries pins.fedora_name (split b'\n' content) ≡ pins.fedora_sha256 ∷ []

  -- The description of the release, fetched in a state, and its one asset, with the digest and the size.
  pub record IsPublished (state : State W) (archive : Artifact) (hex : String) : Type 0 where
    pub metadata : Artifact
    pub content : String
    pub release : Json
    pub asset : Json
    pub size : Json
    pub fetched :
        (transfer digest urlopen gpgv decode loads pins pins.github_api
          "opencode-v1.18.29-release-api.json" none true state).0
        ≡ ok metadata
    pub stored :
        text_of digest urlopen gpgv decode loads pins (
          (transfer digest urlopen gpgv decode loads pins pins.github_api
              "opencode-v1.18.29-release-api.json" none true state).1.0.files
            metadata.file)
        ≡ ok content
    pub loaded : loads content ≡ ok release
    pub described : IsAsset pins.opencode_name pins.opencode_url release asset hex
    pub sized : index asset "size" ≡ ok size
    pub same_size : json_eq (natural archive.bytes) size ≡ true

  fetch_fedora-IsImage :
      (state : State W)
      → str_eq log_name pins.checksum_name ≡ false
      → Returns
          (fetch_fedora digest urlopen gpgv decode loads pins)
          state
          (λ image _. IsSigned state.0.files × (image.sha256 ≡ pins.fedora_sha256))
  unfolding fetch_fedora
  fetch_fedora-IsImage state apart =
      Returns-bind (lift (gpg_command gpgv pins.checksum_name)) _ state Q λ command k.
        Returns-bind (run_gpgv digest urlopen gpgv decode loads pins command) _ state Q λ ended g.
          let s1 = (write_log digest urlopen gpgv decode loads pins command ended state).1 in
          Returns-bind
            (guard (is_success ended.code) (
              runtime_error (
                "Fedora CHECKSUM signature failed, gpgv exit="
                <> (code_text ended.code <> "; see verification log"))))
            _ s1 Q
            λ _ z.
              Returns-bind (lift (validate_signature pins.fingerprint ended.stdout)) _ s1 Q λ _ v.
                Returns-bind (read_text digest urlopen gpgv decode loads pins pins.checksum_name) _
                  s1 Q
                  λ content c.
                    Returns-bind (lift (checksum_for content pins.fedora_name)) _ s1 Q λ expected e.
                      Returns-bind
                        (guard (str_eq expected pins.fedora_sha256) (
                          runtime_error
                            "Signed CHECKSUM differs from pinned official Fedora website digest"))
                        _ s1 Q
                        λ _ p.
                          let s2 =
                            (note_signature digest urlopen gpgv decode loads pins command s1).1 in
                          let fetch =
                            transfer digest urlopen gpgv decode loads pins
                              (pins.fedora_base <> pins.fedora_name) pins.fedora_name
                              (some expected) false in
                          Returns-bind fetch _ s2 Q λ image t found h.
                            let pinned : expected ≡ pins.fedora_sha256 =
                              (eq_iff expected pins.fedora_sha256).0
                                (guard-eq-ok (str_eq expected pins.fedora_sha256) _ p) in
                            let same : found ≡ image = ok_eq image found h in
                            (
                              record {
                                command = command;
                                ended = ended;
                                content = content;
                                called = k;
                                signed = g;
                                succeeded = guard-eq-ok (is_success ended.code) _ z;
                                valid = (validate_signature-ok pins.fingerprint ended.stdout v).0;
                                no_failure =
                                    (validate_signature-ok pins.fingerprint ended.stdout v).1;
                                stored =
                                    sym (
                                      ap (text_of digest urlopen gpgv decode loads pins) (
                                        put-other log_name pins.checksum_name
                                          (some (gpgv.encode (log_text gpgv command ended)))
                                          state.0.files apart))
                                    ∙ c;
                                listed =
                                    only_entry-eq (entries pins.fedora_name (split b'\n' content))
                                      pins.fedora_sha256
                                      (checksum_for-entries content pins.fedora_name
                                        ∙ (e ∙ ap ok pinned));
                              },
                              ap (λ (a : Artifact). a.sha256) same
                                  ∙ (transfer-eq (pins.fedora_base <> pins.fedora_name)
                                        pins.fedora_name expected s2 image
                                        (checksum_for-IsDigest content pins.fedora_name e) t
                                      ∙ pinned),
                            )
    where
      Q : Artifact → State W → Type 0
      Q image _ = IsSigned state.0.files × (image.sha256 ≡ pins.fedora_sha256)

  fetch_opencode-IsPublished :
      (state : State W)
      → Returns
          (fetch_opencode digest urlopen gpgv decode loads pins)
          state
          (λ found _. IsPublished state found.0 found.1 × (found.0.sha256 ≡ found.1))
  unfolding fetch_opencode
  fetch_opencode-IsPublished state =
      let run1 =
        transfer digest urlopen gpgv decode loads pins pins.github_api
          "opencode-v1.18.29-release-api.json" none true in
      let s1 = (run1 state).1 in
      Returns-bind run1 _ state Q λ metadata m.
        let s2 = (append digest urlopen gpgv decode loads pins metadata s1).1 in
        Returns-bind (read_text digest urlopen gpgv decode loads pins metadata.file) _ s2 Q
          λ content c. Returns-bind (lift (loads content)) _ s2 Q λ release l.
            Returns-bind (lift (read_release pins.opencode_name pins.opencode_url release)) _ s2 Q
              λ found r.
                Returns-bind (lift (release_json release found.0 found.1)) _ s2 Q λ described _.
                  let noted = (note_release digest urlopen gpgv decode loads pins described s2).1 in
                  let fetch =
                    transfer digest urlopen gpgv decode loads pins pins.opencode_url
                      pins.opencode_name (some found.1) false in
                  let s3 = (fetch noted).1 in
                  Returns-bind fetch _ noted Q λ archive t.
                    Returns-bind (lift (index found.0 "size")) _ s3 Q λ size z.
                      Returns-bind
                        (guard (json_eq (natural archive.bytes) size)
                          (runtime_error "OpenCode asset size mismatch"))
                        _ s3 Q
                        λ _ g pair h.
                          subst (λ p. IsPublished state p.0 p.1 × (p.0.sha256 ≡ p.1))
                            (sym (ok_eq (archive, found.1) pair h))
                            (
                              record {
                                release = release;
                                asset = found.0;
                                size = size;
                                metadata = metadata;
                                content = content;
                                fetched = m;
                                stored = c;
                                loaded = l;
                                described =
                                    read_release-IsAsset pins.opencode_name pins.opencode_url
                                      release found r;
                                sized = z;
                                same_size = guard-eq-ok (json_eq (natural archive.bytes) size) _ g;
                              },
                              transfer-eq pins.opencode_url pins.opencode_name found.1 noted archive
                                  (asset_digest-IsDigest found.0 found.1
                                    (read_release-IsAsset pins.opencode_name pins.opencode_url
                                      release found r).digits)
                                  t,
                            )
    where
      Q : Artifact × String → State W → Type 0
      Q found _ = IsPublished state found.0 found.1 × (found.0.sha256 ≡ found.1)

  -- When the collection returns, and the list of checksums has another name than the log: among the files that the first three transfers left,
  -- gpgv has accepted the list of checksums with a valid signature of the pinned key and no sign of a bad one, and that list has one entry for the
  -- image, the pinned digest; the image that was collected has this digest; the description that was then fetched and stored is of the pinned
  -- release, no draft and no prerelease, and just one of its assets has the pinned name, at the pinned address; and the archive has the digest and the
  -- size that it gives for that asset.
  pub collect-IsVerified :
      (state : State W) (image archive : Artifact) (hex : String)
      → str_eq log_name pins.checksum_name ≡ false
      → (collect digest urlopen gpgv decode loads pins state).0 ≡ ok (image, (archive, hex))
      → IsSigned (fetch_keys digest urlopen gpgv decode loads pins state).1.0.files
        × (image.sha256 ≡ pins.fedora_sha256)
        × IsPublished
            (fetch_fedora digest urlopen gpgv decode loads pins
              (fetch_keys digest urlopen gpgv decode loads pins state).1).1
            archive
            hex
        × (archive.sha256 ≡ hex)
  unfolding collect
  collect-IsVerified state image archive hex apart h =
      let keys = fetch_keys digest urlopen gpgv decode loads pins in
      let fedora = fetch_fedora digest urlopen gpgv decode loads pins in
      let opencode = fetch_opencode digest urlopen gpgv decode loads pins in
      let s1 = (keys state).1 in
      let s2 = (fedora s1).1 in
      Returns-bind keys _ state Q
        (λ _ _. Returns-bind fedora _ s1 Q λ found f.
          Returns-bind opencode (λ pair. pure (found, pair)) s2 Q
            λ pair o all e.
              let (signed, same) = fetch_fedora-IsImage s1 apart found f in
              let (published, equal) = fetch_opencode-IsPublished s2 pair o in
              subst (λ p. Q p s2) (sym (ok_eq (found, pair) all e))
                (signed, same, published, equal))
        (image, (archive, hex)) h
    where
      Q : Artifact × (Artifact × String) → State W → Type 0
      Q p _ =
          IsSigned (fetch_keys digest urlopen gpgv decode loads pins state).1.0.files
          × (p.0.sha256 ≡ pins.fedora_sha256)
          × IsPublished
              (fetch_fedora digest urlopen gpgv decode loads pins
                (fetch_keys digest urlopen gpgv decode loads pins state).1).1
              p.1.0 p.1.1
          × (p.1.0.sha256 ≡ p.1.1)
