-- ===== src/SourceRpms/Stored.antt =====
-- What a round of scripts/collect-dnfast-library-sources.py records.
use tiny_agent.Base.{
  FilePath, bytes_eq, take, ◌≡◌, refl, sym, ap, ◌∙◌, subst, String, Bool, true, false, Option, none,
  some, length, Bytes, Exception, Result, ok, err, assertion, is_some, some_injective,
}
use tiny_agent.Json.{Json}
use tiny_agent.Host.{Files, Host, ◌>>=◌, pure, exists, replace, call, put}
use tiny_agent.Host.Rules.{
  bind-ok, then-ok, require-ok, lift-ok, lift-then-ok, read-ok, pure-ok, put-same,
}
use tiny_agent.Upstream.{Body}
use tiny_agent.SourceRpms.{
  is_source_rpm, name_parts, url_of, rpm_file, part_file, Known, known_row, check_row, Row,
  collected, failed,
}
use tiny_agent.SourceRpms.Run

-- The address of the package that the name is of.
abbrev pub IsUrl : String → String → Type 0
IsUrl name url =
    (project : String) × (version : String) × (release : String) × (name_parts name
      ≡ ok (project, version, release))
    × (url ≡ url_of project version release name)

module _ (digest : Bytes → String) where
  -- The file that stands under the name has the digest, and agrees with the row that is known.
  pub record Stored (previous : Option Json) (files : Files) (name url sha : String)
      (content : Bytes) : Type 0 where
    pub file : files (rpm_file name) ≡ some content
    pub digits : sha ≡ digest content
    pub agrees : (m : String) × (check_row previous url (digest content) m ≡ ok tt)

  abbrev pub IsStored : Option Json → Files → String → Row → Type 0
  IsStored previous files name (failed file url error) = Unit
  IsStored previous files name (collected file url bytes sha) =
      (content : Bytes) × Stored previous files name url sha content × (bytes ≡ length content)

  -- A row is about the package and its address.
  abbrev pub IsAbout : String → Row → Type 0
  IsAbout name (failed file url error) = (file ≡ name) × IsUrl name url
  IsAbout name (collected file url bytes sha) = (file ≡ name) × IsUrl name url

  pub IsStored-later :
      (previous : Option Json) (before after : Files) (name : String) (row : Row)
      → after (rpm_file name) ≡ before (rpm_file name)
      → IsStored previous before name row
      → IsStored previous after name row
  IsStored-later previous before after name (failed file url error) e h = tt
  IsStored-later previous before after name (collected file url bytes sha) e (content, f, size) =
      (content, record { file = e ∙ f.file; digits = f.digits; agrees = f.agrees }, size)

  module _ (message : Exception → String) {W : Type 0} (urlopen : String → W → Result Body × W)
      (loads : Bytes → Result Json) (dumps : Json → Bytes) where
    reuse-Stored :
        (name url sha : String) (previous : Option Json) (host after : Host W)
        → Run.reuse digest message urlopen loads dumps url (rpm_file name) previous host
          ≡ (ok sha, after)
        → (content : Bytes) × Stored previous after.files name url sha content
    reuse-Stored name url sha previous host after h =
        read-ok (rpm_file name) _ host h λ content r h1.
          lift-then-ok (check_row previous url (digest content) "Cached source mismatch")
            (pure (digest content)) host h1
            λ c h2.
              let (e, same) = pure-ok (digest content) sha host after h2 in
              (
                content,
                record {
                  file = ap (λ (p : Host W). p.files (rpm_file name)) (sym same) ∙ r;
                  digits = sym e;
                  agrees = ("Cached source mismatch", c);
                },
              )

    replace-file :
        (part target : FilePath) (content : Bytes) (host : Host W)
        → host.files part ≡ some content
        → (replace part target host).1.files target ≡ some content
    replace-file part target content host r =
        rw (r, replace) (put-same target (some content) (put part none host.files))

    download-Stored :
        (name url sha : String) (previous : Option Json) (host after : Host W)
        → Run.download digest message urlopen loads dumps name url
            (part_file name)
            (rpm_file name)
            previous
            host
          ≡ (ok sha, after)
        → (content : Bytes) × Stored previous after.files name url sha content
    download-Stored name url sha previous host after h =
        then-ok
          (call (urlopen url)
            >>= Run.receive_into digest message urlopen loads dumps (part_file name))
          _ host h
          λ received _ h1. read-ok (part_file name) _ received h1 λ content r h2.
            require-ok (bytes_eq (take 4 content) Run.magic) (assertion "Response is not an RPM") _
              received h2
              λ _ h3.
                lift-then-ok (check_row previous url (digest content) "Downloaded source changed") _
                  received h3
                  λ c h4.
                    then-ok (replace (part_file name) (rpm_file name)) (pure (digest content))
                      received h4
                      λ last p h5.
                        let (e, same) = pure-ok (digest content) sha last after h5 in
                        (
                          content,
                          record {
                            file =
                                ap (λ (q : Host W). q.files (rpm_file name)) (sym same)
                                ∙ ap (λ (q : Result (Unit {0}) × Host W). q.1.files (rpm_file name))
                                    (sym p)
                                ∙ replace-file (part_file name) (rpm_file name) content received r;
                            digits = sym e;
                            agrees = ("Downloaded source changed", c);
                          },
                        )

    choose-Stored :
        (name url sha : String) (previous : Option Json) (found : Bool) (host after : Host W)
        → Run.choose digest message urlopen loads dumps name url previous found host
          ≡ (ok sha, after)
        → (content : Bytes) × Stored previous after.files name url sha content
    choose-Stored name url sha (some row) true = reuse-Stored name url sha (some row)
    choose-Stored name url sha (some row) false = download-Stored name url sha (some row)
    choose-Stored name url sha none true = download-Stored name url sha none
    choose-Stored name url sha none false = download-Stored name url sha none

    obtain-IsStored :
        (name url : String) (previous : Option Json) (row : Row) (host after : Host W)
        → Run.obtain digest message urlopen loads dumps name url previous host ≡ (ok row, after)
        → IsUrl name url
        → IsStored previous after.files name row × IsAbout name row
    obtain-IsStored name url previous row host after h u =
        bind-ok
          (exists (rpm_file name)
            >>= Run.choose digest message urlopen loads dumps name url previous)
          _ host h
          λ sha between c h1.
            let (content, f) =
              choose-Stored name url sha previous (is_some (host.files (rpm_file name))) host
                between c in
            read-ok (rpm_file name) _ between h1 λ stored r h2.
              let (e, same) =
                pure-ok (collected name url (length stored) sha) row between after h2 in
              subst (λ (q : Host W). IsStored previous q.files name row × IsAbout name row) same
                (subst (λ q. IsStored previous between.files name q × IsAbout name q) e
                  (
                    (content, f, ap length (some_injective stored content (sym r ∙ f.file))),
                    (refl, u),
                  ))

    or_failed-IsStored :
        (name url : String) (previous : Option Json) (result : Result Row) (host after : Host W)
        → Run.obtain digest message urlopen loads dumps name url previous host ≡ (result, after)
        → IsUrl name url
        → IsStored previous after.files name
            (Run.or_failed digest message urlopen loads dumps name url result)
          × IsAbout name (Run.or_failed digest message urlopen loads dumps name url result)
    or_failed-IsStored name url previous (ok row) = obtain-IsStored name url previous row
    or_failed-IsStored name url previous (err x) = λ host after h u. (tt, (refl, u))

    -- A round that goes on, whatever it records.
    pub collect_rpm-IsStored :
        (known : Known) (name : String) (row : Row) (host after : Host W)
        → Run.collect_rpm digest message urlopen loads dumps known name host ≡ (ok row, after)
        → (is_source_rpm name ≡ true)
          × IsStored (known_row known name) after.files name row
          × IsAbout name row
    unfolding Run.collect_rpm
    collect_rpm-IsStored known name row host after h =
        require-ok (is_source_rpm name) (assertion "Invalid source RPM name") _ host h λ s h1.
          lift-ok (name_parts name) _ host h1 λ (project, version, release) n h2.
            let url = url_of project version release name in
            let previous = known_row known name in
            let run = Run.obtain digest message urlopen loads dumps name url previous in
            let (stored, about) =
              or_failed-IsStored name url previous (run host).0 host (run host).1 refl
                (project, version, release, n, refl) in
            let (e, same) =
              pure-ok (Run.or_failed digest message urlopen loads dumps name url (run host).0) row
                (run host).1 after h2 in
            (
              s,
              subst (λ (q : Host W). IsStored previous q.files name row) same
                  (subst (λ q. IsStored previous (run host).1.files name q) e stored),
              subst (IsAbout name) e about,
            )
