-- ===== src/Crates/Exported.antt =====
-- What it means that scripts/collect-dnfast-cargo-sources.py returns.
use tiny_agent.Base.{
  FilePath, ◌++◌, ◌≡◌, refl, sym, ap, ◌∙◌, subst, String, ◌<>◌, Bool, true, false, some, List, [],
  ◌∷◌, starts_with, length, Bytes, Result, ok, value_error, >>=-ok, guard-eq-ok, if◌then◌else◌,
  ok_injective,
}
use tiny_agent.Json.{
  Json, null, boolean, natural, negative, text, array, object, index, get, elements, text-json_eq,
}
use tiny_agent.Host.{Host, pure, lift, write, for_each}
use tiny_agent.Host.Rules.{
  bind-ok, then-ok, require-ok, lift-ok, read-ok, pure-ok, AreRounds, for_each-AreRounds, put-same,
}
use tiny_agent.Staging.{publish}
use tiny_agent.Crates.{
  is_crate_file, identity_of, crate_file, as_source, Outcome, skipped, missing, packed, archive_of,
  report_json, check_crate,
}
use tiny_agent.Crates.Run.{
  candidates, pack_crate, settle, export_located, export_sourced, export_crate, export_crates,
}

module _ (digest : Bytes → String) where
  -- The outcome of a package: it has no source; or it is missing, under the name of its file; or its content has the
  -- digest of the lock file, the row is about it, it is from a registry, and its file has a safe name.
  abbrev pub IsExported : Json → Outcome → Type 0
  IsExported locked skipped = get locked "source" ≡ ok null
  IsExported locked (missing file source) =
      (get locked "source" ≡ ok source)
      × (name : String) × (version : String) × (identity_of locked ≡ ok (name, version))
      × (file ≡ crate_file name version)
  IsExported locked (packed row content) =
      (get locked "source" ≡ ok (text row.source))
      × (starts_with row.source "registry+" ≡ true)
      × (identity_of locked ≡ ok (row.name, row.version))
      × (is_crate_file (crate_file row.name row.version) ≡ true)
      × (index locked "checksum" ≡ ok (text (digest content)))
      × (row.sha256 ≡ digest content)
      × (row.bytes ≡ length content)

  check_crate-digest :
      (locked : Json) (message : String) (content : Bytes)
      → check_crate digest locked message content ≡ ok tt
      → index locked "checksum" ≡ ok (text (digest content))
  unfolding check_crate
  check_crate-digest locked message content h =
      >>=-ok (index locked "checksum") _ h λ expected e h1.
        e ∙ ap ok (text-json_eq (digest content) expected (guard-eq-ok _ (value_error message) h1))

  as_source-text :
      (source : Json) (address : String) → as_source source ≡ ok address → source ≡ text address
  as_source-text (text s) address h = ap text (ok_injective s address h)
  as_source-text null address h = cc
  as_source-text (boolean b) address h = cc
  as_source-text (natural n) address h = cc
  as_source-text (negative n) address h = cc
  as_source-text (array _) address h = cc
  as_source-text (object _) address h = cc

  module _ (loads : Bytes → Result Json) (cached : String → List FilePath) (fetch_missing : Bool)
      {W : Type 0} (urlopen : String → W → Result Bytes × W) (output : FilePath) where
    settle-IsExported :
        (locked source : Json) (name version address : String) (paths : List FilePath)
        (outcome : Outcome) (host after : Host W)
        → get locked "source" ≡ ok source
        → identity_of locked ≡ ok (name, version)
        → is_crate_file (crate_file name version) ≡ true
        → as_source source ≡ ok address
        → settle digest loads cached fetch_missing urlopen output locked
            (name, version)
            source
            address
            paths
            host
          ≡ (ok outcome, after)
        → IsExported locked outcome
    settle-IsExported locked source name version address [] outcome host after g i f a h =
        subst (IsExported locked)
          (pure-ok (missing (crate_file name version) source) outcome host after h).0
          (g, name, version, i, refl)
    settle-IsExported locked source name version address (path ∷ paths) outcome host after g i f a
          h =
        go (starts_with address "registry+") refl h
      where
        go :
            (b : Bool)
            → starts_with address "registry+" ≡ b
            → (if b
                  then pack_crate digest loads cached fetch_missing urlopen output locked
                      (name, version)
                      address
                      path
                  else pure (missing (crate_file name version) source))
                host
              ≡ (ok outcome, after)
            → IsExported locked outcome
        go false s k =
            subst (IsExported locked)
              (pure-ok (missing (crate_file name version) source) outcome host after k).0
              (g, name, version, i, refl)
        go true s k = read-ok path _ host k λ content _ k1.
            then-ok
              (lift (
                check_crate digest locked
                  ("Cached source checksum mismatch: " <> crate_file name version) content))
              _ host k1
              λ between c k2. subst (IsExported locked) (pure-ok _ outcome between after k2).0 (
                g ∙ ap ok (as_source-text source address a),
                s,
                i,
                f,
                check_crate-digest locked
                    ("Cached source checksum mismatch: " <> crate_file name version) content
                    (ap (λ (p : Result (Unit {0}) × Host W). p.0) c),
                refl,
                refl,
              )

    located-IsExported :
        (locked source : Json) (outcome : Outcome) (host after : Host W)
        → get locked "source" ≡ ok source
        → export_located digest loads cached fetch_missing urlopen output locked source host
          ≡ (ok outcome, after)
        → IsExported locked outcome
    located-IsExported locked source outcome host after g h =
        lift-ok (identity_of locked) _ host h λ identity i h1.
          let file = crate_file identity.0 identity.1 in
          require-ok (is_crate_file file) (value_error "Unexpected crate filename") _ host h1
            λ f h2.
              bind-ok
                (candidates digest loads cached fetch_missing urlopen output locked source
                  identity.0 file (cached file))
                _ host h2
                λ paths between _ h3. lift-ok (as_source source) _ between h3 λ address a h4.
                  settle-IsExported locked source identity.0 identity.1 address paths outcome
                    between after g i f a h4

    sourced-IsExported :
        (locked source : Json) (outcome : Outcome) (host after : Host W)
        → get locked "source" ≡ ok source
        → export_sourced digest loads cached fetch_missing urlopen output locked source host
          ≡ (ok outcome, after)
        → IsExported locked outcome
    sourced-IsExported locked null = λ outcome host after g h.
        subst (IsExported locked) (pure-ok skipped outcome host after h).0 g
    sourced-IsExported locked (boolean b) = located-IsExported locked (boolean b)
    sourced-IsExported locked (natural n) = located-IsExported locked (natural n)
    sourced-IsExported locked (negative n) = located-IsExported locked (negative n)
    sourced-IsExported locked (text s) = located-IsExported locked (text s)
    sourced-IsExported locked (array found) = located-IsExported locked (array found)
    sourced-IsExported locked (object found) = located-IsExported locked (object found)

    export_crate-IsExported :
        (locked : Json) (outcome : Outcome) (host after : Host W)
        → export_crate digest loads cached fetch_missing urlopen output locked host
          ≡ (ok outcome, after)
        → IsExported locked outcome
    unfolding export_crate
    export_crate-IsExported locked outcome host after h =
        lift-ok (get locked "source") _ host h
          λ source g h1. sourced-IsExported locked source outcome host after g h1

    -- An export that returns has an outcome for each package of the lock file, in order: it has no source, it is listed as
    -- missing, or it is packed with the digest of the lock file, from a registry and under a safe name; the report that is
    -- written is of these outcomes and of the archive, which holds what is packed and the lock file.
    pub export_crates-AreRounds :
        (pack : List (String × Bytes) → Bytes) (dumps : Json → Bytes) (lock_path : FilePath)
        (host after : Host W)
        → export_crates digest loads cached fetch_missing urlopen output pack dumps lock_path host
          ≡ (ok tt, after)
        → (lock : Bytes) × (document : Json) × (found : Json) × (locked : List Json)
          × (outcomes : List Outcome) × (host.files lock_path ≡ some lock)
          × (loads lock ≡ ok document)
          × (index document "package" ≡ ok found)
          × (elements found ≡ ok locked)
          × AreRounds IsExported locked outcomes
          × (after.files (output ++ ("dnfast-cargo-sources.json" ∷ []))
              ≡ some (dumps (report_json digest lock outcomes (pack (archive_of lock outcomes)))))
    unfolding export_crates
    export_crates-AreRounds pack dumps lock_path host after h =
        read-ok lock_path _ host h λ lock r h1. lift-ok (loads lock) _ host h1 λ document l h2.
          lift-ok (index document "package") _ host h2 λ found f h3.
            lift-ok (elements found) _ host h3 λ locked e h4.
              bind-ok
                (for_each (export_crate digest loads cached fetch_missing urlopen output) locked) _
                host h4
                λ outcomes between o h5.
                  let archive = pack (archive_of lock outcomes) in
                  let report = dumps (report_json digest lock outcomes archive) in
                  let place = output ++ ("dnfast-cargo-sources.json" ∷ []) in
                  then-ok
                    (publish (output ++ ("dnfast-cargo-sources.part" ∷ []))
                      (output ++ ("dnfast-cargo-sources.tar" ∷ [])) archive)
                    (write place report) between h5
                    λ last _ h6. (
                      lock,
                      document,
                      found,
                      locked,
                      outcomes,
                      r,
                      l,
                      f,
                      e,
                      for_each-AreRounds IsExported
                          (export_crate digest loads cached fetch_missing urlopen output)
                          export_crate-IsExported locked outcomes host between o,
                      ap (λ (p : Result (Unit {0}) × Host W). p.1.files place) (sym h6)
                          ∙ put-same place (some report) last.files,
                    )
