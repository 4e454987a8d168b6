-- ===== src/Crates/Run.antt =====
-- The program of scripts/collect-dnfast-cargo-sources.py
use tiny_agent.Base.{
  FilePath, ◌++◌, String, ◌<>◌, Bool, true, false, ◌&&◌, List, [], ◌∷◌, starts_with, length, Bytes,
  Result, value_error, if◌then◌else◌,
}
use tiny_agent.Json.{Json, null, text, index, get, elements, json_eq}
use tiny_agent.Host.{Exec, ◌>>=◌, ◌>>◌, pure, lift, require, read, exists, write, call, for_each}
use tiny_agent.Staging.{publish}
use tiny_agent.Crates.{
  registry, is_crate_file, identity_of, crate_file, as_source, Outcome, skipped, missing, packed,
  archive_of, report_json, check_crate, check_download,
}

-- The digest, the reader of the lock file, the crates of a name in the cache that are files and no links, whether missing ones
-- are fetched, the network, and the directory of the output.
module _ (digest : Bytes → String) (loads : Bytes → Result Json) (cached : String → List FilePath)
    (fetch_missing : Bool) {W : Type 0} (urlopen : String → W → Result Bytes × W)
    (output : FilePath) where
  abbrev pub transfer : String → String → FilePath → Bool → Exec W Bytes
  transfer name file target true = read target
  transfer name file target false =
      call (urlopen ("https://static.crates.io/crates/" <> (name <> ("/" <> file))))

  abbrev pub download : Json → String → String → FilePath → Exec W (List FilePath)
  download locked name file target = exists target >>= transfer name file target >>= λ content.
      lift (check_download digest locked file content) >> write target content >> pure (target ∷ [])

  abbrev pub candidates : Json → Json → String → String → List FilePath → Exec W (List FilePath)
  candidates locked source name file (path ∷ paths) = pure (path ∷ paths)
  candidates locked source name file [] =
      if fetch_missing && json_eq source (text registry)
      then download locked name file (output ++ (file ∷ []))
      else pure []

  -- A crate that is there is packed.
  abbrev pub pack_crate : Json → String × String → String → FilePath → Exec W Outcome
  pack_crate locked identity source path = read path >>= λ content.
      lift (
        check_crate digest locked
          ("Cached source checksum mismatch: " <> crate_file identity.0 identity.1) content)
      >> pure (
          packed
            (record {
              name = identity.0;
              version = identity.1;
              source = source;
              sha256 = digest content;
              bytes = length content;
            })
            content)

  abbrev pub settle : Json → String × String → Json → String → List FilePath → Exec W Outcome
  settle locked identity source address [] =
      pure (missing (crate_file identity.0 identity.1) source)
  settle locked identity source address (path ∷ paths) =
      if starts_with address "registry+"
      then pack_crate locked identity address path
      else pure (missing (crate_file identity.0 identity.1) source)

  -- A package that has a source.
  abbrev pub export_located : Json → Json → Exec W Outcome
  export_located locked source = lift (identity_of locked) >>= λ identity.
      require (is_crate_file (crate_file identity.0 identity.1))
        (value_error "Unexpected crate filename")
      >> (candidates locked source identity.0 (crate_file identity.0 identity.1)
            (cached (crate_file identity.0 identity.1))
          >>= λ paths.
              lift (as_source source) >>= λ address. settle locked identity source address paths)

  abbrev pub export_sourced : Json → Json → Exec W Outcome
  export_sourced locked null = pure skipped
  export_sourced locked source = export_located locked source

  -- One round of the loop over the packages.
  unfoldable pub export_crate : Json → Exec W Outcome
  unfolding get identity_of is_crate_file check_crate check_download json_eq
  export_crate locked = lift (get locked "source") >>= export_sourced locked

  unfoldable pub export_crates :
      (List (String × Bytes) → Bytes) → (Json → Bytes) → FilePath → Exec W (Unit {0})
  unfolding index elements for_each export_crate archive_of publish report_json
  export_crates pack dumps lock_path = read lock_path >>= λ lock. lift (loads lock) >>= λ document.
      lift (index document "package") >>= λ found. lift (elements found) >>= λ locked.
      for_each export_crate locked >>= λ outcomes.
      publish (output ++ ("dnfast-cargo-sources.part" ∷ []))
        (output ++ ("dnfast-cargo-sources.tar" ∷ [])) (pack (archive_of lock outcomes))
      >> write (output ++ ("dnfast-cargo-sources.json" ∷ []))
          (dumps (report_json digest lock outcomes (pack (archive_of lock outcomes))))
