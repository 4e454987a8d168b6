-- ===== src/Staging/Run.antt =====
-- The programs of scripts/stage-dnfast-runtime.py and scripts/stage-runtime-assets.py
use tiny_agent.Base.{
  FilePath, ◌++◌, ◌*◌, String, ◌<>◌, Option, none, some, List, [], ◌∷◌, leb, str_eq, if◌then◌else◌,
  Bytes, Result, ok, value_error,
}
use tiny_agent.Json.{Json}
use tiny_agent.Host.{Exec, ◌>>=◌, ◌>>◌, pure, lift, require, read, write, replace, put, for_each}
use tiny_agent.Packaged.Pins.{pins}
use tiny_agent.Staging.{TapeMember, Installed, asset, publish}
use tiny_agent.Staging.Overlay.{manifest_digest, read_installed, check_overlay}

abbrev pub manifest_path : FilePath
manifest_path = "runtime" ∷ "dnfast-1449710-manifest.json" ∷ []

abbrev pub archive_path : FilePath
archive_path = "runtime" ∷ "dnfast-1449710-root-overlay.tar.gz" ∷ []

abbrev pub publish_asset : {W : Type 0} → String → Bytes → Exec W (Unit {0})
publish_asset name content = publish (asset (name <> ".part")) (asset name) content

abbrev pub read_inputs : {W : Type 0} → Option Installed → Exec W (Bytes × Bytes)
read_inputs (some installed) = lift (read_installed installed)
read_inputs none =
    read manifest_path >>= λ manifest. read archive_path >>= λ archive. pure (manifest, archive)

module _ (digest : Bytes → String) (loads : Bytes → Result Json)
    (untar : Bytes → Result (List TapeMember)) {W : Type 0} where
  unfoldable pub stage_overlay : Option Installed → Exec W (Unit {0})
  unfolding read_installed check_overlay publish
  stage_overlay installed = read_inputs installed >>= λ inputs.
      require (str_eq (digest inputs.0) manifest_digest)
        (value_error "dnfast manifest hash mismatch")
      >> (lift (loads inputs.0) >>= λ document.
          lift (check_overlay digest untar document inputs.1)
          >> publish_asset "dnfast-root-overlay.tar.gz.bin" inputs.1
          >> publish_asset "dnfast-manifest.json" inputs.0)

-- `path.unlink(missing_ok=True)`
abbrev pub unlink : {W : Type 0} → FilePath → Exec W (Unit {0})
unlink path host = (ok tt, record host { files = put path none host.files })

abbrev pub partial_of : String → FilePath
partial_of name = asset (name <> ".bin.part")

-- The directory of the artifacts, or the archive that is given for the runtime.
abbrev pub source_of : FilePath → Option FilePath → String → FilePath
source_of artifacts none name = artifacts ++ (name ∷ [])
source_of artifacts (some archive) name =
    if str_eq name "opencode-linux-arm64.tar.gz" then archive else artifacts ++ (name ∷ [])

abbrev pub copy_input :
    {W : Type 0} → Option Installed → FilePath → Option FilePath → String → Exec W (Unit {0})
copy_input (some installed) artifacts archive name =
    lift (installed.size ("assets/" <> (name <> ".bin"))) >>= λ size.
    require (leb size (256 * 1024 * 1024)) (value_error ("Oversized runtime asset: " <> name))
    >> (lift (installed.copy ("assets/" <> (name <> ".bin"))) >>= λ copied.
        write (partial_of name) copied.0 >> lift copied.1)
copy_input none artifacts archive name =
    read (source_of artifacts archive name) >>= λ content. write (partial_of name) content

module _ (digest : Bytes → String) {W : Type 0} where
  unfoldable pub stage_asset :
      Option Installed → FilePath → Option FilePath → String × String → Exec W (Unit {0})
  stage_asset installed artifacts archive (name, expected) =
      copy_input installed artifacts archive name
      >> (read (partial_of name) >>= λ content.
          require (str_eq (digest content) expected)
            (value_error ("Runtime archive digest mismatch: " <> name))
          >> replace (partial_of name) (asset (name <> ".bin"))
          >> unlink (asset name))

  -- Both archives, in the order of their pins.
  unfoldable pub stage_assets :
      Option Installed → FilePath → Option FilePath → Exec W (List (Unit {0}))
  unfolding for_each stage_asset
  stage_assets installed artifacts archive = for_each (stage_asset installed artifacts archive) pins
