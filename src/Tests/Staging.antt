-- ===== src/Tests/Staging.antt =====
-- The stagings of scripts/stage-dnfast-runtime.py and scripts/stage-runtime-assets.py on small inputs.
use tiny_agent.Base.{
  FilePath, path_eq, contains, ◌≡◌, refl, String, true, false, Option, none, some, List, [], ◌∷◌,
  All, ◌==◌, if◌then◌else◌, str_eq, Bytes, Result, ok, err, value_error, key_error,
}
use tiny_agent.Json.{Json, text, object, no_fields, field}
use tiny_agent.Host.{Host}
use tiny_agent.Packaged.Pins.{fedora, opencode, pins}
use tiny_agent.Staging.{TapeMember, Installed, asset}
use tiny_agent.Staging.Overlay.{manifest_digest}
use tiny_agent.Staging.Run.{manifest_path, archive_path, stage_overlay, stage_assets}
use tiny_agent.Staging.OverlayStaged.{IsStaged, stage_overlay-IsStaged}
use tiny_agent.Staging.AssetsStaged.{IsAsset, stage_assets-All}

abbrev digest : Bytes → String
digest [] = "none"
digest (x ∷ xs) =
    if x == 1
    then manifest_digest
    else if x == 2
    then "two"
    else if x == 3
    then fedora.1
    else if x == 4
    then opencode.1
    else "other"

abbrev document : Json
document = object (
    field "overlay_sha256" (text "two")
      (field "files" (object (field "usr/bin/dnf" (text "other") no_fields)) no_fields))

abbrev loads : Bytes → Result Json
loads content = ok document

abbrev members : List TapeMember
members =
    record { name = "usr/bin"; is_file = false; is_dir = true; content = err (key_error "usr/bin") }
    ∷ record { name = "usr/bin/dnf"; is_file = true; is_dir = false; content = ok (9 ∷ []) }
    ∷ []

abbrev untar : Bytes → Result (List TapeMember)
untar content = ok members

-- The runtime directory, and the directory of the artifacts.
abbrev files : FilePath → Option Bytes
files path =
    if path_eq path manifest_path
    then some (1 ∷ [])
    else if path_eq path archive_path
    then some (2 ∷ [])
    else if path_eq path ("artifacts" ∷ fedora.0 ∷ [])
    then some (3 ∷ [])
    else none

abbrev start : Host (Unit {0})
start = record { files = files; world = tt }

abbrev overlaid : Result (Unit {0}) × Host (Unit {0})
overlaid = stage_overlay digest loads untar none start

stage_overlay-IsStaged_example : IsStaged digest loads untar overlaid.1
unfolding stage_overlay path_eq contains
stage_overlay-IsStaged_example =
    stage_overlay-IsStaged digest loads untar none start overlaid.1 refl

-- Nothing is staged of a manifest with another digest.
refuses :
    stage_overlay (λ content. "other") loads untar none start
    ≡ (err (value_error "dnfast manifest hash mismatch"), start)
unfolding stage_overlay path_eq
refuses = refl

-- The runtime from the installed package.
abbrev installed : Installed
installed = record {
  size = λ name. ok 1;
  read = λ name. err (key_error name);
  copy = λ name.
      ok (if str_eq name "assets/opencode-linux-arm64.tar.gz.bin" then 4 ∷ [] else 3 ∷ [], ok tt);
}

abbrev staged : Result (List (Unit {0})) × Host (Unit {0})
staged = stage_assets digest (some installed) ("artifacts" ∷ []) none start

stage_assets-All_example : All (λ pin. IsAsset digest pin staged.1) pins
unfolding stage_assets path_eq
stage_assets-All_example =
    stage_assets-All digest (some installed) ("artifacts" ∷ []) none (tt ∷ tt ∷ []) start staged.1
      refl

-- The archive of the runtime is missing among the artifacts.
stops :
    (stage_assets digest none ("artifacts" ∷ []) none start).1.files
      (asset "opencode-linux-arm64.tar.gz.bin")
    ≡ none
unfolding stage_assets path_eq
stops = refl
