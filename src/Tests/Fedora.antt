-- ===== src/Tests/Fedora.antt =====
-- scripts/prepare-fedora.py on a small image, and on archives that it refuses.
use tiny_agent.Base.{
  ◌≡◌, refl, String, ◌<>◌, List, [], ◌∷◌, if◌then◌else◌, ◌==◌, str_eq, Bytes, Result, ok, err,
  key_error, value_error,
}
use tiny_agent.Json.{Json, natural, text, array, object, value, no_values, field, no_fields}
use tiny_agent.Fedora.{Member, regular, directory, symlink, hardlink, safe_members}
use tiny_agent.Fedora.Safe.{IsSafe, safe_members-IsSafe}
use tiny_agent.Fedora.Image.{Report, stage}
use tiny_agent.Fedora.Staged.{IsStaged, stage-IsStaged}

abbrev member : String → List Member → List Member
member name rest = record { name = name; kind = regular } ∷ rest

abbrev members : List Member
members =
    record { name = "./usr/"; kind = directory }
    ∷ record { name = "usr/bin"; kind = directory }
    ∷ record { name = "usr/bin/bash"; kind = regular }
    ∷ record { name = "bin"; kind = symlink "usr/bin" }
    ∷ record { name = "usr/bin/sh"; kind = hardlink "usr/bin/bash" }
    ∷ []

accepts : safe_members members ≡ ok tt
unfolding safe_members
accepts = refl

safe_members-IsSafe_example : IsSafe members
safe_members-IsSafe_example = safe_members-IsSafe members accepts

-- A file behind a symbolic link out of the root.
refuses_link :
    safe_members (record { name = "usr"; kind = symlink "/outside" } ∷ member "usr/bin/bash" [])
    ≡ err (value_error "Archive writes through a non-directory ancestor")
unfolding safe_members
refuses_link = refl

refuses_parent :
    safe_members (member "../outside" []) ≡ err (value_error "Unsafe archive member path")
unfolding safe_members
refuses_parent = refl

-- 64 times the same letter.
abbrev long : String → String
long s =
    let eight = s <> s <> s <> s <> s <> s <> s <> s in
    eight <> eight <> eight <> eight <> eight <> eight <> eight <> eight

abbrev digest : Bytes → String
digest [] = "empty"
digest (x ∷ xs) =
    if x == 1 then long "a" else if x == 2 then long "b" else if x == 3 then long "c" else "other"

abbrev extract : Bytes → String → Result Bytes
extract image name =
    if str_eq name "index.json"
    then ok (5 ∷ [])
    else if str_eq name ("blobs/sha256/" <> long "a")
    then ok (1 ∷ [])
    else if str_eq name ("blobs/sha256/" <> long "b")
    then ok (2 ∷ [])
    else if str_eq name ("blobs/sha256/" <> long "c")
    then ok (3 ∷ [])
    else err (key_error name)

abbrev descriptor : String → Json
descriptor letter = object (
    field "digest" (text ("sha256:" <> long letter)) (
      field "size" (natural 1)
        (field "mediaType" (text "application/vnd.oci.image.layer.v1.tar+gzip") no_fields)))

abbrev one : Json → Json
one v = array (value v no_values)

abbrev loads : Bytes → Result Json
loads [] = err (value_error "Expecting value")
loads (x ∷ xs) = ok (
    if x == 5
    then object (field "manifests" (one (descriptor "a")) no_fields)
    else if x == 1
    then object (field "config" (descriptor "b") (field "layers" (one (descriptor "c")) no_fields))
    else object (
        field "architecture" (text "arm64") (
          field "os" (text "linux") (
            field "rootfs" (object (field "diff_ids" (one (text "sha256:other")) no_fields))
              no_fields))))

abbrev decompress : Bytes → Result Bytes
decompress content = ok (4 ∷ 4 ∷ [])

abbrev getmembers : Bytes → Result (List Member)
getmembers raw = ok members

abbrev report : Report
report = record {
  source_sha256 = "other";
  layer_sha256 = text ("sha256:" <> long "c");
  diff_id = text "sha256:other";
  members = 5;
  rootfs_bytes = 2;
}

stages : stage digest extract loads decompress getmembers "other" (9 ∷ []) ≡ ok (3 ∷ [], report)
unfolding stage
stages = refl

stage-IsStaged_example :
    IsStaged digest extract loads decompress getmembers "other" (9 ∷ []) (3 ∷ []) report
stage-IsStaged_example =
    stage-IsStaged digest extract loads decompress getmembers "other" (9 ∷ []) (3 ∷ []) report
      stages
