-- ===== src/Tests/Packaged.antt =====
-- A small release package that passes scripts/check-packaged-runtime.py
use tiny_agent.Base.{
  String, ◌≡◌, refl, [], ◌∷◌, if◌then◌else◌, ◌==◌, str_eq, Bytes, Result, ok, err, value_error,
  assertion,
}
use tiny_agent.Json.{Json, no_values, value, array, text, object, field, no_fields}
use tiny_agent.Packaged.{Build, Package}
use tiny_agent.Packaged.Native.{release}
use tiny_agent.Packaged.Check.{check}
use tiny_agent.Packaged.Verified.{IsPackaged, check-IsPackaged}

abbrev digest : Bytes → String
digest [] = "none"
digest (x ∷ xs) =
    if x == 7
    then "3a3661a77d5fdb1e4bd10be484142683630c1ffb4c371931d46a42459fd4c125"
    else if x == 8
    then "b877f7baa8d60611b9a638209c84868e5dea9139c8dec622943d25f29c07f205"
    else "d"

abbrev notice : Json
notice = object (
    field "member" (text "m") (
      field "file" (text "f")
        (field "sha256" (text "d") (field "source_rpm" (text "s.src.rpm") no_fields))))

abbrev one : Json → Json
one v = array (value v no_values)

-- A package with its own notice, and one that only its source covers.
abbrev noted : Json
noted = object (
    field "package" (text "p")
      (field "missing" (array no_values) (field "notices" (one notice) no_fields)))

abbrev bare : Json
bare = object (
    field "package" (text "q") (
      field "missing" (array no_values)
        (field "notices" (array no_values) (field "source_rpm" (text "s.src.rpm") no_fields))))

abbrev hashes : Json
hashes = object (field "libproot.so" (text "d") no_fields)

abbrev document : Json
document = object (
    field "notice" (text "n") (
      field "notice_sha256" (text "d") (
        field "archive_sha256" (text "d") (
          field "packages" (array (value noted (value bare no_values))) (
            field "output_sha256" hashes (
              field "outputs" hashes (
                field "overlay_sha256" (text "d")
                  (field "sources" (one noted) (field "additional_license" notice no_fields)))))))))

abbrev web : Json
web = object (
    field "version" (text "1.18.29") (
      field "files" (object (field "/index.html" (text "text/html") no_fields)) (
        field "sha256" (object (field "/index.html" (text "d") no_fields)) (
          field "csp" (text "script-src 'self' 'wasm-unsafe-eval' 'sha256-x'; connect-src 'self'")
            no_fields))))

abbrev member : String → Bytes
member name =
    if str_eq name "assets/fedora-44-arm64-rootfs.tar.gz.bin"
    then 7 ∷ []
    else if str_eq name "assets/opencode-linux-arm64.tar.gz.bin"
    then 8 ∷ []
    else if str_eq name "assets/web-ui-manifest.json"
    then 1 ∷ []
    else 0 ∷ []

abbrev archive : Package
archive = record {
  size = 100;
  compressed = 40 ∷ 50 ∷ [];
  names = "lib/arm64-v8a/libproot.so" ∷ [];
  read = λ name. ok (member name);
}

abbrev loads : Bytes → Result Json
loads [] = err (value_error "")
loads (x ∷ xs) = if x == 2 then ok (one notice) else if x == 1 then ok web else ok document

abbrev build : Build
build = record {
  archive = archive;
  read_root =
      λ name. ok (if str_eq name "runtime/dnfast-source-notices.json" then 2 ∷ [] else 0 ∷ []);
  digest = digest;
  loads = loads;
}

passes : check build release ≡ ok tt
unfolding check
passes = refl

check-IsPackaged_example : IsPackaged build release
check-IsPackaged_example = check-IsPackaged build release passes

-- A package with a program for debugging is no release.
abbrev probing : Build
probing = record build { archive = record archive { names = "lib/arm64-v8a/libfdgate.so" ∷ [] } }

rejects : check probing release ≡ err (assertion "Debug-only executable in release")
unfolding check
rejects = refl
