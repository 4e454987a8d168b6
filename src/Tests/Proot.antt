-- ===== src/Tests/Proot.antt =====
-- A staging of scripts/stage-proot.py with one small archive as each package.
use tiny_agent.Base.{
  path_eq, contains, codes, ℕ, ◌≡◌, refl, String, true, none, some, List, [], ◌∷◌, ◌++◌,
  if◌then◌else◌, ◌==◌, Bytes, Result, ok, err, assertion, value_error,
}
use tiny_agent.Json.{Json, text, array, value, no_values, object, field, no_fields}
use tiny_agent.Host.{Files, Host, put}
use tiny_agent.Sources.Notices.{Entry}
use tiny_agent.Proot.Archive.{done, failed, member, ar_members}
use tiny_agent.Proot.Layout.{IsLaidOut, ar_members-IsLaidOut}
use tiny_agent.Proot.Rename.{rename_library, old_name, new_name}
use tiny_agent.Proot.Stage.{Outputs, elf, stage_proot}

abbrev digest : Bytes → String
digest content = "d"

abbrev header : String → Bytes
header size =
    codes "data.tar.xz/    "
    ++ (codes "0           0     0     644     " ++ (codes size ++ codes "`\n"))

abbrev archive : Bytes
archive = codes "!<arch>\n" ++ (header "2         " ++ (7 ∷ 8 ∷ []))

abbrev decode : Bytes → Result String
decode content = ok "data.tar.xz/    "

reads : ar_members decode archive ≡ member "data.tar.xz" (7 ∷ 8 ∷ []) done
unfolding ar_members
reads = refl

-- A size that is larger than what is left.
rejects :
    ar_members decode (codes "!<arch>\n" ++ (header "3         " ++ (7 ∷ 8 ∷ [])))
    ≡ failed (assertion "")
unfolding ar_members
rejects = refl

ar_members-IsLaidOut_example : IsLaidOut decode archive 8 (ar_members decode archive)
ar_members-IsLaidOut_example = ar_members-IsLaidOut decode archive

renames : rename_library (1 ∷ (old_name ++ (2 ∷ []))) ≡ 1 ∷ (new_name ++ (2 ∷ []))
unfolding rename_library
renames = refl

abbrev urlopen : String → ℕ → Unit {0} → Result Bytes × Unit {0}
urlopen url most world = (ok archive, world)

abbrev entry : String → Entry
entry name = record { name = name; is_file = true; size = 9; content = ok (elf ++ (5 ∷ [])) }

abbrev untar : Bytes → Result (List Entry)
untar [] = err (value_error "")
untar (x ∷ xs) =
    if x == 9
    then ok (entry "libproot.so" ∷ entry "libproot_loader.so" ∷ [])
    else ok (
        entry "usr/bin/proot"
        ∷ entry "usr/libexec/proot/loader"
        ∷ entry "usr/lib/libtalloc.so.2.4"
        ∷ entry "usr/lib/libandroid-shmem.so"
        ∷ entry "usr/share/doc"
        ∷ [])

abbrev described : String → Json
described name = object (
    field "Package" (text name) (
      field "Version" (text "1")
        (field "Filename" (text "pool/p.deb") (field "SHA256" (text "d") no_fields))))

abbrev two_outputs : Json
two_outputs =
    object (field "libproot.so" (text "d") (field "libproot_loader.so" (text "d") no_fields))

abbrev pinned : Json
pinned = object (
    field "packages"
      (array (
        value (described "proot")
          (value (described "libtalloc") (value (described "libandroid-shmem") no_values))))
      (field "output_sha256"
        (object (
          field "libtalloc.so" (text "d") (
            field "libandroid-shmem.so" (text "d")
              (field "libproot.so" (text "d") (field "libproot_loader.so" (text "d") no_fields)))))
        no_fields))

abbrev candidate : Json
candidate = object (
    field "archive" (text "proot-fchmodat2-2.tar.gz") (
      field "archive_sha256" (text "d") (
        field "patch_sha256" (text "d") (
          field "fchmodat2_patch_sha256" (text "d") (
            field "outputs" two_outputs (
              field "dependencies" (object (field "libtalloc.so" (text "d") no_fields))
                no_fields))))))

abbrev loads : Bytes → Result Json
loads [] = err (value_error "")
loads (x ∷ xs) = if x == 1 then ok pinned else ok candidate

abbrev files : Files
files = put ("evidence" ∷ "proot-staging.json" ∷ []) (some (1 ∷ [])) (
    put ("runtime" ∷ "proot-fchmodat2-2.json" ∷ []) (some (2 ∷ [])) (
      put ("runtime" ∷ "proot-fchmodat2-2.tar.gz" ∷ []) (some (9 ∷ [])) (
        put ("patches" ∷ "proot-exitkill.patch" ∷ []) (some (3 ∷ []))
          (put ("patches" ∷ "proot-fchmodat2.patch" ∷ []) (some (3 ∷ [])) (λ path. none)))))

abbrev staged : Result Outputs × Host (Unit {0})
staged = stage_proot digest urlopen decode untar loads (record { files = files; world = tt })

abbrev outputs : Outputs
outputs =
    ("libproot.so", "d")
    ∷ ("libproot_loader.so", "d")
    ∷ ("libtalloc.so", "d")
    ∷ ("libandroid-shmem.so", "d")
    ∷ []

stages : staged.0 ≡ ok outputs
unfolding stage_proot path_eq contains
stages = refl
