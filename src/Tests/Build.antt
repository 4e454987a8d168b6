-- ===== src/Tests/Build.antt =====
-- A build of scripts/build-proot-fchmodat2.py with programs that write what they are told to.
use tiny_agent.Base.{
  FilePath, path_eq, contains, ◌≡◌, refl, ℕ, zero, suc, decimal, String, ◌<>◌, true, false, some,
  [], ◌∷◌, ◌==◌, if◌then◌else◌, codes, Bytes, Result, ok, err, index_error, bytes_eq,
}
use tiny_agent.Json.{Json, text, object, no_fields, field}
use tiny_agent.Host.{Host, Files, Exec, ◌>>◌, pure, write}
use tiny_agent.Checkout.{native_sources}
use tiny_agent.Build.{Command, Machine, fchmodat2, header_file, work_file}
use tiny_agent.Build.Makefile.{run_of, find_objects, object_names, replace_object}
use tiny_agent.Build.Prepare.{source_archive, source_digest}
use tiny_agent.Build.Run.{build}

-- Runs of the search.
finds :
    find_objects (λ c. false) (run_of "") " cli/cli.o \\\n tracee/reg.o x.c"
    ≡ "cli/cli.o" ∷ "tracee/reg.o" ∷ []
unfolding find_objects
finds = refl

finds_late : find_objects (λ c. false) (run_of "") "a.b.obj" ≡ "b.o" ∷ []
unfolding find_objects
finds_late = refl

replaces : replace_object false "tracee/reg.o" ≡ "tracee/reg.c"
unfolding replace_object
replaces = refl

fails : object_names (λ c. false) "all: x.o" ≡ err (index_error "list index out of range")
unfolding object_names
fails = refl

-- Sixty-one objects.
abbrev names_below : ℕ → String
names_below zero = ""
names_below (suc n) = "x" <> (decimal n <> (".o " <> names_below n))

abbrev makefile : String
makefile = "OBJECTS += " <> (names_below 60 <> "\ndefine define_from_arch.h")

abbrev digest : Bytes → String
digest [] = "none"
digest (x ∷ xs) =
    if x == 1
    then source_digest
    else if x == 2
    then "dc46c40b9f46bb34dd97fe41f548b0e8b247b77a918576733c528e83abd854dd"
    else if x == 3
    then "1e5ff8459bc0a8c229dd8a94b27d119987e09ef3414331c2b5ebfff20b98e867"
    else "other"

abbrev pins : Json
pins = object (
    field "output_sha256"
      (object (
        field "libtalloc.so" (text "other") (field "libandroid-shmem.so" (text "other") no_fields)))
      no_fields)

-- The programs leave a trace in the directory of the build.
abbrev trace : FilePath
trace = work_file fchmodat2 ("trace" ∷ [])

abbrev printed : Bytes
printed = 8 ∷ []

abbrev run_tool : Command → Exec (Unit {0}) Bytes
run_tool command = write trace (9 ∷ []) >> pure printed

abbrev machine : Machine (Unit {0})
machine = record {
  home = "home" ∷ [];
  tool = run_tool;
  digest = digest;
  unzip = λ content. ok (
      record { name = "proot-5.1.107.92/README"; is_file = true; size = 1; content = ok (5 ∷ []) }
      ∷ []);
  untar = λ content. ok (
      record { name = "talloc-2.4.3/talloc.h"; is_file = true; size = 1; content = ok (6 ∷ []) }
      ∷ []);
  loads = λ content. ok pins;
  dumps = λ report. 10 ∷ [];
  encode = codes;
  read_text = λ content. ok makefile;
  decode = λ printed. ok "NEEDED [libtalloc.so] NEEDED [libandroid-shmem.so]";
  is_letter = λ c. false;
}

-- Every other file is a program for Linux.
abbrev files : Files
files path =
    if path_eq path source_archive
    then some (1 ∷ [])
    else if path_eq path (native_sources "talloc-2.4.3.tar.gz")
    then some (2 ∷ [])
    else if path_eq path (native_sources "libandroid-shmem-0.7.tar.gz")
    then some (3 ∷ [])
    else some (0x7f ∷ codes "ELF")

abbrev start : Host (Unit {0})
start = record { files = files; world = tt }

abbrev built : Result (Unit {0}) × Host (Unit {0})
built = build fchmodat2 machine start

-- The header and the report are there.
writes_header : built.1.files (header_file fchmodat2 ("talloc.h" ∷ [])) ≡ some (6 ∷ [])
unfolding build path_eq contains bytes_eq
writes_header = refl
