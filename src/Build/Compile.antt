-- ===== src/Build/Compile.antt =====
-- The second half of `main` of scripts/build-proot-candidate.py and scripts/build-proot-fchmodat2.py: compilers and linker.
use tiny_agent.Base.{
  FilePath, parts, is_absolute, ◌++◌, String, ◌<>◌, Bool, false, List, [], ◌∷◌, ◌&&◌, not,
  if◌then◌else◌, str_eq, occurs, take, Bytes, bytes_eq, Exception, process_error, runtime_error,
  assertion, Result, ok, err,
}
use tiny_agent.Host.{Host, Exec, ◌>>=◌, ◌>>◌, pure, lift, require, read, write, for_each, each}
use tiny_agent.Proot.Stage.{elf}
use tiny_agent.Build.{
  Arg, word, at, Config, Machine, ndk_program, source_file, work_file, common, links,
}
use tiny_agent.Build.Makefile.{object_names, are_distinct, are_complete, replace_object}

-- The features with the macros that stand for them.
abbrev pub features : List (String × String)
features =
    ("process_vm", "#define HAVE_PROCESS_VM")
    ∷ ("seccomp_filter", "#define HAVE_SECCOMP_FILTER")
    ∷ []

abbrev pub feature_error : String → Exception → Exception
feature_error name (process_error message) =
    runtime_error ("Expected Android feature check failed: " <> (name <> ("\n" <> message)))
feature_error name x = x

-- `try: ... except ... as error: raise ... from error`
abbrev pub rethrow :
    {W A : Type 0} → (Exception → Exception) → Result A × Host W → Result A × Host W
rethrow f (ok a, host) = (ok a, host)
rethrow f (err x, host) = (err (f x), host)

-- `'\n'.join(lines) + '\n'`
abbrev pub joined_lines : List String → String
joined_lines [] = "\n"
joined_lines (line ∷ []) = line <> "\n"
joined_lines (line ∷ next ∷ rest) = line <> ("\n" <> joined_lines (next ∷ rest))

-- `base / name`; a path that begins with "/" is not below the root.
abbrev pub join : FilePath → String → FilePath
join base name = if is_absolute name then "/" ∷ parts name else base ++ parts name

abbrev pub loader_parts : List String
loader_parts = "loader.c" ∷ "assembly.S" ∷ []

abbrev pub android : Arg
android = word "--target=aarch64-linux-android30"

abbrev pub loader_flags : List Arg
loader_flags =
    word "-static"
    ∷ word "-nostdlib"
    ∷ word
        "-Wl,--build-id=none,-Ttext=0x2000000000,--rosegment,-z,noexecstack,-z,max-page-size=16384"
    ∷ []

abbrev pub awk : FilePath
awk = "C:" ∷ "Program Files" ∷ "Git" ∷ "usr" ∷ "bin" ∷ "awk.exe" ∷ []

abbrev pub ashmem : String
ashmem = "extension/ashmem_memfd/ashmem_memfd.o"

-- The program needs the two libraries under these names, and no search path.
abbrev pub needs_libraries : String → Bool
needs_libraries dynamic = occurs "[libtalloc.so]" dynamic && occurs "[libandroid-shmem.so]" dynamic

abbrev pub needs_no_others : String → Bool
needs_no_others dynamic =
    not (occurs "libtalloc.so.2" dynamic)
    && (not (occurs "(RPATH)" dynamic) && not (occurs "(RUNPATH)" dynamic))

module _ {W : Type 0} (config : Config) (machine : Machine W) where
  abbrev pub loader : FilePath
  loader = work_file config ("libproot_loader.so" ∷ [])

  abbrev pub binary : FilePath
  binary = work_file config ("libproot.so" ∷ [])

  abbrev pub compiler : FilePath
  compiler = ndk_program machine.home "clang.exe"

  abbrev pub output_of : List Arg → Bytes → Exec W Bytes
  output_of argv input = machine.tool (record { argv = argv; cwd = config.work; input = input })

  abbrev pub perform : List Arg → Exec W (Unit {0})
  perform argv = output_of argv [] >>= λ _. pure tt

  abbrev pub compile : List Arg → FilePath → FilePath → Exec W (Unit {0})
  compile flags source object = perform (
      at compiler
      ∷ (common config ++ (flags ++ (word "-c" ∷ at source ∷ word "-o" ∷ at object ∷ []))))

  abbrev pub feature_argv : String → List Arg
  feature_argv name =
      at compiler
      ∷ (common config
          ++ (at (source_file config ((".check_" <> (name <> ".c")) ∷ []))
              ∷ (links ++ (word "-o" ∷ at (work_file config (("check-" <> name) ∷ [])) ∷ []))))

  abbrev pub check_feature : String × String → Exec W String
  check_feature (name, macro) host =
      rethrow (feature_error name) ((perform (feature_argv name) >> pure macro) host)

  abbrev pub compile_loader_part : String → Exec W Arg
  compile_loader_part name =
      let object = work_file config ((name <> ".o") ∷ []) in
      compile (word "-fPIC" ∷ word "-ffreestanding" ∷ [])
        (source_file config ("loader" ∷ name ∷ [])) object
      >> pure (at object)

  -- The loader, and the file that is made of its symbols.
  unfoldable pub build_loader : Exec W (Unit {0})
  unfolding for_each
  build_loader = for_each compile_loader_part loader_parts >>= λ objects.
      perform (at compiler ∷ android ∷ (objects ++ (loader_flags ++ (word "-o" ∷ at loader ∷ []))))
      >> (output_of (at (ndk_program machine.home "llvm-readelf.exe") ∷ word "-s" ∷ at loader ∷ [])
            []
          >>= λ symbols.
              output_of
                (at awk
                  ∷ word "-f"
                  ∷ at (source_file config ("loader" ∷ "loader-info.awk" ∷ []))
                  ∷ [])
                symbols
              >>= write (source_file config ("loader" ∷ "loader-info.c" ∷ [])))

  -- Upstream leaves out a header of one file.
  abbrev pub extra_flags : String → List Arg
  extra_flags name = if str_eq name ashmem then word "-include" ∷ word "string.h" ∷ [] else []

  abbrev pub compile_object : String → Exec W Arg
  compile_object name =
      let object = join (work_file config ("objects" ∷ [])) name in
      compile (extra_flags name) (join (source_file config []) (replace_object false name)) object
      >> pure (at object)

  abbrev pub link_argv : List Arg → List Arg
  link_argv objects = at compiler ∷ android ∷ (objects ++ (links ++ (word "-o" ∷ at binary ∷ [])))

  -- The names of the objects, each of which is compiled, and the program.
  unfoldable pub build_program : Exec W (List String)
  unfolding for_each object_names are_distinct replace_object
  build_program = read (source_file config ("GNUmakefile" ∷ [])) >>= λ content.
      lift (machine.read_text content) >>= λ makefile.
      lift (object_names machine.is_letter makefile) >>= λ names.
      require (are_complete names) (assertion "")
      >> (for_each compile_object names >>= λ objects. perform (link_argv objects) >> pure names)

  abbrev pub strip_output : FilePath → Exec W (Unit {0})
  strip_output path =
      perform (at (ndk_program machine.home "llvm-strip.exe") ∷ at path ∷ [])
      >> (read path >>= λ content. require (bytes_eq (take 4 content) elf) (assertion ""))

  abbrev pub dynamic_argv : List Arg
  dynamic_argv = at (ndk_program machine.home "llvm-readelf.exe") ∷ word "-d" ∷ at binary ∷ []

  -- What the program asks for when it is loaded.
  abbrev pub check_dynamic : Exec W (Unit {0})
  check_dynamic = output_of dynamic_argv [] >>= λ printed.
      lift (machine.decode printed) >>= λ dynamic.
      require (needs_libraries dynamic) (assertion "")
      >> require (needs_no_others dynamic) (assertion "")

  unfoldable pub check_outputs : Exec W (Unit {0})
  unfolding each bytes_eq
  check_outputs = each strip_output (binary ∷ loader ∷ []) >> check_dynamic

  -- The loader, the program, and the checks of both.
  abbrev pub build_outputs : List String → Exec W (List String × List String)
  build_outputs macros =
      build_loader >> (build_program >>= λ names. check_outputs >> pure (macros, names))

  abbrev pub compile_with : List String → Exec W (List String × List String)
  compile_with macros =
      write (source_file config ("build.h" ∷ [])) (machine.encode (joined_lines macros))
      >> build_outputs macros

  -- The macros of the features, and the names of the objects.
  unfoldable pub compile_all : Exec W (List String × List String)
  unfolding for_each build_loader build_program check_outputs
  compile_all = for_each check_feature features >>= compile_with
