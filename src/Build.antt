-- ===== src/Build.antt =====
-- scripts/build-proot-candidate.py and scripts/build-proot-fchmodat2.py: one build with two sets of patches.
pub mod Makefile
pub mod Prepare
pub mod Compile
pub mod Report
pub mod Run
pub mod Confined
pub mod Kept
pub mod Described
pub mod Built
pub mod Inputs
use tiny_agent.Base.{FilePath, ◌++◌, ℕ, String, ◌<>◌, Bool, List, [], ◌∷◌, Bytes, Result}
use tiny_agent.Json.{Json}
use tiny_agent.Host.{Exec}
use tiny_agent.Sources.Notices.{Entry}

-- An argument of a command: a word, a path, or a path behind a prefix.
pub data Arg : Type 0 where
  word : String → Arg
  at : FilePath → Arg
  prefixed : String → FilePath → Arg

pub record Command : Type 0 where
  pub argv : List Arg
  pub cwd : FilePath
  pub input : Bytes

-- What a build differs in: its directory, its patches with the fields of their digests in the
-- report, the version, and the script.
pub record Config : Type 0 where
  pub work : FilePath
  pub patches : List (String × String)
  pub version : String
  pub script : String

abbrev pub candidate : Config
candidate = record {
  work = ".checks" ∷ "proot-exitkill-build" ∷ [];
  patches = ("patch_sha256", "proot-exitkill.patch") ∷ [];
  version = "5.1.107.92-tinyagent.1";
  script = "build-proot-candidate.py";
}

abbrev pub fchmodat2 : Config
fchmodat2 = record {
  work = ".checks" ∷ "proot-fchmodat2-build" ∷ [];
  patches =
      ("patch_sha256", "proot-exitkill.patch")
      ∷ ("fchmodat2_patch_sha256", "proot-fchmodat2.patch")
      ∷ [];
  version = "5.1.107.92-tinyagent.2";
  script = "build-proot-fchmodat2.py";
}

-- The machine: the home directory, the programs that are run, and Python's readers and writers. `is_letter`
-- says which code points beyond ASCII a regular expression takes for a letter or a digit.
pub record Machine (W : Type 0) : Type 0 where
  pub home : FilePath
  pub tool : Command → Exec W Bytes
  pub digest : Bytes → String
  pub unzip : Bytes → Result (List Entry)
  pub untar : Bytes → Result (List Entry)
  pub loads : Bytes → Result Json
  pub dumps : Json → Bytes
  pub encode : String → Bytes
  pub read_text : Bytes → Result String
  pub decode : Bytes → Result String
  pub is_letter : ℕ → Bool

abbrev pub ndk_version : String
ndk_version = "28.0.13004108"

-- A program of the NDK, below the home directory.
abbrev pub ndk_program : FilePath → String → FilePath
ndk_program home name =
    home
    ++ ("AppData" ∷ "Local" ∷ "Android" ∷ "Sdk" ∷ "ndk" ∷ ndk_version ∷ "toolchains" ∷ "llvm"
        ∷ "prebuilt" ∷ "windows-x86_64" ∷ "bin" ∷ name ∷ [])

module _ (config : Config) where
  abbrev pub source_root : FilePath
  source_root = config.work ++ ("proot-5.1.107.92" ∷ [])

  abbrev pub source_file : FilePath → FilePath
  source_file path = config.work ++ ("proot-5.1.107.92" ∷ "src" ∷ path)

  abbrev pub header_file : FilePath → FilePath
  header_file path = config.work ++ ("public-include" ∷ path)

  abbrev pub work_file : FilePath → FilePath
  work_file path = config.work ++ path

  abbrev pub common : List Arg
  common =
      word "--target=aarch64-linux-android30"
      ∷ word "-O2"
      ∷ word "-D_FILE_OFFSET_BITS=64"
      ∷ word "-D_GNU_SOURCE"
      ∷ word "-DARG_MAX=131072"
      ∷ word "-DWITH_LIBANDROID_SHMEM"
      ∷ word ("-DVERSION=\"" <> (config.version <> "\""))
      ∷ word "-DPROOT_UNBUNDLE_LOADER=\"/unused\""
      ∷ prefixed "-I" (source_file [])
      ∷ prefixed "-I" (header_file [])
      ∷ []

-- The directory of the libraries of the app.
abbrev pub library_dir : FilePath
library_dir = "app" ∷ "src" ∷ "main" ∷ "jniLibs" ∷ "arm64-v8a" ∷ []

abbrev pub links : List Arg
links =
    prefixed "-L" library_dir
    ∷ word "-ltalloc"
    ∷ word "-landroid-shmem"
    ∷ word "-Wl,-z,noexecstack"
    ∷ word "-Wl,-z,max-page-size=16384"
    ∷ []
