-- ===== src/Build/Report.antt =====
-- The report of scripts/build-proot-candidate.py and scripts/build-proot-fchmodat2.py
use tiny_agent.Base.{FilePath, file_name, map, ℕ, String, List, [], ◌∷◌}
use tiny_agent.Json.{Json, text, natural, array, object, Fields, no_fields, field, values_of}
use tiny_agent.Host.{Exec, ◌>>=◌, pure, for_each}
use tiny_agent.Proot.Stage.{library}
use tiny_agent.Build.{Config, Machine, ndk_version}
use tiny_agent.Build.Prepare.{source_archive, library_names, patch_file, sha}
use tiny_agent.Build.Compile.{loader, binary, compiler}

-- The digests in the report, with their fields where these differ.
pub record Report : Type 0 where
  pub source : String
  pub patches : List (String × String)
  pub compiler : String
  pub script : String
  pub objects : ℕ
  pub features : List String
  pub dependencies : List (String × String)
  pub outputs : List (String × String)

abbrev pub digest_fields : List (String × String) → Fields → Fields
digest_fields [] rest = rest
digest_fields ((key, found) ∷ more) rest = field key (text found) (digest_fields more rest)

abbrev pub report_json : Report → Json
report_json report = object (
    field "source_sha256" (text report.source) (
      digest_fields report.patches (
        field "ndk" (text ndk_version) (
          field "compiler_sha256" (text report.compiler) (
            field "build_script_sha256" (text report.script) (
              field "objects" (natural report.objects) (
                field "features" (array (values_of (map text report.features))) (
                  field "dependencies" (object (digest_fields report.dependencies no_fields)) (
                    field "outputs" (object (digest_fields report.outputs no_fields)) (
                      field "status" (text "built; device validation pending; APK inputs unchanged")
                        no_fields))))))))))

module _ {W : Type 0} (config : Config) (machine : Machine W) where
  -- The digests of files, with their names.
  abbrev pub sha_as : FilePath → String → Exec W (String × String)
  sha_as path key = sha config machine path >>= λ found. pure (key, found)

  abbrev pub sha_patch : String × String → Exec W (String × String)
  sha_patch (key, name) = sha_as (patch_file name) key

  abbrev pub sha_library : String → Exec W (String × String)
  sha_library name = sha_as (library name) name

  abbrev pub sha_output : FilePath → Exec W (String × String)
  sha_output path = sha_as path (file_name path)

  unfoldable pub read_report : List String → ℕ → Exec W Report
  unfolding for_each
  read_report features objects = sha config machine source_archive >>= λ source.
      for_each sha_patch config.patches >>= λ patches.
      sha config machine (compiler config machine) >>= λ compiled.
      sha config machine ("scripts" ∷ config.script ∷ []) >>= λ script.
      for_each sha_library library_names >>= λ dependencies.
      for_each sha_output (binary config machine ∷ loader config machine ∷ []) >>= λ outputs.
      pure (record {
        source = source;
        patches = patches;
        compiler = compiled;
        script = script;
        objects = objects;
        features = features;
        dependencies = dependencies;
        outputs = outputs;
      })
