-- ===== src/Tests/Release.antt =====
-- The gate of scripts/check-release.py on a candidate with three rounds.
use tiny_agent.Base.{
  ℕ, ◌≡◌, refl, String, ◌<>◌, false, some, List, [], ◌∷◌, Bytes, ok, attribute_error,
}
use tiny_agent.Json.{
  Json, Fields, boolean, natural, text, array, object, value, no_values, field, no_fields,
}
use tiny_agent.Release.{Site, journeys}
use tiny_agent.Release.Check.{Report, documents, check, uncaught, main}
use tiny_agent.Release.Gate.{IsComplete, check-IsComplete}

abbrev digest : Bytes → String
digest content = "sum"

abbrev site : Site
site = record { base = []; resolve = λ p. p; file = λ p. some (1 ∷ []) }

abbrev file_fields : String → Fields → Fields
file_fields name rest = field "path" (text name) (field "sha256" (text "sum") rest)

abbrev file : String → Json
file name = object (file_fields name no_fields)

abbrev change : Json
change = object (
    field "before_exit" (natural 1)
      (field "after_exit" (natural 0) (field "diff" (file "d") no_fields)))

abbrev journey_fields : String → List String → Fields
journey_fields prefix [] = no_fields
journey_fields prefix (name ∷ names) =
    field name
      (object (
        field "status" (text "pass")
          (field "log" (file (prefix <> name)) (field "change" change no_fields))))
      (journey_fields prefix names)

abbrev round : ℕ → String → Json
round n prefix = object (
    field "sequence" (natural n) (
      field "apk_sha256" (text "sum") (
        field "serial" (text "S") (
          field "journeys" (object (journey_fields prefix journeys))
            (field "resource_report" (file "r") no_fields)))))

abbrev document_fields : List String → Fields → Fields
document_fields [] rest = rest
document_fields (name ∷ names) rest = field name (file name) (document_fields names rest)

abbrev apk : Json
apk = object (
    file_fields "app.apk" (
      field "signer_report" (file "signer") (
        field "version_code" (natural 2) (
          field "version_name" (text "v") (
            field "certificate_sha256"
              (text "0123456789abcdef0123456789abcdef0123456789abcdef0123456789abcdef")
              (field "source_commit" (text "0123456789abcdef0123456789abcdef01234567")
                (field "dirty_source" (boolean false) no_fields)))))))

abbrev device : Json
device = object (
    field "serial" (text "S") (
      field "model" (text "m")
        (field "android" (text "16") (field "abi" (text "arm64-v8a") no_fields))))

abbrev provider : Json
provider = object (
    field "name" (text "p") (
      field "scope" (text "s")
        (field "response_and_tool" (text "pass") (field "log" (file "l") no_fields))))

abbrev candidate : Json → Json
candidate last_provider = object (
    field "schema" (natural 1) (
      field "apk" apk (
        field "device" device (
          field "rounds"
            (array (value (round 1 "a") (value (round 2 "b") (value (round 3 "c") no_values))))
            (field "providers" (array (value last_provider no_values))
              (document_fields documents no_fields))))))

abbrev report : Report
report = record { apk_sha256 = text "sum"; serial = text "S"; rounds = 1 ∷ 2 ∷ 3 ∷ [] }

passes : check digest site (candidate provider) ≡ ok report
unfolding check
passes = refl

check-IsComplete_example : IsComplete digest site (candidate provider) report
check-IsComplete_example = check-IsComplete digest site (candidate provider) report passes

-- A provider that is a text ends the program with an exception that it does not catch.
crashes : main digest site (ok (candidate (text "p"))) ≡ uncaught (attribute_error "get")
unfolding main
crashes = refl
