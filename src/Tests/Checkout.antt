-- ===== src/Tests/Checkout.antt =====
-- An export of scripts/collect-dnfast-sources.py
use tiny_agent.Base.{
  path_eq, ◌≡◌, refl, String, ◌<>◌, true, none, some, List, [], ◌∷◌, map, strip, Bytes, Result, ok,
  err, value_error,
}
use tiny_agent.Json.{Json}
use tiny_agent.Host.{Host}
use tiny_agent.Sources.Notices.{Entry}
use tiny_agent.Checkout.{
  revision, Checkout, archive_name, native_sources, license_file, receipt, member, required_names,
  receipt_json, export_checkout,
}
use tiny_agent.Checkout.Exported.{IsArchive, export_checkout-IsArchive}

abbrev digest : Bytes → String
digest content = "digest"

abbrev entry_of : String → Entry
entry_of name = record { name = member name; is_file = true; size = 1; content = ok (7 ∷ []) }

abbrev untar : Bytes → Result (List Entry)
untar packed = ok (map entry_of ("LICENSE" ∷ required_names))

abbrev checkout : Checkout
checkout = record { commit = ok (revision <> "\n"); license = ok (7 ∷ []); archive = ok (1 ∷ []) }

abbrev dumps : Json → Bytes
dumps found = 0 ∷ []

abbrev start : Host (Unit {0})
start = record { files = λ path. none; world = tt }

abbrev exported : Result (Unit {0}) × Host (Unit {0})
exported = export_checkout digest untar checkout dumps start

export_checkout-IsArchive_example :
    (printed : String) × (packed : Bytes) × (notice : Bytes) × (checkout.commit ≡ ok printed)
    × (strip printed ≡ revision)
    × (checkout.archive ≡ ok packed)
    × (checkout.license ≡ ok notice)
    × IsArchive untar packed notice
    × (exported.1.files (native_sources archive_name) ≡ some packed)
    × (exported.1.files license_file ≡ some notice)
    × (exported.1.files receipt ≡ some (dumps (receipt_json digest packed notice)))
unfolding export_checkout path_eq
export_checkout-IsArchive_example =
    export_checkout-IsArchive untar digest checkout dumps start exported.1 refl

-- A licence that differs in the archive is refused.
refuses :
    (export_checkout digest untar (record checkout { license = ok (8 ∷ []) }) dumps start).0
    ≡ err (value_error "Archive notice mismatch")
unfolding export_checkout path_eq
refuses = refl
