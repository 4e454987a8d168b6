-- ===== src/Tests/Workloads.antt =====
-- A run of benchmarks/package-manager/checkout-workloads.py in which one of six checkouts differs.
use tiny_agent.Base.{
  ℕ, path_eq, ◌≡◌, refl, length, String, ◌<>◌, false, none, some, List, [], ◌∷◌, if◌then◌else◌,
  every, Bytes, Exception, ok, err, assertion, process_error,
}
use tiny_agent.Json.{
  Json, natural, text, array, values_of, object, no_fields, field, index, elements,
}
use tiny_agent.Host.{exited, signalled, code_text, Host, pure, lift}
use tiny_agent.Workloads.{
  Phone, Workload, Report, is_plain, read_workload, reports_json, results_path, manifest_path,
}
use tiny_agent.Workloads.Checked.{IsExit}
use tiny_agent.Workloads.Run.{checkout}
use tiny_agent.Workloads.Reported.{AreReported, checkout-AreRounds}
use tiny_agent.Workloads.Returned.{Ends, checkout-Ends}

abbrev commit : String
commit = "aaaaaaaaaaaaaaaaaaaaaaaaaaaaaaaaaaaaaaaa"

abbrev other_commit : String
other_commit = "bbbbbbbbbbbbbbbbbbbbbbbbbbbbbbbbbbbbbbbb"

abbrev entry_of : String → String → Json
entry_of name pinned = object (
    field "name" (text name)
      (field "commit" (text pinned) (field "url" (text "https://github.com/o/r") no_fields)))

abbrev manifest_entries : List Json
manifest_entries =
    entry_of "organic maps" commit
    ∷ entry_of "termux" commit
    ∷ entry_of "vlc" other_commit
    ∷ entry_of "antennapod" commit
    ∷ entry_of "appflowy" commit
    ∷ entry_of "tailscale" commit
    ∷ []

abbrev phone : Phone (Unit {0}) ℕ
phone = record {
  provider = some "fedora-local";
  machine = "aarch64";
  lock = pure tt;
  clock = pure 7;
  seconds = λ began now. natural 0;
  free = pure 30000000000;
  room = λ world. 100;
  has_directory = λ target. pure false;
  run = λ log args. pure (exited 0);
  output = λ args. pure (1 ∷ []);
  decode = λ content. ok (commit <> "\n");
  loads = λ content. ok (object (field "workloads" (array (values_of manifest_entries)) no_fields));
  to_lower = λ name. name;
  is_letter = λ c. false;
}

abbrev message : Exception → String
message x = "differs"

abbrev dumps : Json → Bytes
dumps reports = 0 ∷ []

abbrev start : Host (Unit {0})
start = record {
  files = λ path. if path_eq path manifest_path then some (5 ∷ []) else none;
  world = tt;
}

abbrev after : Host (Unit {0})
unfolding checkout path_eq every
after = (checkout phone message dumps start).1

signal : code_text (signalled 9) ≡ "-9"
signal = refl

escapes : is_plain (λ c. false) "../x" ≡ false
unfolding is_plain
escapes = refl

foreign :
    read_workload
      (λ name. name)
      (λ c. false)
      (object (
        field "name"
          (text "x")
          (field "commit" (text commit) (field "url" (text "https://example.org/r") no_fields))))
    ≡ err (assertion "")
unfolding read_workload every
foreign = refl

checkout-AreRounds_example :
    (content : Bytes) × (manifest : Json) × (workloads : Json) × (found : List Json)
    × (reports : List Report) × (locked : Host (Unit {0})) × (start.files manifest_path
        ≡ some content)
    × (phone.loads content ≡ ok manifest)
    × (index manifest "workloads" ≡ ok workloads)
    × (elements workloads ≡ ok found)
    × (length found ≡ 6)
    × (phone.lock start ≡ (ok tt, locked))
    × AreReported phone message dumps [] found reports locked after
    × (after.files results_path ≡ some (dumps (reports_json reports)))
    × IsExit 1 reports
unfolding checkout path_eq every
checkout-AreRounds_example = checkout-AreRounds phone message dumps 1 start after refl

-- A phone on which no call of git comes back.
abbrev broken_phone : Phone (Unit {0}) ℕ
broken_phone = record phone {
  run = λ log args. lift (err (process_error ""));
  output = λ args. lift (err (process_error ""));
}

abbrev workload_of : String → String → Workload
workload_of name pinned = record { name = name; commit = pinned; url = "https://github.com/o/r" }

checkout-Ends_example : Ends broken_phone message dumps (checkout broken_phone message dumps) start
unfolding read_workload index elements path_eq every
checkout-Ends_example =
    checkout-Ends broken_phone message dumps (λ host. (7, host, refl)) start (5 ∷ [])
      (object (field "workloads" (array (values_of manifest_entries)) no_fields))
      (array (values_of manifest_entries)) manifest_entries refl refl refl refl refl refl refl
      (
        (workload_of "organic-maps" commit, refl),
        (
          (workload_of "termux" commit, refl),
          (
            (workload_of "vlc" other_commit, refl),
            (
              (workload_of "antennapod" commit, refl),
              ((workload_of "appflowy" commit, refl), ((workload_of "tailscale" commit, refl), tt)),
            ),
          ),
        ),
      )
      (tt, start, refl)
