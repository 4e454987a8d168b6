-- ===== src/Tests/Client.antt =====
-- The clients of scripts/tinyagent-packages.py and scripts/tinyagent-android.py with a bridge that
-- gives the answers of a list.
use tiny_agent.Base.{inl, ℕ, ◌≡◌, refl, none, some, List, [], ◌∷◌, All, ok, err, url_error, arith}
use tiny_agent.Client.{
  Event, announced, called, appended, slept, reported, Request, Reply, get, exits, Run, Call,
  no_body,
}
use tiny_agent.Client.Events.{Watches}
use tiny_agent.Client.Packages.{job_path, is_active, handle, poll, submit, execute}
use tiny_agent.Client.Packages.Events.{submission, submit-Follows}
use tiny_agent.Client.Packages.Screen.{IsReported, poll-IsReported}
use tiny_agent.Client.Packages.Polls.{Settles, settled, goes_on, poll-exits}
use tiny_agent.Client.Android.{attempt}
use tiny_agent.Client.Android.Runs.{Ends, IsFollowed, attempt-Ends}

abbrev Answers : Type 0
Answers = List Reply

bridge : Call Answers
bridge name r [] = (err (url_error "refused"), [])
bridge name r (reply ∷ rest) = (ok reply, rest)

abbrev running : Reply
running = record { status = some "running"; output = "a"; error = none }

abbrev more : Reply
more = record { status = some "running"; output = "ab"; error = none }

abbrev done : Reply
done = record { status = some "completed"; output = "abc"; error = none }

abbrev start : Run Answers
start = record { world = running ∷ more ∷ done ∷ []; events = [] }

abbrev stay : Answers → Answers
stay w = w

-- An installation: the log is printed piece by piece, and every wait is followed by one read.
installs : execute bridge stay "b" 5 ("install" ∷ "git" ∷ []) "7" start ≡ (
  exits 0,
  record {
    world = [];
    events =
        announced "7"
        ∷ called (submission "7" ("install" ∷ "--assumeyes" ∷ "git" ∷ []))
        ∷ appended "a"
        ∷ slept
        ∷ called (get "/packages/jobs/7")
        ∷ appended "b"
        ∷ slept
        ∷ called (get "/packages/jobs/7")
        ∷ appended "c"
        ∷ reported done
        ∷ [];
  },
)
unfolding execute bridge
installs = refl

-- A lost connection ends the client with status 2, and the job goes on.
loses :
    (handle bridge stay "b" (
      execute bridge stay "b" 5
        ("repo" ∷ "refresh" ∷ [])
        "7"
        (record { world = running ∷ []; events = [] }))).0
    ≡ exits 2
unfolding execute handle bridge
loses = refl

cancels :
    execute bridge stay "b" 5 ("cancel" ∷ []) "7" (record { world = done ∷ []; events = [] }) ≡ (
      exits 0,
      record {
        world = [];
        events =
            called (record { method = "DELETE"; path = "/packages/jobs/7"; payload = no_body })
            ∷ reported done
            ∷ [];
      },
    )
unfolding execute bridge
cancels = refl

submit-Follows_example :
    (rest : List Event) × ((submit bridge stay "b" 5 ("repo" ∷ []) "7" start).1.events
      ≡ announced "7" ∷ called (submission "7" ("repo" ∷ [])) ∷ rest)
    × All (Watches (job_path "7")) rest
submit-Follows_example = submit-Follows bridge stay "b" 5 ("repo" ∷ []) "7" start

abbrev waiting : Run Answers
waiting = record { world = more ∷ done ∷ []; events = [] }

poll-IsReported_example : IsReported 0 (poll bridge stay "b" 5 (job_path "7") running "" waiting).1
unfolding poll bridge
poll-IsReported_example =
    poll-IsReported bridge stay "b" (job_path "7") 5 running "" waiting 0 ("", refl, inl refl) refl

settles : Settles bridge stay "b" (job_path "7") 2 running (more ∷ done ∷ [])
unfolding bridge is_active
settles =
    goes_on "running" more (done ∷ []) refl refl refl
      (goes_on "running" done [] refl refl refl (settled "completed" refl refl))

poll-exits_example :
    (code : ℕ) × ((poll bridge stay "b" 5 (job_path "7") running "" waiting).0 ≡ exits code)
poll-exits_example =
    poll-exits bridge stay "b" (job_path "7") 2 5 running "" waiting (omega arith) settles

abbrev inspect : Request
inspect = get "/android/jobs/7/inspect"

attempt-Ends_example :
    let end = attempt bridge stay "b" 5 "/android/jobs/7" inspect start in
    Ends bridge stay "b" "/android/jobs/7" end.0 end.1
    × IsFollowed bridge stay "b" "/android/jobs/7" [] inspect end.1.events
attempt-Ends_example = attempt-Ends bridge stay "b" "/android/jobs/7" 5 inspect start
