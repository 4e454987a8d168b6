-- ===== src/Tests/Delta.antt =====
-- scripts/apk-delta.py and scripts/apk-delta-android.py at concrete files.
use tiny_agent.Base.{
  ℕ, ◌<◌, String, ◌≡◌, refl, true, none, some, List, [], ◌∷◌, ◌++◌, Bytes, replicate, length, ok,
  err, Exception, assertion, ◌⊎◌, bytes_eq, IsBytes, All-append, All-replicate, slice,
  if◌then◌else◌, arith,
}
use tiny_agent.Delta.{ZipEntry, Payload, Plan, int_nat, copy, text, payloads}
use tiny_agent.Delta.Base64.{b64encode, b64decode}
use tiny_agent.Delta.Create.{previous_get, shared_source, gap, create_spans, create}
use tiny_agent.Delta.Apply.{Disk, publish, write_spans, span_bytes, reconstruct, apply}
use tiny_agent.Delta.Roundtrip.{apply-create}
use tiny_agent.Delta.Safety.{IsVerified, apply-IsVerified}
use tiny_agent.Delta.Android.{
  Source, Line, refuse_existing, truncate, check_digest, dd, check_result, dd_lines, script_lines,
  export_spans, export_script,
}
use tiny_agent.Delta.Android.Script.{run_lines, run_lines-export_script}

-- Two texts of 64 hexadecimal digits stand for the digests of the two files.
abbrev digest_a : String
digest_a = "aaaaaaaaaaaaaaaaaaaaaaaaaaaaaaaaaaaaaaaaaaaaaaaaaaaaaaaaaaaaaaaa"

abbrev digest_b : String
digest_b = "bbbbbbbbbbbbbbbbbbbbbbbbbbbbbbbbbbbbbbbbbbbbbbbbbbbbbbbbbbbbbbbb"

abbrev old : Bytes
old = 1 ∷ 2 ∷ 3 ∷ 4 ∷ []

abbrev new : Bytes
new = 9 ∷ 2 ∷ 3 ∷ []

digest : Bytes → String
digest bytes = if bytes_eq bytes old then digest_a else digest_b

abbrev plan : Plan
plan = record {
  old = digest_a;
  new = digest_b;
  size = 3;
  spans = text (b64encode (9 ∷ [])) ∷ copy (int_nat 1) (int_nat 2) ∷ [];
}

abbrev free : Disk
free = record { output = none; temporary = none }

encodes :
    b64encode (7 ∷ 255 ∷ 0 ∷ 1 ∷ []) ≡ b'B' ∷ b'/' ∷ b'8' ∷ b'A' ∷ b'A' ∷ b'Q' ∷ b'=' ∷ b'=' ∷ []
unfolding b64encode
encodes = refl

applies :
    apply digest old plan free ≡ (record { output = some new; temporary = none }, ok (3, digest_b))
unfolding digest apply publish reconstruct write_spans span_bytes b64decode b64encode slice bytes_eq
applies = refl

-- The size of the patch bounds what is written.
too_long : (apply digest old (record plan { size = 2 }) free).1 ≡ err (assertion "")
unfolding digest apply publish reconstruct write_spans span_bytes b64decode b64encode slice bytes_eq
too_long = refl

apply-IsVerified_example :
    let (after, result) = apply digest old plan free in
    ((stream : Bytes) × (result ≡ ok (length stream, digest stream))
      × IsVerified digest old plan free after stream)
    ⊎ ((e : Exception) × (result ≡ err e) × (after ≡ free))
apply-IsVerified_example = apply-IsVerified digest old plan free

-- A ZIP file of one entry: its local header has a name of one byte and no extra field.
abbrev header : Bytes
header = 0x50 ∷ 0x4b ∷ 3 ∷ 4 ∷ (replicate 22 0 ++ (1 ∷ 0 ∷ 0 ∷ 0 ∷ b'a' ∷ []))

abbrev archive : Bytes
archive = header ++ replicate 4096 5

abbrev entries : List ZipEntry
entries = record { filename = "a"; header_offset = 0; compress_size = 4096 } ∷ []

abbrev found : List Payload
found = record { name = "a"; start = 31; size = 4096 } ∷ []

abbrev archive_plan : Plan
archive_plan = record {
  old = digest_b;
  new = digest_b;
  size = 4127;
  spans = text (b64encode header) ∷ copy (int_nat 31) (int_nat 4096) ∷ text [] ∷ [];
}

archive-IsBytes : IsBytes archive
archive-IsBytes =
    All-append (λ (b : ℕ). b < 256) header (replicate 4096 5) (omega arith)
      (All-replicate (λ (b : ℕ). b < 256) 4096 5 (omega arith))

archive-payloads : payloads entries archive ≡ ok found
unfolding payloads slice bytes_eq
archive-payloads = refl

archive-create : create digest entries archive entries archive ≡ ok archive_plan
unfolding create create_spans shared_source previous_get gap payloads slice bytes_eq digest
    b64encode
archive-create = refl

apply-create_example :
    apply digest archive archive_plan free
    ≡ (record { output = some archive; temporary = none }, ok (4127, digest archive))
apply-create_example =
    apply-create digest entries entries archive archive archive_plan found archive-IsBytes
      archive-payloads (omega arith) archive-create

abbrev script : List Line
script =
    refuse_existing
    ∷ check_digest Source.base digest_a
    ∷ check_digest Source.payload digest_b
    ∷ truncate
    ∷ dd (record { source = Source.payload; skip = 0; count = 1; seek = 0 })
    ∷ dd (record { source = Source.base; skip = 1; count = 2; seek = 1 })
    ∷ check_result digest_b
    ∷ []

exports : export_script digest "tinyagent-touch-guard.apk" plan ≡ ok (9 ∷ [], script)
unfolding export_script export_spans script_lines dd_lines b64decode b64encode digest bytes_eq
exports = refl

-- A name that could leave the directory is refused.
refuses_name : export_script digest "../guard.apk" plan ≡ err (assertion "")
unfolding export_script
refuses_name = refl

run_lines-export_script_example : run_lines digest old (9 ∷ []) script none ≡ (some new, true)
unfolding digest reconstruct write_spans span_bytes b64decode b64encode slice bytes_eq
run_lines-export_script_example =
    run_lines-export_script digest "tinyagent-touch-guard.apk" old plan (9 ∷ []) new script exports
      refl refl
