-- ===== src/Delta/Apply.antt =====
-- `apply` of scripts/apk-delta.py
use tiny_agent.Base.{
  ℕ, ◌+◌, ◌-◌, String, Bool, true, false, ◌&&◌, Option, none, some, List, [], ◌∷◌, ◌++◌, leb, ◌==◌,
  str_eq, Bytes, length, slice, Result, ok, err, guard, assertion, file_exists, ◌>>=◌, ◌>>◌,
}
use tiny_agent.Delta.{int_nat, Span, copy, text, Plan}
use tiny_agent.Delta.Base64.{b64decode}

-- The two files that `apply` writes: the result, and `temporary`, its name with '.part'.
pub record Disk : Type 0 where
  pub output : Option Bytes
  pub temporary : Option Bytes

unfoldable pub span_bytes : Bytes → Span → Result Bytes
span_bytes old (copy (int_nat start) (int_nat size)) = do
  guard (leb start (length old) && leb size (length old - start)) (assertion "")
  ok (slice old start (start + size))
span_bytes old (copy _ _) = err (assertion "")
span_bytes old (text t) = b64decode t

-- The loop over the spans; `stream` is what was written, and what the checksum has seen.
unfoldable pub write_spans : Bytes → ℕ → List Span → Bytes → Result Bytes
write_spans old size [] stream = ok stream
write_spans old size (s ∷ ss) stream = do
  bytes ← span_bytes old s
  let written = stream ++ bytes
  guard (leb (length written) size) (assertion "")
  write_spans old size ss written

module _ (digest : Bytes → String) where
  -- The body of `try`.
  unfoldable pub reconstruct : Bytes → Plan → Result Bytes
  reconstruct old plan = do
    stream ← write_spans old plan.size plan.spans []
    guard (length stream == plan.size && str_eq (digest stream) plan.new)
        (assertion "Reconstructed APK differs")
    ok stream

  -- `except BaseException` removes the temporary file, and `os.replace` puts it in place.
  unfoldable pub publish : Disk → Result Bytes → Disk × Result (ℕ × String)
  publish disk (ok stream) =
      (record { output = some stream; temporary = none }, ok (length stream, digest stream))
  publish disk (err e) = (record disk { temporary = none }, err e)

  -- `open('xb')` fails where the temporary file is there already.
  unfoldable pub write_new : Bytes → Plan → Disk → Option Bytes → Disk × Result (ℕ × String)
  write_new old plan disk (some left) = (disk, err (file_exists ".part"))
  write_new old plan disk none = publish disk (reconstruct old plan)

  unfoldable pub check_output : Bytes → Plan → Disk → Option Bytes → Disk × Result (ℕ × String)
  unfolding write_new
  check_output old plan disk (some apk) =
      (disk, err (assertion "Refusing to replace an existing APK"))
  check_output old plan disk none = write_new old plan disk disk.temporary

  unfoldable pub check_base : Bytes → Plan → Disk → Bool → Disk × Result (ℕ × String)
  unfolding check_output
  check_base old plan disk true = check_output old plan disk disk.output
  check_base old plan disk false = (disk, err (assertion "Base APK differs"))

  unfoldable pub apply : Bytes → Plan → Disk → Disk × Result (ℕ × String)
  unfolding check_base
  apply old plan disk = check_base old plan disk (str_eq (digest old) plan.old)
