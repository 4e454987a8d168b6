-- ===== src/Delta/Android.antt =====
-- scripts/apk-delta-android.py: a patch as a shell script of `dd` commands and one payload file.
pub mod Script
use tiny_agent.Base.{
  ℕ, ◌+◌, String, Bool, ◌&&◌, ◌||◌, List, [], ◌∷◌, ◌++◌, if◌then◌else◌, ◌==◌, Bytes, length, Result,
  ok, err, guard, assertion, ◌>>=◌, ◌>>◌, codes, is_hex_text, is_alphanumeric, is_name_with,
}
use tiny_agent.Delta.{Number, int_nat, Span, copy, text, Plan}
use tiny_agent.Delta.Base64.{b64decode}

-- "$1", the old file, or "$2", the payload.
pub data Source : Type 0 where
  base payload : Source

-- `dd if=source of="$patch_output" skip=… count=… seek=…`, all three in bytes
pub record Command : Type 0 where
  pub source : Source
  pub skip : ℕ
  pub count : ℕ
  pub seek : ℕ

-- The variables `payload`, `commands` and `position` behind the loop.
pub record Export : Type 0 where
  pub payload : Bytes
  pub commands : List Command
  pub position : ℕ

-- `if size: commands.append(…)`, in front of the commands of the later spans
abbrev pub with_command : Source → ℕ → ℕ → ℕ → Export → Export
with_command source start size position later = if size == 0 then later else record later {
  commands =
      record { source = source; skip = start; count = size; seek = position } ∷ later.commands;
}

unfoldable pub export_spans : List Span → Bytes → ℕ → Result Export
export_spans [] bytes position = ok (record { payload = bytes; commands = []; position = position })
export_spans (copy (int_nat start) (int_nat size) ∷ ss) bytes position = do
  later ← export_spans ss bytes (position + size)
  ok (with_command base start size position later)
export_spans (copy _ _ ∷ ss) bytes position = err (assertion "")
export_spans (text t ∷ ss) bytes position = do
  more ← b64decode t
  later ← export_spans ss (bytes ++ more) (position + length more)
  ok (with_command payload (length bytes) (length more) position later)

-- The lines of the script, behind `set -eu`.
pub data Line : Type 0 where
  refuse_existing truncate : Line
  check_digest : Source → String → Line
  dd : Command → Line
  check_result : String → Line

unfoldable pub dd_lines : List Command → List Line
dd_lines [] = []
dd_lines (c ∷ cs) = dd c ∷ dd_lines cs

-- [A-Za-z0-9_-]+\.apk
unfoldable pub is_output_name : String → Bool
unfolding is_name_with
is_output_name name =
    is_name_with (λ c. is_alphanumeric c || (c == b'_' || c == b'-')) (codes ".apk") (codes name)

module _ (digest : Bytes → String) where
  unfoldable pub script_lines : Plan → Export → List Line
  unfolding dd_lines
  script_lines plan made =
      refuse_existing
      ∷ check_digest base plan.old
      ∷ check_digest payload (digest made.payload)
      ∷ truncate
      ∷ (dd_lines made.commands ++ (check_result plan.new ∷ []))

  -- The payload file and the script; `output_name` is the name under /data/local/tmp.
  unfoldable pub export_script : String → Plan → Result (Bytes × List Line)
  unfolding is_output_name is_hex_text
  export_script output_name plan = do
    guard (is_output_name output_name) (assertion "")
    guard (is_hex_text 64 (codes plan.old) && is_hex_text 64 (codes plan.new)) (assertion "")
    made ← export_spans plan.spans [] 0
    guard (made.position == plan.size) (assertion "")
    ok (made.payload, script_lines plan made)
