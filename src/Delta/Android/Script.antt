-- ===== src/Delta/Android/Script.antt =====
-- The script that scripts/apk-delta-android.py exports builds what scripts/apk-delta.py applies.
use tiny_agent.Base.{
  ℕ, ◌+◌, ◌≤◌, String, ◌≡◌, refl, ap, sym, ◌∙◌, Bool, true, false, Option, none, some, List, [],
  ◌∷◌, ◌++◌, if◌then◌else◌, ◌==◌, Bytes, length, slice, write_at, write_at_end, length-slice,
  slice-append_middle, slice_empty, append_assoc', append-nil', length-append, ok, Result-cases,
  leb, assertion, >>=-eq-ok, guard->>-eq-ok, str_eq, eq_iff, eq_refl, Bool-cases, inl, inr, arith,
}
use tiny_agent.Delta.{int_nat, int_neg, not_int, Span, copy, text, Plan}
use tiny_agent.Delta.Base64.{b64decode}
use tiny_agent.Delta.Apply.{span_bytes, write_spans, reconstruct}
use tiny_agent.Delta.Android.{
  Source, base, payload, Command, Export, with_command, export_spans, Line, refuse_existing,
  truncate, check_digest, dd, check_result, dd_lines, script_lines, export_script,
}

-- What the device does with a script: `dd` with byte units and conv=notrunc, and `set -e`.
module _ (digest : Bytes → String) (old bytes : Bytes) where
  abbrev pub source_bytes : Source → Bytes
  source_bytes base = old
  source_bytes payload = bytes

  abbrev pub run_dd : Command → Bytes → Bytes
  run_dd c file = write_at 0 file c.seek (slice (source_bytes c.source) c.skip (c.skip + c.count))

  abbrev when_there : Option Bytes → (Bytes → Option Bytes × Bool) → Option Bytes × Bool
  when_there none k = (none, false)
  when_there (some file) k = k file

  -- The output file, and whether every line has passed.
  unfoldable pub run_lines : List Line → Option Bytes → Option Bytes × Bool
  run_lines [] file = (file, true)
  run_lines (refuse_existing ∷ ls) none = run_lines ls none
  run_lines (refuse_existing ∷ ls) (some file) = (some file, false)
  run_lines (truncate ∷ ls) file = run_lines ls (some [])
  run_lines (check_digest source expected ∷ ls) file =
      let rest = run_lines ls file in
      if str_eq (digest (source_bytes source)) expected then rest else (file, false)
  run_lines (dd c ∷ ls) none = (none, false)
  run_lines (dd c ∷ ls) (some file) = run_lines ls (some (run_dd c file))
  run_lines (check_result expected ∷ ls) none = (none, false)
  run_lines (check_result expected ∷ ls) (some file) =
      let rest = run_lines ls (some file) in
      if str_eq (digest file) expected then rest else (some file, false)

  abbrev run_commands : List Command → Bytes → Bytes
  run_commands [] file = file
  run_commands (c ∷ cs) file = run_commands cs (run_dd c file)

  run_lines-dd_lines :
      (cs : List Command) (ls : List Line) (file : Bytes)
      → run_lines (dd_lines cs ++ ls) (some file) ≡ run_lines ls (some (run_commands cs file))
  unfolding run_lines dd_lines
  run_lines-dd_lines [] ls file = refl
  run_lines-dd_lines (c ∷ cs) ls file = run_lines-dd_lines cs ls (run_dd c file)

  -- A command at the end of the file adds its bytes; one that would add none is left out.
  run_with_command :
      (source : Source) (start size position : ℕ) (later : Export) (file : Bytes)
      → length file ≡ position
      → run_commands (with_command source start size position later).commands file
        ≡ run_commands later.commands (file ++ slice (source_bytes source) start (start + size))
  run_with_command source start size position later file h = elim (Bool-cases (size == 0)) [
    | inl e ↦
        let z : start + size ≤ start = ground arith in
        rw e (rw (slice_empty (source_bytes source) start (start + size) z) (rw append-nil'))
    | inr e ↦ rw e (
        ap (run_commands later.commands)
          (rw (← h) (write_at_end 0 file (slice (source_bytes source) start (start + size)))))
  ]

payload-with_command :
    (source : Source) (start size position : ℕ) (later : Export)
    → (with_command source start size position later).payload ≡ later.payload
payload-with_command source start size position later = ground arith

-- The payload only grows.
export_spans-prefix :
    (ss : List Span) (b : Bytes) (position : ℕ) (made : Export)
    → export_spans ss b position ≡ ok made
    → (tail : Bytes) × (made.payload ≡ b ++ tail)
unfolding export_spans
export_spans-prefix [] b position made h = ([], sym (append-nil' b ∙ ground arith))
export_spans-prefix (copy (int_nat start) (int_nat size) ∷ ss) b position made h =
    let (later, e, e') = >>=-eq-ok (export_spans ss b (position + size)) _ h in
    let (tail, p) = export_spans-prefix ss b (position + size) later e in
    (tail, cc (payload-with_command base start size position later))
export_spans-prefix (text t ∷ ss) b position made h =
    let (more, d, h') = >>=-eq-ok (b64decode t) _ h in
    let (later, e, e') = >>=-eq-ok (export_spans ss (b ++ more) (position + length more)) _ h' in
    let (tail, p) = export_spans-prefix ss (b ++ more) (position + length more) later e in
    (
      more ++ tail,
      cc (
        payload-with_command payload (length b) (length more) position later,
        append_assoc' b more tail,
      ),
    )
export_spans-prefix (copy (int_nat start) (int_neg size) ∷ ss) b position made h = cc
export_spans-prefix (copy (int_nat start) not_int ∷ ss) b position made h = cc
export_spans-prefix (copy (int_neg start) size ∷ ss) b position made h = cc
export_spans-prefix (copy not_int size ∷ ss) b position made h = cc

copy_facts :
    (old : Bytes) (start size : ℕ) (got : Bytes)
    → span_bytes old (copy (int_nat start) (int_nat size)) ≡ ok got
    → (slice old start (start + size) ≡ got) × (length got ≡ size)
unfolding span_bytes
copy_facts old start size got h =
    let e : slice old start (start + size) ≡ got = ground arith in
    (e, ground (arith, length-slice old start (start + size), ap length e))

-- What a loop that returns has done with its first span.
write_spans-cons :
    (old : Bytes) (limit : ℕ) (s : Span) (ss : List Span) (file final : Bytes)
    → write_spans old limit (s ∷ ss) file ≡ ok final
    → (got : Bytes) × (span_bytes old s ≡ ok got)
      × (write_spans old limit ss (file ++ got) ≡ ok final)
unfolding write_spans
write_spans-cons old limit s ss file final w =
    let (got, g, w') = >>=-eq-ok (span_bytes old s) _ w in
    (got, g, (guard->>-eq-ok (leb (length (file ++ got)) limit) (assertion "") _ w').1)

span_bytes-text : (old : Bytes) (t : List ℕ) → span_bytes old (text t) ≡ b64decode t
unfolding span_bytes
span_bytes-text old t = refl

slice_added :
    (bytes b more tail : Bytes)
    → bytes ≡ b ++ (more ++ tail)
    → slice bytes (length b) (length b + length more) ≡ more
slice_added bytes b more tail e = rw e (slice-append_middle b more tail)

module _ (digest : Bytes → String) (old bytes : Bytes) where
  abbrev Runs : List Command → Bytes → Bytes → Type 0
  Runs cs file final = run_commands digest old bytes cs file ≡ final

  -- One exported span: its command adds the bytes that `apply` writes for it.
  run_step :
      (source : Source) (start size position : ℕ) (later made : Export) (file got final : Bytes)
      → ok (with_command source start size position later) ≡ ok made
      → length file ≡ position
      → slice (source_bytes digest old bytes source) start (start + size) ≡ got
      → Runs later.commands (file ++ got) final
      → Runs made.commands file final
  run_step source start size position later made file got final e h s runs =
      let m : with_command source start size position later ≡ made = cc in
      rw (← m)
        (run_with_command digest old bytes source start size position later file h ∙ rw s runs)

  run_export_spans :
      (ss : List Span) (b : Bytes) (position limit : ℕ) (made : Export) (file final : Bytes)
      → export_spans ss b position ≡ ok made
      → made.payload ≡ bytes
      → write_spans old limit ss file ≡ ok final
      → length file ≡ position
      → Runs made.commands file final
  unfolding export_spans write_spans
  run_export_spans [] b position limit made file final h p w l = ground arith
  run_export_spans (copy (int_nat start) (int_nat size) ∷ ss) b position limit made file final h p w
        l =
      let (later, e, e') = >>=-eq-ok (export_spans ss b (position + size)) _ h in
      let (got, g, w') =
        write_spans-cons old limit (copy (int_nat start) (int_nat size)) ss file final w in
      let (s, n) = copy_facts old start size got g in
      run_step base start size position later made file got final e' l s (
        run_export_spans ss b (position + size) limit later (file ++ got) final e
          (cc (payload-with_command base start size position later)) w'
          (omega (arith, length-append file got)))
  run_export_spans (text t ∷ ss) b position limit made file final h p w l =
      let (more, d, h') = >>=-eq-ok (b64decode t) _ h in
      let (later, e, e') = >>=-eq-ok (export_spans ss (b ++ more) (position + length more)) _ h' in
      let (got, g, w') = write_spans-cons old limit (text t) ss file final w in
      let same : more ≡ got = cc (span_bytes-text old t) in
      let q : later.payload ≡ bytes =
        cc (payload-with_command payload (length b) (length more) position later) in
      let (tail, pre) = export_spans-prefix ss (b ++ more) (position + length more) later e in
      run_step payload (length b) (length more) position later made file got final e' l
        (slice_added bytes b more tail (cc (append_assoc' b more tail)) ∙ same)
        (run_export_spans ss (b ++ more) (position + length more) limit later (file ++ got) final e
          q w' (omega (arith, length-append file got, ap length same)))
  run_export_spans (copy (int_nat start) (int_neg size) ∷ ss) b position limit made file final h p w
        l =
      cc
  run_export_spans (copy (int_nat start) not_int ∷ ss) b position limit made file final h p w l = cc
  run_export_spans (copy (int_neg start) size ∷ ss) b position limit made file final h p w l = cc
  run_export_spans (copy not_int size ∷ ss) b position limit made file final h p w l = cc

module _ (digest : Bytes → String) where
  run_script :
      (old : Bytes) (plan : Plan) (made : Export) (stream : Bytes)
      → digest old ≡ plan.old
      → digest stream ≡ plan.new
      → run_commands digest old made.payload made.commands [] ≡ stream
      → run_lines digest old made.payload (script_lines digest plan made) none ≡ (some stream, true)
  unfolding run_lines script_lines
  run_script old plan made stream same new runs = rw ((eq_iff (digest old) plan.old).1 same) (
      rw (eq_refl (digest made.payload)) (
        rw
          (run_lines-dd_lines digest old made.payload made.commands (check_result plan.new ∷ []) [])
          (rw runs (rw ((eq_iff (digest stream) plan.new).1 new)))))

  -- The parts of an export that succeeds.
  export_parts :
      (name : String) (plan : Plan) (bytes : Bytes) (lines : List Line)
      → export_script digest name plan ≡ ok (bytes, lines)
      → (made : Export) × (export_spans plan.spans [] 0 ≡ ok made)
        × (bytes ≡ made.payload)
        × (lines ≡ script_lines digest plan made)
  unfolding export_script
  export_parts name plan bytes lines h = elim (Result-cases (export_spans plan.spans [] 0)) [
    | inl (made, e) ↦ (made, e, ground arith, ground arith)
    | inr (x, e) ↦ absurd (ground arith)
  ]

  rebuilt_parts :
      (old : Bytes) (plan : Plan) (stream : Bytes)
      → reconstruct digest old plan ≡ ok stream
      → (write_spans old plan.size plan.spans [] ≡ ok stream) × (digest stream ≡ plan.new)
  unfolding reconstruct
  rebuilt_parts old plan stream h = elim (Result-cases (write_spans old plan.size plan.spans [])) [
    | inl (s, e) ↦ (ground arith, ground (arith, eq_iff (digest s) plan.new))
    | inr (x, e) ↦ absurd (ground arith)
  ]

  -- Where the exporter accepts a patch that `apply` can rebuild a file from, the exported script,
  -- run on a device with the old file and the exported payload and with no output there, passes
  -- every check and leaves the file that `apply` writes.
  pub run_lines-export_script :
      (name : String) (old : Bytes) (plan : Plan) (bytes stream : Bytes) (lines : List Line)
      → export_script digest name plan ≡ ok (bytes, lines)
      → digest old ≡ plan.old
      → reconstruct digest old plan ≡ ok stream
      → run_lines digest old bytes lines none ≡ (some stream, true)
  run_lines-export_script name old plan bytes stream lines exported same rebuilt =
      let (made, e, p, l) = export_parts name plan bytes lines exported in
      let (w, new) = rebuilt_parts old plan stream rebuilt in
      rw p (
        rw l (
          run_script old plan made stream same new (
            run_export_spans digest old made.payload plan.spans [] 0 plan.size made [] stream e refl
              w refl)))
