-- ===== src/Delta/Roundtrip.antt =====
-- What `create` writes, `apply` turns back into the new file (scripts/apk-delta.py).
use tiny_agent.Base.{
  ℕ, ◌+◌, ◌-◌, ◌≤◌, ◌<◌, String, ◌≡◌, refl, ap, ◌∙◌, Option, none, some, List, [], ◌∷◌, ◌++◌, inl,
  inr, Option-cases, Bool-cases, le→leb, ltb, ==_iff, bytes_eq→eq, Bytes, IsBytes, length, slice,
  drop, length-append, length-slice, length-drop, slice-append-drop, append_assoc', slice_empty,
  append-nil', All-slice, All-drop, eq_refl, ok, >>=-eq-ok, arith,
}
use tiny_agent.Delta.{ZipEntry, Payload, int_nat, Span, copy, text, Plan, payloads}
use tiny_agent.Delta.Base64.{b64encode, b64decode-b64encode}
use tiny_agent.Delta.Create.{previous_get, shared_source, gap, create_spans, create}
use tiny_agent.Delta.Apply.{span_bytes, write_spans, reconstruct, publish, apply}

-- The payloads stand one behind the other from `cursor` on, and end inside the file.
abbrev pub InOrder : List Payload → ℕ → ℕ → Type 0
InOrder [] cursor n = cursor ≤ n
InOrder (p ∷ ps) cursor n = (cursor ≤ p.start) × InOrder ps (p.start + p.size) n

InOrder-start : (ps : List Payload) (c n : ℕ) → InOrder ps c n → c ≤ n
InOrder-start [] c n h = h
InOrder-start (p ∷ ps) c n (h, k) = omega (arith, InOrder-start ps (p.start + p.size) n k)

InOrder-lower : (ps : List Payload) (c d n : ℕ) → d ≤ c → InOrder ps c n → InOrder ps d n
InOrder-lower [] c d n le h = omega arith
InOrder-lower (p ∷ ps) c d n le (h, k) = (omega arith, k)

-- A span that decodes to `bytes` adds them to the stream.
write_span :
    (old : Bytes) (size : ℕ) (s : Span) (ss : List Span) (stream bytes : Bytes)
    → span_bytes old s ≡ ok bytes
    → length stream + length bytes ≤ size
    → write_spans old size (s ∷ ss) stream ≡ write_spans old size ss (stream ++ bytes)
unfolding write_spans
write_span old size s ss stream bytes e h =
    rw e (rw (le→leb (length (stream ++ bytes)) size (omega (arith, length-append stream bytes))))

-- The facts that the test of the loop gives of a payload that is copied.
record IsShared (old new : Bytes) (source : ℕ) (p : Payload) : Type 0 where
  large : 4096 ≤ p.size
  same : slice old source (source + p.size) ≡ slice new p.start (p.start + p.size)

shared_source-IsShared :
    (old new : Bytes) (q : Option Payload) (p : Payload) (source : ℕ)
    → shared_source old new q p ≡ some source
    → IsShared old new source p
unfolding shared_source
shared_source-IsShared old new none p source h = cc
shared_source-IsShared old new (some q) p source h = record {
  large = ground arith;
  same = ground (
    arith,
    bytes_eq→eq (slice old q.start (q.start + p.size)) (slice new p.start (p.start + p.size)),
  );
}

-- A copied payload lies inside the old file, and its span decodes to the new file's bytes.
span_bytes-copy :
    (old new : Bytes) (source : ℕ) (p : Payload)
    → IsShared old new source p
    → p.start + p.size ≤ length new
    → span_bytes old (copy (int_nat source) (int_nat p.size))
      ≡ ok (slice new p.start (p.start + p.size))
unfolding span_bytes
span_bytes-copy old new source p s h =
    let n : length (slice old source (source + p.size))
        ≡ length (slice new p.start (p.start + p.size)) =
      ap length s.same in
    let inside : (source ≤ length old) × (p.size ≤ length old - source) = omega (
      arith,
      s.large,
      n,
      length-slice old source (source + p.size),
      length-slice new p.start (p.start + p.size),
    ) in
    rw (le→leb source (length old) inside.0)
      (rw (le→leb p.size (length old - source) inside.1) (ap ok s.same))

module _ (old new : Bytes) (bytes : IsBytes new) (previous : List Payload) where
  -- The literal text in front of a payload adds the bytes up to the payload.
  write_gap :
      (size cursor start : ℕ) (ss : List Span) (stream : Bytes)
      → cursor ≤ start
      → start ≤ length new
      → length stream + (start - cursor) ≤ size
      → write_spans old size (gap new cursor start ++ ss) stream
        ≡ write_spans old size ss (stream ++ slice new cursor start)
  unfolding gap span_bytes
  write_gap size cursor start ss stream h k room = elim (Bool-cases (ltb cursor start)) [
    | inl e ↦ rw e (
        write_span old size (text (b64encode (slice new cursor start))) ss stream
          (slice new cursor start)
          (b64decode-b64encode _ (All-slice (λ b. b < 256) new cursor start bytes))
          (omega (arith, length-slice new cursor start)))
    | inr e ↦
        let le : start ≤ cursor = ground arith in
        rw e (rw (slice_empty new cursor start le) (rw append-nil'))
  ]

  -- A copied payload and the text in front of it bring the stream to the end of the payload.
  write_shared :
      (size cursor source : ℕ) (p : Payload) (ss : List Span) (stream : Bytes)
      → IsShared old new source p
      → cursor ≤ p.start
      → p.start + p.size ≤ length new
      → length stream + (length new - cursor) ≤ size
      → write_spans old size
          (gap new cursor p.start ++ (copy (int_nat source) (int_nat p.size) ∷ ss))
          stream
        ≡ write_spans old size ss
            ((stream ++ slice new cursor p.start) ++ slice new p.start (p.start + p.size))
  write_shared size cursor source p ss stream s h k room =
      let pre = stream ++ slice new cursor p.start in
      write_gap size cursor p.start _ stream h (omega arith) (omega arith)
      ∙ write_span old size (copy (int_nat source) (int_nat p.size)) ss pre
          (slice new p.start (p.start + p.size)) (span_bytes-copy old new source p s k)
          (omega (
            arith,
            length-append stream (slice new cursor p.start),
            length-slice new cursor p.start,
            length-slice new p.start (p.start + p.size),
          ))

  rejoin :
      (cursor start stop : ℕ) (stream : Bytes)
      → cursor ≤ start
      → start ≤ stop
      → ((stream ++ slice new cursor start) ++ slice new start stop) ++ drop stop new
        ≡ stream ++ drop cursor new
  rejoin cursor start stop stream h k =
      append_assoc' (stream ++ slice new cursor start) (slice new start stop) (drop stop new)
      ∙ rw (slice-append-drop new start stop k) (
          append_assoc' stream (slice new cursor start) (drop start new)
          ∙ rw (slice-append-drop new cursor start h))

  write_create_spans :
      (ps : List Payload) (cursor size : ℕ) (stream : Bytes)
      → InOrder ps cursor (length new)
      → length stream + (length new - cursor) ≤ size
      → write_spans old size (create_spans old new previous ps cursor) stream
        ≡ ok (stream ++ drop cursor new)
  unfolding create_spans span_bytes write_spans
  write_create_spans [] cursor size stream h room =
      write_span old size (text (b64encode (drop cursor new))) [] stream (drop cursor new)
        (b64decode-b64encode _ (All-drop (λ b. b < 256) cursor new bytes))
        (omega (arith, length-drop cursor new))
  write_create_spans (p ∷ ps) cursor size stream (h, k) room =
      elim (Option-cases (shared_source old new (previous_get p.name previous) p)) [
        | inl e ↦
            rw (e, create_spans)
              (write_create_spans ps cursor size stream
                (InOrder-lower ps (p.start + p.size) cursor (length new) (omega arith) k) room)
        | inr (source, e) ↦
            let stop = p.start + p.size in
            let fits = InOrder-start ps stop (length new) k in
            rw (e, create_spans)
              (write_shared size cursor source p _ stream
                  (shared_source-IsShared old new (previous_get p.name previous) p source e) h fits
                  room
                ∙ write_create_spans ps stop size
                    ((stream ++ slice new cursor p.start) ++ slice new p.start stop) k
                    (omega (
                      arith,
                      length-append (stream ++ slice new cursor p.start) (slice new p.start stop),
                      length-append stream (slice new cursor p.start),
                      length-slice new cursor p.start,
                      length-slice new p.start stop,
                    ))
                ∙ ap ok (rejoin cursor p.start stop stream h (omega arith)))
      ]

module _ (digest : Bytes → String) where
  abbrev plan_of : Bytes → Bytes → List Payload → List Payload → Plan
  plan_of old new previous current = record {
    old = digest old;
    new = digest new;
    size = length new;
    spans = create_spans old new previous current 0;
  }

  reconstruct-plan_of :
      (old new : Bytes) (previous current : List Payload)
      → IsBytes new
      → InOrder current 0 (length new)
      → reconstruct digest old (plan_of old new previous current) ≡ ok new
  unfolding reconstruct
  reconstruct-plan_of old new previous current bytes order =
      rw (write_create_spans old new bytes previous current 0 (length new) [] order (omega arith))
        (rw ((==_iff (length new) (length new)).1 refl) (rw (eq_refl (digest new))))

  apply-plan_of :
      (old new : Bytes) (previous current : List Payload)
      → IsBytes new
      → InOrder current 0 (length new)
      → apply digest old
          (plan_of old new previous current)
          (record { output = none; temporary = none })
        ≡ (record { output = some new; temporary = none }, ok (length new, digest new))
  unfolding apply publish
  apply-plan_of old new previous current bytes order =
      rw (eq_refl (digest old)) (rw (reconstruct-plan_of old new previous current bytes order))

  -- The plan is the one of the payloads that were found.
  create-eq-plan_of :
      (old_entries new_entries : List ZipEntry) (old new : Bytes) (plan : Plan)
      (current : List Payload)
      → payloads new_entries new ≡ ok current
      → create digest old_entries old new_entries new ≡ ok plan
      → (previous : List Payload) × (plan_of old new previous current ≡ plan)
  unfolding create
  create-eq-plan_of old_entries new_entries old new plan current found made =
      let (previous, e, made') = >>=-eq-ok (payloads old_entries old) _ made in
      (previous, cc (rw found at made'))

  -- A patch that `create` wrote for two files, whose new one has its payloads in order and inside
  -- the file, rebuilds the new file byte for byte: where neither the output nor its '.part' is on
  -- the disk, `apply` on the same old file leaves the new file as the output and no '.part', and
  -- reports its length and digest.
  pub apply-create :
      (old_entries new_entries : List ZipEntry) (old new : Bytes) (plan : Plan)
      (current : List Payload)
      → IsBytes new
      → payloads new_entries new ≡ ok current
      → InOrder current 0 (length new)
      → create digest old_entries old new_entries new ≡ ok plan
      → apply digest old plan (record { output = none; temporary = none })
        ≡ (record { output = some new; temporary = none }, ok (length new, digest new))
  apply-create old_entries new_entries old new plan current bytes found order made =
      let (previous, e) =
        create-eq-plan_of old_entries new_entries old new plan current found made in
      rw e at (apply-plan_of old new previous current bytes order)
