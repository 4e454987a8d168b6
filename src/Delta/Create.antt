-- ===== src/Delta/Create.antt =====
-- `create` of scripts/apk-delta.py
use tiny_agent.Base.{
  ℕ, ◌+◌, String, Bool, ◌&&◌, Option, none, some, List, [], ◌∷◌, ◌++◌, if◌then◌else◌, leb, ltb,
  ◌==◌, str_eq, bytes_eq, Bytes, length, slice, drop, Result, ok, ◌>>=◌,
}
use tiny_agent.Delta.{ZipEntry, Payload, int_nat, Span, copy, text, Plan, payloads}
use tiny_agent.Delta.Base64.{b64encode}

-- `previous.get(name, …)`: of two entries of one name the later one is kept.
unfoldable pub previous_get : String → List Payload → Option Payload
previous_get name [] = none
previous_get name (p ∷ ps) = elim (previous_get name ps) [
  | some q ↦ some q
  | none ↦ if str_eq name p.name then some p else none
]

same_bytes : Bytes → Bytes → Payload → Payload → Bool
same_bytes old new q p =
    leb 4096 p.size
    && (p.size == q.size
        && bytes_eq (slice old q.start (q.start + p.size)) (slice new p.start (p.start + p.size)))

-- Where the old file has the payload, if it is long enough and the same.
unfoldable pub shared_source : Bytes → Bytes → Option Payload → Payload → Option ℕ
unfolding same_bytes
shared_source old new none p = none
shared_source old new (some q) p = if same_bytes old new q p then some q.start else none

-- The bytes between the copied payloads.
unfoldable pub gap : Bytes → ℕ → ℕ → List Span
gap new cursor start =
    if ltb cursor start then text (b64encode (slice new cursor start)) ∷ [] else []

-- The loop over the payloads of the new file, and the last span.
unfoldable pub create_spans : Bytes → Bytes → List Payload → List Payload → ℕ → List Span
create_spans old new previous [] cursor = text (b64encode (drop cursor new)) ∷ []
create_spans old new previous (p ∷ ps) cursor =
    elim (shared_source old new (previous_get p.name previous) p) [
      | none ↦ create_spans old new previous ps cursor
      | some source ↦
          gap new cursor p.start
          ++ (copy (int_nat source) (int_nat p.size)
              ∷ create_spans old new previous ps (p.start + p.size))
    ]

-- `digest` is the SHA-256 of `hashlib`, in hexadecimal digits.
module _ (digest : Bytes → String) where
  unfoldable pub create : List ZipEntry → Bytes → List ZipEntry → Bytes → Result Plan
  create old_entries old new_entries new = do
    previous ← payloads old_entries old
    current ← payloads new_entries new
    ok (record {
      old = digest old;
      new = digest new;
      size = length new;
      spans = create_spans old new previous current 0;
    })
