-- ===== src/Delta.antt =====
-- scripts/apk-delta.py: an APK as a patch on an older one. The data, and the scan of a ZIP file.
pub mod Base64
pub mod Create
pub mod Apply
pub mod Android
pub mod Roundtrip
pub mod Safety
use tiny_agent.Base.{
  ℕ, ◌+◌, ◌*◌, String, Bool, List, [], ◌∷◌, if◌then◌else◌, leb, ltb, bytes_eq, Bytes, slice, Result,
  ok, err, guard, assertion, struct_error, ◌>>=◌, ◌>>◌,
}

-- What `zipfile` reports of an entry of the central directory.
pub record ZipEntry : Type 0 where
  pub filename : String
  pub header_offset : ℕ
  pub compress_size : ℕ

-- The tuple that `payloads` yields.
pub record Payload : Type 0 where
  pub name : String
  pub start : ℕ
  pub size : ℕ

-- A number of a JSON document, by what the test `isinstance(n, int)` and `0 <= n` see of it.
pub data Number : Type 0 where
  int_nat : ℕ → Number
  int_neg : ℕ → Number
  not_int : Number

-- An item of `plan['spans']`: a list of two numbers, or a base64 text.
pub data Span : Type 0 where
  copy : Number → Number → Span
  text : List ℕ → Span

-- The document that `create` writes and `apply` reads.
pub record Plan : Type 0 where
  pub old : String
  pub new : String
  pub size : ℕ
  pub spans : List Span

-- b'PK\x03\x04'
abbrev pub local_magic : Bytes
local_magic = 0x50 ∷ 0x4b ∷ 3 ∷ 4 ∷ []

-- `struct.unpack` with the format '<HH'
unpack_shorts : Bytes → Result (ℕ × ℕ)
unpack_shorts (a ∷ b ∷ c ∷ d ∷ []) = ok (a + 256 * b, c + 256 * d)
unpack_shorts _ = err (struct_error "unpack_from requires a buffer of at least 4 bytes")

payload : Bytes → ZipEntry → Result Payload
unfolding unpack_shorts
payload bytes entry = do
  let offset = entry.header_offset
  guard (bytes_eq (slice bytes offset (offset + 4)) local_magic) (assertion "")
  lengths ← unpack_shorts (slice bytes (offset + 26) (offset + 30))
  ok (record {
    name = entry.filename;
    start = offset + 30 + lengths.0 + lengths.1;
    size = entry.compress_size;
  })

-- A stable insertion: an equal entry that came earlier stays in front.
insert_entry : ZipEntry → List ZipEntry → List ZipEntry
insert_entry e [] = e ∷ []
insert_entry e (f ∷ fs) =
    if leb e.header_offset f.header_offset then e ∷ f ∷ fs else f ∷ insert_entry e fs

sort_entries : List ZipEntry → List ZipEntry
unfolding insert_entry
sort_entries [] = []
sort_entries (e ∷ es) = insert_entry e (sort_entries es)

payload_list : Bytes → List ZipEntry → Result (List Payload)
unfolding payload
payload_list bytes [] = ok []
payload_list bytes (e ∷ es) = do p ← payload bytes e; ps ← payload_list bytes es; ok (p ∷ ps)

-- The generator, run to its end.
unfoldable pub payloads : List ZipEntry → Bytes → Result (List Payload)
unfolding payload_list sort_entries
payloads entries bytes = payload_list bytes (sort_entries entries)
