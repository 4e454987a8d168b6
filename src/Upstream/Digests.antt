-- ===== src/Upstream/Digests.antt =====
-- The digests that scripts/collect_upstream.py reads.
use tiny_agent.Base.{
  split, strip_prefix, codes, is_hex_text, ◌≡◌, subst, String, ◌<>◌, true, false, Option, none,
  some, List, [], ◌∷◌, str_eq, eq_iff, Bool-cases, inl, inr, ok, All, arith,
}
use tiny_agent.Json.{Json, null, boolean, natural, negative, array, text, object, find}
use tiny_agent.Upstream.{differs}
use tiny_agent.Upstream.Checks.{
  digest_of, entry, add_entry, entries, only_entry, checksum_for, match_digest, hex_of,
  asset_digest,
}

pub ok_eq : {A : Type 0} (a b : A) → ok a ≡ ok b → b ≡ a
ok_eq a b h = cc

abbrev pub IsDigest : String → Type 0
IsDigest hex = is_hex_text 64 (codes hex) ≡ true

-- A digest that is asked for is not empty, so the artifact has it.
pub differs-eq :
    (expected actual : String)
    → IsDigest expected
    → differs (some expected) actual ≡ false
    → actual ≡ expected
unfolding is_hex_text
differs-eq expected actual d h = elim (Bool-cases (str_eq expected "")) [
  | inl e ↦
      let empty : expected ≡ "" = (eq_iff expected "").0 e in
      let no : is_hex_text 64 (codes "") ≡ true =
        subst (λ s. is_hex_text 64 (codes s) ≡ true) empty d in
      cc
  | inr e ↦ (eq_iff actual expected).0 (ground arith)
]

only_entry-IsDigest :
    (found : List String) {hex : String}
    → All IsDigest found
    → only_entry found ≡ ok hex
    → IsDigest hex
only_entry-IsDigest [] a h = cc
only_entry-IsDigest (x ∷ []) (p, _) h = let e : x ≡ _ = cc in subst IsDigest e p
only_entry-IsDigest (x ∷ y ∷ rest) a h = cc

add_entry-IsDigest :
    (o : Option String) (found : List String)
    → All IsDigest found
    → All IsDigest (add_entry (digest_of o) found)
add_entry-IsDigest none found h = h
add_entry-IsDigest (some hex) found h = elim (Bool-cases (is_hex_text 64 (codes hex))) [
  | inl e ↦ rw e (e, h)
  | inr e ↦ rw e h
]

entries-IsDigest : (filename : String) (lines : List String) → All IsDigest (entries filename lines)
unfolding entries entry
entries-IsDigest filename [] = tt
entries-IsDigest filename (line ∷ rest) =
    add_entry-IsDigest (strip_prefix ("SHA256 (" <> (filename <> ") = ")) line)
      (entries filename rest) (entries-IsDigest filename rest)

pub checksum_for-IsDigest :
    (content filename : String) {hex : String}
    → checksum_for content filename ≡ ok hex
    → IsDigest hex
unfolding checksum_for
checksum_for-IsDigest content filename h =
    only_entry-IsDigest (entries filename (split b'\n' content))
      (entries-IsDigest filename (split b'\n' content)) h

match_digest-IsDigest :
    (found : Option String) (hex : String) → match_digest found ≡ ok hex → IsDigest hex
match_digest-IsDigest none hex h = cc
match_digest-IsDigest (some s) hex h = elim (Bool-cases (is_hex_text 64 (codes s))) [
  | inl e ↦ let same : s ≡ hex = ground (arith, e) in subst IsDigest same e
  | inr e ↦ ground (arith, e)
]

hex_of-IsDigest : (found : Option Json) (hex : String) → hex_of found ≡ ok hex → IsDigest hex
hex_of-IsDigest none hex h = cc
hex_of-IsDigest (some (text s)) hex h = match_digest-IsDigest (strip_prefix "sha256:" s) hex h
hex_of-IsDigest (some null) hex h = cc
hex_of-IsDigest (some (boolean b)) hex h = cc
hex_of-IsDigest (some (natural n)) hex h = cc
hex_of-IsDigest (some (negative n)) hex h = cc
hex_of-IsDigest (some (array xs)) hex h = cc
hex_of-IsDigest (some (object kvs)) hex h = cc

pub asset_digest-IsDigest :
    (asset : Json) (hex : String) → asset_digest asset ≡ ok hex → IsDigest hex
unfolding asset_digest
asset_digest-IsDigest (object kvs) hex h = hex_of-IsDigest (find "digest" kvs) hex h
asset_digest-IsDigest null hex h = cc
asset_digest-IsDigest (boolean b) hex h = cc
asset_digest-IsDigest (natural n) hex h = cc
asset_digest-IsDigest (negative n) hex h = cc
asset_digest-IsDigest (text s) hex h = cc
asset_digest-IsDigest (array xs) hex h = cc
