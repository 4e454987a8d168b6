-- ===== src/Fedora/Image.antt =====
-- `main` of scripts/prepare-fedora.py
use tiny_agent.Base.{
  split, ℕ, String, ◌<>◌, ◌&&◌, List, [], ◌∷◌, ◌==◌, str_eq, length, codes, Bytes, Result, ok, err,
  guard, assertion, value_error, key_error, type_error, index_error, attribute_error, ◌>>=◌, ◌>>◌,
}
use tiny_agent.Json.{
  Json, natural, text, array, object, value, no_values, characters, index, elements, json_eq,
}
use tiny_agent.Fedora.{Member, safe_members}

-- `assert len(found) == 1`
abbrev pub check_one : Json → Result (Unit {0})
check_one found = elements found >>= λ items. guard (length items == 1) (assertion "")

abbrev pub head_of : List Json → Result Json
head_of [] = err (index_error "index out of range")
head_of (v ∷ vs) = ok v

-- `found[0]`
unfoldable pub first_of : Json → Result Json
first_of (array no_values) = err (index_error "list index out of range")
first_of (array (value v rest)) = ok v
first_of (text s) = head_of (characters s)
first_of (object found) = err (key_error "0")
first_of _ = err (type_error "object is not subscriptable")

-- `found.split(':')` and the assignment to two names
abbrev pub two_of : List String → Result (String × String)
two_of (a ∷ b ∷ []) = ok (a, b)
two_of _ = err (value_error "not enough or too many values to unpack")

unfoldable pub split_digest : Json → Result (String × String)
split_digest (text s) = two_of (split b':' s)
split_digest _ = err (attribute_error "split")

pub record Report : Type 0 where
  pub source_sha256 : String
  pub layer_sha256 : Json
  pub diff_id : Json
  pub members : ℕ
  pub rootfs_bytes : ℕ

unfoldable pub check_platform : Json → Result (Unit {0})
unfolding index json_eq
check_platform config = do
  architecture ← index config "architecture"
  guard (json_eq architecture (text "arm64")) (assertion "")
  os ← index config "os"
  guard (json_eq os (text "linux")) (assertion "")

-- `config['rootfs']['diff_ids']`
abbrev pub diff_ids : Json → Result Json
diff_ids config = index config "rootfs" >>= λ rootfs. index rootfs "diff_ids"

-- The descriptor of the one layer, and its digest unpacked.
unfoldable pub read_layer : Json → Json → Result (Json × Json)
unfolding index first_of elements json_eq
read_layer manifest config = do
  layers ← index manifest "layers"
  check_one layers
  ids ← diff_ids config
  check_one ids
  descriptor ← first_of layers
  media ← index descriptor "mediaType"
  guard (json_eq media (text "application/vnd.oci.image.layer.v1.tar+gzip")) (assertion "")
  ok (descriptor, ids)

-- `hashlib.sha256(…).hexdigest()`, a file of the image's archive, `json.loads`, `gzip.decompress`,
-- and the members of a layer.
module _ (digest : Bytes → String) (extract : Bytes → String → Result Bytes)
    (loads : Bytes → Result Json) (decompress : Bytes → Result Bytes)
    (getmembers : Bytes → Result (List Member)) where
  unfoldable pub blob : Bytes → Json → Result Bytes
  unfolding index split_digest json_eq
  blob image descriptor = do
    found ← index descriptor "digest"
    named ← split_digest found
    guard (str_eq named.0 "sha256" && length (codes named.1) == 64) (assertion "")
    content ← extract image ("blobs/sha256/" <> named.1)
    size ← index descriptor "size"
    guard (json_eq (natural (length content)) size) (assertion "")
    guard (str_eq (digest content) named.1) (assertion "")
    ok content

  -- A document behind a descriptor.
  unfoldable pub document : Bytes → Json → Result Json
  unfolding blob
  document image descriptor = do content ← blob image descriptor; loads content

  -- `manifest` and `config`
  unfoldable pub read_image : Bytes → Result (Json × Json)
  unfolding document index elements first_of
  read_image image = do
    listing ← extract image "index.json"
    root ← loads listing
    manifests ← index root "manifests"
    check_one manifests
    descriptor ← first_of manifests
    manifest ← document image descriptor
    config_descriptor ← index manifest "config"
    config ← document image config_descriptor
    ok (manifest, config)

  -- What is written: the layer as it was compressed, and the report.
  unfoldable pub stage : String → Bytes → Result (Bytes × Report)
  unfolding read_image check_platform read_layer blob first_of json_eq safe_members index
  stage pin image = do
    guard (str_eq (digest image) pin) (assertion "Fedora checksum mismatch")
    documents ← read_image image
    check_platform documents.1
    layer ← read_layer documents.0 documents.1
    compressed ← blob image layer.0
    raw ← decompress compressed
    diff_id ← first_of layer.1
    guard (json_eq (text ("sha256:" <> digest raw)) diff_id) (assertion "")
    members ← getmembers raw
    safe_members members
    layer_sha256 ← index layer.0 "digest"
    ok (
      compressed,
      record {
        source_sha256 = pin;
        layer_sha256 = layer_sha256;
        diff_id = diff_id;
        members = length members;
        rootfs_bytes = length raw;
      },
    )
