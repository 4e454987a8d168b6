-- ===== src/Fedora/Staged.antt =====
-- What a staged image of scripts/prepare-fedora.py is checked to be.
use tiny_agent.Base.{
  String, ◌<>◌, ◌≡◌, subst, sym, ap, ◌∙◌, true, ◌&&◌, List, [], ◌∷◌, ◌==◌, str_eq, eq_iff, ==_iff,
  length, codes, Bytes, Result, ok, ok_injective, arith, assertion, >>=-ok, >>-ok, guard-ok,
  guard-eq-ok, &&_left, &&_right,
}
use tiny_agent.Json.{
  Json, natural, text, null, boolean, negative, array, object, value, no_values, values_list,
  characters, elements, index, json_eq, json_eq-text,
}
use tiny_agent.Fedora.{Member, safe_members}
use tiny_agent.Fedora.Safe.{IsSafe, safe_members-IsSafe}
use tiny_agent.Fedora.Image.{
  check_one, first_of, split_digest, Report, blob, document, read_image, check_platform, diff_ids,
  read_layer, stage,
}

too_long :
    (v w : Json) (rest items : List Json) → ok (v ∷ (w ∷ rest)) ≡ ok items → length items ≡ 1 → ⊥
too_long v w rest items e n =
    let l : length items ≡ length (v ∷ (w ∷ rest)) =
      ap length (sym (ok_injective (v ∷ (w ∷ rest)) items e)) in
    omega (arith, l, n)

-- The list has the one element.
check_one-one :
    (found item : Json)
    → check_one found ≡ ok tt
    → first_of found ≡ ok item
    → elements found ≡ ok (item ∷ [])
unfolding elements first_of
check_one-one found item h f = >>=-ok (elements found) _ h λ items e k.
    let n : length items ≡ 1 = (==_iff (length items) 1).0 (guard-eq-ok _ _ k) in
    e ∙ ap ok (go found items item e f n)
  where
    go :
        (found : Json) (items : List Json) (item : Json)
        → elements found ≡ ok items
        → first_of found ≡ ok item
        → length items ≡ 1
        → items ≡ item ∷ []
    go (array no_values) items item e f n = cc
    go (array (value v no_values)) items item e f n = cc
    go (array (value v (value w rest))) items item e f n =
        absurd (too_long v w (values_list rest) items e n)
    go (text String.[]) items item e f n = cc
    go (text (String.◌∷◌ c String.[])) items item e f n = cc
    go (text (String.◌∷◌ c (String.◌∷◌ d s))) items item e f n =
        absurd (too_long (text (String.◌∷◌ c "")) (text (String.◌∷◌ d "")) (characters s) items e n)
    go (object kvs) items item e f n = cc
    go null items item e f n = cc
    go (boolean b) items item e f n = cc
    go (natural b) items item e f n = cc
    go (negative b) items item e f n = cc

same_pair : (p q : Bytes × Report) → ◌≡◌ {A = Result (Bytes × Report)} (ok p) (ok q) → q ≡ p
same_pair p q h = cc

-- The one layer of a manifest, and the list of the one identity in a configuration.
pub record AreLayers (manifest config layer ids : Json) : Type 0 where
  pub layers : Json
  pub rootfs : Json
  pub listed : index manifest "layers" ≡ ok layers
  pub one_layer : elements layers ≡ ok (layer ∷ [])
  pub unpacked : index config "rootfs" ≡ ok rootfs
  pub identified : index rootfs "diff_ids" ≡ ok ids
  pub one_id : check_one ids ≡ ok tt
  pub compressed : index layer "mediaType" ≡ ok (text "application/vnd.oci.image.layer.v1.tar+gzip")

read_layer-AreLayers :
    (manifest config : Json) (found : Json × Json)
    → read_layer manifest config ≡ ok found
    → AreLayers manifest config found.0 found.1
unfolding read_layer
read_layer-AreLayers manifest config found h = >>=-ok (index manifest "layers") _ h λ layers e h1.
    >>-ok (check_one layers) _ h1 λ one h2. >>=-ok (diff_ids config) _ h2 λ ids d h3.
      >>=-ok (index config "rootfs") _ d λ rootfs e1 d1. >>-ok (check_one ids) _ h3 λ one_id h4.
        >>=-ok (first_of layers) _ h4 λ layer e2 h5.
          >>=-ok (index layer "mediaType") _ h5 λ media e3 h6.
            guard-ok (json_eq media (text "application/vnd.oci.image.layer.v1.tar+gzip"))
              (assertion "") _ h6
              λ m h7.
                let same : found ≡ (layer, ids) = cc in
                subst (λ p. AreLayers manifest config p.0 p.1) (sym same)
                  (record {
                    layers = layers;
                    rootfs = rootfs;
                    listed = e;
                    one_layer = check_one-one layers layer one e2;
                    unpacked = e1;
                    identified = d1;
                    one_id = one_id;
                    compressed = e3 ∙ ap ok (json_eq-text media _ m);
                  })

-- A configuration for Linux on ARM64.
pub record IsPlatform (config : Json) : Type 0 where
  pub architecture : index config "architecture" ≡ ok (text "arm64")
  pub os : index config "os" ≡ ok (text "linux")

check_platform-IsPlatform : (config : Json) → check_platform config ≡ ok tt → IsPlatform config
unfolding check_platform
check_platform-IsPlatform config h = >>=-ok (index config "architecture") _ h λ architecture e h1.
    guard-ok (json_eq architecture (text "arm64")) (assertion "") _ h1 λ a h2.
      >>=-ok (index config "os") _ h2 λ os e1 h3.
        let l = guard-eq-ok (json_eq os (text "linux")) _ h3 in
        record {
          architecture = e ∙ ap ok (json_eq-text architecture "arm64" a);
          os = e1 ∙ ap ok (json_eq-text os "linux" l);
        }

module _ (digest : Bytes → String) (extract : Bytes → String → Result Bytes)
    (loads : Bytes → Result Json) (decompress : Bytes → Result Bytes)
    (getmembers : Bytes → Result (List Member)) where
  -- The content is the one that the descriptor names by its digest, with its size.
  pub record IsBlob (image : Bytes) (descriptor : Json) (content : Bytes) : Type 0 where
    pub found : Json
    pub hex : String
    pub size : Json
    pub named : index descriptor "digest" ≡ ok found
    pub parted : split_digest found ≡ ok ("sha256", hex)
    pub long : length (codes hex) ≡ 64
    pub sized : index descriptor "size" ≡ ok size
    pub same_size : json_eq (natural (length content)) size ≡ true
    pub same_digest : digest content ≡ hex
    pub stored : extract image ("blobs/sha256/" <> hex) ≡ ok content

  blob-IsBlob :
      (image : Bytes) (descriptor : Json) (content : Bytes)
      → blob digest extract loads decompress getmembers image descriptor ≡ ok content
      → IsBlob image descriptor content
  unfolding blob
  blob-IsBlob image descriptor content h = >>=-ok (index descriptor "digest") _ h λ found e h1.
      >>=-ok (split_digest found) _ h1 λ named e1 h2.
        guard-ok (str_eq named.0 "sha256" && length (codes named.1) == 64) (assertion "") _ h2
          λ p h3. >>=-ok (extract image ("blobs/sha256/" <> named.1)) _ h3 λ read e2 h4.
            >>=-ok (index descriptor "size") _ h4 λ size e3 h5.
              guard-ok (json_eq (natural (length read)) size) (assertion "") _ h5 λ s h6.
                guard-ok (str_eq (digest read) named.1) (assertion "") _ h6 λ d h7.
                  let same : read ≡ content = cc in
                  let algorithm : named.0 ≡ "sha256" =
                    (eq_iff named.0 "sha256").0 (&&_left (str_eq named.0 "sha256") _ p) in
                  record {
                    found = found;
                    hex = named.1;
                    size = size;
                    named = e;
                    parted = e1 ∙ ap (λ a. ok (a, named.1)) algorithm;
                    long =
                        (==_iff (length (codes named.1)) 64).0
                          (&&_right (str_eq named.0 "sha256") _ p);
                    sized = e3;
                    same_size = ap (λ c. json_eq (natural (length c)) size) (sym same) ∙ s;
                    same_digest = ap digest (sym same) ∙ (eq_iff (digest read) named.1).0 d;
                    stored = e2 ∙ ap ok same;
                  }

  -- A document of the image, named by a descriptor.
  pub record IsDocument (image : Bytes) (descriptor parsed : Json) : Type 0 where
    pub content : Bytes
    pub is_blob : IsBlob image descriptor content
    pub loaded : loads content ≡ ok parsed

  document-IsDocument :
      (image : Bytes) (descriptor parsed : Json)
      → document digest extract loads decompress getmembers image descriptor ≡ ok parsed
      → IsDocument image descriptor parsed
  unfolding document
  document-IsDocument image descriptor parsed h =
      >>=-ok (blob digest extract loads decompress getmembers image descriptor) _ h λ content e h1.
        record { content = content; is_blob = blob-IsBlob image descriptor content e; loaded = h1 }

  -- From the image to its one manifest and the configuration.
  pub record AreDocuments (image : Bytes) (manifest config : Json) : Type 0 where
    pub listing : Bytes
    pub root : Json
    pub stored : extract image "index.json" ≡ ok listing
    pub parsed : loads listing ≡ ok root
    pub manifests : Json
    pub descriptor : Json
    pub config_descriptor : Json
    pub listed : index root "manifests" ≡ ok manifests
    pub one : elements manifests ≡ ok (descriptor ∷ [])
    pub is_manifest : IsDocument image descriptor manifest
    pub configured : index manifest "config" ≡ ok config_descriptor
    pub is_config : IsDocument image config_descriptor config

  read_image-AreDocuments :
      (image : Bytes) (documents : Json × Json)
      → read_image digest extract loads decompress getmembers image ≡ ok documents
      → AreDocuments image documents.0 documents.1
  unfolding read_image
  read_image-AreDocuments image documents h =
      >>=-ok (extract image "index.json") _ h λ listing e h1.
        >>=-ok (loads listing) _ h1 λ root e1 h2.
          >>=-ok (index root "manifests") _ h2 λ manifests e2 h3.
            >>-ok (check_one manifests) _ h3 λ one h4.
              >>=-ok (first_of manifests) _ h4 λ descriptor e3 h5.
                >>=-ok (document digest extract loads decompress getmembers image descriptor) _ h5
                  λ manifest e4 h6. >>=-ok (index manifest "config") _ h6 λ config_descriptor e5 h7.
                    >>=-ok
                      (document digest extract loads decompress getmembers image config_descriptor)
                      _ h7
                      λ config e6 h8.
                        let same : documents ≡ (manifest, config) = cc in
                        subst (λ p. AreDocuments image p.0 p.1) (sym same)
                          (record {
                            listing = listing;
                            root = root;
                            stored = e;
                            parsed = e1;
                            manifests = manifests;
                            descriptor = descriptor;
                            config_descriptor = config_descriptor;
                            listed = e2;
                            one = check_one-one manifests descriptor one e3;
                            is_manifest = document-IsDocument image descriptor manifest e4;
                            configured = e5;
                            is_config = document-IsDocument image config_descriptor config e6;
                          })

  -- What is known of a staged layer.
  pub record IsStaged (pin : String) (image compressed : Bytes) (report : Report) : Type 0 where
    pub manifest : Json
    pub config : Json
    pub ids : Json
    pub layer : Json
    pub id : Json
    pub raw : Bytes
    pub members : List Member
    pub pinned : digest image ≡ pin
    pub documents : AreDocuments image manifest config
    pub platform : IsPlatform config
    pub layers : AreLayers manifest config layer ids
    pub is_blob : IsBlob image layer compressed
    pub unpacked : decompress compressed ≡ ok raw
    pub is_id : first_of ids ≡ ok id
    pub same_id : json_eq (text ("sha256:" <> digest raw)) id ≡ true
    pub listed : getmembers raw ≡ ok members
    pub safe : IsSafe members
    pub counted : report.members ≡ length members
    pub measured : report.rootfs_bytes ≡ length raw

  -- A layer that is staged comes from the pinned image, by a chain of digests over its one
  -- manifest, whose configuration is for the platform; it is stored as it was compressed; what
  -- it decompresses to has the identity that the configuration names, and its members are
  -- safe to unpack. The report has their number and the number of bytes.
  pub stage-IsStaged :
      (pin : String) (image compressed : Bytes) (report : Report)
      → stage digest extract loads decompress getmembers pin image ≡ ok (compressed, report)
      → IsStaged pin image compressed report
  unfolding stage
  stage-IsStaged pin image compressed report h =
      guard-ok (str_eq (digest image) pin) (assertion "Fedora checksum mismatch") _ h λ p h1.
        >>=-ok (read_image digest extract loads decompress getmembers image) _ h1 λ documents d h2.
          >>-ok (check_platform documents.1) _ h2 λ platform h3.
            >>=-ok (read_layer documents.0 documents.1) _ h3 λ layer l h4.
              >>=-ok (blob digest extract loads decompress getmembers image layer.0) _ h4
                λ found b h5. >>=-ok (decompress found) _ h5 λ raw r h6.
                  >>=-ok (first_of layer.1) _ h6 λ id i h7.
                    guard-ok (json_eq (text ("sha256:" <> digest raw)) id) (assertion "") _ h7
                      λ same h8. >>=-ok (getmembers raw) _ h8 λ members m h9.
                        >>-ok (safe_members members) _ h9 λ safe h10.
                          >>=-ok (index layer.0 "digest") _ h10 λ layer_sha256 s h11.
                            let whole = same_pair _ (compressed, report) h11 in
                            let same_content : compressed ≡ found = ap (λ p. p.0) whole in
                            record {
                              manifest = documents.0;
                              config = documents.1;
                              ids = layer.1;
                              layer = layer.0;
                              id = id;
                              raw = raw;
                              members = members;
                              pinned = (eq_iff (digest image) pin).0 p;
                              documents = read_image-AreDocuments image documents d;
                              platform = check_platform-IsPlatform documents.1 platform;
                              layers = read_layer-AreLayers documents.0 documents.1 layer l;
                              is_blob =
                                  blob-IsBlob image layer.0 compressed
                                    (b ∙ ap ok (sym same_content));
                              unpacked = ap decompress same_content ∙ r;
                              is_id = i;
                              same_id = same;
                              listed = m;
                              safe = safe_members-IsSafe members safe;
                              counted = ap (λ (q : Bytes × Report). q.1.members) whole;
                              measured = ap (λ (q : Bytes × Report). q.1.rootfs_bytes) whole;
                            }
