-- ===== src/Sdk/Provenance.antt =====
-- What it means that scripts/prepare-android-sdk-fedora.py returns.
use tiny_agent.Base.{
  ◌≡◌, sym, ap, ◌∙◌, subst, String, true, Option, some, List, [], ◌∷◌, str_eq, eq_iff, length,
  Bytes, Result, ok, assertion, some_injective,
}
use tiny_agent.Json.{Json, array, values_of}
use tiny_agent.Upstream.{Body}
use tiny_agent.Host.{Host, Exec, ◌>>◌, require, call, for_each}
use tiny_agent.Host.Rules.{
  bind-ok, then-ok, require-ok, require-end, read-ok, pure-ok, AreRounds, for_each-AreRounds,
  put-same,
}
use tiny_agent.Sdk.{download_file}
use tiny_agent.Sdk.Unpack.{Tree, ZipMember}
use tiny_agent.Sdk.Prepare.{
  Pin, Site, is_local, open_url, unpack_at, provenance_of, prepare_pin, prepare_inputs,
}
use tiny_agent.Sdk.Verified.{download_file-HasDigest}

module _ (digest : String → Bytes → String) {N : Type 0} (urlopen : String → N → Result Body × N)
    (extractall : Bytes → Result Tree) (infolist : Bytes → Result (List ZipMember))
    (dumps : Json → Bytes) (provider : Option String) (machine : String)
    (flock : Site N → Result (Unit {0}) × Site N) where
  -- An entry of the report: it has the digest of a content with the size and the digest of the pin.
  abbrev pub IsProvenance : Pin → Json → Type 0
  IsProvenance pin entry =
      (content : Bytes) × (length content ≡ pin.size)
      × (digest pin.algorithm content ≡ pin.expected)
      × (entry
          ≡ provenance_of digest urlopen extractall infolist dumps provider machine flock pin
              content)

  prepare_pin-IsProvenance :
      (pin : Pin) (entry : Json) (host after : Host (Site N))
      → prepare_pin digest urlopen extractall infolist dumps provider machine flock pin host
        ≡ (ok entry, after)
      → IsProvenance pin entry
  unfolding prepare_pin
  prepare_pin-IsProvenance pin entry host after h =
      let open_pin = open_url digest urlopen extractall infolist dumps provider machine flock in
      let place_pin =
        unpack_at digest urlopen extractall infolist dumps provider machine flock pin.name in
      let record_pin =
        provenance_of digest urlopen extractall infolist dumps provider machine flock pin in
      then-ok
        (download_file digest open_pin pin.url (pin.name ∷ []) pin.algorithm pin.expected pin.size)
        _ host h
        λ between e h1. read-ok (pin.name ∷ []) _ between h1 λ content f h2.
          then-ok (call (place_pin content)) _ between h2 λ last _ h3.
            let (found, g, l, d) =
              download_file-HasDigest digest open_pin pin.algorithm pin.expected pin.size pin.name
                [] pin.url host between e in
            let same : found ≡ content = some_injective found content (sym g ∙ f) in
            (
              content,
              ap length (sym same) ∙ l,
              ap (digest pin.algorithm) (sym same) ∙ d,
              sym (pure-ok (record_pin content) entry last after h3).0,
            )

  -- A preparation that returns has run on the local provider and an ARM machine, and has written
  -- a report with an entry for each pin: the digest of a content of the pinned size and digest.
  pub prepare_inputs-AreRounds :
      (pins : List Pin) (host after : Host (Site N))
      → prepare_inputs digest urlopen extractall infolist dumps provider machine flock pins host
        ≡ (ok tt, after)
      → (is_local provider ≡ true)
        × (machine ≡ "aarch64")
        × ((report : List Json) × (after.files ("provenance.json" ∷ [])
              ≡ some (dumps (array (values_of report))))
            × AreRounds IsProvenance pins report)
  unfolding prepare_inputs
  prepare_inputs-AreRounds pins host after h =
      let guards : Exec (Site N) (Unit {0}) =
        require (is_local provider) (assertion "")
        >> require (str_eq machine "aarch64") (assertion "") in
      let pin_round = prepare_pin digest urlopen extractall infolist dumps provider machine flock in
      then-ok (guards >> call flock) _ host h λ between e k.
        then-ok guards (call flock) host e λ checked g _.
          require-ok (is_local provider) (assertion "") _ host g λ local g1.
            let (arm, _) = require-end (str_eq machine "aarch64") (assertion "") host checked g1 in
            bind-ok (for_each pin_round pins) _ between k λ report last r w. (
              local,
              (eq_iff machine "aarch64").0 arm,
              (
                report,
                subst
                    (λ (f : Host (Site N)).
                      f.files ("provenance.json" ∷ []) ≡ some (dumps (array (values_of report))))
                    (ap (λ (p : Result (Unit {0}) × Host (Site N)). p.1) w)
                    (put-same ("provenance.json" ∷ []) (some (dumps (array (values_of report))))
                      last.files),
                for_each-AreRounds IsProvenance pin_round prepare_pin-IsProvenance pins report
                    between last r,
              ),
            )
