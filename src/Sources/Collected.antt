-- ===== src/Sources/Collected.antt =====
-- What it means that scripts/collect-proot-sources.py returns.
use tiny_agent.Base.{
  ℕ, suc, ◌≡◌, refl, ap, subst, String, ◌<>◌, true, ◌&&◌, some, List, [], ◌∷◌, Bytes, Result, ok,
  assertion, >>=-ok, if◌then◌else◌, ends_with, codes,
}
use tiny_agent.Json.{Json}
use tiny_agent.Host.{Host, ◌>>=◌, ◌>>◌, require, exists, write, for_each}
use tiny_agent.Host.Rules.{
  bind-ok, then-ok, require-ok, lift-ok, pure-ok, AreRounds, for_each-AreRounds, put-same,
}
use tiny_agent.Sources.{Page, Source, fetch}
use tiny_agent.Sources.Notices.{Entry, Notice, archive_notices, notice_file}
use tiny_agent.Sources.Collect.{
  Pin, Record, out, license, report_json, store_notices, is_nonempty, collect_source, copy_notices,
  copy_bundled, collect_license, collect_sources, termux_revision, bytes_in,
}
use tiny_agent.Sources.Verified.{AreNamed, find_notices-AreNamed, IsFetched, fetch-IsFetched}

module _ (digest : Bytes → String) {W : Type 0} (urlopen : String → ℕ → W → Result Page × W)
    (unzip : Bytes → Result (List Entry)) (untar : Bytes → Result (List Entry))
    (dumps : Json → Bytes) where
  -- The record of a notice is of what was found.
  abbrev pub IsStored : String × Bytes → Notice → Type 0
  IsStored found notice = (notice.source_member ≡ found.0) × (notice.sha256 ≡ digest found.1)

  store_notices-AreRounds :
      (name : String) (index : ℕ) (found : List (String × Bytes)) (notices : List Notice)
      (host after : Host W)
      → store_notices digest urlopen unzip untar dumps name index found host ≡ (ok notices, after)
      → AreRounds IsStored found notices
  unfolding store_notices
  store_notices-AreRounds name index [] notices host after h =
      subst (AreRounds IsStored []) (pure-ok [] notices host after h).0 tt
  store_notices-AreRounds name index ((member, content) ∷ rest) notices host after h =
      then-ok (write (out (notice_file name index)) content) _ host h λ between _ h1.
        bind-ok (store_notices digest urlopen unzip untar dumps name (suc index) rest) _ between h1
          λ more last m h2.
            subst (AreRounds IsStored ((member, content) ∷ rest))
              (pure-ok
                (record {
                  source_member = member;
                  file = notice_file name index;
                  sha256 = digest content;
                }
                  ∷ more)
                notices last after h2).0
              ((refl, refl), store_notices-AreRounds name (suc index) rest more between last m)

  -- The record of a source: it is of a content with the pinned digest, and has the notices that were found in it,
  -- at least one.
  abbrev pub IsRecord : Pin → Record → Type 0
  IsRecord pin (source, notices) =
      (content : Bytes) × (found : List (String × Bytes)) × IsFetched digest urlopen pin.url
        (out pin.name) pin.expected content source
      × (archive_notices unzip untar pin.name content ≡ ok found)
      × AreNamed found
      × (is_nonempty found ≡ true)
      × AreRounds IsStored found notices

  archive_notices-AreNamed :
      (name : String) (content : Bytes) (found : List (String × Bytes))
      → archive_notices unzip untar name content ≡ ok found
      → AreNamed found
  unfolding archive_notices
  archive_notices-AreNamed name content found h =
      >>=-ok (if ends_with name ".zip" then unzip content else untar content) _ h
        λ entries _ k. find_notices-AreNamed entries found k

  collect_source-IsRecord :
      (pin : Pin) (found : Record) (host after : Host W)
      → collect_source digest urlopen unzip untar dumps pin host ≡ (ok found, after)
      → IsRecord pin found
  unfolding collect_source
  collect_source-IsRecord pin found host after h =
      bind-ok (fetch digest urlopen pin.url (out pin.name) (some pin.expected)) _ host h
        λ fetched between f h1.
          lift-ok (archive_notices unzip untar pin.name fetched.0) _ between h1 λ notices a h2.
            require-ok (is_nonempty notices) (assertion ("No notices found in " <> pin.name)) _
              between h2
              λ n h3.
                bind-ok (store_notices digest urlopen unzip untar dumps pin.name 0 notices) _
                  between h3
                  λ stored last s h4.
                    subst (IsRecord pin) (pure-ok (fetched.1, stored) found last after h4).0 (
                      fetched.0,
                      notices,
                      fetch-IsFetched digest urlopen pin.url (out pin.name) pin.expected host
                          between fetched.0 fetched.1 f,
                      a,
                      archive_notices-AreNamed pin.name fetched.0 notices a,
                      n,
                      store_notices-AreRounds pin.name 0 notices stored between last s,
                    )

  -- The licence: it was fetched with its pinned digest, and has the two texts in it.
  abbrev pub IsLicense : Source → Type 0
  IsLicense source =
      (content : Bytes) × IsFetched digest urlopen "https://www.gnu.org/licenses/gpl-3.0.txt"
        (out "GPL-3.0.txt") "3972dc9744f6499f0f9b2dbf76696f2ae7ad8af9b23dde66d6af86c9dfb36986"
        content source
      × ((bytes_in (codes "GNU GENERAL PUBLIC LICENSE") content
            && bytes_in (codes "Version 3") content)
          ≡ true)

  collect_license-IsLicense :
      (source : Source) (host after : Host W)
      → collect_license digest urlopen unzip untar dumps host ≡ (ok source, after)
      → IsLicense source
  unfolding collect_license
  collect_license-IsLicense source host after h =
      then-ok
        (exists (out "GPL-3.0.txt") >>= (λ cached.
          exists (license "GPL-3.0.txt") >>= copy_bundled digest urlopen unzip untar dumps cached))
        _ host h
        λ between _ h1.
          bind-ok
            (fetch digest urlopen "https://www.gnu.org/licenses/gpl-3.0.txt" (out "GPL-3.0.txt")
              (some "3972dc9744f6499f0f9b2dbf76696f2ae7ad8af9b23dde66d6af86c9dfb36986"))
            _ between h1
            λ gpl last f h2.
              then-ok
                (require
                    (bytes_in (codes "GNU GENERAL PUBLIC LICENSE") gpl.0
                      && bytes_in (codes "Version 3") gpl.0)
                    (assertion "")
                  >> write (license "GPL-3.0.txt") gpl.0)
                _ last h2
                λ final w h3.
                  require-ok
                    (bytes_in (codes "GNU GENERAL PUBLIC LICENSE") gpl.0
                      && bytes_in (codes "Version 3") gpl.0)
                    (assertion "") _ last w
                    λ t _. subst IsLicense (pure-ok gpl.1 source final after h3).0 (
                      gpl.0,
                      fetch-IsFetched digest urlopen "https://www.gnu.org/licenses/gpl-3.0.txt"
                          (out "GPL-3.0.txt")
                          "3972dc9744f6499f0f9b2dbf76696f2ae7ad8af9b23dde66d6af86c9dfb36986" between
                          last gpl.0 gpl.1 f,
                      t,
                    )

  -- A collection that returns has written a report with a record for each pin: it is of a content with the
  -- pinned digest, and lists the notices that were found in the archive, by name and digest, of which there is at least
  -- one; the additional licence has its pinned digest and the two texts, and the recipes have theirs.
  pub collect_sources-AreRounds :
      (pins : List Pin) (host after : Host W)
      → collect_sources digest urlopen unzip untar dumps pins host ≡ (ok tt, after)
      → (records : List Record) × (gpl : Source) × (recipe : Source) × (content : Bytes)
        × (after.files ("evidence" ∷ "native-source-collection.json" ∷ [])
            ≡ some (dumps (report_json records gpl recipe)))
        × AreRounds IsRecord pins records
        × IsLicense gpl
        × IsFetched digest urlopen
            ("https://github.com/termux/termux-packages/archive/" <> (termux_revision <> ".tar.gz"))
            (out ("termux-packages-" <> (termux_revision <> ".tar.gz")))
            "10f95083c4f8444d412adfbe36d6cd2439e6a771fa72ebaa0873f92488489741"
            content
            recipe
  unfolding collect_sources
  collect_sources-AreRounds pins host after h =
      bind-ok (for_each (collect_source digest urlopen unzip untar dumps) pins) _ host h
        λ records s1 r h1.
          bind-ok (for_each (copy_notices digest urlopen unzip untar dumps) records) _ s1 h1
            λ _ s2 _ h2.
              bind-ok (collect_license digest urlopen unzip untar dumps) _ s2 h2 λ gpl s3 g h3.
                bind-ok
                  (fetch digest urlopen
                    ("https://github.com/termux/termux-packages/archive/"
                      <> (termux_revision <> ".tar.gz"))
                    (out ("termux-packages-" <> (termux_revision <> ".tar.gz")))
                    (some "10f95083c4f8444d412adfbe36d6cd2439e6a771fa72ebaa0873f92488489741"))
                  _ s3 h3
                  λ recipe s4 f w. (
                    records,
                    gpl,
                    recipe.1,
                    recipe.0,
                    subst
                        (λ (k : Host W).
                          k.files ("evidence" ∷ "native-source-collection.json" ∷ [])
                          ≡ some (dumps (report_json records gpl recipe.1)))
                        (ap (λ (p : Result (Unit {0}) × Host W). p.1) w)
                        (put-same ("evidence" ∷ "native-source-collection.json" ∷ [])
                          (some (dumps (report_json records gpl recipe.1))) s4.files),
                    for_each-AreRounds IsRecord (collect_source digest urlopen unzip untar dumps)
                        collect_source-IsRecord pins records host s1 r,
                    collect_license-IsLicense gpl s2 s3 g,
                    fetch-IsFetched digest urlopen _ _ _ s3 s4 recipe.0 recipe.1 f,
                  )
