-- ===== src/SourceRpms/Collected.antt =====
-- What it means that scripts/collect-dnfast-library-sources.py returns.
use tiny_agent.Base.{
  ◌≡◌, refl, sym, ap, ◌∙◌, subst, String, true, none, some, List, [], Bytes, Exception, Result, ok,
  some_injective, Option, is_some,
}
use tiny_agent.Json.{Json, array, no_values, index}
use tiny_agent.Host.{Files, Host, ◌>>=◌, exists}
use tiny_agent.Host.Rules.{bind-ok, lift-ok, read-ok, pure-ok, lift-end, AreRounds}
use tiny_agent.Upstream.{Body}
use tiny_agent.SourceRpms.{Known, extend, keyed_rows, wanted_names, Row, has_digest, report_json}
use tiny_agent.SourceRpms.Run
use tiny_agent.SourceRpms.Rounds.{IsRecorded, rounds-end}

module _ (digest : Bytes → String) (message : Exception → String) {W : Type 0}
    (urlopen : String → W → Result Body × W) (loads : Bytes → Result Json)
    (dumps : Json → Bytes) where
  -- The sources of the receipt that is there.
  abbrev pub AreSources : Option Bytes → Json → Type 0
  AreSources none sources = sources ≡ array no_values
  AreSources (some content) sources =
      (receipt : Json) × (loads content ≡ ok receipt) × (index receipt "sources" ≡ ok sources)

  -- The rows that are known, of the receipt and of the additional packages.
  pub record AreKnown (files : Files) (known : Known) : Type 0 where
    pub sources : Json
    pub more : Bytes
    pub additional : Json
    pub rows : List Json
    pub received : AreSources (files Run.receipt_path) sources
    pub stands : files Run.additional_path ≡ some more
    pub loaded : loads more ≡ ok additional
    pub extended : extend sources additional ≡ ok rows
    pub keyed : keyed_rows rows ≡ ok known

  known_sources-AreSources :
      (sources : Json) (host after : Host W)
      → (exists Run.receipt_path >>= Run.known_sources digest message urlopen loads dumps) host
        ≡ (ok sources, after)
      → AreSources (host.files Run.receipt_path) sources × (host ≡ after)
  known_sources-AreSources sources host after h = go (host.files Run.receipt_path) refl h
    where
      go :
          (found : Option Bytes)
          → host.files Run.receipt_path ≡ found
          → Run.known_sources digest message urlopen loads dumps (is_some found) host
            ≡ (ok sources, after)
          → AreSources found sources × (host ≡ after)
      go none e k =
          let (same, still) = pure-ok (array no_values) sources host after k in (sym same, still)
      go (some content) e k = read-ok Run.receipt_path _ host k λ stored r k1.
          lift-ok (loads stored) _ host k1 λ receipt l k2.
            let (found, still) = lift-end (index receipt "sources") sources host after k2 in
            ((receipt, ap loads (some_injective content stored (sym e ∙ r)) ∙ l, found), still)

  -- When the program returns, there is a row for each of the packages that were asked for, in their order, and the receipt that is written holds these
  -- rows. Each row is about its package, which has a safe name, and has its address; the file that stands under the name has the
  -- digest and the size of the row, and agrees with what is known of the package.
  pub collect-AreRounds :
      (host after : Host W)
      → Run.collect digest message urlopen loads dumps host ≡ (ok tt, after)
      → (content : Bytes) × (document : Json) × (packages : Json) × (wanted : List String)
        × (known : Known) × (records : List Row) × (host.files Run.notices_path ≡ some content)
        × (loads content ≡ ok document)
        × (index document "packages" ≡ ok packages)
        × (wanted_names packages ≡ ok wanted)
        × AreKnown host.files known
        × AreRounds
            (λ name row.
              (has_digest row ≡ true)
              × IsRecorded digest message urlopen loads dumps known after.files name row)
            wanted
            records
        × (after.files Run.receipt_path ≡ some (dumps (report_json wanted records)))
  unfolding Run.collect
  collect-AreRounds host after h = read-ok Run.notices_path _ host h λ content r h1.
      lift-ok (loads content) _ host h1 λ document l h2.
        lift-ok (index document "packages") _ host h2 λ packages i h3.
          bind-ok (exists Run.receipt_path >>= Run.known_sources digest message urlopen loads dumps)
            _ host h3
            λ sources between s h4.
              let (received, still) = known_sources-AreSources sources host between s in
              read-ok Run.additional_path _ between h4 λ more m h5.
                lift-ok (loads more) _ between h5 λ additional a h6.
                  lift-ok (extend sources additional) _ between h6 λ rows x h7.
                    lift-ok (keyed_rows rows) _ between h7 λ known k h8.
                      lift-ok (wanted_names packages) _ between h8 λ wanted w h9.
                        bind-ok
                          (Run.collect_rpms digest message urlopen loads dumps wanted known []
                            wanted)
                          _ between h9
                          λ records last c h10.
                            let (checked, ended) =
                              lift-end
                                (Run.check_report digest message urlopen loads dumps wanted records)
                                tt last after h10 in
                            let (rounds, file) =
                              rounds-end digest message urlopen loads dumps wanted known records
                                between last packages w c checked in
                            (
                              content,
                              document,
                              packages,
                              wanted,
                              known,
                              records,
                              r,
                              l,
                              i,
                              w,
                              record {
                                sources = sources;
                                more = more;
                                additional = additional;
                                rows = rows;
                                received = received;
                                stands = ap (λ (p : Host W). p.files Run.additional_path) still ∙ m;
                                loaded = a;
                                extended = x;
                                keyed = k;
                              },
                              subst
                                  (λ (p : Host W).
                                    AreRounds
                                      (λ name row.
                                        (has_digest row ≡ true)
                                        × IsRecorded digest message urlopen loads dumps known
                                            p.files name row)
                                      wanted records)
                                  ended rounds,
                              subst
                                  (λ (p : Host W).
                                    p.files Run.receipt_path
                                    ≡ some (dumps (report_json wanted records)))
                                  ended file,
                            )
