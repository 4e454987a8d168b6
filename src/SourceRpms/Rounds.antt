-- ===== src/SourceRpms/Rounds.antt =====
-- The rounds of scripts/collect-dnfast-library-sources.py
use tiny_agent.Base.{
  ◌≡◌, refl, sym, ap, ◌∙◌, subst, String, Bool, true, false, &&_left, &&_right, some, List, [], ◌∷◌,
  ◌++◌, append_assoc', append-nil', All, All-map, Bytes, Exception, Result, ok, err, length, >>=-ok,
  traverse, ok_injective, ◌==◌, path_eq, system_exit,
}
use tiny_agent.Json.{Json, elements}
use tiny_agent.Host.{Files, Host}
use tiny_agent.Host.Rules.{bind-ok, then-ok, pure-ok, AreRounds}
use tiny_agent.Staging.{publish}
use tiny_agent.Snapshot.Sets.{IsAscending, Below, sorted_set-IsAscending}
use tiny_agent.Snapshot.Order.{sorted_set}
use tiny_agent.Upstream.{Body}
use tiny_agent.SourceRpms.{
  is_source_rpm, rpm_file, Known, known_row, wanted_names, name_of, as_name, Row, has_digest,
  all_have_digests, is_complete, report_json,
}
use tiny_agent.SourceRpms.Run
use tiny_agent.SourceRpms.Names.{rpm_file-other}
use tiny_agent.SourceRpms.Stored.{IsStored, IsStored-later, IsAbout, collect_rpm-IsStored}
use tiny_agent.SourceRpms.Spared.{save-Spares, collect_rpms-Spares}

AreRounds-All :
    {A B : Type 0} (P : B → Type 0) (R : A → B → Type 0) (xs : List A) (ys : List B)
    → All P ys
    → AreRounds R xs ys
    → AreRounds (λ x y. P y × R x y) xs ys
AreRounds-All P R [] [] p r = tt
AreRounds-All P R (x ∷ xs) (y ∷ ys) (p, ps) (r, rs) = ((p, r), AreRounds-All P R xs ys ps rs)
AreRounds-All P R [] (y ∷ ys) p r = absurd r
AreRounds-All P R (x ∷ xs) [] p r = absurd r

all_have_digests-All :
    (rows : List Row) → all_have_digests rows ≡ true → All (λ row. has_digest row ≡ true) rows
unfolding all_have_digests
all_have_digests-All [] h = tt
all_have_digests-All (row ∷ rows) h = (
  &&_left (has_digest row) (all_have_digests rows) h,
  all_have_digests-All rows (&&_right (has_digest row) (all_have_digests rows) h),
)

wanted_names-IsAscending :
    (packages : Json) (wanted : List String)
    → wanted_names packages ≡ ok wanted
    → IsAscending wanted
unfolding wanted_names
wanted_names-IsAscending packages wanted h = >>=-ok (elements packages) _ h λ found _ h1.
    >>=-ok (traverse name_of found) _ h1 λ values _ h2.
      >>=-ok (traverse as_name values) _ h2 λ names _ h3.
        subst IsAscending (ok_injective (sorted_set names) wanted h3) (sorted_set-IsAscending names)

module _ (digest : Bytes → String) (message : Exception → String) {W : Type 0}
    (urlopen : String → W → Result Body × W) (loads : Bytes → Result Json)
    (dumps : Json → Bytes) where
  -- A row is about its package, which has a safe name, and about the file that stands there.
  abbrev pub IsRecorded : Known → Files → String → Row → Type 0
  IsRecorded known files name row =
      (is_source_rpm name ≡ true)
      × IsStored digest (known_row known name) files name row
      × IsAbout digest name row

  collect_rpms-AreRounds :
      (wanted : List String) (known : Known) (rows : List Row) (names : List String)
      (end : List Row) (host after : Host W)
      → IsAscending names
      → Run.collect_rpms digest message urlopen loads dumps wanted known rows names host
        ≡ (ok end, after)
      → (more : List Row) × (end ≡ rows ++ more)
        × AreRounds (IsRecorded known after.files) names more
  unfolding Run.collect_rpms
  collect_rpms-AreRounds wanted known rows [] end host after asc h =
      ([], sym (pure-ok rows end host after h).0 ∙ sym (append-nil' rows), tt)
  collect_rpms-AreRounds wanted known rows (name ∷ names) end host after (below, asc) h =
      bind-ok (Run.collect_rpm digest message urlopen loads dumps known name) _ host h
        λ row between c h1.
          then-ok (Run.save digest message urlopen loads dumps wanted (rows ++ (row ∷ []))) _
            between h1
            λ saved s h2.
              let (more, e, rounds) =
                collect_rpms-AreRounds wanted known (rows ++ (row ∷ [])) names end saved after asc
                  h2 in
              let (valid, stored, about) =
                collect_rpm-IsStored digest message urlopen loads dumps known name row host between
                  c in
              (
                row ∷ more,
                e ∙ append_assoc' rows (row ∷ []) more,
                (
                  (
                    valid,
                    IsStored-later digest (known_row known name) between.files after.files name row
                        (kept row between saved valid s h2) stored,
                    about,
                  ),
                  rounds,
                ),
              )
    where
      kept :
          (row : Row) (between saved : Host W)
          → is_source_rpm name ≡ true
          → Run.save digest message urlopen loads dumps wanted (rows ++ (row ∷ [])) between
            ≡ (ok tt, saved)
          → Run.collect_rpms digest message urlopen loads dumps wanted known
              (rows ++ (row ∷ []))
              names
              saved
            ≡ (ok end, after)
          → after.files (rpm_file name) ≡ between.files (rpm_file name)
      kept row between saved valid s h2 =
          ap (λ (p : Result (List Row) × Host W). p.1.files (rpm_file name)) (sym h2)
          ∙ (collect_rpms-Spares digest message urlopen loads dumps name valid wanted known
                (rows ++ (row ∷ [])) names
                (All-map (Below name) _ (λ other b. rpm_file-other other name b) names below) saved
              ∙ (ap (λ (p : Result (Unit {0}) × Host W). p.1.files (rpm_file name)) (sym s)
                  ∙ save-Spares digest message urlopen loads dumps name valid wanted
                      (rows ++ (row ∷ [])) between))

  save-file :
      (wanted : List String) (rows : List Row) (host after : Host W)
      → Run.save digest message urlopen loads dumps wanted rows host ≡ (ok tt, after)
      → after.files Run.receipt_path ≡ some (dumps (report_json wanted rows))
  unfolding Run.save publish path_eq
  save-file wanted rows host after h =
      ap (λ (p : Result (Unit {0}) × Host W). p.1.files Run.receipt_path) (sym h)

  collect_rpms-file :
      (wanted : List String) (known : Known) (rows : List Row) (names : List String)
      (end : List Row) (host after : Host W)
      → host.files Run.receipt_path ≡ some (dumps (report_json wanted rows))
      → Run.collect_rpms digest message urlopen loads dumps wanted known rows names host
        ≡ (ok end, after)
      → after.files Run.receipt_path ≡ some (dumps (report_json wanted end))
  unfolding Run.collect_rpms
  collect_rpms-file wanted known rows [] end host after r h =
      let (e, same) = pure-ok rows end host after h in
      subst (λ (p : Host W). p.files Run.receipt_path ≡ some (dumps (report_json wanted end))) same
        (subst (λ q. host.files Run.receipt_path ≡ some (dumps (report_json wanted q))) e r)
  collect_rpms-file wanted known rows (name ∷ names) end host after r h =
      bind-ok (Run.collect_rpm digest message urlopen loads dumps known name) _ host h
        λ row between c h1.
          then-ok (Run.save digest message urlopen loads dumps wanted (rows ++ (row ∷ []))) _
            between h1
            λ saved s h2.
              collect_rpms-file wanted known (rows ++ (row ∷ [])) names end saved after
                (save-file wanted (rows ++ (row ∷ [])) between saved s) h2

  -- The rounds from the first on. If there is none there is no report.
  rounds-file :
      (wanted : List String) (known : Known) (names : List String) (end : List Row)
      (host after : Host W)
      → Run.collect_rpms digest message urlopen loads dumps wanted known [] names host
        ≡ (ok end, after)
      → Run.check_report digest message urlopen loads dumps wanted end ≡ ok tt
      → after.files Run.receipt_path ≡ some (dumps (report_json wanted end))
  unfolding Run.collect_rpms
  rounds-file wanted known [] end host after h k =
      let e = (pure-ok [] end host after h).0 in
      let none_left : Run.check_report digest message urlopen loads dumps wanted [] ≡ ok tt =
        subst (λ q. Run.check_report digest message urlopen loads dumps wanted q ≡ ok tt) (sym e)
          k in
      cc
  rounds-file wanted known (name ∷ names) end host after h k =
      bind-ok (Run.collect_rpm digest message urlopen loads dumps known name) _ host h
        λ row between c h1.
          then-ok (Run.save digest message urlopen loads dumps wanted (row ∷ [])) _ between h1
            λ saved s h2.
              collect_rpms-file wanted known (row ∷ []) names end saved after
                (save-file wanted (row ∷ []) between saved s) h2

  check_report-digests :
      (wanted : List String) (rows : List Row)
      → Run.check_report digest message urlopen loads dumps wanted rows ≡ ok tt
      → all_have_digests rows ≡ true
  unfolding is_complete
  check_report-digests wanted [] h = cc
  check_report-digests wanted (row ∷ rows) h =
      &&_right (length (row ∷ rows) == length wanted) (all_have_digests (row ∷ rows))
        (complete (is_complete wanted (row ∷ rows)) h)
    where
      complete :
          (b : Bool)
          → (elim b [
            | true ↦ ok tt
            | false ↦ err (system_exit "Source RPM collection incomplete; see receipt")
          ])
            ≡ ok (tt {0})
          → b ≡ true
      complete true h = refl
      complete false h = cc

  pub rounds-end :
      (wanted : List String) (known : Known) (records : List Row) (host after : Host W)
      (packages : Json)
      → wanted_names packages ≡ ok wanted
      → Run.collect_rpms digest message urlopen loads dumps wanted known [] wanted host
        ≡ (ok records, after)
      → Run.check_report digest message urlopen loads dumps wanted records ≡ ok tt
      → AreRounds
          (λ name row. (has_digest row ≡ true) × IsRecorded known after.files name row)
          wanted
          records
        × (after.files Run.receipt_path ≡ some (dumps (report_json wanted records)))
  rounds-end wanted known records host after packages w c checked =
      let (more, e, rounds) =
        collect_rpms-AreRounds wanted known [] wanted records host after
          (wanted_names-IsAscending packages wanted w) c in
      (
        AreRounds-All (λ row. has_digest row ≡ true) (IsRecorded known after.files) wanted records
            (all_have_digests-All records (check_report-digests wanted records checked))
            (subst (AreRounds (IsRecorded known after.files) wanted) (sym e) rounds),
        rounds-file wanted known wanted records host after c checked,
      )
