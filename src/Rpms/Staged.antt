-- ===== src/Rpms/Staged.antt =====
-- What it means that scripts/stage-dnfast-source-notices.py returns.
use tiny_agent.Base.{
  ◌≡◌, sym, ap, ◌∙◌, ◌*◌, String, true, ◌&&◌, leb, some, List, map, Bytes, Result, ok, >>=-ok,
  guard-ok,
}
use tiny_agent.Json.{Json, text, array, values_of, index, elements, json_eq, text-json_eq}
use tiny_agent.Host.{Host, write, for_each}
use tiny_agent.Host.Rules.{
  bind-ok, then-ok, lift-ok, read-ok, pure-ok, AreRounds, for_each-AreRounds, put-same,
}
use tiny_agent.Sources.Notices.{Entry}
use tiny_agent.Rpms.{
  Target, Notice, target_of, get_member, read_member, notice_json, relative_name, read_archive,
}
use tiny_agent.Rpms.Run.{
  records_path, notices_path, rpm_path, license_path, concat_notices, stage_member, stage_record,
  stage_source_notices,
}

module _ (digest : Bytes → String) where
  -- The notice is of a member of the archive that is a file and not too long.
  abbrev pub IsNotice : String → String → List Entry → String → Notice → Type 0
  IsNotice name source entries member notice =
      (entry : Entry) × (content : Bytes) × (get_member member entries ≡ ok entry)
      × ((entry.is_file && leb entry.size (1024 * 1024)) ≡ true)
      × (entry.content ≡ ok content)
      × (notice ≡ record {
        file = relative_name name member;
        sha256 = digest content;
        source_rpm = name;
        source_archive = source;
        member = member;
      })

  module _ (extract : Bytes → String → Result Bytes) (untar : Bytes → Result (List Entry)) where
    -- The notices of a record: the source package has its digest, and each of the members that are known for the package
    -- gives a notice.
    abbrev pub AreNotices : Json → List Notice → Type 0
    AreNotices record_ notices =
        (name : String) × (target : Target) × (rpm : Bytes) × (packed : Bytes) × (entries : List
          Entry)
        × (target_of record_ ≡ ok (name, target))
        × (index record_ "sha256" ≡ ok (text (digest rpm)))
        × (extract rpm target.source ≡ ok packed)
        × (untar packed ≡ ok entries)
        × AreRounds (IsNotice name target.source entries) target.members notices

    module _ {W : Type 0} where
      stage_member-IsNotice :
          (name source : String) (entries : List Entry) (member : String) (notice : Notice)
          (host after : Host W)
          → stage_member digest extract untar name source entries member host ≡ (ok notice, after)
          → IsNotice name source entries member notice
      unfolding stage_member read_member
      stage_member-IsNotice name source entries member notice host after h =
          lift-ok (read_member member entries) _ host h λ content r h1.
            then-ok (write (license_path (relative_name name member)) content) _ host h1
              λ between _ h2. >>=-ok (get_member member entries) _ r λ entry g r1.
                guard-ok (entry.is_file && leb entry.size (1024 * 1024)) _ _ r1 λ small r2.
                  (entry, content, g, small, r2, sym (pure-ok _ notice between after h2).0)

      stage_record-AreNotices :
          (record_ : Json) (notices : List Notice) (host after : Host W)
          → stage_record digest extract untar record_ host ≡ (ok notices, after)
          → AreNotices record_ notices
      unfolding stage_record read_archive
      stage_record-AreNotices record_ notices host after h =
          lift-ok (target_of record_) _ host h λ found t h1.
            read-ok (rpm_path found.0) _ host h1 λ rpm _ h2.
              lift-ok (read_archive digest extract untar record_ found.0 found.1.source rpm) _ host
                h2
                λ entries r h3. >>=-ok (index record_ "sha256") _ r λ expected e r1.
                  guard-ok (json_eq (text (digest rpm)) expected) _ _ r1 λ same r2.
                    >>=-ok (extract rpm found.1.source) _ r2 λ packed p r3. (
                      found.0,
                      found.1,
                      rpm,
                      packed,
                      entries,
                      t,
                      e ∙ ap ok (text-json_eq (digest rpm) expected same),
                      p,
                      r3,
                      for_each-AreRounds (IsNotice found.0 found.1.source entries) _
                          (stage_member-IsNotice found.0 found.1.source entries) found.1.members
                          notices host after h3,
                    )

      -- A staging of notices that returns has written a list of the notices of each record that it read, in order: the record has
      -- the digest of a source package, and there is a notice for each of the members that are known for the package, with the digest
      -- of that member of the archive in the package, which is a file of at most 1 MiB.
      pub stage_source_notices-AreRounds :
          (loads : Bytes → Result Json) (dumps : Json → Bytes) (host after : Host W)
          → stage_source_notices digest extract untar loads dumps host ≡ (ok tt, after)
          → (content : Bytes) × (document : Json) × (records : List Json) × (rows : List
              (List Notice))
            × (host.files records_path ≡ some content)
            × (loads content ≡ ok document)
            × (elements document ≡ ok records)
            × (after.files notices_path
                ≡ some (dumps (array (values_of (map notice_json (concat_notices rows))))))
            × AreRounds AreNotices records rows
      unfolding stage_source_notices
      stage_source_notices-AreRounds loads dumps host after h =
          read-ok records_path _ host h λ content g h1.
            lift-ok (loads content) _ host h1 λ document l h2.
              lift-ok (elements document) _ host h2 λ records e h3.
                bind-ok (for_each (stage_record digest extract untar) records) _ host h3
                  λ rows between r h4.
                    let packed =
                      dumps (array (values_of (map notice_json (concat_notices rows)))) in
                    (
                      content,
                      document,
                      records,
                      rows,
                      g,
                      l,
                      e,
                      ap (λ (p : Result (Unit {0}) × Host W). p.1.files notices_path) (sym h4)
                          ∙ put-same notices_path (some packed) between.files,
                      for_each-AreRounds AreNotices (stage_record digest extract untar)
                          stage_record-AreNotices records rows host between r,
                    )
