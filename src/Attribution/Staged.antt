-- ===== src/Attribution/Staged.antt =====
-- What it means that scripts/stage-dnfast-rpm-notices.py returns.
use tiny_agent.Base.{
  ◌≡◌, sym, ap, ◌∙◌, subst, String, true, not, ◌&&◌, some, List, [], ◌∷◌, All, All-append, Bytes,
  Result, ok, guard-ok, >>=-ok, ok_injective, &&_left, &&_right,
}
use tiny_agent.Json.{Json, text, index, same_set, json_eq, text-json_eq}
use tiny_agent.Host.{Host, Files, put}
use tiny_agent.Host.Rules.{lift-ok, read-ok}
use tiny_agent.Staging.{TapeMember, is_inner}
use tiny_agent.Attribution.Stage.{
  Table, Payloads, digest_of, members_of, payload_names, is_ok, has_payload, is_valid, notice_path,
  fold_ok, expected_of, take_member, read_payloads,
}
use tiny_agent.Attribution.Write.{report_path, archive_path, write_payloads, stage_notices}

-- A property that every round keeps holds in the end.
fold_ok-keeps :
    {A B : Type 0} (P : B → Type 0) (f : A → B → Result B)
    (keeps : (x : A) (b c : B) → f x b ≡ ok c → P b → P c) (xs : List A) (b c : B)
    → fold_ok f xs b ≡ ok c
    → P b
    → P c
unfolding fold_ok
fold_ok-keeps P f keeps [] b c h p = subst P (ok_injective b c h) p
fold_ok-keeps P f keeps (x ∷ xs) b c h p =
    >>=-ok (f x b) _ h
      λ between e h1. fold_ok-keeps P f keeps xs between c h1 (keeps x b between e p)

-- The files after the payloads, in their order.
abbrev pub with_payloads : Payloads → Files → Files
with_payloads [] files = files
with_payloads ((name, content) ∷ rest) files =
    with_payloads rest (put (notice_path name) (some content) files)

write_payloads-files :
    {W : Type 0} (payloads : Payloads) (host after : Host W)
    → write_payloads payloads host ≡ (ok tt, after)
    → after.files ≡ with_payloads payloads host.files
unfolding write_payloads
write_payloads-files {W} [] host after h =
    ap (λ (p : Result (Unit {0}) × Host W). p.1.files) (sym h)
write_payloads-files ((name, content) ∷ rest) host after h =
    write_payloads-files rest
      (record host { files = put (notice_path name) (some content) host.files }) after h

module _ (digest : Bytes → String) where
  -- The payload has a relative name that does not go up, and the digest that the report has for it.
  abbrev pub IsExpected : Table → String × Bytes → Type 0
  IsExpected expected (name, content) =
      (is_inner name ≡ true) × (digest_of name expected ≡ ok (text (digest content)))

  take_member-All :
      (expected : Table) (member : TapeMember) (payloads after : Payloads)
      → take_member digest expected member payloads ≡ ok after
      → All (IsExpected expected) payloads
      → All (IsExpected expected) after
  take_member-All expected member payloads after h kept =
      guard-ok (is_valid expected payloads member) _ _ h λ v h1.
        >>=-ok member.content _ h1 λ content c h2.
          >>=-ok (digest_of member.name expected) _ h2 λ wanted w h3.
            guard-ok (json_eq (text (digest content)) wanted) _ _ h3 λ same h4.
              let rest =
                not (has_payload member.name payloads) && is_ok (digest_of member.name expected) in
              subst (All (IsExpected expected)) (ok_injective _ after h4) (
                All-append (IsExpected expected) payloads ((member.name, content) ∷ []) kept (
                  (
                    &&_left (is_inner member.name) rest
                        (&&_right member.is_file (is_inner member.name && rest) v),
                    w ∙ ap ok (text-json_eq (digest content) wanted same),
                  ),
                  tt,
                ))

  -- What the report says of the archive, and the payloads that are staged.
  pub record AreStaged {W : Type 0} (loads : Bytes → Result Json) (host after : Host W)
      : Type 0 where
    pub report_content : Bytes
    pub report : Json
    pub archive : Bytes
    pub expected : Table
    pub payloads : Payloads
    pub given : host.files report_path ≡ some report_content
    pub parsed : loads report_content ≡ ok report
    pub packed : host.files archive_path ≡ some archive
    pub identified : index report "notice_archive_sha256" ≡ ok (text (digest archive))
    pub listed : expected_of report ≡ ok expected
    pub verified : All (IsExpected expected) payloads
    pub complete : same_set (payload_names payloads) (members_of expected) ≡ true
    pub staged : after.files ≡ with_payloads payloads host.files

  -- A staging that returns found the archive with the digest of the report; it has written, in their order and nothing
  -- else, payloads with relative names that do not go up and with the digests of the report, and their names are those
  -- of the notices that the report lists.
  pub stage_notices-AreStaged :
      (loads : Bytes → Result Json) (untar : Bytes → Result (List TapeMember)) {W : Type 0}
      (host after : Host W)
      → stage_notices digest loads untar host ≡ (ok tt, after)
      → AreStaged loads host after
  unfolding stage_notices read_payloads
  stage_notices-AreStaged loads untar host after h = read-ok report_path _ host h λ content g h1.
      lift-ok (loads content) _ host h1 λ report l h2.
        read-ok archive_path _ host h2 λ archive a h3.
          lift-ok (read_payloads digest untar report archive) _ host h3 λ payloads r w.
            >>=-ok (index report "notice_archive_sha256") _ r λ wanted i r1.
              guard-ok (json_eq (text (digest archive)) wanted) _ _ r1 λ same r2.
                >>=-ok (expected_of report) _ r2 λ expected e r3.
                  >>=-ok (untar archive) _ r3 λ members _ r4.
                    >>=-ok (fold_ok (take_member digest expected) members []) _ r4 λ found f r5.
                      guard-ok (same_set (payload_names found) (members_of expected)) _ _ r5
                        λ complete r6. record {
                          report_content = content;
                          report = report;
                          archive = archive;
                          expected = expected;
                          payloads = found;
                          given = g;
                          parsed = l;
                          packed = a;
                          identified = i ∙ ap ok (text-json_eq (digest archive) wanted same);
                          listed = e;
                          verified =
                              fold_ok-keeps (All (IsExpected expected))
                                (take_member digest expected) (take_member-All expected) members []
                                found f tt;
                          complete = complete;
                          staged =
                              write_payloads-files payloads host after w
                              ∙ ap (λ them. with_payloads them host.files)
                                  (sym (ok_injective found payloads r6));
                        }
