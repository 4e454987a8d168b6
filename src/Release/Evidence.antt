-- ===== src/Release/Evidence.antt =====
-- What the checks of scripts/check-release.py on single files and journeys establish.
use tiny_agent.Base.{
  FilePath, is_in, parts, is_absolute, is_relative_to, contains, ◌≡◌, ◌≢◌, ap, ◌∙◌, String, true,
  false, not, ◌||◌, Option, none, some, List, [], ◌∷◌, ◌++◌, Bytes, Exception, ok, value_error,
  >>=-ok, >>-ok, guard-ok, guard-eq-ok, arith,
}
use tiny_agent.Json.{Json, text, index, json_eq, json_eq-text}
use tiny_agent.Release.{Site, as_text, require, check_content, checked_file}

pub require-eq-ok {ℓ} :
    {A : Type ℓ} (o : Option A) (x : Exception) {a : A} → require o x ≡ ok a → o ≡ some a
require-eq-ok none x h = cc
require-eq-ok (some a) x h = cc

as_text-eq-ok : (v : Json) {s : String} → as_text v ≡ ok s → v ≡ text s
as_text-eq-ok v h = ground arith

-- The logs before, the later one first.
unfoldable pub noted : List FilePath → List FilePath → List FilePath
noted [] used = used
noted (log ∷ logs) used = noted logs (log ∷ used)

-- Every log differs from those before it.
unfoldable pub AreNew : List FilePath → List FilePath → Type 0
unfolding is_in
AreNew used [] = Unit
AreNew used (log ∷ logs) = (is_in log used ≡ false) × AreNew (log ∷ used) logs

pub AreNew-append :
    (used logs more : List FilePath)
    → AreNew used logs
    → AreNew (noted logs used) more
    → AreNew used (logs ++ more)
unfolding AreNew noted
AreNew-append used [] more h k = k
AreNew-append used (log ∷ logs) more (new, h) k = (new, AreNew-append (log ∷ used) logs more h k)

module _ (digest : Bytes → String) (site : Site) where
  -- The description of a file names a regular file that is not empty, in the candidate's directory, and has
  -- its checksum.
  pub record IsEvidence (found : Json) (path : FilePath) : Type 0 where
    pub name : String
    pub content : Bytes
    pub named : index found "path" ≡ ok (text name)
    pub relative : (is_absolute name || contains ".." (parts name)) ≡ false
    pub resolved : path ≡ site.resolve (parts name)
    pub inside : is_relative_to path site.base ≡ true
    pub stored : site.file path ≡ some content
    pub not_empty : content ≢ []
    pub checksum : index found "sha256" ≡ ok (text (digest content))

  check_content-eq-ok :
      (found : Json) (content : Bytes)
      → check_content digest site found content ≡ ok tt
      → (content ≢ []) × (index found "sha256" ≡ ok (text (digest content)))
  unfolding check_content
  check_content-eq-ok found [] h = cc
  check_content-eq-ok found (x ∷ content) h = >>=-ok (index found "sha256") _ h λ sha256 e h1.
      let same = guard-eq-ok (json_eq sha256 (text (digest (x ∷ content)))) _ h1 in
      (cc, e ∙ ap ok (json_eq-text sha256 (digest (x ∷ content)) same))

  pub checked_file-IsEvidence :
      (found : Json) (path : FilePath)
      → checked_file digest site found ≡ ok path
      → IsEvidence found path
  unfolding checked_file
  checked_file-IsEvidence found path h = >>=-ok (index found "path") _ h λ v e h1.
      >>=-ok (as_text v) _ h1 λ name e1 h2.
        guard-ok (not (is_absolute name || contains ".." (parts name)))
          (value_error "Evidence paths must be relative to the candidate directory") _ h2
          λ rel h3.
            guard-ok (is_relative_to (site.resolve (parts name)) site.base)
              (value_error "Evidence file missing or outside candidate directory") _ h3
              λ ins h4.
                >>=-ok
                  (require (site.file (site.resolve (parts name)))
                    (value_error "Evidence file missing or outside candidate directory"))
                  _ h4
                  λ content e2 h5. >>-ok (check_content digest site found content) _ h5 λ c h6.
                    let (filled, sum) = check_content-eq-ok found content c in
                    let p : path ≡ site.resolve (parts name) = cc in
                    record {
                      name = name;
                      content = content;
                      named = e ∙ ap ok (as_text-eq-ok v e1);
                      relative = ground (arith, rel);
                      resolved = p;
                      inside = rw p ins;
                      stored = rw p (require-eq-ok (site.file (site.resolve (parts name))) _ e2);
                      not_empty = filled;
                      checksum = sum;
                    }
