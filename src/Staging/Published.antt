-- ===== src/Staging/Published.antt =====
-- What a publication leaves on the disk.
use tiny_agent.Base.{
  FilePath, ◌≡◌, ap, sym, ◌∙◌, subst, Option, none, some, path_eq, false, Bytes, Result, ok, err,
  file_not_found,
}
use tiny_agent.Host.{Host, Files, put, replace}
use tiny_agent.Host.Rules.{put-same, put-other}
use tiny_agent.Staging.{publish}

module _ {W : Type 0} where
  abbrev replaced : FilePath → FilePath → Host W → Option Bytes → Result (Unit {0}) × Host W
  replaced partial target host none = (err (file_not_found ""), host)
  replaced partial target host (some content) =
      (ok tt, record host { files = put target (some content) (put partial none host.files) })

  abbrev written : FilePath → Bytes → Host W → Files
  written partial content host = put partial (some content) host.files

  pub replace-files :
      (partial target : FilePath) (content : Bytes) (host after : Host W)
      → host.files partial ≡ some content
      → replace partial target host ≡ (ok tt, after)
      → after.files ≡ put target (some content) (put partial none host.files)
  replace-files partial target content host after e h =
      ap (λ (p : Result (Unit {0}) × Host W). p.1.files)
        (sym (subst (λ found. replaced partial target host found ≡ (ok tt, after)) e h))

  pub publish-files :
      (partial target : FilePath) (content : Bytes) (host after : Host W)
      → publish partial target content host ≡ (ok tt, after)
      → after.files
        ≡ put target (some content) (put partial none (put partial (some content) host.files))
  unfolding publish
  publish-files partial target content host after h =
      replace-files partial target content
        (record host { files = put partial (some content) host.files }) after
        (put-same partial (some content) host.files) h

  pub publish-same :
      (partial target : FilePath) (content : Bytes) (host after : Host W)
      → publish partial target content host ≡ (ok tt, after)
      → after.files target ≡ some content
  publish-same partial target content host after h =
      ap (λ (files : Files). files target) (publish-files partial target content host after h)
      ∙ put-same target (some content) (put partial none (written partial content host))

  pub publish-partial :
      (partial target : FilePath) (content : Bytes) (host after : Host W)
      → path_eq target partial ≡ false
      → publish partial target content host ≡ (ok tt, after)
      → after.files partial ≡ none
  publish-partial partial target content host after e h =
      ap (λ (files : Files). files partial) (publish-files partial target content host after h)
      ∙ put-other target partial (some content) (put partial none (written partial content host)) e
      ∙ put-same partial none (written partial content host)

  pub publish-other :
      (partial target : FilePath) (content : Bytes) (other : FilePath) (host after : Host W)
      → path_eq target other ≡ false
      → path_eq partial other ≡ false
      → publish partial target content host ≡ (ok tt, after)
      → after.files other ≡ host.files other
  publish-other partial target content other host after t p h =
      ap (λ (files : Files). files other) (publish-files partial target content host after h)
      ∙ put-other target other (some content) (put partial none (written partial content host)) t
      ∙ put-other partial other none (written partial content host) p
      ∙ put-other partial other (some content) host.files p
