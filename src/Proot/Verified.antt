-- ===== src/Proot/Verified.antt =====
-- What it means that scripts/stage-proot.py returns.
use tiny_agent.Base.{dict_put, some, ℕ, ◌≡◌, String, List, [], ◌∷◌, length, Bytes, Result, ok}
use tiny_agent.Json.{Json}
use tiny_agent.Host.{Files, Host}
use tiny_agent.Host.Rules.{AreRounds}
use tiny_agent.Sources.Notices.{Entry}
use tiny_agent.Proot.Stage.{Outputs}
use tiny_agent.Proot.Inputs.{runtime_file}
use tiny_agent.Proot.Described.{Described}
use tiny_agent.Proot.Promoted.{IsPinned, IsCandidate, IsReplacement}

module _ (digest : Bytes → String) {W : Type 0} (urlopen : String → ℕ → W → Result Bytes × W)
    (decode : Bytes → Result String) (untar : Bytes → Result (List Entry))
    (loads : Bytes → Result Json) where
  -- The replacements that were read: each is a member of the candidate's archive, which has two.
  abbrev pub AreReplacements : Files → Json → List (String × Bytes) → Type 0
  AreReplacements files promoted replacements =
      (archive : Bytes) × (entries : List Entry) × (files (runtime_file "proot-fchmodat2-2.tar.gz")
        ≡ some archive)
      × (untar archive ≡ ok entries)
      × (length entries ≡ 2)
      × AreRounds (IsReplacement digest urlopen decode untar loads promoted) entries replacements

  abbrev pub with_replacements : List (String × Bytes) → Outputs → Outputs
  with_replacements [] outputs = outputs
  with_replacements ((name, content) ∷ rest) outputs =
      with_replacements rest (dict_put name (digest content) outputs)

  -- A staging that returned these digests.
  pub record IsPromoted (outputs : Outputs) (host after : Host W) : Type 0 where
    pub content : Bytes
    pub pinned : Json
    pub staged : Outputs
    pub promoted : Json
    pub replacements : List (String × Bytes)
    pub stored : host.files ("evidence" ∷ "proot-staging.json" ∷ []) ≡ some content
    pub loaded : loads content ≡ ok pinned
    pub agrees : IsPinned digest urlopen decode untar loads pinned staged
    pub candidate : IsCandidate digest urlopen decode untar loads host.files promoted
    pub replaced : AreReplacements host.files promoted replacements
    pub completed : outputs ≡ with_replacements replacements staged
    pub described : Described digest outputs after.files
