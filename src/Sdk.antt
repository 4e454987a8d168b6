-- ===== src/Sdk.antt =====
-- scripts/prepare-android-sdk-fedora.py: the pinned inputs, their transfer and their unpacking.
pub mod Unpack
pub mod Prepare
pub mod Verified
pub mod Provenance
pub mod Safe
use tiny_agent.Base.{
  FilePath, ℕ, ◌+◌, String, ◌<>◌, Bool, true, false, not, List, [], ◌∷◌, ◌++◌, ◌==◌, if◌then◌else◌,
  ltb, length, str_eq, Bytes, Result, ok, err, assertion, is_some, some,
}
use tiny_agent.Upstream.{Body, end, broken, piece}
use tiny_agent.Host.{
  Host, Exec, ◌>>=◌, ◌>>◌, pure, require, read, exists, write, replace, call, put,
}

-- `path.with_name(path.name + '.part')`
abbrev pub part_path : FilePath → FilePath
part_path [] = []
part_path (name ∷ []) = (name <> ".part") ∷ []
part_path (part ∷ next ∷ rest) = part ∷ part_path (next ∷ rest)

-- The loop over the blocks: what the part holds, and how it ended.
unfoldable pub receive_blocks : ℕ → Body → Bytes → Bytes × Result (Unit {0})
receive_blocks size end part = (part, ok tt)
receive_blocks size (broken x) part = (part, err x)
receive_blocks size (piece [] rest) part = (part, ok tt)
receive_blocks size (piece (b ∷ bs) rest) part =
    let more = receive_blocks size rest (part ++ (b ∷ bs)) in
    if ltb size (length part + length (b ∷ bs)) then (part, err (assertion "")) else more

-- The blocks are written to a new file.
abbrev pub write_blocks : {W : Type 0} → FilePath → ℕ → Body → Exec W (Unit {0})
write_blocks path size body host =
    let (content, result) = receive_blocks size body [] in
    (result, record host { files = put path (some content) host.files })

-- The digest by the name of an algorithm, and the network.
module _ (digest : String → Bytes → String) {W : Type 0}
    (urlopen : String → W → Result Body × W) where
  unfoldable pub check_file : FilePath → String → String → ℕ → Exec W (Unit {0})
  check_file path algorithm expected size = read path >>= λ content.
      require (length content == size) (assertion "")
      >> require (str_eq (digest algorithm content) expected) (assertion "")

  unfoldable pub fetch_file : String → FilePath → String → String → ℕ → Exec W (Unit {0})
  unfolding check_file receive_blocks
  fetch_file url target algorithm expected size = call (urlopen url) >>= λ body.
      write_blocks (part_path target) size body
      >> check_file (part_path target) algorithm expected size
      >> replace (part_path target) target

  abbrev pub unless : Bool → Exec W (Unit {0}) → Exec W (Unit {0})
  unless true run = pure tt
  unless false run = run

  unfoldable pub download_file : String → FilePath → String → String → ℕ → Exec W (Unit {0})
  unfolding check_file fetch_file
  download_file url target algorithm expected size =
      exists target
      >>= (λ found. unless found (fetch_file url target algorithm expected size))
      >> check_file target algorithm expected size
