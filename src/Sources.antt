-- ===== src/Sources.antt =====
-- scripts/collect-proot-sources.py: the transfers, and the notices in an archive.
pub mod Notices
pub mod Collect
pub mod Verified
pub mod Collected
use tiny_agent.Base.{
  FilePath, file_name, starts_with, ℕ, ◌+◌, ◌*◌, String, ◌<>◌, Bool, true, false, not, Option, none,
  some, length, leb, Bytes, Result, assertion, if◌then◌else◌,
}
use tiny_agent.Upstream.{differs}
use tiny_agent.Host.{Host, Exec, ◌>>=◌, ◌>>◌, pure, lift, require, read, exists, write, call}

-- The address that a response is from in the end, and what a bounded read of it gives.
pub record Page : Type 0 where
  pub url : String
  pub content : Result Bytes

-- `dict(file=..., url=..., sha256=..., bytes=...)`
pub record Source : Type 0 where
  pub file : String
  pub url : String
  pub sha256 : String
  pub bytes : ℕ

abbrev pub max_source : ℕ
max_source = 128 * 1024 * 1024

-- The digest, and the network: an address and the most bytes that are read.
module _ (digest : Bytes → String) {W : Type 0} (urlopen : String → ℕ → W → Result Page × W) where
  unfoldable pub transfer : String → FilePath → Option String → Exec W (Unit {0})
  transfer url target expected = call (urlopen url (max_source + 1)) >>= λ page.
      require (starts_with page.url "https://") (assertion "")
      >> (lift page.content >>= λ content.
          require (leb (length content) max_source) (assertion "")
          >> require (not (differs expected (digest content))) (assertion (file_name target))
          >> write target content)

  abbrev pub when_missing : Bool → Exec W (Unit {0}) → Exec W (Unit {0})
  when_missing true run = pure tt
  when_missing false run = run

  abbrev pub source_of : String → FilePath → Bytes → Source
  source_of url target content = record {
    file = file_name target;
    url = url;
    sha256 = digest content;
    bytes = length content;
  }

  unfoldable pub fetch : String → FilePath → Option String → Exec W (Bytes × Source)
  unfolding transfer
  fetch url target expected =
      exists target
      >>= (λ found. when_missing found (transfer url target expected))
      >> (read target >>= λ content.
          require (not (differs expected (digest content))) (assertion (file_name target))
          >> pure (content, source_of url target content))
