-- ===== src/Sdk/Prepare.antt =====
-- `main` of scripts/prepare-android-sdk-fedora.py
use tiny_agent.Base.{
  FilePath, ℕ, String, Bool, false, Option, none, some, List, [], ◌∷◌, str_eq, Bytes, Result,
  assertion,
}
use tiny_agent.Json.{Json, natural, text, array, object, no_fields, field, values_of}
use tiny_agent.Upstream.{Body}
use tiny_agent.Host.{Exec, ◌>>=◌, ◌>>◌, pure, require, read, write, call, for_each}
use tiny_agent.Sdk.{download_file}
use tiny_agent.Sdk.Unpack.{Tree, ZipMember, unpack}

pub record Pin : Type 0 where
  pub name : String
  pub url : String
  pub algorithm : String
  pub expected : String
  pub size : ℕ

abbrev pub pins : List Pin
pins =
    record {
      name = "arm64.tar.xz";
      url =
          "https://github.com/HomuHomu833/android-sdk-custom/releases/download/37.0.0/android-sdk-aarch64-linux-musl.tar.xz";
      algorithm = "sha256";
      expected = "b904edf8cf20c233de9d884a2da4a8e7eadea4d23aa10859abb9466660f3e803";
      size = 159016720;
    }
    ∷ record {
      name = "platform.zip";
      url = "https://dl.google.com/android/repository/platform-36_r02.zip";
      algorithm = "sha1";
      expected = "2c1a80dd4d9f7d0e6dd336ec603d9b5c55a6f576";
      size = 65878410;
    }
    ∷ record {
      name = "build-tools.zip";
      url = "https://dl.google.com/android/repository/build-tools_r35_linux.zip";
      algorithm = "sha1";
      expected = "2cfaa0bbb2336e9ec18ed3ecea84fa2e2af607bc";
      size = 61958799;
    }
    ∷ []

-- The network, and the directories below the base.
pub record Site (N : Type 0) : Type 0 where
  pub network : N
  pub unpacked : String → Option Tree

abbrev pub is_local : Option String → Bool
is_local none = false
is_local (some provider) = str_eq provider "fedora-local"

-- The digests, the network, the archives and the writer of JSON; the environment and the lock.
module _ (digest : String → Bytes → String) {N : Type 0} (urlopen : String → N → Result Body × N)
    (extractall : Bytes → Result Tree) (infolist : Bytes → Result (List ZipMember))
    (dumps : Json → Bytes) (provider : Option String) (machine : String)
    (flock : Site N → Result (Unit {0}) × Site N) where
  abbrev pub open_url : String → Site N → Result Body × Site N
  open_url url site =
      let (result, network) = urlopen url site.network in
      (result, record site { network = network })

  abbrev pub target : Pin → FilePath
  target pin = pin.name ∷ []

  -- What `unpack` leaves at the destination of a pin.
  abbrev pub unpack_at : String → Bytes → Site N → Result (Unit {0}) × Site N
  unpack_at name content site =
      let (result, tree) =
        unpack extractall infolist name (Result.ok content) (site.unpacked name) in
      (
        result,
        record site {
          unpacked = λ other. elim (str_eq name other) [
            | Bool.true ↦ tree
            | Bool.false ↦ site.unpacked other
          ];
        },
      )

  abbrev pub provenance_of : Pin → Bytes → Json
  provenance_of pin content = object (
      field "url" (text pin.url) (
        field "size" (natural pin.size)
          (field "sha256" (text (digest "sha256" content)) no_fields)))

  -- One round of the loop over the pins.
  unfoldable pub prepare_pin : Pin → Exec (Site N) Json
  unfolding download_file unpack
  prepare_pin pin =
      download_file digest open_url pin.url (target pin) pin.algorithm pin.expected pin.size
      >> (read (target pin) >>= λ content.
          call (unpack_at pin.name content) >> pure (provenance_of pin content))

  unfoldable pub prepare_inputs : List Pin → Exec (Site N) (Unit {0})
  unfolding for_each prepare_pin
  prepare_inputs inputs =
      require (is_local provider) (assertion "")
      >> require (str_eq machine "aarch64") (assertion "")
      >> call flock
      >> (for_each prepare_pin inputs >>= λ report.
          write ("provenance.json" ∷ []) (dumps (array (values_of report))))
