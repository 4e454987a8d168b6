-- ===== src/Build/Inputs.antt =====
-- The inputs of a build by scripts/build-proot-candidate.py and scripts/build-proot-fchmodat2.py
use tiny_agent.Base.{FilePath, ◌≡◌, false}
use tiny_agent.Json.{Json}
use tiny_agent.Host.{Host}
use tiny_agent.Build.Prepare
use tiny_agent.Build.Compile
use tiny_agent.Build.Report
use tiny_agent.Build.Confined.{is_inside}

module _ {W : Type 0} (base : FilePath) (host : Host W) where
  -- Outside of the directory the files are as at the host.
  abbrev IsSame : Host W → Type 0
  IsSame other =
      (path : FilePath) → is_inside base path ≡ false → other.files path ≡ host.files path
