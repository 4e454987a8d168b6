-- ===== src/Packaged/Pins.antt =====
-- `PINS` of scripts/stage-runtime-assets.py
use tiny_agent.Base.{String, List, [], ◌∷◌}

abbrev pub fedora : String × String
fedora = (
  "fedora-44-arm64-rootfs.tar.gz",
  "3a3661a77d5fdb1e4bd10be484142683630c1ffb4c371931d46a42459fd4c125",
)

abbrev pub opencode : String × String
opencode = (
  "opencode-linux-arm64.tar.gz", "b877f7baa8d60611b9a638209c84868e5dea9139c8dec622943d25f29c07f205",
)

abbrev pub pins : List (String × String)
pins = fedora ∷ opencode ∷ []
