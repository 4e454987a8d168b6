-- ===== src/Staging.antt =====
-- The staging of inputs as assets of the app: scripts/stage-dnfast-runtime.py and
-- scripts/stage-runtime-assets.py
pub mod Published
pub mod Overlay
pub mod OverlayStaged
pub mod Run
pub mod AssetsStaged
use tiny_agent.Base.{
  FilePath, parts, is_absolute, contains, ℕ, [], ◌∷◌, String, ◌<>◌, Bool, not, ◌&&◌, Bytes, Result,
}
use tiny_agent.Host.{Exec, ◌>>◌, write, replace}

-- A member of a tape archive, with what a read of it gives.
pub record TapeMember : Type 0 where
  pub name : String
  pub is_file : Bool
  pub is_dir : Bool
  pub content : Result Bytes

-- The installed package: the size that it lists for an entry, what a read of it gives,
-- and what a copy of it writes before it ends.
pub record Installed : Type 0 where
  pub size : String → Result ℕ
  pub read : String → Result Bytes
  pub copy : String → Result (Bytes × Result (Unit {0}))

abbrev pub asset : String → FilePath
asset name = "app" ∷ "src" ∷ "main" ∷ "assets" ∷ name ∷ []

-- A relative path that does not go up.
abbrev pub is_inner : String → Bool
is_inner name = not (is_absolute name) && not (contains ".." (parts name))

-- `partial.write_bytes(content)` and `partial.replace(target)`
unfoldable pub publish : {W : Type 0} → FilePath → FilePath → Bytes → Exec W (Unit {0})
publish partial target content = write partial content >> replace partial target
