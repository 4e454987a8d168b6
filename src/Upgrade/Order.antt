-- ===== src/Upgrade/Order.antt =====
-- The order in which scripts/upgrade-dnfast-empty.py publishes files.
use tiny_agent.Base.{FilePath, ℕ, String, ◌≡◌, true, false, List, [], ◌++◌, ◌⊎◌, Bytes}
use tiny_agent.Upgrade.Logs.{Log, Logs}
use tiny_agent.Upgrade.Checks.{Config, backup_path}
use tiny_agent.Upgrade.Run.{select}
use tiny_agent.Upgrade.Writes.{Picks, Backups}

module _ (digest : Bytes → String) (decode : Bytes → String) (owner uid : ℕ) where
  -- The three phases of what an upgrade publishes.
  pub record IsOrdered (config : Config) (identity : Bytes) (payloads : List (FilePath × Bytes))
      (complete : Type 0) (log : Log) : Type 0 where
    pub backups : Log
    pub libraries : Log
    pub executables : Log
    pub parts : log ≡ backups ++ (libraries ++ executables)
    pub originals :
        Backups digest (backup_path digest decode owner uid config identity) config.old backups
    pub new_libraries : Picks (select digest decode owner uid false config.old payloads) libraries
    pub new_executables :
        Picks (select digest decode owner uid true config.old payloads) executables
    pub saved_first : (complete ⊎ (libraries ++ executables ≡ []))
