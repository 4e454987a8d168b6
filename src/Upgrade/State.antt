-- ===== src/Upgrade/State.antt =====
-- The state part of scripts/upgrade-dnfast-empty.py: the package state is empty, or it is the one
-- that was validated.
use tiny_agent.Base.{
  ℕ, String, ◌<>◌, Bool, true, false, ◌&&◌, Option, none, some, List, [], ◌∷◌, ◌++◌, if◌then◌else◌,
  ◌==◌, str_eq, codes, is_hex_text, Bytes, Result, ok, err, guard, value_error, ◌>>=◌, ◌>>◌,
}

-- The state directory, in the order of `sorted(os.listdir(…))`.
mutual
  pub data Item : Type 0 where
    folder : (mode uid gid : ℕ) → Items → Item
    document : (mode uid gid links : ℕ) → Bytes → Item
    special : (mode uid gid : ℕ) → Item

  pub data Items : Type 0 where
    end : Items
    item : String → Item → Items → Items

-- A row of `records`: the path, the mode, the owner and the group, and the digest of a file.
pub record Row : Type 0 where
  pub path : String
  pub mode : ℕ
  pub uid : ℕ
  pub gid : ℕ
  pub sha256 : Option String

-- What the check of the state decides: go on, or print the digest of the state and return.
pub data Verdict : Type 0 where
  go_on : Verdict
  snapshot : String → Verdict

abbrev pub is_empty : Items → Bool
is_empty end = true
is_empty (item name entry rest) = false

module _ (digest : Bytes → String) (owner : ℕ) where
  unfoldable mutual
    -- The rows of one entry at the path `prefix + name`.
    pub walk_item : String → Item → Result (List Row)
    walk_item path (folder mode uid gid items) = do
      guard (uid == owner) (value_error "Invalid package state metadata")
      below ← walk_items (path <> "/") items
      ok (record { path = path; mode = mode; uid = uid; gid = gid; sha256 = none } ∷ below)
    walk_item path (document mode uid gid links content) = do
      guard (uid == owner) (value_error "Invalid package state metadata")
      guard (links == 1) (value_error "Linked package state file")
      ok (
          record { path = path; mode = mode; uid = uid; gid = gid; sha256 = some (digest content) }
          ∷ [])
    walk_item path (special mode uid gid) = err (value_error "Invalid package state metadata")

    pub walk_items : String → Items → Result (List Row)
    walk_items prefix end = ok []
    walk_items prefix (item name entry rest) = do
      rows ← walk_item (prefix <> name) entry
      more ← walk_items prefix rest
      ok (rows ++ more)

  -- `json.dumps(records, separators=(',', ':')).encode()` is the parameter `dumps`.
  module _ (dumps : List Row → Bytes) where
    abbrev decide : String → String → Result Verdict
    decide asked actual =
        if str_eq asked "snapshot"
        then ok (snapshot actual)
        else if is_hex_text 64 (codes asked) && str_eq asked actual
        then ok go_on
        else err (value_error "Package state changed since authenticated validation; preserved")

    unfoldable pub check_state : Bytes → Items → Option String → Result Verdict
    unfolding walk_items is_hex_text
    check_state identity items none =
        if is_empty items
        then ok go_on
        else err
            (value_error "Existing package state requires matching-runtime recovery; preserved")
    check_state identity items (some asked) = do
      rows ← walk_items "" items
      decide asked (digest (identity ++ dumps rows))
