-- ===== src/Sdk/Safe.antt =====
-- What `unpack` of scripts/prepare-android-sdk-fedora.py leaves at the destination.
use tiny_agent.Base.{
  parts, ◌≡◌, refl, sym, ap, ◌∙◌, subst, String, Bool, true, false, Option, none, some, List, [],
  ◌∷◌, ◌⊎◌, inl, inr, Bytes, Result, ok, err, assertion, guard-ok, >>=-ok, ◌>>=◌, ok_injective,
  if◌then◌else◌,
}
use tiny_agent.Sdk.Unpack.{
  Tree, Unpacked, ZipMember, is_safe_name, is_executable, place, extract_entry, add_file,
  extract_entries, is_tar, extract, settle_tree, unpack,
}

-- The file is that of an entry, with its content, and with the mode of a program if the entry has a bit of execution.
pub record IsPlaced (entry : ZipMember) (found : Unpacked) : Type 0 where
  pub path : found.path ≡ parts entry.filename
  pub content : entry.content ≡ ok found.content
  pub mode : found.mode ≡ (if is_executable entry.external_attr then 0o755 else 0o644)

-- All entries have safe names, and the files are those of the entries that are no directories, in their order.
abbrev pub AreFiles : List ZipMember → Tree → Type 0
AreFiles [] tree = tree ≡ []
AreFiles (entry ∷ entries) tree =
    (is_safe_name entry.filename ≡ true)
    × (((entry.is_dir ≡ true) × AreFiles entries tree)
        ⊎ ((found : Unpacked) × (rest : Tree) × (entry.is_dir ≡ false)
            × (tree ≡ found ∷ rest)
            × IsPlaced entry found
            × AreFiles entries rest))

extract_entries-AreFiles :
    (entries : List ZipMember) (tree : Tree)
    → extract_entries entries ≡ ok tree
    → AreFiles entries tree
unfolding extract_entries extract_entry
extract_entries-AreFiles [] tree h = sym (ok_injective [] tree h)
extract_entries-AreFiles (entry ∷ entries) tree h = >>=-ok (extract_entry entry) _ h λ found f h1.
    >>=-ok (extract_entries entries) _ h1 λ rest r h2.
      guard-ok (is_safe_name entry.filename) (assertion "") _ f λ s h3.
        >>=-ok entry.content _ h3 λ content c h4. (
          s,
          go content c (entry.is_dir) refl found h4 rest
              (ok_injective (add_file found rest) tree h2)
              (extract_entries-AreFiles entries rest r),
        )
  where
    go :
        (content : Bytes)
        → entry.content ≡ ok content
        → (dir : Bool) → entry.is_dir ≡ dir
        → (found : Option Unpacked)
        → ok (if dir then none else some (place entry content)) ≡ ok found
        → (rest : Tree) → add_file found rest ≡ tree
        → AreFiles entries rest
        → ((entry.is_dir ≡ true) × AreFiles entries tree)
          ⊎ ((found : Unpacked) × (rest : Tree) × (entry.is_dir ≡ false)
              × (tree ≡ found ∷ rest)
              × IsPlaced entry found
              × AreFiles entries rest)
    go content c true d found k rest e a =
        let same : found ≡ none = sym (ok_injective none found k) in
        let whole : rest ≡ tree = ap (λ f. add_file f rest) (sym same) ∙ e in
        inl (d, subst (AreFiles entries) whole a)
    go content c false d found k rest e a =
        let same : found ≡ some (place entry content) =
          sym (ok_injective (some (place entry content)) found k) in
        inr (
          place entry content,
          rest,
          d,
          sym e ∙ ap (λ f. add_file f rest) same,
          record { path = refl; content = c; mode = refl },
          a,
        )

module _ (extractall : Bytes → Result Tree) (infolist : Bytes → Result (List ZipMember)) where
  -- A tree that was unpacked: from a tape archive by the filter for data, from a zip archive the files of its entries.
  abbrev pub IsExtracted : String → Bytes → Tree → Type 0
  IsExtracted name content tree =
      ((is_tar extractall infolist name ≡ true) × (extractall content ≡ ok tree))
      ⊎ ((entries : List ZipMember) × (is_tar extractall infolist name ≡ false)
          × (infolist content ≡ ok entries)
          × AreFiles entries tree)

  abbrev pub IsUnpacked :
      String → Result Bytes → Option Tree → Result (Unit {0}) × Option Tree → Type 0
  IsUnpacked name archive (some tree) (result, after) = (result ≡ ok tt) × (after ≡ some tree)
  IsUnpacked name archive none (err x, after) = after ≡ none
  IsUnpacked name archive none (ok done, after) =
      (content : Bytes) × (tree : Tree) × (archive ≡ ok content)
      × (after ≡ some tree)
      × IsExtracted name content tree

  extract-IsExtracted :
      (name : String) (content : Bytes) (tree : Tree)
      → extract extractall infolist name content ≡ ok tree
      → IsExtracted name content tree
  unfolding extract
  extract-IsExtracted name content tree h = go (is_tar extractall infolist name) refl h
    where
      go :
          (b : Bool)
          → is_tar extractall infolist name ≡ b
          → (if b then extractall content else (infolist content >>= extract_entries)) ≡ ok tree
          → IsExtracted name content tree
      go true e k = inl (e, k)
      go false e k =
          >>=-ok (infolist content) _ k
            λ entries i k1. inr (entries, e, i, extract_entries-AreFiles entries tree k1)

  -- Unpacking leaves a destination that is there as it is; at one that is not there, nothing is left where it raises, and
  -- where it returns, there is what the archive was unpacked to: for a tape archive as the filter for data unpacks it, and
  -- for a zip archive, all names of which are safe, a file for each entry that is no directory, in their order, with the path, the content and the
  -- mode of the entry.
  pub unpack-IsUnpacked :
      (name : String) (archive : Result Bytes) (before : Option Tree)
      → IsUnpacked name archive before (unpack extractall infolist name archive before)
  unfolding unpack
  unpack-IsUnpacked name archive (some tree) = (refl, refl)
  unpack-IsUnpacked name (err x) none = refl
  unpack-IsUnpacked name (ok content) none = go (extract extractall infolist name content) refl
    where
      go :
          (found : Result Tree)
          → extract extractall infolist name content ≡ found
          → IsUnpacked name (ok content) none (settle_tree extractall infolist found)
      go (err x) e = refl
      go (ok tree) e = (content, tree, refl, refl, extract-IsExtracted name content tree e)
