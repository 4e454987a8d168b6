-- ===== src/Snapshot/Allowed.antt =====
-- What an export of scripts/export-private-source.py changes in the checkout that is published.
use tiny_agent.Base.{
  FilePath, path_eq, path_eq→eq, parts, ancestors, ◌≡◌, refl, sym, ap, ◌∙◌, subst, String, str_eq,
  Bool, true, false, Option, none, some, List, [], ◌∷◌, All, All-map, ◌⊎◌, inl, inr, contains,
  eq_refl, Bytes, bytes_eq, Result, ok, err, arith, if◌then◌else◌, Bool-cases, ℕ, either_branch,
  os_error, file_exists,
}
use tiny_agent.Json.{Json, no_fields}
use tiny_agent.Snapshot.{Entry, file, directory, Tree, put, Checkout, ApkFile}
use tiny_agent.Snapshot.Export.{
  Progress, make_parents, write, copy_file, record_hashes, note, export_files,
}
use tiny_agent.Snapshot.Publish.{
  snapshot_path, prepare, complete, write_entry, report_export, publish, finish_export,
  export_source,
}
use tiny_agent.Snapshot.Rounds.{IsOriginal, export_files-keeps}

-- Below `.git` git itself keeps what it was given to hash, and its state.
abbrev pub is_in_git : FilePath → Bool
is_in_git [] = false
is_in_git (name ∷ rest) = str_eq name ".git"

-- What may have become of a path: it is as before, or a directory where nothing was, or the file of
-- the working directory with one of the names, which has passed the asserts.
abbrev pub Change : Checkout → List String → FilePath → Option Entry → Option Entry → Type 0
Change source names path old new =
    (new ≡ old)
    ⊎ (((old ≡ none) × (new ≡ some directory))
        ⊎ ((name : String) × (content : Bytes) × (contains name names ≡ true)
            × (path ≡ parts name)
            × IsOriginal source name content
            × (new ≡ some (file content))))

contains-head : (name : String) (names : List String) → contains name (name ∷ names) ≡ true
unfolding contains
contains-head name names = rw (eq_refl name) refl

contains-tail :
    (other name : String) (names : List String)
    → contains name names ≡ true
    → contains name (other ∷ names) ≡ true
unfolding contains
contains-tail other name names h = ground arith

All-contains : (names : List String) → All (λ name. contains name names ≡ true) names
All-contains [] = tt
All-contains (name ∷ names) = (
  contains-head name names,
  All-map _ _ (λ other h. contains-tail name other names h) names (All-contains names),
)

module _ (source : Checkout) (names : List String) where
  Change-trans :
      (path : FilePath) (a b c : Option Entry)
      → Change source names path a b
      → Change source names path b c
      → Change source names path a c
  Change-trans path a b c h (inl e) = subst (λ x. Change source names path a x) (sym e) h
  Change-trans path a b c (inl e) (inr (inl (n, d))) = inr (inl (sym e ∙ n, d))
  Change-trans path a b c (inr (inl (n, d))) (inr (inl (m, e))) = cc
  Change-trans path a b c (inr (inr (name, content, i, p, o, f))) (inr (inl (m, e))) = cc
  Change-trans path a b c h (inr (inr k)) = inr (inr k)

  abbrev Changes : Tree → Tree → Type 0
  Changes before after = (path : FilePath) → Change source names path (before path) (after path)

  put-directory-Changes :
      (at : FilePath) (tree : Tree) → tree at ≡ none → Changes tree (put at directory tree)
  put-directory-Changes at tree e path = elim (Bool-cases (path_eq at path)) [
    | inl q ↦ rw q (inr (inl (ap tree (sym (path_eq→eq at path q)) ∙ e, refl)))
    | inr q ↦ rw q (inl refl)
  ]

  put-file-Changes :
      (name : String) (content : Bytes) (tree : Tree)
      → contains name names ≡ true
      → IsOriginal source name content
      → Changes tree (put (parts name) (file content) tree)
  put-file-Changes name content tree i o path = elim (Bool-cases (path_eq (parts name) path)) [
    | inl q ↦ rw q (inr (inr (name, content, i, sym (path_eq→eq (parts name) path q), o, refl)))
    | inr q ↦ rw q (inl refl)
  ]

  make_parents-Changes :
      (paths : List FilePath) (tree : Tree) → Changes tree (make_parents paths tree).1
  unfolding make_parents
  make_parents-Changes [] tree = λ path. inl refl
  make_parents-Changes (at ∷ paths) tree =
      go (tree at) refl (make_parents-Changes paths tree)
        (make_parents-Changes paths (put at directory tree))
    where
      go :
          (found : Option Entry)
          → tree at ≡ found
          → Changes tree (make_parents paths tree).1
          → Changes (put at directory tree) (make_parents paths (put at directory tree)).1
          → Changes tree (
              let q : Result (Unit {0}) × Tree = elim found [
                | none ↦ make_parents paths (put at directory tree)
                | some directory ↦ make_parents paths tree
                | some (file content) ↦ (err (file_exists ""), tree)
              ] in
              q.1)
      go none e h k =
          λ path. Change-trans path _ _ _ (put-directory-Changes at tree e path) (k path)
      go (some directory) e h k = h
      go (some (file content)) e h k = λ path. inl refl

  module _ (name : String) (content : Bytes) (listed : contains name names ≡ true)
      (original : IsOriginal source name content) where
    write-Changes :
        (tree : Tree) (q : Result (Unit {0}) × Tree)
        → Changes tree q.1
        → Changes tree (write (parts name) content q).1
    write-Changes tree (err x, made) h = h
    write-Changes tree (ok done, made) h = λ path.
        Change-trans path _ _ _ (h path) (put-file-Changes name content made listed original path)

    copy_file-Changes : (tree : Tree) → Changes tree (copy_file (parts name) content tree).1
    unfolding copy_file
    copy_file-Changes tree = go (tree (parts name))
      where
        written :
            Changes tree (write (parts name) content (make_parents (ancestors (parts name)) tree)).1
        written = write-Changes tree _ (make_parents-Changes (ancestors (parts name)) tree)

        go :
            (found : Option Entry)
            → Changes tree (
                let q : Result Bool × Tree = elim found [
                  | none ↦ write (parts name) content (make_parents (ancestors (parts name)) tree)
                  | some directory ↦ (err (os_error "Is a directory"), tree)
                  | some (file old) ↦
                      if bytes_eq old content
                      then (ok false, tree)
                      else write (parts name) content (make_parents (ancestors (parts name)) tree)
                ] in
                q.1)
        go none = written
        go (some directory) = λ path. inl refl
        go (some (file old)) =
            either_branch (λ (q : Result Bool × Tree). Changes tree q.1) (bytes_eq old content)
              (λ path. inl refl) (λ _. written)

module _ (digest : Bytes → String) (canonical : Tree → String → Bytes → Result Bytes)
    (source : Checkout) where
  record_hashes-tree :
      (name : String) (original : Bytes) (content : Result Bytes) (p : Progress)
      → (record_hashes digest canonical source name original content p).1.tree ≡ p.tree
  unfolding record_hashes
  record_hashes-tree name original (err x) p = refl
  record_hashes-tree name original (ok content) p = refl

  note-tree :
      (name : String) (original : Bytes) (q : Result Bool × Tree) (p : Progress)
      → (note digest canonical source name original q p).1.tree ≡ q.1
  unfolding note
  note-tree name original (err x, tree) p = refl
  note-tree name original (ok copied, tree) p = record_hashes-tree name original _ _

  export_files-Changes :
      (names : List String) (p : Progress)
      → Changes source names p.tree (export_files digest canonical source names p).1.tree
  export_files-Changes names p =
      export_files-keeps digest canonical source (λ q. Changes source names p.tree q.tree)
        (λ name. contains name names ≡ true)
        (λ name original q i o h path.
          subst (λ (t : Tree). Change source names path (p.tree path) (t path))
            (sym (note-tree name original (copy_file (parts name) original q.tree) q))
            (Change-trans source names path _ _ _ (h path)
              (copy_file-Changes source names name original i o q.tree path)))
        names p (All-contains names) (λ path. inl refl)

module _ (digest : Bytes → String) (canonical : Tree → String → Bytes → Result Bytes)
    (origin : Tree → Result String) (loads : Bytes → Result Json) (dumps : Json → Bytes)
    (source : Checkout) (apk : ApkFile) where
  write_entry-frame :
      (at path : FilePath) (content : Bytes) (tree : Tree)
      → (path ≡ at) ⊎ ((write_entry at content tree).1 path ≡ tree path)
  unfolding write_entry
  write_entry-frame at path content tree = elim (Bool-cases (path_eq at path)) [
    | inl q ↦ inl (sym (path_eq→eq at path q))
    | inr q ↦ inr (go q (tree at))
  ]
    where
      go :
          path_eq at path ≡ false
          → (found : Option Entry)
          → (let q : Result (Unit {0}) × Tree = elim found [
            | some directory ↦ (err (os_error "Is a directory"), tree)
            | _ ↦ (ok tt, put at (file content) tree)
          ] in
              q.1 path ≡ tree path)
      go q none = rw q refl
      go q (some directory) = refl
      go q (some (file old)) = rw q refl

  module _ (names : List String) (path : FilePath) (tree : Tree) where
    abbrev Allowed : Result (ℕ × List String) × Tree → Type 0
    Allowed q = (path ≡ snapshot_path) ⊎ Change source names path (tree path) (q.1 path)

    publish-Allowed :
        (p : Progress) (snapshot : Result Json)
        → Change source names path (tree path) (p.tree path)
        → Allowed (publish digest canonical origin loads dumps source apk p snapshot)
    publish-Allowed p (err x) h = inr h
    publish-Allowed p (ok snapshot) h =
        go (write_entry snapshot_path (dumps snapshot) p.tree)
          (write_entry-frame snapshot_path path (dumps snapshot) p.tree)
      where
        go :
            (q : Result (Unit {0}) × Tree)
            → (path ≡ snapshot_path) ⊎ (q.1 path ≡ p.tree path)
            → Allowed (report_export digest canonical origin loads dumps source apk p q)
        go q (inl e) = inl e
        go (err x, after) (inr e) = inr (rw e h)
        go (ok done, after) (inr e) = inr (rw e h)

    finish_export-Allowed :
        (before : Json) (q : Result (Unit {0}) × Progress)
        → Change source names path (tree path) (q.1.tree path)
        → Allowed (finish_export digest canonical origin loads dumps source apk before q)
    finish_export-Allowed before (err x, p) h = inr h
    finish_export-Allowed before (ok done, p) h =
        publish-Allowed p (complete digest canonical origin loads dumps source apk before p) h

  -- Whether an export returns or raises, it changes the checkout, apart from the snapshot and outside of its `.git`, at no
  -- other path than that of a name that was gathered: there it leaves the file of the working directory, with
  -- a name that leads nowhere else and none of the four refused suffixes, or it makes a directory
  -- where nothing was.
  pub export_source-Change :
      (tree : Tree) (snapshot : Json) (names : List String) (path : FilePath)
      → is_in_git path ≡ false
      → prepare digest canonical origin loads dumps source apk tree ≡ ok (snapshot, names)
      → (path ≡ snapshot_path)
        ⊎ Change source names path
            (tree path)
            ((export_source digest canonical origin loads dumps source apk tree).1 path)
  unfolding export_source
  export_source-Change tree snapshot names path outside h =
      rw (export_source, h)
        (finish_export-Allowed names path tree snapshot
          (export_files digest canonical source names start)
          (export_files-Changes digest canonical source names start path))
    where
      start : Progress
      start = record { hashes = no_fields; raw_normalized = no_fields; changed = []; tree = tree }
