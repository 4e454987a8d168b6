-- ===== src/Sdk/Verified.antt =====
-- What scripts/prepare-android-sdk-fedora.py leaves of an input, however it ends.
use tiny_agent.Base.{
  FilePath, path_eq, ℕ, ◌≡◌, refl, sym, ap, ◌∙◌, subst, String, Bool, true, false, Option, none,
  some, [], ◌∷◌, ◌==◌, ==_iff, str_eq, eq_iff, eq_refl, length, Bytes, Result, ok, err, assertion,
  is_some, ◌⊎◌, inl, inr, arith,
}
use tiny_agent.Upstream.{Body}
use tiny_agent.Upstream.Transfer.{part_of-ne}
use tiny_agent.Host.{Files, Host, on_result, ◌>>=◌, ◌>>◌, require, or_missing, exists, replace, put}
use tiny_agent.Host.Rules.{
  then-ok, require-ok, require-end, read-ok, then-after, put-same, put-other,
}
use tiny_agent.Sdk.{
  part_path, receive_blocks, write_blocks, check_file, fetch_file, unless, download_file,
}

part_path-ne :
    (name : String) (rest : FilePath) → path_eq (part_path (name ∷ rest)) (name ∷ rest) ≡ false
unfolding path_eq
part_path-ne name [] = ground (arith, part_of-ne name)
part_path-ne name (next ∷ rest) = ground (arith, eq_refl name, part_path-ne next rest)

module _ (digest : String → Bytes → String) {W : Type 0} (urlopen : String → W → Result Body × W)
    (algorithm expected : String) (size : ℕ) where
  -- The path holds a file of the size and with the digest.
  abbrev pub HasDigest : FilePath → Files → Type 0
  HasDigest path files =
      (content : Bytes) × (files path ≡ some content)
      × (length content ≡ size)
      × (digest algorithm content ≡ expected)

  check_file-HasDigest :
      (path : FilePath) (host after : Host W)
      → check_file digest urlopen path algorithm expected size host ≡ (ok tt, after)
      → (host ≡ after) × HasDigest path host.files
  unfolding check_file
  check_file-HasDigest path host after h = read-ok path _ host h λ content f h1.
      require-ok (length content == size) (assertion "") _ host h1 λ l h2.
        let (d, e) =
          require-end (str_eq (digest algorithm content) expected) (assertion "") host after h2 in
        (
          e,
          (
            content,
            f,
            (==_iff (length content) size).0 l,
            (eq_iff (digest algorithm content) expected).0 d,
          ),
        )

  check_file-host :
      (path : FilePath) (host : Host W)
      → (check_file digest urlopen path algorithm expected size host).1 ≡ host
  unfolding check_file
  check_file-host path host = go (host.files path)
    where
      tests : Bool → Bool → Result (Unit {0}) × Host W
      tests a b = (require a (assertion "") >> require b (assertion "")) host

      tests-host : (a b : Bool) → (tests a b).1 ≡ host
      tests-host true b = refl
      tests-host false b = refl

      go :
          (found : Option Bytes)
          → (on_result
              (or_missing found, host)
              (λ content.
                require (length content == size) (assertion "")
                >> require (str_eq (digest algorithm content) expected) (assertion ""))).1
            ≡ host
      go none = refl
      go (some content) =
          tests-host (length content == size) (str_eq (digest algorithm content) expected)

  replace-HasDigest :
      (path target : FilePath) (host after : Host W)
      → HasDigest path host.files
      → (replace path target host).1 ≡ after
      → HasDigest target after.files
  replace-HasDigest path target host after (content, f, l, d) e = (
    content,
    subst (λ (h : Host W). h.files target ≡ some content) e
        (rw (replace, f) (put-same target (some content) (put path none host.files))),
    l,
    d,
  )

  module _ (name : String) (rest : FilePath) where
    abbrev target : FilePath
    target = name ∷ rest

    -- The target is as it was, or has the digest and the size.
    abbrev Kept : Files → Host W → Type 0
    Kept before host = (host.files target ≡ before target) ⊎ HasDigest target host.files

    write_blocks-target :
        (body : Body) (host : Host W)
        → (write_blocks (part_path target) size body host).1.files target ≡ host.files target
    write_blocks-target body host =
        put-other (part_path target) target (some (receive_blocks size body []).0) host.files
          (part_path-ne name rest)

    abbrev Same : Files → Host W → Type 0
    Same before host = host.files target ≡ before target

    after-eq :
        {A : Type 0} {p : Result A × Host W} {r : Result A} {h : Host W} → p ≡ (r, h) → p.1 ≡ h
    after-eq {A} e = ap (λ (p : Result A × Host W). p.1) e

    receive-Same :
        (body : Body) (host : Host W)
        → Same host.files
            ((write_blocks (part_path target) size body
                >> check_file digest urlopen (part_path target) algorithm expected size)
              host).1
    receive-Same body host =
        then-after (Same host.files) (write_blocks (part_path target) size body)
          (check_file digest urlopen (part_path target) algorithm expected size) host
          (λ x mid e. subst (Same host.files) (after-eq e) (write_blocks-target body host))
          (λ mid e.
            subst (Same host.files) (after-eq e ∙ sym (check_file-host (part_path target) mid))
              (write_blocks-target body host))

    settle-Kept :
        (body : Body) (host : Host W)
        → Kept host.files
            ((write_blocks (part_path target) size body
                >> check_file digest urlopen (part_path target) algorithm expected size
                >> replace (part_path target) target)
              host).1
    settle-Kept body host =
        then-after (Kept host.files)
          (write_blocks (part_path target) size body
            >> check_file digest urlopen (part_path target) algorithm expected size)
          (replace (part_path target) target) host
          (λ x between e. inl (subst (Same host.files) (after-eq e) (receive-Same body host)))
          (λ between e.
            then-ok (write_blocks (part_path target) size body)
              (check_file digest urlopen (part_path target) algorithm expected size) host e
              λ mid f g.
                let (same, d) = check_file-HasDigest (part_path target) mid between g in
                inr (
                  replace-HasDigest (part_path target) target between _
                    (subst (λ (h : Host W). HasDigest (part_path target) h.files) same d) refl))

    fetch_file-Kept :
        (url : String) (host : Host W)
        → Kept host.files (fetch_file digest urlopen url target algorithm expected size host).1
    unfolding fetch_file
    fetch_file-Kept url host = go (urlopen url host.world)
      where
        go :
            (found : Result Body × W)
            → Kept host.files
                (on_result
                  (found.0, record host { world = found.1 })
                  (λ body.
                    write_blocks (part_path target) size body
                    >> check_file digest urlopen (part_path target) algorithm expected size
                    >> replace (part_path target) target)).1
        go (err x, world) = inl refl
        go (ok body, world) = settle-Kept body (record host { world = world })

    first-Kept :
        (url : String) (found : Bool) (host : Host W)
        → Kept host.files
            (unless digest urlopen found
              (fetch_file digest urlopen url target algorithm expected size)
              host).1
    first-Kept url true host = inl refl
    first-Kept url false host = fetch_file-Kept url host

    pub download_file-HasDigest :
        (url : String) (host after : Host W)
        → download_file digest urlopen url target algorithm expected size host ≡ (ok tt, after)
        → HasDigest target after.files
    unfolding download_file
    download_file-HasDigest url host after h =
        then-ok
          (exists target >>= (λ found.
            unless digest urlopen found
              (fetch_file digest urlopen url target algorithm expected size)))
          (check_file digest urlopen target algorithm expected size) host h
          λ between e k.
            let (same, d) = check_file-HasDigest target between after k in
            subst (λ (h : Host W). HasDigest target h.files) same d

    download_file-Kept :
        (url : String) (host : Host W)
        → Kept host.files (download_file digest urlopen url target algorithm expected size host).1
    unfolding download_file
    download_file-Kept url host =
        then-after (Kept host.files)
          (exists target >>= (λ found.
            unless digest urlopen found
              (fetch_file digest urlopen url target algorithm expected size)))
          (check_file digest urlopen target algorithm expected size) host
          (λ x between e.
            subst (Kept host.files) (after-eq e)
              (first-Kept url (is_some (host.files target)) host))
          (λ between e.
            subst (Kept host.files) (after-eq e ∙ sym (check_file-host target between))
              (first-Kept url (is_some (host.files target)) host))

    -- How a download ends: it returns and the target has the digest and the size, or it raises and
    -- the target is as it was or has them.
    abbrev pub EndsWell : Files → Result (Unit {0}) × Host W → Type 0
    EndsWell before (ok done, after) = HasDigest target after.files
    EndsWell before (err x, after) =
        (after.files target ≡ before target) ⊎ HasDigest target after.files

    -- A download that returns leaves at the target a file with the size and the digest; one that raises leaves
    -- the target as it was or such a file.
    pub download_file-EndsWell :
        (url : String) (host : Host W)
        → EndsWell host.files (download_file digest urlopen url target algorithm expected size host)
    download_file-EndsWell url host =
        go (download_file digest urlopen url target algorithm expected size host) refl
          (download_file-Kept url host)
      where
        go :
            (found : Result (Unit {0}) × Host W)
            → download_file digest urlopen url target algorithm expected size host ≡ found
            → Kept host.files
                (download_file digest urlopen url target algorithm expected size host).1
            → EndsWell host.files found
        go (ok tt, after) e k = download_file-HasDigest url host after e
        go (err x, after) e k = subst (Kept host.files) (after-eq e) k
