-- ===== src/Sources/Verified.antt =====
-- What it means that scripts/collect-proot-sources.py returns.
use tiny_agent.Base.{
  FilePath, file_name, ℕ, ◌≡◌, refl, subst, String, Bool, true, false, not, ◌&&◌, some, List, [],
  ◌∷◌, All, ◌⊎◌, inl, inr, str_eq, eq_iff, Bytes, Result, ok, assertion, guard-ok, >>=-ok,
  ok_injective, arith, if◌then◌else◌, Bool-cases, ltb, ◌*◌, &&_right,
}
use tiny_agent.Upstream.{differs}
use tiny_agent.Host.{Host, ◌>>=◌, exists}
use tiny_agent.Host.Rules.{then-ok, require-ok, read-ok, pure-ok}
use tiny_agent.Sources.{Page, Source, transfer, when_missing, source_of, fetch}
use tiny_agent.Sources.Notices.{Entry, is_notice_name, add_notice, find_notices}

-- What is found in an archive has the name of a notice.
abbrev pub AreNamed : List (String × Bytes) → Type 0
AreNamed = All (λ n. is_notice_name n.0 ≡ true)

pub find_notices-AreNamed :
    (entries : List Entry) (found : List (String × Bytes))
    → find_notices entries ≡ ok found
    → AreNamed found
unfolding find_notices
find_notices-AreNamed [] found h = subst AreNamed (ok_injective [] found h) tt
find_notices-AreNamed (entry ∷ entries) found h =
    go (entry.is_file && is_notice_name entry.name) refl h (find_notices-AreNamed entries)
  where
    go :
        (b : Bool)
        → (entry.is_file && is_notice_name entry.name) ≡ b
        → (if b then add_notice entry (find_notices entries) else find_notices entries) ≡ ok found
        → ((rest : List (String × Bytes)) → find_notices entries ≡ ok rest → AreNamed rest)
        → AreNamed found
    go false e k f = f found k
    go true e k f = guard-ok (ltb entry.size (1024 * 1024)) (assertion "") _ k λ _ k1.
        >>=-ok entry.content _ k1 λ content _ k2. >>=-ok (find_notices entries) _ k2 λ more m k3.
          subst AreNamed (ok_injective ((entry.name, content) ∷ more) found k3)
            (&&_right entry.is_file (is_notice_name entry.name) e, f more m)

module _ (digest : Bytes → String) {W : Type 0} (urlopen : String → ℕ → W → Result Page × W) where
  -- The content has the digest, where one is given.
  abbrev pub HasDigest : String → Bytes → Type 0
  HasDigest expected content = (expected ≡ "") ⊎ (digest content ≡ expected)

  differs-HasDigest :
      (expected : String) (content : Bytes)
      → not (differs (some expected) (digest content)) ≡ true
      → HasDigest expected content
  differs-HasDigest expected content h =
      go (Bool-cases (str_eq expected "")) (Bool-cases (str_eq (digest content) expected)) h
    where
      go :
          (str_eq expected "" ≡ true) ⊎ (str_eq expected "" ≡ false)
          → (str_eq (digest content) expected ≡ true) ⊎ (str_eq (digest content) expected ≡ false)
          → not (not (str_eq expected "") && not (str_eq (digest content) expected)) ≡ true
          → HasDigest expected content
      go (inl e) d k = inl ((eq_iff expected "").0 e)
      go (inr e) (inl d) k = inr ((eq_iff (digest content) expected).0 d)
      go (inr e) (inr d) k = absurd (no e d k)
        where
          no : {a b : Bool} → a ≡ false → b ≡ false → not (not a && not b) ≡ true → ⊥
          no f g k = ground arith

  -- A source that was fetched: its content has the digest, and its record is of it.
  abbrev pub IsFetched : String → FilePath → String → Bytes → Source → Type 0
  IsFetched url target expected content source =
      HasDigest expected content × (source ≡ source_of digest urlopen url target content)

  pub fetch-IsFetched :
      (url : String) (target : FilePath) (expected : String) (host after : Host W) (content : Bytes)
      (source : Source)
      → fetch digest urlopen url target (some expected) host ≡ (ok (content, source), after)
      → IsFetched url target expected content source
  unfolding fetch
  fetch-IsFetched url target expected host after content source h =
      then-ok
        (exists target >>= (λ found.
          when_missing digest urlopen found (transfer digest urlopen url target (some expected))))
        _ host h
        λ between _ h1. read-ok target _ between h1 λ found f h2.
          require-ok (not (differs (some expected) (digest found))) (assertion (file_name target)) _
            between h2
            λ d h3.
              let e =
                (pure-ok (found, source_of digest urlopen url target found) (content, source)
                  between after h3).0 in
              subst (λ (p : Bytes × Source). IsFetched url target expected p.0 p.1) e
                (differs-HasDigest expected found d, refl)
