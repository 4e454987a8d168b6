-- ===== src/Fedora/Safe.antt =====
-- What `safe_members` of scripts/prepare-fedora.py establishes.
use tiny_agent.Base.{
  FilePath, path_eq, path_eq→eq, path_eq_refl, is_in, lookup, has, ancestors, parts, ◌≡◌, refl,
  subst, sym, ap, ◌∙◌, true, false, not, ◌||◌, Option, none, some, List, [], ◌∷◌, ◌++◌, map,
  append_assoc', append-nil', Bool-cases, inl, inr, ◌⊎◌, All, ok, value_error, >>=-ok, guard-ok,
  arith,
}
use tiny_agent.Fedora.{
  Kind, regular, directory, symlink, hardlink, other, Member, Names, is_supported, is_directory,
  is_regular, has_whiteout, is_unsafe, collect, is_no_directory, is_blocked, target_of, has_target,
  check_names, safe_members,
}

abbrev pub path_of : Member → FilePath
path_of m = parts m.name

abbrev pub entry_of : Member → FilePath × Kind
entry_of m = (path_of m, m.kind)

-- No path stands twice in the list.
unfoldable pub AreDistinct : List FilePath → Type 0
unfolding is_in
AreDistinct [] = Unit
AreDistinct (p ∷ ps) = (is_in p ps ≡ false) × AreDistinct ps

-- A relative path without `..` and whiteouts, and a file, a directory or a link.
pub record IsPlain (m : Member) : Type 0 where
  pub is_safe : is_unsafe m.name ≡ false
  pub no_whiteout : has_whiteout (path_of m) ≡ false
  pub supported : is_supported m.kind ≡ true

lookup-append_new :
    (p : FilePath) (kind : Kind) (names rest : Names)
    → has p names ≡ false
    → lookup p (names ++ ((p, kind) ∷ rest)) ≡ some kind
unfolding has lookup
lookup-append_new p kind [] rest h = ground (arith, path_eq_refl p)
lookup-append_new p kind ((q, k) ∷ names) rest h =
    ground (arith, lookup-append_new p kind names rest)

has-append : (p : FilePath) (names rest : Names) → has p names ≡ true → has p (names ++ rest) ≡ true
unfolding has lookup
has-append p [] rest h = cc
has-append p ((q, k) ∷ names) rest h = ground (arith, has-append p names rest)

has-append_last : (p : FilePath) (k : Kind) (names : Names) → has p (names ++ ((p, k) ∷ [])) ≡ true
unfolding has lookup
has-append_last p k [] = ground (arith, path_eq_refl p)
has-append_last p k ((q, l) ∷ names) = ground (arith, has-append_last p k names)

-- One step of the first loop.
collect-step :
    {Goal : Type 0} (m : Member) (ms : List Member) (names all : Names)
    → collect (m ∷ ms) names ≡ ok all
    → (IsPlain m
        → has (path_of m) names ≡ false
        → collect ms (names ++ (entry_of m ∷ [])) ≡ ok all
        → Goal)
    → Goal
unfolding collect
collect-step m ms names all h go =
    guard-ok (not (is_unsafe m.name)) (value_error "Unsafe archive member path") _ h λ safe h1.
      guard-ok (not (has (parts m.name) names || has_whiteout (parts m.name)))
        (value_error "Duplicate path or unsupported whiteout") _ h1
        λ new h2.
          guard-ok (is_supported m.kind) (value_error "Unsupported archive member type") _ h2
            λ kind h3.
              go
                (record {
                  is_safe = ground (arith, safe);
                  no_whiteout = ground (arith, new);
                  supported = kind;
                })
                (ground (arith, new)) h3

-- A path that is there already does not come again.
collect-is_in :
    (p : FilePath) (ms : List Member) (names all : Names)
    → has p names ≡ true
    → collect ms names ≡ ok all
    → is_in p (map path_of ms) ≡ false
unfolding is_in
collect-is_in p [] names all h k = refl
collect-is_in p (m ∷ ms) names all h k = collect-step m ms names all k λ _ new rest.
    let later = collect-is_in p ms _ all (has-append p names (entry_of m ∷ []) h) rest in
    elim (Bool-cases (path_eq p (path_of m))) [
      | inl e ↦
          let same : has (path_of m) names ≡ true =
            subst (λ q. has q names ≡ true) (path_eq→eq p (path_of m) e) h in
          cc
      | inr e ↦ ground (arith, e, later)
    ]

-- The dictionary behind the first loop.
pub record AreCollected (ms : List Member) (names all : Names) : Type 0 where
  pub whole : all ≡ names ++ map entry_of ms
  pub plain : All IsPlain ms
  pub found : All (λ m. lookup (path_of m) all ≡ some m.kind) ms
  pub distinct : AreDistinct (map path_of ms)

collect-AreCollected :
    (ms : List Member) (names all : Names) → collect ms names ≡ ok all → AreCollected ms names all
unfolding collect AreDistinct
collect-AreCollected [] names all h = record {
  whole = let e : all ≡ names = cc in e ∙ sym (append-nil' names);
  plain = tt;
  found = tt;
  distinct = tt;
}
collect-AreCollected (m ∷ ms) names all h = collect-step m ms names all h λ plain new rest.
    let more = collect-AreCollected ms (names ++ (entry_of m ∷ [])) all rest in
    let whole : all ≡ names ++ (entry_of m ∷ map entry_of ms) =
      more.whole ∙ append_assoc' names (entry_of m ∷ []) (map entry_of ms) in
    record {
      whole = whole;
      plain = (plain, more.plain);
      found = (
        ap (lookup (path_of m)) whole
            ∙ lookup-append_new (path_of m) m.kind names (map entry_of ms) new,
        more.found,
      );
      distinct = (
        collect-is_in (path_of m) ms _ all (has-append_last (path_of m) m.kind names) rest,
        more.distinct,
      );
    }

is_blocked-is_in :
    (names : Names) (parents : List FilePath) (p : FilePath)
    → is_blocked names parents ≡ false
    → is_in p parents ≡ true
    → is_no_directory (lookup p names) ≡ false
unfolding is_blocked is_in
is_blocked-is_in names [] p h k = cc
is_blocked-is_in names (q ∷ qs) p h k = elim (Bool-cases (path_eq p q)) [
  | inl e ↦
      subst (λ r. is_no_directory (lookup r names) ≡ false) (sym (path_eq→eq p q e)) (ground arith)
  | inr e ↦ is_blocked-is_in names qs p (ground arith) (ground (arith, e))
]

-- What the second loop has checked of an entry.
pub record IsChecked (names : Names) (entry : FilePath × Kind) : Type 0 where
  pub open_way : is_blocked names (ancestors entry.0) ≡ false
  pub linked : has_target names entry.1 ≡ true

check_names-IsChecked :
    (names : Names) (ms : List Member)
    → check_names names (map entry_of ms) ≡ ok tt
    → All (λ m. IsChecked names (entry_of m)) ms
unfolding check_names
check_names-IsChecked names [] h = tt
check_names-IsChecked names (m ∷ ms) h =
    guard-ok (not (is_blocked names (ancestors (path_of m))))
      (value_error "Archive writes through a non-directory ancestor") _ h
      λ way h1.
        guard-ok (has_target names m.kind)
          (value_error "Hardlink must target an archive regular file") _ h1
          λ link h2. (
            record { open_way = ground (arith, way); linked = link },
            check_names-IsChecked names ms h2,
          )

-- The member's path does not lead through another member, or that is a directory.
abbrev pub LeadsThrough : Member → Member → Type 0
LeadsThrough m d =
    (is_in (path_of d) (ancestors (path_of m)) ≡ false) ⊎ (is_directory d.kind ≡ true)

-- The target of a hard link is a regular file of the archive.
abbrev pub HasTarget : List Member → Kind → Type 0
HasTarget members (hardlink target) = target_of (map entry_of members) target ≡ some regular
HasTarget members _ = Unit

is_regular-eq : (o : Option Kind) → is_regular o ≡ true → o ≡ some regular
is_regular-eq none h = cc
is_regular-eq (some regular) h = refl
is_regular-eq (some directory) h = cc
is_regular-eq (some (symlink t)) h = cc
is_regular-eq (some (hardlink t)) h = cc
is_regular-eq (some other) h = cc

has_target-HasTarget :
    (members : List Member) (kind : Kind)
    → has_target (map entry_of members) kind ≡ true
    → HasTarget members kind
has_target-HasTarget members (hardlink target) h =
    is_regular-eq (target_of (map entry_of members) target) h
has_target-HasTarget members regular h = tt
has_target-HasTarget members directory h = tt
has_target-HasTarget members (symlink target) h = tt
has_target-HasTarget members other h = tt

IsChecked-LeadsThrough :
    (names : Names) (m d : Member)
    → IsChecked names (entry_of m)
    → lookup (path_of d) names ≡ some d.kind
    → LeadsThrough m d
IsChecked-LeadsThrough names m d k found =
    elim (Bool-cases (is_in (path_of d) (ancestors (path_of m)))) [
      | inr e ↦ inl e
      | inl e ↦
          let open_way : is_no_directory (some d.kind) ≡ false =
            subst (λ o. is_no_directory o ≡ false) found
              (is_blocked-is_in names (ancestors (path_of m)) (path_of d) k.open_way e) in
          inr (ground (arith, open_way))
    ]

-- An archive that can be unpacked without leaving its directory.
pub record IsSafe (members : List Member) : Type 0 where
  pub plain : All IsPlain members
  pub distinct : AreDistinct (map path_of members)
  pub straight : All (λ m. All (LeadsThrough m) members) members
  pub targets : All (λ m. HasTarget members m.kind) members

map_All {ℓ κ ι} :
    {A : Type ℓ} {P : A → Type κ} {Q : A → Type ι} (xs : List A)
    → ((x : A) → P x → Q x)
    → All P xs
    → All Q xs
map_All [] f h = tt
map_All (x ∷ xs) f (p, h) = (f x p, map_All xs f h)

-- An archive that passes is safe to unpack: every member has a relative path with no `..` and no
-- whiteout, no path stands twice, no path leads through a member that is not a directory, such
-- as a symbolic link, and hard links go to regular files of the archive.
pub safe_members-IsSafe : (members : List Member) → safe_members members ≡ ok tt → IsSafe members
unfolding safe_members
safe_members-IsSafe members h = >>=-ok (collect members []) _ h λ names e h1.
    let c = collect-AreCollected members [] names e in
    let checked =
      check_names-IsChecked names members (subst (λ l. check_names names l ≡ ok tt) c.whole h1) in
    record {
      plain = c.plain;
      distinct = c.distinct;
      straight =
          map_All members (λ m k. map_All members (λ d. IsChecked-LeadsThrough names m d k) c.found)
            checked;
      targets =
          map_All members
            (λ m k.
              has_target-HasTarget members m.kind
                (subst (λ l. has_target l m.kind ≡ true) c.whole k.linked))
            checked;
    }
