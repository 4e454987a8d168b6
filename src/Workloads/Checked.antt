-- ===== src/Workloads/Checked.antt =====
-- What benchmarks/package-manager/checkout-workloads.py checks of an entry and of its checkout.
use tiny_agent.Base.{
  FilePath, ◌≡◌, refl, sym, ap, ◌∙◌, subst, ℕ, ◌==◌, ==_iff, leb, str_eq, eq_iff, strip, codes,
  length, String, Bool, true, false, ◌&&◌, ◌||◌, &&_left, &&_right, inl, inr, ◌⊎◌, every, is_hex,
  is_hex_text, starts_with, replace_char, List, [], ◌∷◌, ◌++◌, All, Bytes, Exception, Result, ok,
  err, >>=-ok, guard-ok, assertion, ok_injective,
}
use tiny_agent.Json.{Json, null, boolean, natural, negative, text, array, object, index}
use tiny_agent.Host.{Host, write}
use tiny_agent.Host.Rules.{bind-ok, then-ok, require-end, lift-ok, lift-end}
use tiny_agent.Workloads.{
  Phone, Workload, Report, Status, running, passed, stopped, as_name, as_commit, as_address,
  is_plain, is_known_site, read_workload, is_passed, all_passed, exit_code,
}
use tiny_agent.Workloads.Run

as_name-text : (v : Json) (s : String) → as_name v ≡ ok s → v ≡ text s
as_name-text (text t) s h = ap text (ok_injective t s h)
as_name-text null s h = cc
as_name-text (boolean b) s h = cc
as_name-text (natural n) s h = cc
as_name-text (negative n) s h = cc
as_name-text (array _) s h = cc
as_name-text (object _) s h = cc

as_commit-text : (v : Json) (s : String) → as_commit v ≡ ok s → v ≡ text s
as_commit-text (text t) s h = ap text (ok_injective t s h)
as_commit-text null s h = cc
as_commit-text (boolean b) s h = cc
as_commit-text (natural n) s h = cc
as_commit-text (negative n) s h = cc
as_commit-text (array _) s h = cc
as_commit-text (object _) s h = cc

as_address-text : (v : Json) (s : String) → as_address v ≡ ok s → v ≡ text s
as_address-text (text t) s h = ap text (ok_injective t s h)
as_address-text null s h = cc
as_address-text (boolean b) s h = cc
as_address-text (natural n) s h = cc
as_address-text (negative n) s h = cc
as_address-text (array _) s h = cc
as_address-text (object _) s h = cc

-- An entry with a plain name, a commit of 40 hexadecimal digits, and an address at one of the two sites.
pub record IsEntry (to_lower : String → String) (is_letter : ℕ → Bool) (entry : Json)
    (workload : Workload) : Type 0 where
  pub title : String
  pub titled : index entry "name" ≡ ok (text title)
  pub name : workload.name ≡ replace_char b' ' "-" (to_lower title)
  pub plain : is_plain is_letter workload.name ≡ true
  pub pinned : index entry "commit" ≡ ok (text workload.commit)
  pub forty : length (codes workload.commit) ≡ 40
  pub digits : every is_hex (codes workload.commit) ≡ true
  pub address : index entry "url" ≡ ok (text workload.url)
  pub site :
      (starts_with workload.url "https://github.com/" ≡ true)
      ⊎ (starts_with workload.url "https://code.videolan.org/" ≡ true)

hex-forty :
    (commit : String)
    → is_hex_text 40 (codes commit) ≡ true
    → (length (codes commit) ≡ 40) × (every is_hex (codes commit) ≡ true)
unfolding is_hex_text
hex-forty commit h = (
  (==_iff (length (codes commit)) 40).0
      (&&_left (length (codes commit) == 40) (every is_hex (codes commit)) h),
  &&_right (length (codes commit) == 40) (every is_hex (codes commit)) h,
)

one_of : (a b : Bool) → (a || b) ≡ true → (a ≡ true) ⊎ (b ≡ true)
one_of true b h = inl refl
one_of false b h = inr h

pub read_workload-IsEntry :
    (to_lower : String → String) (is_letter : ℕ → Bool) (entry : Json) (workload : Workload)
    → read_workload to_lower is_letter entry ≡ ok workload
    → IsEntry to_lower is_letter entry workload
unfolding read_workload
read_workload-IsEntry to_lower is_letter entry workload h =
    >>=-ok (index entry "name") _ h λ given n h1. >>=-ok (as_name given) _ h1 λ title t h2.
      let name = replace_char b' ' "-" (to_lower title) in
      guard-ok (is_plain is_letter name) (assertion "") _ h2 λ p h3.
        >>=-ok (index entry "commit") _ h3 λ pinned c h4.
          >>=-ok (as_commit pinned) _ h4 λ commit g h5.
            guard-ok (is_hex_text 40 (codes commit)) (assertion "") _ h5 λ x h6.
              >>=-ok (index entry "url") _ h6 λ address u h7.
                >>=-ok (as_address address) _ h7 λ url a h8.
                  guard-ok (is_known_site url) (assertion "") _ h8 λ k h9.
                    let (forty, digits) = hex-forty commit x in
                    subst (IsEntry to_lower is_letter entry)
                      (ok_injective (record { name = name; commit = commit; url = url }) workload
                        h9)
                      (record {
                        title = title;
                        titled = n ∙ ap ok (as_name-text given title t);
                        name = refl;
                        plain = p;
                        pinned = c ∙ ap ok (as_commit-text pinned commit g);
                        forty = forty;
                        digits = digits;
                        address = u ∙ ap ok (as_address-text address url a);
                        site =
                            one_of (starts_with url "https://github.com/")
                              (starts_with url "https://code.videolan.org/") k;
                      })

abbrev pub HasPassed : Status → Type 0
HasPassed running = ⊥
HasPassed (passed submodules) = Unit
HasPassed (stopped error) = ⊥

-- The status of the exit is zero if all checkouts have passed, and one if some has not.
abbrev pub IsExit : ℕ → List Report → Type 0
IsExit code reports =
    ((code ≡ 0) × All (λ (r : Report). HasPassed r.status) reports)
    ⊎ ((before : List Report) × (report : Report) × (behind : List Report) × (code ≡ 1)
        × (reports ≡ before ++ (report ∷ behind))
        × ¬ HasPassed report.status)

is_passed-HasPassed : (status : Status) → is_passed status ≡ true → HasPassed status
is_passed-HasPassed running h = cc
is_passed-HasPassed (passed submodules) h = tt
is_passed-HasPassed (stopped error) h = cc

not_passed : (status : Status) → is_passed status ≡ false → ¬ HasPassed status
not_passed running h = λ p. p
not_passed (passed submodules) h = cc
not_passed (stopped error) h = λ p. p

pub exit_code-IsExit : (reports : List Report) → IsExit (exit_code reports) reports
exit_code-IsExit [] = inl (refl, tt)
exit_code-IsExit (report ∷ reports) = go (is_passed report.status) refl (exit_code-IsExit reports)
  where
    go :
        (b : Bool)
        → is_passed report.status ≡ b
        → IsExit (exit_code reports) reports
        → IsExit (elim (b && all_passed reports) [ true ↦ 0 | false ↦ 1 ]) (report ∷ reports)
    go false e rest = inr ([], report, reports, refl, refl, not_passed report.status e)
    go true e (inl (z, all)) = inl (z, (is_passed-HasPassed report.status e, all))
    go true e (inr (before, other, behind, one, place, fails)) =
        inr (report ∷ before, other, behind, one, ap (λ rs. report ∷ rs) place, fails)

module _ {W Time : Type 0} (phone : Phone W Time) (message : Exception → String)
    (dumps : Json → Bytes) where
  -- What a status says of the checkout that ran from a host to another: one that has passed has then the commit as its head, and `git` has listed
  -- the submodules; one that has not says what was raised; none is still running.
  abbrev pub IsTrue : Workload → Status → Host W → Host W → Type 0
  IsTrue workload running host after = ⊥
  IsTrue workload (stopped error) host after =
      (x : Exception) × (Run.check_out phone message dumps workload host ≡ (err x, after))
      × (error ≡ message x)
  IsTrue workload (passed submodules) host after =
      (before : Host W) × (between : Host W) × (head : Bytes) × (actual : String) × (listed : Bytes)
      × (Run.prepare phone message dumps workload host ≡ (ok tt, before))
      × (phone.output (Run.head_command phone message dumps workload) before ≡ (ok head, between))
      × (phone.decode head ≡ ok actual)
      × (strip actual ≡ workload.commit)
      × (phone.output (Run.submodule_command phone message dumps workload) between
          ≡ (ok listed, after))
      × (phone.decode listed ≡ ok submodules)

  checked-IsTrue :
      (workload : Workload) (submodules : String) (host after : Host W)
      → Run.check_out phone message dumps workload host ≡ (ok submodules, after)
      → IsTrue workload (passed submodules) host after
  checked-IsTrue workload submodules host after h =
      then-ok (Run.prepare phone message dumps workload) _ host h λ before p h1.
        then-ok (Run.check_head phone message dumps workload) _ before h1 λ found c h2.
          bind-ok (phone.output (Run.head_command phone message dumps workload)) _ before c
            λ head between o c1. lift-ok (phone.decode head) _ between c1 λ actual d c2.
              let (e, same) =
                require-end (str_eq (strip actual) workload.commit)
                  (assertion "Existing checkout differs; retained for inspection") between found
                  c2 in
              bind-ok (phone.output (Run.submodule_command phone message dumps workload)) _ found h2
                λ listed last l h3.
                  let (decoded, end) = lift-end (phone.decode listed) submodules last after h3 in
                  (
                    before,
                    between,
                    head,
                    actual,
                    listed,
                    p,
                    o,
                    d,
                    (eq_iff (strip actual) workload.commit).0 e,
                    ap (phone.output (Run.submodule_command phone message dumps workload)) same
                        ∙ (l ∙ ap (λ (k : Host W). (ok listed, k)) end),
                    decoded,
                  )

  pub check_out-IsTrue :
      (workload : Workload) (result : Result String) (host after : Host W)
      → Run.check_out phone message dumps workload host ≡ (result, after)
      → IsTrue workload (Run.status_after phone message dumps result) host after
  check_out-IsTrue workload (ok submodules) host after h =
      checked-IsTrue workload submodules host after h
  check_out-IsTrue workload (err x) host after h = (x, h, refl)

  -- A file that was written as a whole.
  pub store-ok :
      (path : FilePath) (content : Bytes) (host after : Host W)
      → Run.store phone message dumps path content host ≡ (ok tt, after)
      → after ≡ (write path content host).1
  store-ok path content host after h = go (leb (length content) (phone.room host.world)) h
    where
      go :
          (b : Bool)
          → Run.store_if phone message dumps b path content host ≡ (ok tt, after)
          → after ≡ (write path content host).1
      go true k = ap (λ (p : Result (Unit {0}) × Host W). p.1) (sym k)
      go false k = absurd (no_ok (ap (λ (p : Result (Unit {0}) × Host W). p.0) k))
        where
          no_ok : {x : Exception} → ◌≡◌ {A = Result (Unit {0})} (err x) (ok tt) → ⊥
          no_ok e = cc
