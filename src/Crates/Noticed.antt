-- ===== src/Crates/Noticed.antt =====
-- What it means that scripts/collect-dnfast-cargo-notices.py collects the notices of a crate.
use tiny_agent.Base.{
  ◌≡◌, refl, ap, ◌∙◌, subst, String, ◌<>◌, Bool, true, false, Option, none, some, List, [], ◌∷◌,
  ◌⊎◌, inl, inr, leb, Bytes, Result, ok, guard-ok, >>=-ok, ok_injective, traverse,
}
use tiny_agent.Json.{Json, text, index, get, json_eq, text-json_eq}
use tiny_agent.Host.Rules.{AreRounds}
use tiny_agent.Staging.{is_inner}
use tiny_agent.Sources.Notices.{Entry}
use tiny_agent.Rpms.{get_member}
use tiny_agent.Crates.{identity_of}
use tiny_agent.Crates.Notices.{
  get_or, is_notice, max_notice, take_notice, take_file, take_entry, taken, Crate, crate_name,
  collect_crate,
}

pub traverse-AreRounds :
    {A B : Type 0} (R : A → B → Type 0) (f : A → Result B)
    (round : (x : A) (y : B) → f x ≡ ok y → R x y) (xs : List A) (ys : List B)
    → traverse f xs ≡ ok ys
    → AreRounds R xs ys
unfolding traverse
traverse-AreRounds R f round [] ys h = subst (AreRounds R []) (ok_injective [] ys h) tt
traverse-AreRounds R f round (x ∷ xs) ys h = >>=-ok (f x) _ h λ y e h1.
    >>=-ok (traverse f xs) _ h1 λ rest r h2.
      subst (AreRounds R (x ∷ xs)) (ok_injective (y ∷ rest) ys h2)
        (round x y e, traverse-AreRounds R f round xs rest r)

-- The entry is no notice, or it gives its name and content, and is not too long.
abbrev IsChosen : String → Json → Entry → Option (String × Bytes) → Type 0
IsChosen name declared entry none =
    (entry.is_file ≡ false) ⊎ (is_notice name declared entry.name ≡ ok false)
IsChosen name declared entry (some (member, content)) =
    (member ≡ entry.name)
    × (entry.is_file ≡ true)
    × (is_notice name declared entry.name ≡ ok true)
    × (leb entry.size max_notice ≡ true)
    × (entry.content ≡ ok content)

-- The entry of a crate has a relative path that does not go up.
abbrev pub IsTaken : String → Json → Entry → Option (String × Bytes) → Type 0
IsTaken name declared entry found =
    (is_inner entry.name ≡ true) × IsChosen name declared entry found

take_notice-IsChosen :
    (name : String) (declared : Json) (entry : Entry) (b : Bool) (found : Option (String × Bytes))
    → entry.is_file ≡ true
    → is_notice name declared entry.name ≡ ok b
    → take_notice name entry b ≡ ok found
    → IsChosen name declared entry found
take_notice-IsChosen name declared entry false found t n h =
    subst (IsChosen name declared entry) (ok_injective none found h) (inr n)
take_notice-IsChosen name declared entry true found t n h =
    guard-ok (leb entry.size max_notice) _ _ h λ small h1. >>=-ok entry.content _ h1 λ content c h2.
      subst (IsChosen name declared entry) (ok_injective (some (entry.name, content)) found h2)
        (refl, t, n, small, c)

take_file-IsChosen :
    (name : String) (declared : Json) (entry : Entry) (b : Bool) (found : Option (String × Bytes))
    → entry.is_file ≡ b
    → take_file name declared entry b ≡ ok found
    → IsChosen name declared entry found
take_file-IsChosen name declared entry false found t h =
    subst (IsChosen name declared entry) (ok_injective none found h) (inl t)
take_file-IsChosen name declared entry true found t h =
    >>=-ok (is_notice name declared entry.name) _ h
      λ b n h1. take_notice-IsChosen name declared entry b found t n h1

take_entry-IsTaken :
    (name : String) (declared : Json) (entry : Entry) (found : Option (String × Bytes))
    → take_entry name declared entry ≡ ok found
    → IsTaken name declared entry found
unfolding take_entry
take_entry-IsTaken name declared entry found h =
    guard-ok (is_inner entry.name) _ _ h
      λ inner h1. (inner, take_file-IsChosen name declared entry entry.is_file found refl h1)

-- The crate of a package: its archive has the digest of the package, and its notices are those of the entries, in their
-- order.
pub record IsCrate (digest : Bytes → String) (untar : Bytes → Result (List Entry))
    (sources : List Entry) (locked : Json) (crate : Crate) : Type 0 where
  pub identity : String × String
  pub packed : Entry
  pub content : Bytes
  pub entries : List Entry
  pub found : List (Option (String × Bytes))
  pub identified : identity_of locked ≡ ok identity
  pub named : crate.name ≡ crate_name identity
  pub listed : get_member ("registry/" <> (crate_name identity <> ".crate")) sources ≡ ok packed
  pub read : packed.content ≡ ok content
  pub verified : index locked "sha256" ≡ ok (text (digest content))
  pub opened : untar content ≡ ok entries
  pub chosen : AreRounds (IsTaken crate.name crate.declared) entries found
  pub noticed : crate.notices ≡ taken found

module _ (digest : Bytes → String) (untar : Bytes → Result (List Entry))
    (loads : Bytes → Result Json) where
  -- A round of the collection that returns has read the crate of the package, with the digest that the package has; all its entries
  -- have relative paths that do not go up; and its notices are, in their order, the names and contents of just those entries that are
  -- files and are notices by their name or by the declaration of the crate, none longer than 2 MiB.
  pub collect_crate-IsCrate :
      (sources : List Entry) (locked : Json) (crate : Crate)
      → collect_crate digest untar loads sources locked ≡ ok crate
      → IsCrate digest untar sources locked crate
  unfolding collect_crate
  collect_crate-IsCrate sources locked crate h = >>=-ok (identity_of locked) _ h λ identity i h1.
      >>=-ok (get_member ("registry/" <> (crate_name identity <> ".crate")) sources) _ h1
        λ packed p h2. >>=-ok packed.content _ h2 λ content c h3.
          >>=-ok (index locked "sha256") _ h3 λ expected e h4.
            guard-ok (json_eq (text (digest content)) expected) _ _ h4 λ same h5.
              >>=-ok (untar content) _ h5 λ entries u h6.
                let name = crate_name identity in
                >>=-ok (get_member (name <> "/Cargo.toml") entries) _ h6 λ manifest _ k1.
                  >>=-ok manifest.content _ k1 λ text_ _ k2.
                    >>=-ok (loads text_) _ k2 λ document _ k3.
                      >>=-ok (index document "package") _ k3 λ metadata _ k4.
                        >>=-ok (get_or metadata "license-file" (text "")) _ k4 λ declared _ k5.
                          >>=-ok (get metadata "license") _ k5 λ license _ k6.
                            >>=-ok (traverse (take_entry name declared) entries) _ k6 λ found f k7.
                              subst (IsCrate digest untar sources locked)
                                (ok_injective
                                  (record {
                                    name = name;
                                    license_expression = license;
                                    declared = declared;
                                    notices = taken found;
                                  })
                                  crate k7)
                                (record {
                                  identity = identity;
                                  packed = packed;
                                  content = content;
                                  entries = entries;
                                  found = found;
                                  identified = i;
                                  named = refl;
                                  listed = p;
                                  read = c;
                                  verified =
                                      e ∙ ap ok (text-json_eq (digest content) expected same);
                                  opened = u;
                                  chosen =
                                      traverse-AreRounds (IsTaken name declared)
                                        (take_entry name declared)
                                        (take_entry-IsTaken name declared) entries found f;
                                  noticed = refl;
                                })
