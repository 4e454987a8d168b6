-- ===== src/SourceRpms/Names.antt =====
-- The names of files in scripts/collect-dnfast-library-sources.py: packages, and parts of downloads.
use Prim.Native.Char.{code}
use Prim.Native.String.append
use tiny_agent.Base.{
  FilePath, path_eq, path_eq→eq, ◌≡◌, sym, ap, ◌∙◌, subst, ℕ, suc, String, ◌<>◌, true, false,
  &&_left, &&_right, ends_with, every, codes, ltb, length, Bool-cases, inl, inr, str_eq, eq_iff,
  file_name, arith,
}
use tiny_agent.Snapshot.Sets.{Below, Below-irrefl}
use tiny_agent.SourceRpms.{is_rpm_code, is_source_rpm, rpm_file, part_file, drop_last}

abbrev last_code : String → ℕ
last_code String.[] = 0
last_code (String.◌∷◌ c String.[]) = code c
last_code (String.◌∷◌ c (String.◌∷◌ d s)) = last_code (String.◌∷◌ d s)

last_code-cons :
    (c : _) (s : String) (n : ℕ) → last_code s ≡ suc n → last_code (String.◌∷◌ c s) ≡ suc n
last_code-cons c String.[] n h = cc
last_code-cons c (String.◌∷◌ d s) n h = h

last_code-part : (s : String) → last_code (s <> ".part") ≡ b't'
last_code-part String.[] = ap last_code (append.nil ".part")
last_code-part (String.◌∷◌ c s) =
    ap last_code (append.cons c s ".part") ∙ last_code-cons c (s <> ".part") 115 (last_code-part s)

last_code-rpm : (s : String) → ends_with s ".src.rpm" ≡ true → last_code s ≡ b'm'
last_code-rpm String.[] h = cc
last_code-rpm (String.◌∷◌ c s) h = elim (Bool-cases (str_eq (String.◌∷◌ c s) ".src.rpm")) [
  | inl e ↦ ap last_code ((eq_iff (String.◌∷◌ c s) ".src.rpm").0 e)
  | inr e ↦ last_code-cons c s 108 (last_code-rpm s (ground (arith, e, h)))
]

unequal : (p q : FilePath) → (p ≡ q → ⊥) → path_eq p q ≡ false
unequal p q differ = elim (Bool-cases (path_eq p q)) [
  | inl e ↦ absurd (differ (path_eq→eq p q e))
  | inr e ↦ e
]

pub part_file-rpm_file :
    (name other : String)
    → is_source_rpm other ≡ true
    → path_eq (part_file name) (rpm_file other) ≡ false
unfolding is_source_rpm
part_file-rpm_file name other h = unequal (part_file name) (rpm_file other) λ e.
    let same : b't' ≡ b'm' =
      sym (last_code-part (drop_last 4 name))
      ∙ (ap (λ p. last_code (file_name p)) e ∙ last_code-rpm other ending) in
    ground arith
  where
    ending : ends_with other ".src.rpm" ≡ true
    ending =
        &&_left (ends_with other ".src.rpm") (ltb 8 (length (codes other)))
          (&&_right (every is_rpm_code (codes other)) _ h)

pub rpm_file-other :
    (name other : String) → Below other name → path_eq (rpm_file name) (rpm_file other) ≡ false
rpm_file-other name other below =
    unequal (rpm_file name) (rpm_file other)
      λ e. Below-irrefl other (subst (Below other) (ap file_name e) below)
