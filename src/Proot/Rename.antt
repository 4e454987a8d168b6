-- ===== src/Proot/Rename.antt =====
-- The change of a library's name in scripts/stage-proot.py, which keeps every offset.
use tiny_agent.Base.{
  codes, take, bytes_eq, length, ℕ, zero, suc, ◌+◌, ◌-◌, ◌≤◌, ◌≡◌, refl, ap, [], ◌∷◌, ◌++◌,
  if◌then◌else◌, Bytes, arith, Bool-cases, inl, inr, length-append, bytes_eq→eq,
}

-- `content.replace(old, new)` for a text `old` of one byte at least: the bytes of one that was
-- replaced are skipped.
module _ (old new : Bytes) where
  unfoldable pub replace_from : ℕ → Bytes → Bytes
  unfolding bytes_eq
  replace_from skip [] = []
  replace_from (suc skip) (b ∷ bs) = replace_from skip bs
  replace_from zero (b ∷ bs) =
      let found = new ++ replace_from (length old - 1) bs in
      let kept = b ∷ replace_from zero bs in
      if bytes_eq (take (length old) (b ∷ bs)) old then found else kept

  unfoldable pub replace_bytes : Bytes → Bytes
  unfolding replace_from
  replace_bytes content = replace_from zero content

  length-take-eq : (n : ℕ) (xs : Bytes) → length (take n xs) ≡ n → n ≤ length xs
  length-take-eq zero xs h = omega arith
  length-take-eq (suc n) [] h = omega (arith, h)
  length-take-eq (suc n) (x ∷ xs) h = omega (arith, length-take-eq n xs (omega (arith, h)))

  -- Where the new text is as long as the old, only what is skipped is missing.
  length-replace_from :
      (skip : ℕ) (content : Bytes)
      → length new ≡ length old
      → 1 ≤ length old
      → skip ≤ length content
      → length (replace_from skip content) + skip ≡ length content
  unfolding replace_from
  length-replace_from zero [] e one le = omega arith
  length-replace_from (suc skip) [] e one le = omega (arith, le)
  length-replace_from (suc skip) (b ∷ bs) e one le =
      omega (arith, length-replace_from skip bs e one (omega (arith, le)))
  length-replace_from zero (b ∷ bs) e one le =
      elim (Bool-cases (bytes_eq (take (length old) (b ∷ bs)) old)) [
        | inl q ↦
            let room : length old ≤ suc (length bs) =
              length-take-eq (length old) (b ∷ bs)
                (ap length (bytes_eq→eq (take (length old) (b ∷ bs)) old q)) in
            let more = length-replace_from (length old - 1) bs e one (omega (arith, room)) in
            let all = length-append new (replace_from (length old - 1) bs) in
            rw q (omega (arith, room, more, all))
        | inr q ↦ rw q (omega (arith, length-replace_from zero bs e one (omega arith)))
      ]

  pub length-replace_bytes :
      (content : Bytes)
      → length new ≡ length old
      → 1 ≤ length old
      → length (replace_bytes content) ≡ length content
  unfolding replace_bytes
  length-replace_bytes content e one =
      omega (arith, length-replace_from zero content e one (omega arith))

abbrev pub old_name : Bytes
old_name = codes "libtalloc.so.2" ++ (0 ∷ [])

abbrev pub new_name : Bytes
new_name = codes "libtalloc.so" ++ (0 ∷ 0 ∷ 0 ∷ [])

unfoldable pub rename_library : Bytes → Bytes
unfolding replace_bytes
rename_library content = replace_bytes old_name new_name content

-- Changing the name of the library that a program asks for keeps the size of the program.
pub length-rename_library : (content : Bytes) → length (rename_library content) ≡ length content
unfolding rename_library
length-rename_library content = length-replace_bytes old_name new_name content refl (omega arith)
