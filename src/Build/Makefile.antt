-- ===== src/Build/Makefile.antt =====
-- The search for objects in the makefile, of scripts/build-proot-candidate.py and scripts/build-proot-fchmodat2.py
use Prim.Native.Char.{Char, code}
use tiny_agent.Base.{
  ℕ, String, ◌<>◌, Bool, true, false, not, ◌&&◌, ◌||◌, Option, none, some, List, [], ◌∷◌, ◌++◌, leb,
  ltb, ◌==◌, length, if◌then◌else◌, str_eq, starts_with, strip_prefix, is_alphanumeric, contains,
  Result, ok, err, index_error,
}

-- `text.split(marker, 1)[1]`
abbrev pub after_first : String → String → Option String
after_first marker String.[] = none
after_first marker (String.◌∷◌ c s) = elim (strip_prefix marker (String.◌∷◌ c s)) [
  | some rest ↦ some rest
  | none ↦ after_first marker s
]

-- `text.split(marker, 1)[0]`
abbrev pub before_first : String → String → String
before_first marker String.[] = ""
before_first marker (String.◌∷◌ c s) =
    let rest = before_first marker s in
    if starts_with (String.◌∷◌ c s) marker then "" else String.◌∷◌ c rest

-- What the search for `[\w/-]+\.o` has read last: a run of the class, or such a run and a dot.
pub data Seen : Type 0 where
  run_of : String → Seen
  dotted : String → Seen

module _ (is_letter : ℕ → Bool) where
  abbrev pub is_name_code : ℕ → Bool
  is_name_code c =
      is_alphanumeric c || (c == b'_' || (c == b'/' || (c == b'-' || (leb 128 c && is_letter c))))

  abbrev pub after_code : String → Char → Seen
  after_code seen c =
      if is_name_code (code c)
      then run_of (seen <> String.◌∷◌ c "")
      else if code c == b'.' && not (str_eq seen "")
      then dotted seen
      else run_of ""

  -- `re.findall(r'[\w/-]+\.o', text)`
  unfoldable pub find_objects : Seen → String → List String
  find_objects seen String.[] = []
  find_objects (run_of seen) (String.◌∷◌ c s) = find_objects (after_code seen c) s
  find_objects (dotted seen) (String.◌∷◌ c s) = elim (code c == b'o') [
    | true ↦ (seen <> ".o") ∷ find_objects (run_of "") s
    | false ↦ find_objects (after_code "" c) s
  ]

  -- The objects of the makefile, and the one that the build adds.
  unfoldable pub object_names : String → Result (List String)
  unfolding find_objects
  object_names makefile = elim (after_first "OBJECTS +=" makefile) [
    | none ↦ err (index_error "list index out of range")
    | some block ↦ ok (
        find_objects (run_of "") (before_first "define define_from_arch.h" block)
        ++ ("loader/loader-info.o" ∷ []))
  ]

unfoldable pub are_distinct : List String → Bool
unfolding contains
are_distinct [] = true
are_distinct (name ∷ names) = not (contains name names) && are_distinct names

-- `assert len(names) == len(set(names)) and len(names) > 60`
abbrev pub are_complete : List String → Bool
are_complete names = are_distinct names && ltb 60 (length names)

abbrev dot_before : Char → String → String
dot_before c rest = "." <> String.◌∷◌ c rest

-- `name.replace('.o', '.c')`, with whether a dot stands before.
unfoldable pub replace_object : Bool → String → String
replace_object false String.[] = ""
replace_object true String.[] = "."
replace_object false (String.◌∷◌ c s) = elim (code c == b'.') [
  | true ↦ replace_object true s
  | false ↦ String.◌∷◌ c (replace_object false s)
]
replace_object true (String.◌∷◌ c s) = elim (code c == b'o') [
  | true ↦ ".c" <> replace_object false s
  | false ↦ elim (code c == b'.') [
    | true ↦ "." <> replace_object true s
    | false ↦ dot_before c (replace_object false s)
  ]
]
