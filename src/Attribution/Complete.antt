-- ===== src/Attribution/Complete.antt =====
-- The report of scripts/collect-dnfast-rpm-notices.py before scripts/check-packaged-runtime.py.
use tiny_agent.Base.{
  ◌≡◌, refl, ap, ◌∙◌, String, true, false, ◌&&◌, List, [], ◌∷◌, map, ok, ◌>>=◌, &&_left, &&_right,
}
use tiny_agent.Json.{Json}
use tiny_agent.Packaged.Notices.{is_uncovered, add_uncovered, uncovered}
use tiny_agent.Attribution.{Notice, Row, row_json}
use tiny_agent.Attribution.Collect.{has_some, has_no, is_complete, all_complete}

is_uncovered-row_json :
    (supplemental : List Json) (row : Row)
    → is_complete row ≡ true
    → is_uncovered supplemental (row_json row) ≡ ok false
unfolding is_uncovered row_json
is_uncovered-row_json supplemental row h = go row.notices row.missing h
  where
    go :
        (notices : List Notice) (missing : List String)
        → (has_some notices && has_no missing) ≡ true
        → is_uncovered supplemental (row_json (record row { notices = notices; missing = missing }))
          ≡ ok false
    go (notice ∷ notices) [] k = refl
    go (notice ∷ notices) (path ∷ missing) k = cc
    go [] missing k = cc

-- The packages of a complete report are covered by their own notices, whatever the supplemental notices are.
pub uncovered-row_json :
    (supplemental : List Json) (rows : List Row)
    → all_complete rows ≡ true
    → uncovered supplemental (map row_json rows) ≡ ok []
unfolding uncovered all_complete
uncovered-row_json supplemental [] h = refl
uncovered-row_json supplemental (row ∷ rows) h =
    ap
      (λ found. found >>= add_uncovered (row_json row) (uncovered supplemental (map row_json rows)))
      (is_uncovered-row_json supplemental row (&&_left (is_complete row) (all_complete rows) h))
    ∙ uncovered-row_json supplemental rows (&&_right (is_complete row) (all_complete rows) h)
