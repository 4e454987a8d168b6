-- ===== src/Attribution.antt =====
-- The attribution of the packages: scripts/collect-dnfast-rpm-notices.py and
-- scripts/stage-dnfast-rpm-notices.py
pub mod Collect
pub mod Complete
pub mod Archived
pub mod Stage
pub mod Write
pub mod Staged
use tiny_agent.Base.{String, List, [], ◌∷◌, map}
use tiny_agent.Json.{Json, text, array, object, Fields, no_fields, field, values_of}

pub record Notice : Type 0 where
  pub path : String
  pub owner_package : String
  pub member : String
  pub sha256 : String

pub record Row : Type 0 where
  pub name : String
  pub source_rpm : String
  pub license_expression : String
  pub notices : List Notice
  pub missing : List String

abbrev pub notice_json : Notice → Json
notice_json n = object (
    field "path" (text n.path) (
      field "owner_package" (text n.owner_package)
        (field "member" (text n.member) (field "sha256" (text n.sha256) no_fields))))

unfoldable pub row_json : Row → Json
row_json row = object (
    field "package" (text row.name) (
      field "source_rpm" (text row.source_rpm) (
        field "license_expression" (text row.license_expression) (
          field "notices" (array (values_of (map notice_json row.notices)))
            (field "missing" (array (values_of (map text row.missing))) no_fields)))))
