-- ===== src/Tests/Exports.antt =====
-- The registry of two projects as a manifest.
use codemesh.Base.{◌≡◌, refl, txt, List, [], ◌∷◌, All, ok}
use codemesh.Manifest.Entries.{Entry}
use codemesh.Manifest.Export.{IsValid, export_projects, export_projects-IsValid}
use codemesh.Tests.Fixtures.{machine, a_project, b_project}
use codemesh.Tests.Opened.{text_code, git_code, manifest_code, plan_code, export_code}

-- Sorted by path, whatever the order of the registry. This machine prints the path of a URL alone.
abbrev exported : List Entry
exported =
    record {
      manifest_version = 1;
      project = record {
        identity = txt "https://h/a";
        alias = txt "a";
        desired_path = txt "a";
        clone_hint = txt "/a";
        groups = [];
      };
    }
    ∷ record {
      manifest_version = 1;
      project = record {
        identity = txt "https://h/b";
        alias = txt "b";
        desired_path = txt "b";
        clone_hint = txt "/b";
        groups = [];
      };
    }
    ∷ []

exports : export_projects machine (b_project ∷ a_project ∷ []) (txt "/w") ≡ ok exported
unfolding text_code git_code manifest_code plan_code export_code
exports = refl

export_projects-IsValid_example : All (IsValid machine) exported
export_projects-IsValid_example =
    export_projects-IsValid machine (b_project ∷ a_project ∷ []) (txt "/w") exports
