-- ===== src/Api/Tests.antt =====
-- Runs of the upload checks, and the theorems at inputs that meet their hypotheses.
use graph_blizz.Prelude.{
  ◌≡◌, ◌⊎◌, refl, some, none, inl, [], ◌∷◌, Text, codes, text_eq, any, take, ok, err, find?,
}
use graph_blizz.Errors.{http_error}
use graph_blizz.Security.DemoOwner.{resolve, authorize}
use graph_blizz.Documents.Models.{DocumentStatus}
use graph_blizz.Documents.World.{World}
use graph_blizz.Indexing.Samples.{row_at, db_with, world_with, environment, quiet}
use graph_blizz.Workspaces.Repository.{get_workspace}
use graph_blizz.Api.Access.Denied.{HasRefused}
use graph_blizz.Api.Uploads.{UploadFile, sized, is_path, safe_filename}
use graph_blizz.Api.Uploads.Filenames.{IsBasename, safe_filename_lem}
use graph_blizz.Api.Documents.{Application}
use graph_blizz.Api.Documents.Requests.{deletes, respond, requests-HasRefused}

abbrev driveless : Text → Text
driveless name = []

path_refused : safe_filename driveless (some "a/b") ≡ err (http_error 422)
unfolding safe_filename is_path any text_eq
path_refused = refl

too_long : sized 2 (take 3 (1 ∷ 2 ∷ 3 ∷ 4 ∷ [])) ≡ err (http_error 413)
too_long = refl

safe_filename_lem_example :
    ((safe_filename driveless (some "a.md") ≡ ok "a.md") × IsBasename driveless (codes "a.md"))
    ⊎ ((safe_filename driveless (some "a.md") ≡ err (http_error 422))
        × (¬ IsBasename driveless (codes "a.md")))
safe_filename_lem_example = safe_filename_lem driveless "a.md"

abbrev application : Application
application = record {
  access = record { principal = resolve "demo"; policy = authorize "demo" };
  library = environment.tools.library;
  drive = driveless;
  setting = record { sha256 = λ content. "abc"; now = 10; bucket = codes "b"; job_id = 5 };
}

abbrev file : UploadFile
file = record { filename = some "a.txt"; content_type = some "text/plain"; bytes = 104 ∷ [] }

abbrev world : World
world = world_with (db_with (row_at DocumentStatus.ready (some 1)) [])

-- Workspace 2 does not exist.
absent : get_workspace 2 world.committed ≡ none
unfolding get_workspace find?
absent = refl

requests-HasRefused_example : HasRefused world (respond application 2 (deletes 9) quiet world)
requests-HasRefused_example = requests-HasRefused application 2 (deletes 9) quiet world (inl absent)
