-- ===== src/Security/Tests.antt =====
-- The owner is authorized, another principal is not.
use graph_blizz.Prelude.{◌≡◌, refl, ok, err, any}
use graph_blizz.Errors.{permission_error}
use graph_blizz.Security.Models.{index_rebuild, is_granted}
use graph_blizz.Security.DemoOwner.{resolve, context_of, authorize}
use graph_blizz.Indexing.Samples.{workspace}

owner_authorized :
    authorize "demo" (resolve "demo") workspace index_rebuild
    ≡ ok (context_of (resolve "demo") workspace)
unfolding authorize is_granted any
owner_authorized = refl

other_refused : authorize "demo" (resolve "eve") workspace index_rebuild ≡ err permission_error
unfolding authorize
other_refused = refl
