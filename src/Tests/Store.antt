-- ===== src/Tests/Store.antt =====
-- A project that is created, saved twice from the same version, and deleted.
use spur_api.Base.{◌≡◌, refl, none, some, List, [], ◌∷◌}
use spur_api.Base.Int.{pos}
use spur_api.Projects.Store.{Operation, create, update, delete, view, perform_all, promised_all}
use spur_api.Projects.Store.Refinement.{operations_refine}
use spur_api.Tests.Samples.{created, first_body, changed_body, requests}

abbrev edits : List Operation
edits =
    create 8 102 first_body none (some 7)
    ∷ update 103 8 changed_body (some (pos 1))
    ∷ update 104 8 first_body (some (pos 1))
    ∷ delete 7
    ∷ []

operations_refine_example :
    ((perform_all edits created).0 ≡ (promised_all edits (view created)).0)
    × (view (perform_all edits created).1 ≡ (promised_all edits (view created)).1)
unfolding requests
operations_refine_example = operations_refine edits created (refl, (tt, (tt, (tt, tt))))
