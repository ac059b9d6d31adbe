-- ===== src/Auth/Tests.antt =====
-- A page over a concrete store, and the properties applied to it.
use corpershub_application.Session.{SessionUser}
use corpershub_application.Api.Restoring.{Holds}
use corpershub_application.Api.Client.{set_session}
use corpershub_application.Fixtures.{ada_session}
use corpershub_application.Base.{List, refl, ◌≡◌, ◌∷◌}
use corpershub_application.Fixtures.{ada}
use corpershub_application.Api.Sample.{world_of_ada, start}
use corpershub_application.Auth.{
  leave, extend, some, false, Page, mount, initial_auth, run_calls, mount_from, [],
}
use corpershub_application.Auth.{Call, update, sessions_equal, update_session, store_session}
use corpershub_application.Auth.Sample.{by_fields, loaded_page}
use corpershub_application.Auth.Refinement.{run_calls_refines, next_sessions}

abbrev opened : Page world_of_ada
opened = record { auth = initial_auth; world = start }

mounted : mount world_of_ada opened ≡ some loaded_page
unfolding mount mount_from
mounted = refl

abbrev completed : SessionUser
completed = record ada { profile_completed = some false }

abbrev calls : List Call
calls =
    update (some ada_session)
    ∷ extend
    ∷ update (some (record ada_session { user = completed }))
    ∷ leave
    ∷ update (some ada_session)
    ∷ []

-- The first update is skipped, the second is not.
skipped_test : update_session world_of_ada by_fields (some ada_session) loaded_page ≡ loaded_page
unfolding update_session sessions_equal
skipped_test = refl

changed_test :
    (update_session world_of_ada by_fields
      (some (record ada_session { user = completed }))
      loaded_page).world.cell
    ≡ some (record ada_session { user = completed })
unfolding update_session sessions_equal store_session set_session
changed_test = refl

run_calls_refines_example :
    ((run_calls world_of_ada by_fields calls loaded_page).auth.session
      ≡ next_sessions calls loaded_page.auth.session)
    × Holds world_of_ada
        (next_sessions calls loaded_page.auth.session)
        (run_calls world_of_ada by_fields calls loaded_page).world
run_calls_refines_example =
    run_calls_refines world_of_ada by_fields opened loaded_page calls mounted
