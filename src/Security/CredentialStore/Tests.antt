-- ===== src/Security/CredentialStore/Tests.antt =====
-- Tests of the table of credentials.
use scrappy_os.Prelude.{◌≡◌, refl, none, some, List, [], ◌∷◌}
use scrappy_os.Security.CredentialProtocol.Replay.{run, replay}
use scrappy_os.Security.CredentialProtocol.Revocation.{revocation}
use scrappy_os.Security.CredentialStore.{
  CredentialRow, get, create, revoke, rotate, update_last_used, count_active,
}
use scrappy_os.Security.CredentialStore.Laws.{sqlite_store}
use scrappy_os.Security.CredentialStore.Runs.{run-replay}
use scrappy_os.Security.CredentialStore.Samples.{
  old_id, old_row, gone_row, new_credential, busy_ops,
}

abbrev two_rows : List CredentialRow
two_rows = old_row ∷ gone_row ∷ []

count_active-before : count_active 100 two_rows ≡ 1
unfolding count_active
count_active-before = refl

count_active-after : count_active 900 two_rows ≡ 0
unfolding count_active
count_active-after = refl

create-taken : create new_credential two_rows ≡ none
unfolding create
create-taken = refl

revocation-first : revocation (get old_id (run sqlite_store busy_ops (old_row ∷ []))) ≡ some 70
unfolding get run revoke create rotate update_last_used
revocation-first = refl

run-replay_example :
    get old_id (run sqlite_store busy_ops two_rows) ≡ replay busy_ops (λ j. get j two_rows) old_id
run-replay_example = run-replay busy_ops two_rows old_id
