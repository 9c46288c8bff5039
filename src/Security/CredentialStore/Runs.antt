-- ===== src/Security/CredentialStore/Runs.antt =====
-- Runs of operations on the table of credentials.
use scrappy_os.Prelude.{ℕ, ◌≡◌, refl, true, String, some, List}
use scrappy_os.Security.CredentialProtocol.Replay.{StoreOp, run, replay, view-run}
use scrappy_os.Security.CredentialProtocol.Revocation.{revocation, spares, revocation-run}
use scrappy_os.Security.CredentialStore.{CredentialRow, get}
use scrappy_os.Security.CredentialStore.Laws.{sqlite_store}

-- After any sequence of creations, revocations, uses, rotations and deletions, the credential that
-- the table holds under an id is the one that the same sequence gives on an abstract map from ids
-- to credentials that starts as the table did.
pub run-replay :
    (ops : List StoreOp) (rows : List CredentialRow) (id : String)
    → get id (run sqlite_store ops rows) ≡ replay ops (λ j. get j rows) id
run-replay ops rows id i = view-run sqlite_store refl ops rows i id

-- A credential that was revoked at some moment stays recorded as revoked at that moment, whatever
-- is created, revoked again, used or rotated afterwards, as long as its id is not deleted.
pub revoked_stays :
    (ops : List StoreOp) (rows : List CredentialRow) (id : String) (t : ℕ)
    → spares id ops ≡ true
    → revocation (get id rows) ≡ some t
    → revocation (get id (run sqlite_store ops rows)) ≡ some t
revoked_stays ops rows id t kept e = revocation-run sqlite_store ops rows id t refl kept e
