-- ===== src/Security/CredentialProtocol/Revocation.antt =====
-- When a credential was revoked, along a run of operations on its store.
use scrappy_os.Prelude.{
  ℕ, ◌≡◌, refl, ap, ◌∙◌, String, Bool, true, false, not, ◌&&◌, Option, none, some, List, [], ◌∷◌,
  contains, ◌==◌, if◌then◌else◌, arith, eq_iff,
}
use scrappy_os.Security.Credentials.{Credential, is_some}
use scrappy_os.Security.CredentialProtocol.{
  CredentialStore, revoked_once, revoked_at_option, used_at,
}
use scrappy_os.Security.CredentialProtocol.Replay.{
  StoreOp, create_op, revoke_op, use_op, rotate_op, delete_op, run, replay, View, change, view,
  view-run,
}

abbrev pub revocation : Option Credential → Option ℕ
revocation none = none
revocation (some c) = c.revoked_at

abbrev pub spares_op : String → StoreOp → Bool
spares_op id (delete_op ids) = not (contains ids id)
spares_op id _ = true

-- No operation of the run deletes the id.
unfoldable pub spares : String → List StoreOp → Bool
spares id [] = true
spares id (op ∷ ops) = spares_op id op && spares id ops

revocation-found : (r : Option Credential) (t : ℕ) → revocation r ≡ some t → is_some r ≡ true
revocation-found none t e = cc
revocation-found (some c) t e = refl

revocation-revoked_once :
    (r : Option Credential) (t when : ℕ)
    → revocation r ≡ some t
    → revocation (revoked_once when r) ≡ some t
revocation-revoked_once none t when e = cc
revocation-revoked_once (some c) t when e =
    let f : revoked_once when (some c) ≡ some c = rw e refl in ap revocation f ∙ e

revocation-revoked_at_option :
    (r : Option Credential) (t : ℕ) (when : Option ℕ)
    → revocation r ≡ some t
    → revocation (revoked_at_option when r) ≡ some t
revocation-revoked_at_option r t none e = e
revocation-revoked_at_option r t (some when) e = revocation-revoked_once r t when e

revocation-used_at :
    (r : Option Credential) (t when : ℕ)
    → revocation r ≡ some t
    → revocation (used_at when r) ≡ some t
revocation-used_at none t when e = cc
revocation-used_at (some c) t when e = e

revocation-if :
    (b : Bool) (x y : Option Credential) (t : ℕ)
    → (b ≡ true → revocation x ≡ some t)
    → (b ≡ false → revocation y ≡ some t)
    → revocation (if b then x else y) ≡ some t
revocation-if true x y t f g = f refl
revocation-if false x y t f g = g refl

-- A new credential does not stand in the place of one that is there.
revocation-placed :
    (v : View) (a id : String) (c : Credential) (rest : Option Credential) (t : ℕ)
    → is_some (v a) ≡ false
    → revocation (v id) ≡ some t
    → revocation rest ≡ some t
    → revocation (if a == id then some c else rest) ≡ some t
revocation-placed v a id c rest t fresh e kept =
    revocation-if (a == id) _ _ t
      (λ hit.
        let here : is_some (v a) ≡ true =
          ap (λ j. is_some (v j)) ((eq_iff a id).0 hit) ∙ revocation-found (v id) t e in
        ground arith)
      (λ _. kept)

revocation-change :
    (op : StoreOp) (v : View) (id : String) (t : ℕ)
    → spares_op id op ≡ true
    → revocation (v id) ≡ some t
    → revocation (change op v id) ≡ some t
revocation-change (create_op c) v id t kept e =
    revocation-if (is_some (v c.credential_id)) _ _ t (λ _. e)
      (λ fresh. revocation-placed v c.credential_id id c (v id) t fresh e e)
revocation-change (revoke_op j when) v id t kept e =
    revocation-if (j == id) _ _ t (λ _. revocation-revoked_once (v id) t when e) (λ _. e)
revocation-change (use_op j when) v id t kept e =
    revocation-if (j == id) _ _ t (λ _. revocation-used_at (v id) t when e) (λ _. e)
revocation-change (rotate_op j c old) v id t kept e =
    revocation-if (is_some (v j) && not (is_some (v c.credential_id))) _ _ t
      (λ go.
        revocation-placed v c.credential_id id c _ t (ground arith) e (
          revocation-if (j == id) _ _ t (λ _. revocation-revoked_at_option (v id) t old e)
            (λ _. e)))
      (λ _. e)
revocation-change (delete_op ids) v id t kept e =
    revocation-if (contains ids id) _ _ t (λ gone. ground arith) (λ _. e)

revocation-replay :
    (ops : List StoreOp) (v : View) (id : String) (t : ℕ)
    → spares id ops ≡ true
    → revocation (v id) ≡ some t
    → revocation (replay ops v id) ≡ some t
unfolding spares replay
revocation-replay [] v id t kept e = e
revocation-replay (op ∷ ops) v id t kept e =
    revocation-replay ops (change op v) id t (ground arith)
      (revocation-change op v id t (ground arith) e)

pub revocation-run :
    {S : Type 0} (st : CredentialStore S) (ops : List StoreOp) (s : S) (id : String) (t : ℕ)
    → is_some st.delete_many ≡ true
    → spares id ops ≡ true
    → revocation (st.get id s) ≡ some t
    → revocation (st.get id (run st ops s)) ≡ some t
revocation-run st ops s id t deletes kept e =
    ap (λ (v : View). revocation (v id)) (view-run st deletes ops s)
    ∙ revocation-replay ops (view st s) id t kept e
