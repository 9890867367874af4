-- ===== src/Transport/Credentials/Placed.antt =====
-- Where the credentials of the client stand in a request.
use slack_mcp_extender.Base.{
  String, ◌≡◌, ◌≢◌, refl, sym, ap, ◌∙◌, false, each_branch, some, ◌==◌, eq_iff, arith,
}
use slack_mcp_extender.Transport.Forms.{Form, find, set, find-set, find-set_other}
use slack_mcp_extender.Transport.Credentials.{
  ClientAuth, TokenRequest, with_secret, apply_client_auth,
}

-- The form has a value under each other key as before.
abbrev pub Keeps : Form → Form → Type 0
Keeps before after =
    (k : String) → "client_id" ≢ k → "client_secret" ≢ k → find k after ≡ find k before

-- In the header alone, with the form as it was; the id alone, in the form; or both in the form.
pub data Places (cfg : ClientAuth) (before after : TokenRequest) : Type 0 where
  in_header :
      cfg.method ≡ "basic"
      → after.basic ≡ some (cfg.client_id, cfg.client_secret)
      → after.form ≡ before.form
      → Places cfg before after
  public :
      cfg.method ≡ "none"
      → after.basic ≡ before.basic
      → find "client_id" after.form ≡ some cfg.client_id
      → find "client_secret" after.form ≡ find "client_secret" before.form
      → Keeps before.form after.form
      → Places cfg before after
  in_form :
      cfg.method ≢ "basic"
      → cfg.method ≢ "none"
      → after.basic ≡ before.basic
      → find "client_id" after.form ≡ some cfg.client_id
      → (cfg.client_secret ≢ "" → find "client_secret" after.form ≡ some cfg.client_secret)
      → (cfg.client_secret ≡ ""
          → find "client_secret" after.form ≡ find "client_secret" before.form)
      → Keeps before.form after.form
      → Places cfg before after

id_not_secret : ◌≢◌ {A = String} "client_id" "client_secret"
id_not_secret e = ground (arith, eq_iff "client_id" "client_secret")

module _ (secret : String) (form : Form) where
  find-with_secret :
      (k : String) → "client_secret" ≢ k → find k (with_secret secret form) ≡ find k form
  find-with_secret k n =
      each_branch (λ f. find k f ≡ find k form) (secret == "") (λ t. refl)
        (λ f. find-set_other "client_secret" k n secret form)

  find-with_secret_filled :
      secret ≢ "" → find "client_secret" (with_secret secret form) ≡ some secret
  find-with_secret_filled n =
      each_branch (λ f. find "client_secret" f ≡ some secret) (secret == "")
        (λ t. elim (n (ground (arith, eq_iff secret ""))) [ ])
        (λ f. find-set "client_secret" secret form)

  find-with_secret_empty :
      secret ≡ "" → find "client_secret" (with_secret secret form) ≡ find "client_secret" form
  find-with_secret_empty e =
      each_branch (λ f. find "client_secret" f ≡ find "client_secret" form) (secret == "")
        (λ t. refl) (λ f. ground (arith, eq_iff secret ""))

-- The credentials of the client are added to a request once: for "basic" in the header alone, with
-- the form as it was; for "none" the id in the form and no secret; else the id in the form, with the
-- secret if there is one. Every other key of the form keeps its value.
pub apply_client_auth-Places :
    (cfg : ClientAuth) (r : TokenRequest) → Places cfg r (apply_client_auth cfg r)
unfolding apply_client_auth
apply_client_auth-Places cfg r =
    let id_set = set "client_id" cfg.client_id r.form in
    each_branch (Places cfg r) (cfg.method == "basic")
      (λ t. in_header (ground (arith, eq_iff cfg.method "basic")) refl refl)
      (λ f.
        each_branch (Places cfg r) (cfg.method == "none")
          (λ t.
            public (ground (arith, eq_iff cfg.method "none")) refl
              (find-set "client_id" cfg.client_id r.form)
              (find-set_other "client_id" "client_secret" id_not_secret cfg.client_id r.form)
              (λ k n m. find-set_other "client_id" k n cfg.client_id r.form))
          (λ g.
            in_form (λ e. ground (arith, eq_iff cfg.method "basic"))
              (λ e. ground (arith, eq_iff cfg.method "none")) refl
              (find-with_secret cfg.client_secret id_set "client_id" (λ e. id_not_secret (sym e))
                ∙ find-set "client_id" cfg.client_id r.form)
              (find-with_secret_filled cfg.client_secret id_set)
              (λ e.
                find-with_secret_empty cfg.client_secret id_set e
                ∙ find-set_other "client_id" "client_secret" id_not_secret cfg.client_id r.form)
              (λ k n m.
                find-with_secret cfg.client_secret id_set k m
                ∙ find-set_other "client_id" k n cfg.client_id r.form)))

Places-Keeps :
    (cfg : ClientAuth) (before after : TokenRequest)
    → Places cfg before after
    → Keeps before.form after.form
Places-Keeps cfg before after (in_header h b same) k n m = ap (find k) same
Places-Keeps cfg before after (public h b i s keeps) k n m = keeps k n m
Places-Keeps cfg before after (in_form h g b i s t keeps) k n m = keeps k n m

pub apply_client_auth-keeps :
    (cfg : ClientAuth) (r : TokenRequest) (k : String)
    → ("client_id" == k) ≡ false
    → ("client_secret" == k) ≡ false
    → find k (apply_client_auth cfg r).form ≡ find k r.form
apply_client_auth-keeps cfg r k n m =
    Places-Keeps cfg r (apply_client_auth cfg r) (apply_client_auth-Places cfg r) k
      (λ e. ground (arith, eq_iff "client_id" k)) (λ e. ground (arith, eq_iff "client_secret" k))
