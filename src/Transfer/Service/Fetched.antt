-- ===== src/Transfer/Service/Fetched.antt =====
-- The request of a download on the network, and what its result says of the server's reply.
use slack_mcp_extender.Base.{
  ℕ, ◌≤◌, ◌<◌, String, ◌<>◌, ◌≡◌, refl, sym, ap, subst, ◌∙◌, each_branch, arith, Option, none, some,
  List, [], ◌∷◌, ◌++◌, append-nil, length, eqb,
}
use slack_mcp_extender.Base.Int.{ℤ, pos, max_int64}
use slack_mcp_extender.Base.Result.{Result, err, ok}
use slack_mcp_extender.Transfer.Types.{FileInfo, TransferError}
use slack_mcp_extender.Transfer.Http.{Response}
use slack_mcp_extender.Transfer.Io.{Request, Net, lift, ◌>>=◌, unless_error}
use slack_mcp_extender.Transfer.Io.Runs.{Claim, Ran, Runs, lift-Runs, after_check, >>=-Runs}
use slack_mcp_extender.Transfer.Web.{TokenProvider, Client}
use slack_mcp_extender.Transfer.Client.{with_token, authorize_by, exchange}
use slack_mcp_extender.Transfer.Client.Asked.{Exchanged, exchange-Runs, unchecked}
use slack_mcp_extender.Transfer.Fetch.{Answers, Outcome, save_body, fetch_to}
use slack_mcp_extender.Transfer.Fetch.Capped.{
  IsClean, saved, untouched, cleaned, not_renamed, fetch_to-IsClean,
}
use slack_mcp_extender.Transfer.Service.{fetch_request, fetch}

-- The whole body of a reply with status 200, within the cap.
pub record IsWhole (response : Response) (max_size : ℕ) (written : ℤ) : Type 0 where
  pub status : response.status ≡ 200
  pub unbroken : response.body.broken ≡ none
  pub size : written ≡ pos (length response.body.bytes)
  pub fits : length response.body.bytes ≤ max_size

module _ (files : Answers) (target : String) (max_size : ℕ) (response : Response) where
  -- The answers with which the reply is reached.
  abbrev reached : Answers
  reached = record files { build_request = none; token = none; exchange = ok response }

  status_of_ok :
      (written : ℤ)
      → (save_body files target (pos max_size) response).0 ≡ ok written
      → response.status ≡ 200
  unfolding save_body
  status_of_ok written =
      each_branch {A = Outcome} (λ o. o.0 ≡ ok written → response.status ≡ 200)
        (eqb response.status 200) (λ t h. ground arith) (λ f h. cc)

  IsWhole-of_IsClean :
      (o : Outcome) (written : ℤ)
      → IsClean reached target max_size o
      → response.status ≡ 200
      → o.0 ≡ ok written
      → IsWhole response max_size written
  IsWhole-of_IsClean o written (saved {response = r} exchanged made whole fits) status h =
      let same : response ≡ r = ground arith in
      record {
        status = status;
        unbroken = ap (λ r. r.body.broken) same ∙ whole;
        size =
            let e : written ≡ pos (length r.body.bytes) = ground arith in
            e ∙ ap (λ r. pos (length r.body.bytes)) (sym same);
        fits = subst (λ r. length r.body.bytes ≤ max_size) (sym same) fits;
      }
  IsWhole-of_IsClean o written untouched status h = cc
  IsWhole-of_IsClean o written (cleaned more n) status h = cc
  IsWhole-of_IsClean o written (not_renamed e) status h = cc

  save_body-IsWhole :
      0 < max_size
      → max_size < max_int64
      → (written : ℤ) → (save_body files target (pos max_size) response).0 ≡ ok written
      → IsWhole response max_size written
  unfolding fetch_to save_body
  save_body-IsWhole positive bounded written h =
      IsWhole-of_IsClean (fetch_to reached target (pos max_size)) written
        (fetch_to-IsClean reached target max_size positive bounded) (status_of_ok written h) h

module _ {S : Type 0} (client : Client S) (file : FileInfo) (max_size : ℕ) where
  abbrev Headers : Type 0
  Headers = List (String × String)

  -- The header with a token that the provider has given, or none without a provider.
  pub data IsBearer : Headers → Type 0 where
    no_provider : client.tokens ≡ none → IsBearer []
    bearer :
        (provider : TokenProvider S) (s : S) {token : String}
        → client.tokens ≡ some provider
        → (provider.token s).0 ≡ ok token
        → IsBearer (("Authorization", "Bearer " <> token) ∷ [])

  -- An error without a request; or one request, for the file's URL and with the token, and an error,
  -- or the number of bytes of the whole reply.
  pub data IsDownload : Result TransferError ℤ → List Request → Type 0 where
    no_request : {e : TransferError} → IsDownload (err e) []
    not_saved :
        {authorization : Headers} {e : TransferError}
        → IsBearer authorization
        → IsDownload (err e) (fetch_request file authorization ∷ [])
    downloaded :
        {authorization : Headers} (s : S) (response : Response) {written : ℤ}
        → IsBearer authorization
        → (client.web.exchange (fetch_request file authorization) s).0 ≡ ok response
        → IsWhole response max_size written
        → IsDownload (ok written) (fetch_request file authorization ∷ [])

  data Authorized : Result TransferError Headers → List Request → Type 0 where
    no_token : {e : TransferError} → Authorized (err e) []
    has_token :
        {authorization : Headers} → IsBearer authorization → Authorized (ok authorization) []

  with_token-Ran :
      (wrap : String → String) (provider : TokenProvider S) (net : Net S) (s : S)
      → client.tokens ≡ some provider
      → (given : Result String String × S) → (provider.token s).0 ≡ given.0
      → Ran Authorized net (with_token client wrap given net)
  with_token-Ran wrap provider net s h (err e, s') k = record {
    added = [];
    extends = sym (append-nil _);
    holds = no_token;
  }
  with_token-Ran wrap provider net s h (ok token, s') k = record {
    added = [];
    extends = sym (append-nil _);
    holds = has_token (bearer provider s h k);
  }

  authorize_by-Runs :
      (wrap : String → String) (tokens : Option (TokenProvider S))
      → client.tokens ≡ tokens
      → Runs Authorized (authorize_by client wrap tokens)
  authorize_by-Runs wrap none h net = record {
    added = [];
    extends = sym (append-nil _);
    holds = has_token (no_provider h);
  }
  authorize_by-Runs wrap (some provider) h net =
      with_token-Ran wrap provider net net.remote h (provider.token net.remote) refl

  module _ (files : Answers) (target : String) (positive : 0 < max_size)
      (bounded : max_size < max_int64) where
    abbrev Stored : Response → Claim ℤ
    Stored response r xs = (r ≡ (save_body files target (pos max_size) response).0) × (xs ≡ [])

    abbrev BearerDownload : Headers → Claim ℤ
    BearerDownload authorization r xs = IsBearer authorization → IsDownload r xs

    joined :
        (authorization : Headers) (r : Result TransferError ℤ) (xs ys : List Request)
        → Authorized (ok authorization) xs
        → BearerDownload authorization r ys
        → IsDownload r (xs ++ ys)
    joined authorization r xs ys (has_token b) k = k b

    stopped :
        (e : TransferError) (xs : List Request) → Authorized (err e) xs → IsDownload (err e) xs
    stopped e xs no_token = no_request

    IsDownload-of_reply :
        (authorization : Headers) (s : S) (response : Response) (r : Result TransferError ℤ)
        → IsBearer authorization
        → (client.web.exchange (fetch_request file authorization) s).0 ≡ ok response
        → (save_body files target (pos max_size) response).0 ≡ r
        → IsDownload r (fetch_request file authorization ∷ [])
    IsDownload-of_reply authorization s response (err e) b h k = not_saved b
    IsDownload-of_reply authorization s response (ok written) b h k =
        downloaded s response b h
          (save_body-IsWhole files target max_size response positive bounded written k)

    -- With a token, the request and what follows it.
    exchanged-Runs :
        (wrap : String → String) (authorization : Headers)
        → Runs (BearerDownload authorization) (
            exchange client wrap (fetch_request file authorization) >>= λ response.
            lift (save_body files target (pos max_size) response).0)
    exchanged-Runs wrap authorization =
        >>=-Runs (Exchanged client wrap (fetch_request file authorization)) Stored
          (BearerDownload authorization)
          (λ e xs h b. subst (IsDownload (err e)) (sym h.1) (not_saved b))
          (λ v r xs ys h k b.
            subst (IsDownload r) (sym (ap (λ l. xs ++ l) k.1 ∙ (append-nil xs ∙ h.1)))
              (IsDownload-of_reply authorization h.0.0 v r b (unchecked wrap _ v h.0.1) (sym k.0)))
          (exchange client wrap (fetch_request file authorization))
          (λ response. lift (save_body files target (pos max_size) response).0)
          (exchange-Runs client wrap (fetch_request file authorization))
          (λ response. lift-Runs (Stored response) _ (refl, refl))

    authorized-Runs : Runs IsDownload (
        authorize_by client (λ e. "obtain token: " <> e) client.tokens >>= λ authorization.
        (exchange client (λ e. "download: " <> e) (fetch_request file authorization) >>= λ response.
        lift (save_body files target (pos max_size) response).0))
    authorized-Runs =
        >>=-Runs Authorized BearerDownload IsDownload stopped (λ v r xs ys. joined v r xs ys)
          (authorize_by client (λ e. "obtain token: " <> e) client.tokens)
          (λ authorization.
            (exchange client (λ e. "download: " <> e) (fetch_request file authorization)
              >>= λ response. lift (save_body files target (pos max_size) response).0))
          (authorize_by-Runs _ client.tokens refl) (exchanged-Runs (λ e. "download: " <> e))

    -- With a positive cap below the largest integer, FetchTo sends at most one request: for the file's
    -- URL, with the provider's token if there is a provider. It returns a number only where the server
    -- answers that with status 200 and a whole body no longer than the cap, and it is that body's
    -- length.
    pub fetch-IsDownload :
        (net : Net S) → Ran IsDownload net (fetch client files file target (pos max_size) net)
    unfolding fetch save_body
    fetch-IsDownload =
        after_check IsDownload
          (unless_error (λ e. "build download request: " <> e)
            (client.web.new_request "GET" file.download_url))
          _ (λ e. no_request) (λ _. authorized-Runs)
