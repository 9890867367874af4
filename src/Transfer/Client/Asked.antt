-- ===== src/Transfer/Client/Asked.antt =====
-- The requests that a call of the API sends.
use slack_mcp_extender.Base.{
  ℕ, String, ◌≡◌, ◌≢◌, refl, sym, ap, subst, ◌∙◌, arith, true, false, ◌&&◌, ◌⊎◌, inl, inr, Option,
  none, some, List, [], ◌∷◌, ◌++◌, append-nil, append_assoc, each_branch, first_of_and,
}
use slack_mcp_extender.Base.Result.{Result, err, ok}
use slack_mcp_extender.Json.{Json}
use slack_mcp_extender.Transfer.Types.{TransferError, failed}
use slack_mcp_extender.Transfer.Http.{Response}
use slack_mcp_extender.Transfer.Io.{Request, Net, lift, ◌>>=◌, checked, unless_error}
use slack_mcp_extender.Transfer.Io.Runs.{Claim, Ran, Runs, lift-Runs, after_check_with, >>=-Runs}
use slack_mcp_extender.Transfer.Web.{TokenProvider, Client, labelled, read_reply}
use slack_mcp_extender.Transfer.Web.Replied.{IsReply, read_reply-IsReply}
use slack_mcp_extender.Transfer.Client.{
  exchange, authorize_by, with_token, request_to, endpoint, marshal_failure, api_call_once,
  api_call, again, has_provider, invalidated, is_auth_failure,
}

pub some_of_unless :
    (wrap : String → String) (o : Option String) (e : TransferError)
    → unless_error wrap o ≡ err e
    → o ≢ none
some_of_unless wrap none e h = λ n. cc
some_of_unless wrap (some text) e h = λ n. cc

pub unchecked :
    (wrap : String → String) (x : Result String Response) (v : Response)
    → ok v ≡ checked wrap x
    → x ≡ ok v
unchecked wrap (err e) v h = cc
unchecked wrap (ok w) v h = cc

module _ {S : Type 0} (client : Client S) where
  -- The request and its response, in some state of the world.
  abbrev pub Exchanged : (String → String) → Request → Claim Response
  Exchanged wrap request r xs =
      ((s : S) × (r ≡ checked wrap (client.web.exchange request s).0)) × (xs ≡ request ∷ [])

  pub exchange-Runs :
      (wrap : String → String) (request : Request)
      → Runs (Exchanged wrap request) (exchange client wrap request)
  unfolding exchange
  exchange-Runs wrap request net = record {
    added = request ∷ [];
    extends = refl;
    holds = ((net.remote, refl), refl);
  }

  -- The provider has no token to give.
  pub record HasNoToken : Type 0 where
    pub provider : TokenProvider S
    pub s : S
    pub error : String
    pub provided : client.tokens ≡ some provider
    pub failing : (provider.token s).0 ≡ err error

  abbrev Authorized : Claim (List (String × String))
  Authorized r xs = (xs ≡ []) × ((e : TransferError) → r ≡ err e → HasNoToken)

  with_token-Ran :
      (wrap : String → String) (provider : TokenProvider S) (net : Net S) (s : S)
      → client.tokens ≡ some provider
      → (given : Result String String × S) → (provider.token s).0 ≡ given.0
      → Ran Authorized net (with_token client wrap given net)
  with_token-Ran wrap provider net s h (err e, s') k = record {
    added = [];
    extends = sym (append-nil _);
    holds =
        (refl, λ _ _. record { provider = provider; s = s; error = e; provided = h; failing = k });
  }
  with_token-Ran wrap provider net s h (ok token, s') k = record {
    added = [];
    extends = sym (append-nil _);
    holds = (refl, λ e no. cc);
  }

  authorize_by-Runs :
      (wrap : String → String) (tokens : Option (TokenProvider S))
      → client.tokens ≡ tokens
      → Runs Authorized (authorize_by client wrap tokens)
  authorize_by-Runs wrap none h net = record {
    added = [];
    extends = sym (append-nil _);
    holds = (refl, λ e no. cc);
  }
  authorize_by-Runs wrap (some provider) h net =
      with_token-Ran wrap provider net net.remote h (provider.token net.remote) refl

  module _ {V : Type 0} (decode : List ℕ → Result String V) (method api_method : String)
      (query : List (String × String)) (value : Option Json) where
    -- What comes of one request, in some state of the world: the error of the exchange, or what the
    -- reply comes to.
    pub data Answers (request : Request) : Result TransferError V → Type 0 where
      lost :
          (s : S) {e : String}
          → (client.web.exchange request s).0 ≡ err e
          → Answers request (err (failed (labelled client.web decode api_method "" e)))
      replied :
          (s : S) (response : Response) {r : Result TransferError V}
          → (client.web.exchange request s).0 ≡ ok response
          → IsReply client.web decode api_method response r
          → Answers request r

    -- Why a call stops before its request.
    pub data Hindered : Type 0 where
      not_marshalled : marshal_failure client value ≢ none → Hindered
      not_built : client.web.new_request method (endpoint client api_method query) ≢ none → Hindered
      no_token : HasNoToken → Hindered

    -- An error without a request, or one request and what comes of it.
    pub data Asked : Result TransferError V → List Request → Type 0 where
      stopped : {e : TransferError} → Hindered → Asked (err e) []
      asked :
          (authorization : List (String × String)) {r : Result TransferError V}
          → Answers (request_to client method api_method query value authorization) r
          → Asked r (request_to client method api_method query value authorization ∷ [])

    -- One call, or a second one after an authentication error, if there is a provider of tokens.
    pub data Called : Result TransferError V → List Request → Type 0 where
      once :
          {r : Result TransferError V} {xs : List Request}
          → (is_auth_failure r ≡ false) ⊎ (client.tokens ≡ none)
          → Asked r xs
          → Called r xs
      twice :
          {r s : Result TransferError V} {xs ys : List Request}
          → is_auth_failure r ≡ true
          → client.tokens ≢ none
          → Asked r xs
          → Asked s ys
          → Called s (xs ++ ys)

    Asked-of_request :
        (authorization : List (String × String)) (r : Result TransferError V) (xs : List Request)
        → xs ≡ request_to client method api_method query value authorization ∷ []
        → Answers (request_to client method api_method query value authorization) r
        → Asked r xs
    Asked-of_request authorization r xs h a = subst (Asked r) (sym h) (asked authorization a)

    Answers-of_err :
        (request : Request) (s : S) (x : Result String Response) (e : TransferError)
        → (client.web.exchange request s).0 ≡ x
        → err e ≡ checked (labelled client.web decode api_method "") x
        → Answers request (err e)
    Answers-of_err request s (err text) e h k =
        let same : failed (labelled client.web decode api_method "" text) ≡ e = ground arith in
        subst (λ e'. Answers request (err e')) same (lost s h)
    Answers-of_err request s (ok response) e h k = cc

    -- What a reply comes to, without another request.
    abbrev Read : Response → Claim V
    Read response r xs = IsReply client.web decode api_method response r × (xs ≡ [])

    exchange_and_read-Runs :
        (authorization : List (String × String))
        → Runs Asked (
            exchange client
              (labelled client.web decode api_method "")
              (request_to client method api_method query value authorization)
            >>= λ response. lift (read_reply client.web decode api_method response))
    exchange_and_read-Runs authorization =
        let wrap = labelled client.web decode api_method "" in
        >>=-Runs (Exchanged wrap (request_to client method api_method query value authorization))
          Read Asked
          (λ e xs h.
            Asked-of_request authorization (err e) xs h.1 (Answers-of_err _ h.0.0 _ e refl h.0.1))
          (λ v r xs ys h k.
            Asked-of_request authorization r (xs ++ ys)
              (ap (λ l. xs ++ l) k.1 ∙ (append-nil xs ∙ h.1))
              (replied h.0.0 v (unchecked wrap _ v h.0.1) k.0))
          (exchange client wrap (request_to client method api_method query value authorization))
          (λ response. lift (read_reply client.web decode api_method response))
          (exchange-Runs wrap _)
          (λ response.
            lift-Runs (Read response) _
              (read_reply-IsReply client.web decode api_method response, refl))

    api_call_once-Runs : Runs Asked (api_call_once client decode method api_method query value)
    unfolding api_call_once
    api_call_once-Runs =
        after_check_with Asked
          (unless_error (labelled client.web decode api_method "marshal body: ")
            (marshal_failure client value))
          _ (λ e h. stopped (not_marshalled (some_of_unless _ _ e h)))
          (λ _.
            after_check_with Asked
              (unless_error (labelled client.web decode api_method "build request: ")
                (client.web.new_request method (endpoint client api_method query)))
              _ (λ e h. stopped (not_built (some_of_unless _ _ e h)))
              (λ _.
                >>=-Runs Authorized (λ v. Asked) Asked
                  (λ e xs h. subst (Asked (err e)) (sym h.0) (stopped (no_token (h.1 e refl))))
                  (λ v r xs ys h a. subst (λ l. Asked r (l ++ ys)) (sym h.0) a)
                  (authorize_by client (labelled client.web decode api_method "obtain token: ")
                    client.tokens)
                  _ (authorize_by-Runs _ client.tokens refl)
                  (λ authorization. exchange_and_read-Runs authorization)))

    requests-invalidated :
        (tokens : Option (TokenProvider S)) (net : Net S)
        → (invalidated client decode method api_method query value tokens net).requests
          ≡ net.requests
    requests-invalidated none net = refl
    requests-invalidated (some provider) net = refl

    retried :
        (net net' : Net S) (r : Result TransferError V)
        → is_auth_failure r ≡ true
        → client.tokens ≢ none
        → (xs : List Request) → net'.requests ≡ net.requests ++ xs
        → Asked r xs
        → Ran Called net (
            api_call_once client decode method api_method query value
              (invalidated client decode method api_method query value client.tokens net'))
    retried net net' r failure provided xs extends first =
        let again_from =
          invalidated client decode method api_method query value client.tokens net' in
        let second = api_call_once-Runs again_from in
        record {
          added = xs ++ second.added;
          extends =
              second.extends
              ∙ (ap (λ l. l ++ second.added) (requests-invalidated client.tokens net' ∙ extends)
                  ∙ append_assoc net.requests xs second.added);
          holds = twice failure provided first second.holds;
        }

    provider_due :
        (r : Result TransferError V) (tokens : Option (TokenProvider S))
        → (is_auth_failure r && has_provider client decode method api_method query value tokens)
          ≡ true
        → tokens ≢ none
    provider_due r none h = λ e. ground arith
    provider_due r (some provider) h = λ e. cc

    no_retry :
        (r : Result TransferError V) (tokens : Option (TokenProvider S))
        → (is_auth_failure r && has_provider client decode method api_method query value tokens)
          ≡ false
        → (is_auth_failure r ≡ false) ⊎ (tokens ≡ none)
    no_retry r none h = inr refl
    no_retry r (some provider) h = inl (ground arith)

    pub api_call-Runs : Runs Called (api_call client decode method api_method query value)
    unfolding api_call
    api_call-Runs net =
        let first = api_call_once-Runs net in
        let outcome = api_call_once client decode method api_method query value net in
        each_branch (Ran Called net)
          (again client decode method api_method query value false outcome.0)
          (λ t.
            retried net outcome.1 outcome.0 (first_of_and _ _ t)
              (provider_due outcome.0 client.tokens t) first.added first.extends first.holds)
          (λ f. record {
            added = first.added;
            extends = first.extends;
            holds = once (no_retry outcome.0 client.tokens f) first.holds;
          })
