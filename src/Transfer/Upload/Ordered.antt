-- ===== src/Transfer/Upload/Ordered.antt =====
-- The order of the requests of an upload.
use slack_mcp_extender.Base.{
  String, ◌<>◌, ◌≡◌, refl, sym, subst, each_branch, Bool-cases, ◌||◌, eq_iff, ◌==◌, ◌≢◌, ◌⊎◌, inl,
  inr, arith, none, some, List, [], ◌∷◌, ◌++◌, append-nil, eqb,
}
use slack_mcp_extender.Base.Int.{ℤ}
use slack_mcp_extender.Base.Result.{Result, err, ok}
use slack_mcp_extender.Transfer.Types.{UploadRequest, UploadResult, TransferError}
use slack_mcp_extender.Transfer.Http.{Response}
use slack_mcp_extender.Transfer.Io.{Request, Net, lift, ◌>>=◌, checked, unless_error}
use slack_mcp_extender.Transfer.Io.Runs.{Claim, Ran, Runs, after_check_with, then_return, >>=-Runs}
use slack_mcp_extender.Transfer.Web.{UploadUrl, Client}
use slack_mcp_extender.Transfer.Client.{given, exchange, api_call}
use slack_mcp_extender.Transfer.Client.Asked.{
  Called, Exchanged, unchecked, some_of_unless, exchange-Runs, api_call-Runs,
}
use slack_mcp_extender.Transfer.Upload.{
  bytes_request, complete_body, has_url, discard, result_of, accept_bytes, url_query, complete,
  send_bytes, obtain_url, upload,
}

module _ {S : Type 0} (client : Client S) (req : UploadRequest) where
  -- A call of `files.getUploadURLExternal`, and of `files.completeUploadExternal`.
  abbrev pub UrlCalled : ℤ → Claim UploadUrl
  UrlCalled size =
      Called client client.web.decode_upload_url "GET" "files.getUploadURLExternal"
        (url_query client req size) none

  abbrev pub CompleteCalled : UploadUrl → Claim (Unit {0})
  CompleteCalled url =
      Called client discard "POST" "files.completeUploadExternal" [] (some (complete_body req url))

  pub data Completed (size : ℤ) (url : UploadUrl)
      : Result TransferError UploadResult → List Request → Type 0 where
    failed :
        {e : TransferError} {zs : List Request}
        → CompleteCalled url (err e) zs
        → Completed size url (err e) zs
    shared :
        {zs : List Request}
        → CompleteCalled url (ok tt) zs
        → Completed size url (ok (result_of req size url)) zs

  -- The server has taken the bytes.
  abbrev pub Accepts : ℤ → UploadUrl → Type 0
  Accepts size url =
      (s : S) × (response : Response) × ((client.web.exchange (bytes_request req size url) s).0
        ≡ ok response)
      × (response.status ≡ 200)

  -- The server's answer to the bytes is an error or has another status.
  abbrev pub Rejects : ℤ → UploadUrl → Type 0
  Rejects size url =
      (s : S) × (((e : String) × ((client.web.exchange (bytes_request req size url) s).0 ≡ err e))
        ⊎ ((response : Response) × ((client.web.exchange (bytes_request req size url) s).0
              ≡ ok response)
            × (response.status ≢ 200)))

  -- Why the bytes are not sent.
  pub data Unsent (url : UploadUrl) : Type 0 where
    incomplete : (url.upload_url ≡ "") ⊎ (url.file_id ≡ "") → Unsent url
    not_open : client.web.open_error req.path ≢ none → Unsent url
    not_built : client.web.new_request "POST" url.upload_url ≢ none → Unsent url

  -- Why nothing is sent at all.
  pub data Unfit : Type 0 where
    no_channel : req.channel_id ≡ "" → Unfit
    no_path : req.path ≡ "" → Unfit
    no_size : {e : String} → client.web.stat_size req.path ≡ err e → Unfit

  pub data Posted (size : ℤ) (url : UploadUrl)
      : Result TransferError UploadResult → List Request → Type 0 where
    not_posted : {e : TransferError} → Unsent url → Posted size url (err e) []
    not_accepted :
        {e : TransferError}
        → Rejects size url
        → Posted size url (err e) (bytes_request req size url ∷ [])
    accepted :
        {r : Result TransferError UploadResult} {zs : List Request}
        → Accepts size url
        → Completed size url r zs
        → Posted size url r (bytes_request req size url ∷ zs)

  -- An error before any request; calls for an upload URL that fail; or such calls that succeed, then
  -- one request with the bytes of the file, then, only if that is accepted, calls that share it.
  pub data IsUpload : Result TransferError UploadResult → List Request → Type 0 where
    refused : {e : TransferError} → Unfit → IsUpload (err e) []
    no_url :
        {size : ℤ} {e : TransferError} {xs : List Request}
        → UrlCalled size (err e) xs
        → IsUpload (err e) xs
    with_url :
        {size : ℤ} {url : UploadUrl} {r : Result TransferError UploadResult} {xs ys : List Request}
        → client.web.stat_size req.path ≡ ok size
        → UrlCalled size (ok url) xs
        → Posted size url r ys
        → IsUpload r (xs ++ ys)

  complete-Runs :
      (size : ℤ) (url : UploadUrl) → Runs (Completed size url) (complete client req size url)
  unfolding complete
  complete-Runs size url =
      then_return (CompleteCalled url) (Completed size url) (result_of req size url)
        (api_call client discard "POST" "files.completeUploadExternal" []
          (some (complete_body req url)))
        (λ e xs h. failed h) (λ v xs h. shared h)
        (api_call-Runs client discard "POST" "files.completeUploadExternal" []
          (some (complete_body req url)))

  -- After a response: an error, or a response with status 200 and the last step.
  data Answered (size : ℤ) (url : UploadUrl) (response : Response)
      : Result TransferError UploadResult → List Request → Type 0 where
    refused_bytes :
        {e : TransferError} → response.status ≢ 200 → Answered size url response (err e) []
    taken :
        {r : Result TransferError UploadResult} {zs : List Request}
        → response.status ≡ 200
        → Completed size url r zs
        → Answered size url response r zs

  taken-Runs :
      (size : ℤ) (url : UploadUrl) (response : Response)
      → Runs
          (Answered size url response)
          (lift (accept_bytes client response) >>= λ _. complete client req size url)
  unfolding accept_bytes
  taken-Runs size url response =
      each_branch {A = Result TransferError (Unit {0})}
        (λ a. Runs (Answered size url response) (lift a >>= λ _. complete client req size url))
        (eqb response.status 200)
        (λ t net.
          let ran = complete-Runs size url net in
          record {
            added = ran.added;
            extends = ran.extends;
            holds = taken (ground arith) ran.holds;
          })
        (λ f net. record {
          added = [];
          extends = sym (append-nil _);
          holds = refused_bytes (λ e. ground arith);
        })

  Posted-of_answer :
      (size : ℤ) (url : UploadUrl) (response : Response) (r : Result TransferError UploadResult)
      (ys : List Request) (s : S)
      → (client.web.exchange (bytes_request req size url) s).0 ≡ ok response
      → Answered size url response r ys
      → Posted size url r (bytes_request req size url ∷ ys)
  Posted-of_answer size url response r ys s h (refused_bytes status) =
      not_accepted (s, inr (response, h, status))
  Posted-of_answer size url response r ys s h (taken status c) = accepted (s, response, h, status) c

  failed_exchange :
      (wrap : String → String) (x : Result String Response) (e : TransferError)
      → err e ≡ checked wrap x
      → (text : String) × (x ≡ err text)
  failed_exchange wrap (err text) e h = (text, refl)
  failed_exchange wrap (ok v) e h = cc

  incomplete_url :
      (url : UploadUrl) (e : TransferError)
      → has_url url ≡ err e
      → (url.upload_url ≡ "") ⊎ (url.file_id ≡ "")
  incomplete_url url e =
      each_branch {A = Result TransferError (Unit {0})}
        (λ r. r ≡ err e → (url.upload_url ≡ "") ⊎ (url.file_id ≡ ""))
        (url.upload_url == "" || url.file_id == "")
        (λ t h. elim (Bool-cases (url.upload_url == "")) [
          | inl u ↦ inl (ground (arith, eq_iff url.upload_url ""))
          | inr f ↦ inr (ground (arith, eq_iff url.file_id ""))
        ])
        (λ f h. cc)

  empty_of_given :
      (value text : String) (e : TransferError) → given client value text ≡ err e → value ≡ ""
  empty_of_given value text e =
      each_branch {A = Result TransferError (Unit {0})} (λ r. r ≡ err e → value ≡ "") (value == "")
        (λ t h. ground (arith, eq_iff value "")) (λ f h. cc)

  post-Runs :
      (size : ℤ) (url : UploadUrl)
      → Runs (Posted size url) (
          exchange client (λ e. "upload bytes: " <> e) (bytes_request req size url) >>= λ response.
          (lift (accept_bytes client response) >>= λ _. complete client req size url))
  post-Runs size url =
      >>=-Runs (Exchanged client (λ e. "upload bytes: " <> e) (bytes_request req size url))
        (Answered size url) (Posted size url)
        (λ e xs h.
          subst (Posted size url (err e)) (sym h.1)
            (not_accepted (h.0.0, inl (failed_exchange _ _ e h.0.1))))
        (λ v r xs ys h k.
          subst (λ l. Posted size url r (l ++ ys)) (sym h.1)
            (Posted-of_answer size url v r ys h.0.0 (unchecked _ _ v h.0.1) k))
        (exchange client (λ e. "upload bytes: " <> e) (bytes_request req size url))
        (λ response. (lift (accept_bytes client response) >>= λ _. complete client req size url))
        (exchange-Runs client (λ e. "upload bytes: " <> e) (bytes_request req size url))
        (taken-Runs size url)

  send_bytes-Runs :
      (size : ℤ) (url : UploadUrl) → Runs (Posted size url) (send_bytes client req size url)
  unfolding send_bytes
  send_bytes-Runs size url =
      after_check_with (Posted size url) (has_url url) _
        (λ e h. not_posted (incomplete (incomplete_url url e h)))
        (λ _.
          after_check_with (Posted size url)
            (unless_error (λ e. "open file: " <> e) (client.web.open_error req.path)) _
            (λ e h. not_posted (not_open (some_of_unless _ _ e h)))
            (λ _.
              after_check_with (Posted size url)
                (unless_error (λ e. "build upload request: " <> e)
                  (client.web.new_request "POST" url.upload_url))
                _ (λ e h. not_posted (not_built (some_of_unless _ _ e h)))
                (λ _. post-Runs size url)))

  measured-Runs :
      (size : ℤ)
      → client.web.stat_size req.path ≡ ok size
      → Runs IsUpload (obtain_url client req size >>= λ url. send_bytes client req size url)
  unfolding obtain_url
  measured-Runs size measured =
      >>=-Runs (UrlCalled size) (Posted size) IsUpload (λ e xs h. no_url h)
        (λ v r xs ys h k. with_url measured h k) (obtain_url client req size)
        (λ url. send_bytes client req size url)
        (api_call-Runs client client.web.decode_upload_url "GET" "files.getUploadURLExternal"
          (url_query client req size) none)
        (send_bytes-Runs size)

  stat-Runs :
      (stat : Result String ℤ)
      → client.web.stat_size req.path ≡ stat
      → Runs IsUpload (
          lift (checked (λ e. "stat file: " <> e) stat) >>= λ size.
          (obtain_url client req size >>= λ url. send_bytes client req size url))
  stat-Runs (err e) h net = record {
    added = [];
    extends = sym (append-nil _);
    holds = refused (no_size h);
  }
  stat-Runs (ok size) h net = measured-Runs size h net

  -- An upload sends nothing and fails, for want of a channel, of a path or of the file's size; or
  -- makes calls for an upload URL that fail; or, after such calls that succeed, sends the bytes of
  -- the file of the request in one request without a token, and only where the server answers that
  -- with status 200 makes the calls that share the file in the channel, which decide the result.
  -- The bytes are not sent only if the URL or the file's id is empty, the file does not open or the
  -- request is not built. What a call comes to is an error before its request, if its body is not
  -- marshalled, its request not built or its token not given, or that of the exchange, or follows
  -- from the server's reply: a result only for status 200, an envelope that says ok and fields that
  -- decode, and the server's error for an envelope that does not. A call is made again just where
  -- it ends in an authentication error and there is a provider of tokens, and then once.
  pub upload-IsUpload : (net : Net S) → Ran IsUpload net (upload client req net)
  unfolding upload
  upload-IsUpload =
      after_check_with IsUpload (given client req.channel_id "channel_id is required") _
        (λ e h. refused (no_channel (empty_of_given _ _ e h)))
        (λ _.
          after_check_with IsUpload (given client req.path "path is required") _
            (λ e h. refused (no_path (empty_of_given _ _ e h)))
            (λ _. stat-Runs (client.web.stat_size req.path) refl))
