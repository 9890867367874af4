-- ===== src/Proxy/Writes.antt =====
-- What the routines that end a request write to the agent, and what they leave alone.
use slack_mcp_extender.Base.{
  String, ◌≡◌, refl, ap, ◌∙◌, both_branches, Option, none, some, List, [], ◌∷◌, ◌++◌,
}
use slack_mcp_extender.Base.Result.{Result, err, ok}
use slack_mcp_extender.Jsonrpc.{
  Message, RpcError, RawCodec, Merge, merged, failed, panicked, ToolCallParams, id_string,
  comparable, new_error_response, new_result_response, result_message, merge_tools_list_result,
}
use slack_mcp_extender.Proxy.Pipe.{
  LocalTools, Call, Phase, reading, crashed, Output, reply, relay, Pipe,
}
use slack_mcp_extender.Proxy.Routing.{
  remove, failure, put_failure, put_message, route_failed, write_message, respond, run_local,
  after_merge, merge_response, finish, send_failed, time_out,
}

-- The ids of the requests that were answered.
abbrev pub answered : List Output → List String
answered [] = []
answered (reply m text ∷ out) = id_string m ∷ answered out
answered (relay line ∷ out) = answered out

pub answered-append : (xs ys : List Output) → answered (xs ++ ys) ≡ answered xs ++ answered ys
answered-append [] ys = refl
answered-append (reply m text ∷ xs) ys = ap (λ l. id_string m ∷ l) (answered-append xs ys)
answered-append (relay line ∷ xs) ys = answered-append xs ys

-- An error response has an id and a text, and so can be marshalled.
abbrev pub Reports : RawCodec → Type 0
Reports codec =
    (id text : String) → (line : String) × (codec.marshal_message (failure id text) ≡ ok line)

module _ {W : Type 0} (codec : RawCodec) where
  pub record Wrote (id : String) (c c' : Pipe W) : Type 0 where
    pub pending : c'.pending ≡ c.pending
    pub inbox : c'.inbox ≡ c.inbox
    pub sent : c'.sent ≡ c.sent
    pub answers : Reports codec → answered c'.out ≡ answered c.out ++ (id ∷ [])

  put_failure-Wrote :
      (id text : String) (r : Result String String) (c : Pipe W)
      → codec.marshal_message (failure id text) ≡ r
      → Wrote (comparable id) c (put_failure codec (failure id text) r c)
  unfolding new_error_response
  put_failure-Wrote id text (err e) c h = record {
    pending = refl;
    inbox = refl;
    sent = refl;
    answers = λ reports. let (line, good) = reports id text in cc;
  }
  put_failure-Wrote id text (ok line) c h = record {
    pending = refl;
    inbox = refl;
    sent = refl;
    answers = λ _. answered-append c.out (reply (failure id text) line ∷ []);
  }

  pub route_failed-Wrote :
      (id e : String) (c : Pipe W) → Wrote (comparable id) c (route_failed codec id e c)
  unfolding route_failed new_error_response
  route_failed-Wrote id e c =
      let w = put_failure-Wrote id e _ (record c { logged = _ }) refl in
      record { pending = w.pending; inbox = w.inbox; sent = w.sent; answers = w.answers }

  put_message-Wrote :
      (id : String) (m : Message) (r : Result String String) (c : Pipe W)
      → id_string m ≡ comparable id
      → Wrote (comparable id) c (put_message codec id m r c)
  put_message-Wrote id m (err e) c h = route_failed-Wrote id e c
  put_message-Wrote id m (ok line) c h = record {
    pending = refl;
    inbox = refl;
    sent = refl;
    answers =
        λ _. answered-append c.out (reply m line ∷ []) ∙ ap (λ k. answered c.out ++ (k ∷ [])) h;
  }

  pub write_message-Wrote :
      (id : String) (m : Message) (c : Pipe W)
      → id_string m ≡ comparable id
      → Wrote (comparable id) c (write_message codec id m c)
  unfolding write_message
  write_message-Wrote id m c h = put_message-Wrote id m (codec.marshal_message m) c h

  new_result_response-Wrote :
      (id : String) (r : Result String String) (c : Pipe W)
      → Wrote (comparable id) c (respond codec id (result_message id r) c)
  unfolding new_error_response
  new_result_response-Wrote id (err e) c = write_message-Wrote id (failure id e) c refl
  new_result_response-Wrote id (ok text) c = write_message-Wrote id _ c refl

  pub run_local-Wrote :
      (tools : LocalTools W) (m : Message) (params : ToolCallParams) (c : Pipe W)
      → Wrote (id_string m) c (run_local codec tools m params c)
  unfolding new_result_response
  run_local-Wrote tools m params c =
      let out = tools.handle params.name params.arguments params.meta c.world in
      let w =
        new_result_response-Wrote m.id (codec.marshal_result out.0) (record c { world = out.1 }) in
      record { pending = w.pending; inbox = w.inbox; sent = w.sent; answers = w.answers }

  -- A forwarded request ends with an answer, or with the panic of the merge.
  pub data Finished (call : Call) (c : Pipe W) : Phase × Pipe W → Type 0 where
    returned : {c' : Pipe W} → Wrote (id_string call.request) c c' → Finished call c (reading, c')
    panics : Finished call c (crashed call, c)

  after_merge-Finished :
      (call : Call) (m : Message) (merge : Merge) (c : Pipe W)
      → id_string m ≡ id_string call.request
      → Finished call c (after_merge codec call m merge c)
  after_merge-Finished call m (merged out found) c h =
      let w =
        write_message-Wrote call.request.id (record m { result = some out })
          (record c { logged = _ }) h in
      returned (record { pending = w.pending; inbox = w.inbox; sent = w.sent; answers = w.answers })
  after_merge-Finished call m failed c h =
      let w = write_message-Wrote call.request.id m (record c { logged = _ }) h in
      returned (record { pending = w.pending; inbox = w.inbox; sent = w.sent; answers = w.answers })
  after_merge-Finished call m panicked c h = panics

  merge_response-Finished :
      (injected : Option (LocalTools W)) (call : Call) (m : Message) (result : Option String)
      (error : Option RpcError) (c : Pipe W)
      → id_string m ≡ id_string call.request
      → Finished call c (merge_response codec injected call m result error c)
  merge_response-Finished (some tools) call m (some result) none c h =
      after_merge-Finished call m (merge_tools_list_result codec result tools.definitions) c h
  merge_response-Finished (some tools) call m (some result) (some e) c h =
      returned (write_message-Wrote call.request.id m c h)
  merge_response-Finished (some tools) call m none error c h =
      returned (write_message-Wrote call.request.id m c h)
  merge_response-Finished none call m result error c h =
      returned (write_message-Wrote call.request.id m c h)

  pub finish-Finished :
      (injected : Option (LocalTools W)) (call : Call) (m : Message) (c : Pipe W)
      → id_string m ≡ id_string call.request
      → Finished call c (finish codec injected call m c)
  unfolding finish
  finish-Finished injected call m c h =
      both_branches (Finished call c) call.listing
        (merge_response-Finished injected call m m.result m.error c h)
        (returned (write_message-Wrote call.request.id m c h))

  -- The pipe with the request taken out of the table.
  abbrev pub unlist : Call → Pipe W → Pipe W
  unlist call c = record c { pending = remove (id_string call.request) c.pending }

  pub time_out-Finished :
      (injected : Option (LocalTools W)) (call : Call) (c : Pipe W)
      → Finished call (unlist call c) (time_out codec injected call c)
  unfolding time_out new_error_response
  time_out-Finished injected call c =
      finish-Finished injected call (failure call.request.id "upstream timeout") (unlist call c)
        refl

  pub send_failed-Wrote :
      (call : Call) (e : String) (c : Pipe W)
      → Wrote (id_string call.request) (unlist call c) (send_failed codec call e c)
  unfolding send_failed
  send_failed-Wrote call e c = route_failed-Wrote call.request.id _ (unlist call c)
