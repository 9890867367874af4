-- ===== src/Transport/Session/Sent.antt =====
-- What `Send` posts and queues.
use slack_mcp_extender.Base.{
  ℕ, ◌≤◌, String, ◌≡◌, refl, ap, ◌∙◌, both_branches, Option, none, some, List, [], ◌∷◌, ◌++◌, All,
  length, arith, if◌then◌else◌, eqb, leb, has_prefix,
}
use slack_mcp_extender.Base.Result.{Result, err, ok}
use slack_mcp_extender.Base.Action.{next}
use slack_mcp_extender.Transfer.Http.{Body}
use slack_mcp_extender.Transfer.Web.{TokenProvider, read_all}
use slack_mcp_extender.Transport.Session.{
  Post, Reply, Session, Server, do_post, queue_json, by_type, is_empty, enqueue, keep_session,
  handle_response, after_second, retry, after_first, send,
}
use slack_mcp_extender.Transport.Session.Attempts.{
  IsPost, Attempted, Attempted-trans, do_post-Attempted,
}

-- What the agent's side can see of an outcome: a failure queues nothing; else one message or one
-- stream is added, or none.
pub data Delivers {S : Type 0} (before : Session S)
    : Result String (Unit {0}) × Session S → Type 0 where
  fails :
      {e : String} {after : Session S}
      → after.incoming ≡ before.incoming
      → after.streams ≡ before.streams
      → Delivers before (err e, after)
  queues :
      (line : String) {after : Session S}
      → after.incoming ≡ before.incoming ++ (line ∷ [])
      → after.streams ≡ before.streams
      → Delivers before (ok tt, after)
  opens :
      (body : Body) {after : Session S}
      → after.incoming ≡ before.incoming
      → after.streams ≡ before.streams ++ (body ∷ [])
      → Delivers before (ok tt, after)
  accepts :
      {after : Session S}
      → after.incoming ≡ before.incoming
      → after.streams ≡ before.streams
      → Delivers before (ok tt, after)

module _ {S : Type 0} (server : Server S) (line : String) where
  -- The posts of one or two attempts, each of this line in the session, and what is delivered.
  pub record Sends (before : Session S) (outcome : Result String (Unit {0}) × Session S)
      : Type 0 where
    pub added : List Post
    pub extends : outcome.1.posts ≡ before.posts ++ added
    pub each : All (IsPost before.session_id line) added
    pub at_most : length added ≤ 2
    pub delivers : Delivers before outcome

  Delivers-from :
      (before middle : Session S) (outcome : Result String (Unit {0}) × Session S)
      → middle.incoming ≡ before.incoming
      → middle.streams ≡ before.streams
      → Delivers middle outcome
      → Delivers before outcome
  Delivers-from before middle outcome i t (fails h k) = fails (h ∙ i) (k ∙ t)
  Delivers-from before middle outcome i t (queues l h k) =
      queues l (h ∙ ap (λ q. q ++ (l ∷ [])) i) (k ∙ t)
  Delivers-from before middle outcome i t (opens b h k) =
      opens b (h ∙ i) (k ∙ ap (λ q. q ++ (b ∷ [])) t)
  Delivers-from before middle outcome i t (accepts h k) = accepts (h ∙ i) (k ∙ t)

  -- The posts stay, and something is delivered.
  abbrev Ends : Session S → Result String (Unit {0}) × Session S → Type 0
  Ends st outcome = (outcome.1.posts ≡ st.posts) × Delivers st outcome

  queue_json-Ends : (r : Result String (List ℕ)) (st : Session S) → Ends st (queue_json server r st)
  queue_json-Ends (ok bytes) st = (refl, queues _ refl refl)
  queue_json-Ends (err e) st = (refl, fails refl refl)

  queue_text-Ends :
      (bytes : List ℕ) (st : Session S)
      → Ends st (
        ok tt,
        if is_empty server bytes then st else enqueue server (server.text_of_bytes bytes) st,
      )
  queue_text-Ends [] st = (refl, accepts refl refl)
  queue_text-Ends (b ∷ bytes) st = (refl, queues _ refl refl)

  by_type-Ends : (reply : Reply) (st : Session S) → Ends st (by_type server reply st)
  by_type-Ends reply st =
      both_branches (Ends st) (has_prefix reply.content_type "application/json")
        (queue_json-Ends (read_all reply.body) st)
        (both_branches (Ends st) (has_prefix reply.content_type "text/event-stream")
          (refl, opens _ refl refl)
          (both_branches (Ends st) (leb 400 reply.status) (refl, fails refl refl)
            (queue_text-Ends reply.body.bytes st)))

  handle_response-Ends :
      (reply : Reply) (st : Session S) → Ends st (handle_response server reply st)
  unfolding handle_response
  handle_response-Ends reply st =
      let (same, d) = by_type-Ends reply (keep_session server reply.session_header st) in
      (same, Delivers-from st (keep_session server reply.session_header st) _ refl refl d)

  after_second-Ends : (reply : Reply) (st : Session S) → Ends st (after_second server reply st)
  unfolding after_second
  after_second-Ends reply st =
      both_branches (Ends st) (eqb reply.status 401) (refl, fails refl refl)
        (handle_response-Ends reply st)

  ended :
      (n : ℕ) (before middle : Session S) (outcome : Result String (Unit {0}) × Session S)
      → n ≤ 2
      → Attempted server line n before middle
      → Ends middle outcome
      → Sends before outcome
  ended n before middle outcome small a (same, d) = record {
    added = a.added;
    extends = same ∙ a.extends;
    each = a.each;
    at_most = omega (arith, a.at_most);
    delivers = Delivers-from before middle outcome a.incoming a.streams d;
  }

  second_attempt :
      (before middle : Session S) (outcome : Result String Reply × Session S)
      → Attempted server line 2 before outcome.1
      → Sends before (next (after_second server) outcome)
  second_attempt before middle (err e, st) a =
      ended 2 before st (err e, st) (omega arith) a (refl, fails refl refl)
  second_attempt before middle (ok reply, st) a =
      ended 2 before st _ (omega arith) a (after_second-Ends reply st)

  retry-Sends :
      (provider : TokenProvider S) (before middle : Session S)
      → Attempted server line 1 before middle
      → Sends before (retry server provider line middle)
  unfolding retry
  retry-Sends provider before middle a =
      let again = record middle { remote = provider.invalidate middle.remote } in
      second_attempt before middle (do_post server line again) (
        Attempted-trans server line before middle (do_post server line again).1 a again.remote
          (do_post-Attempted server line again))

  after_first-Sends :
      (auth : Option (TokenProvider S)) (reply : Reply) (before middle : Session S)
      → Attempted server line 1 before middle
      → Sends before (after_first server auth line reply middle)
  after_first-Sends none reply before middle a =
      ended 1 before middle _ (omega arith) a (handle_response-Ends reply middle)
  after_first-Sends (some provider) reply before middle a =
      both_branches (Sends before) (eqb reply.status 401) (retry-Sends provider before middle a)
        (ended 1 before middle _ (omega arith) a (handle_response-Ends reply middle))

  first_attempt :
      (before : Session S) (outcome : Result String Reply × Session S)
      → Attempted server line 1 before outcome.1
      → Sends before (next (after_first server server.auth line) outcome)
  first_attempt before (err e, st) a =
      ended 1 before st (err e, st) (omega arith) a (refl, fails refl refl)
  first_attempt before (ok reply, st) a = after_first-Sends server.auth reply before st a

  -- Whatever the server and the token provider answer, Send makes at most two posts, each of the
  -- line and with the session id that the transport had; if it returns an error it queues nothing and
  -- opens no stream, and else it queues one message, opens one stream, or neither.
  pub send-Sends : (before : Session S) → Sends before (send server line before)
  unfolding send
  send-Sends before =
      first_attempt before (do_post server line before) (do_post-Attempted server line before)
