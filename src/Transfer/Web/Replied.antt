-- ===== src/Transfer/Web/Replied.antt =====
-- What a reply of the Slack Web API comes to.
use slack_mcp_extender.Base.{ℕ, String, ◌≡◌, ◌≢◌, refl, true, false, List, each_branch, eqb, arith}
use slack_mcp_extender.Base.Int.{pos}
use slack_mcp_extender.Base.Result.{Result, err, ok, ◌>>=◌, ◌>>◌}
use slack_mcp_extender.Transfer.Types.{TransferError, slack_error, failed}
use slack_mcp_extender.Transfer.Http.{Response, limit_reader}
use slack_mcp_extender.Transfer.Io.{checked}
use slack_mcp_extender.Transfer.Web.{
  Envelope, Web, labelled, read_all, accepted_status, accepted_envelope, read_reply,
}

module _ {S V : Type 0} (web : Web S) (decode : List ℕ → Result String V) (api_method : String)
    (response : Response) where
  -- The first mebibyte of the body.
  abbrev pub start_of : Result String (List ℕ)
  start_of = read_all (limit_reader response.body (pos 1048576))

  -- A reply that is read, with status 200, a positive envelope and fields that decode, is a result;
  -- any other is the error of the first of these that it lacks.
  pub data IsReply : Result TransferError V → Type 0 where
    unreadable :
        {e : String}
        → start_of ≡ err e
        → IsReply (err (failed (labelled web decode api_method "read response: " e)))
    bad_status : {text : String} → response.status ≢ 200 → IsReply (err (failed text))
    no_envelope :
        (bytes : List ℕ) {e : String}
        → start_of ≡ ok bytes
        → web.decode_envelope bytes ≡ err e
        → IsReply (err (failed (labelled web decode api_method "parse response: " e)))
    negative :
        (bytes : List ℕ) (envelope : Envelope)
        → start_of ≡ ok bytes
        → response.status ≡ 200
        → web.decode_envelope bytes ≡ ok envelope
        → envelope.envelope_ok ≡ false
        → IsReply (err (slack_error api_method envelope.error))
    no_fields :
        (bytes : List ℕ) {e : String}
        → start_of ≡ ok bytes
        → decode bytes ≡ err e
        → IsReply (err (failed (labelled web decode api_method "parse response fields: " e)))
    positive :
        (bytes : List ℕ) (envelope : Envelope) {v : V}
        → start_of ≡ ok bytes
        → response.status ≡ 200
        → web.decode_envelope bytes ≡ ok envelope
        → envelope.envelope_ok ≡ true
        → decode bytes ≡ ok v
        → IsReply (ok v)

  module _ (bytes : List ℕ) (read : start_of ≡ ok bytes) where
    decoded-IsReply :
        (envelope : Envelope)
        → response.status ≡ 200
        → web.decode_envelope bytes ≡ ok envelope
        → envelope.envelope_ok ≡ true
        → (r : Result String V) → decode bytes ≡ r
        → IsReply (checked (labelled web decode api_method "parse response fields: ") r)
    decoded-IsReply envelope status opened positive_ok (err e) h = no_fields bytes read h
    decoded-IsReply envelope status opened positive_ok (ok v) h =
        positive bytes envelope read status opened positive_ok h

    opened-IsReply :
        response.status ≡ 200
        → (r : Result String Envelope) → web.decode_envelope bytes ≡ r
        → IsReply (
            checked (labelled web decode api_method "parse response: ") r >>= λ envelope.
            accepted_envelope web decode api_method envelope
            >> checked (labelled web decode api_method "parse response fields: ") (decode bytes))
    opened-IsReply status (err e) h = no_envelope bytes read h
    opened-IsReply status (ok envelope) h =
        each_branch {A = Result TransferError (Unit {0})}
          (λ accepted. IsReply (
            accepted
            >> checked (labelled web decode api_method "parse response fields: ") (decode bytes)))
          envelope.envelope_ok (λ t. decoded-IsReply envelope status h t (decode bytes) refl)
          (λ f. negative bytes envelope read status h f)

    read-IsReply : IsReply (
        accepted_status web decode api_method response bytes
        >> (checked (labelled web decode api_method "parse response: ") (web.decode_envelope bytes)
            >>= λ envelope.
                accepted_envelope web decode api_method envelope
                >> checked
                    (labelled web decode api_method "parse response fields: ")
                    (decode bytes)))
    read-IsReply =
        each_branch {A = Result TransferError (Unit {0})}
          (λ accepted. IsReply (
            accepted
            >> (checked (labelled web decode api_method "parse response: ")
                  (web.decode_envelope bytes)
                >>= λ envelope.
                    accepted_envelope web decode api_method envelope
                    >> checked (labelled web decode api_method "parse response fields: ")
                        (decode bytes))))
          (eqb response.status 200)
          (λ t. opened-IsReply (ground arith) (web.decode_envelope bytes) refl)
          (λ f. bad_status (λ e. ground arith))

  pub read_reply-IsReply : IsReply (read_reply web decode api_method response)
  unfolding read_reply
  read_reply-IsReply = on_read start_of refl
    where
      on_read :
          (r : Result String (List ℕ))
          → start_of ≡ r
          → IsReply (
              checked (labelled web decode api_method "read response: ") r >>= λ bytes.
              accepted_status web decode api_method response bytes
              >> (checked
                    (labelled web decode api_method "parse response: ")
                    (web.decode_envelope bytes)
                  >>= λ envelope.
                      accepted_envelope web decode api_method envelope
                      >> checked
                          (labelled web decode api_method "parse response fields: ")
                          (decode bytes)))
      on_read (err e) h = unreadable h
      on_read (ok bytes) h = read-IsReply bytes h
