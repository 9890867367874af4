-- ===== src/Transfer/Web.antt =====
-- What the client uses of net/http, net/url, os and encoding/json, and its reading of a reply.
pub mod Replied
use slack_mcp_extender.Base.{ℕ, String, ◌<>◌, Bool, Option, none, some, List, if◌then◌else◌, eqb}
use slack_mcp_extender.Base.Int.{ℤ, pos}
use slack_mcp_extender.Base.Result.{Result, err, ok, ◌>>=◌, ◌>>◌}
use slack_mcp_extender.Json.{Json}
use slack_mcp_extender.Transfer.Types.{TransferError, slack_error, failed}
use slack_mcp_extender.Transfer.Http.{Body, Response, limit_reader, truncate}
use slack_mcp_extender.Transfer.Io.{Request, checked}

-- The interface `TokenProvider`, over the state of the outside world.
pub record TokenProvider (S : Type 0) : Type 0 where
  pub token : S → Result String String × S
  pub invalidate : S → S

pub record Envelope : Type 0 where
  pub envelope_ok : Bool
  pub error : String

pub record UploadUrl : Type 0 where
  pub upload_url : String
  pub file_id : String

pub record FileFields : Type 0 where
  pub id : String
  pub name : String
  pub size : ℤ
  pub url_private_download : String
  pub url_private : String

-- net/http, net/url, os and encoding/json as the client uses them.
pub record Web (S : Type 0) : Type 0 where
  pub new_request : String → String → Option String
  pub exchange : Request → S → Result String Response × S
  pub encode_query : List (String × String) → String
  pub marshal_error : Json → Option String
  pub decode_envelope : List ℕ → Result String Envelope
  pub decode_upload_url : List ℕ → Result String UploadUrl
  pub decode_file : List ℕ → Result String FileFields
  pub text_of_bytes : List ℕ → String
  pub decimal : ℤ → String
  pub stat_size : String → Result String ℤ
  pub open_error : String → Option String

-- A client with its default base and HTTP client put in.
pub record Client (S : Type 0) : Type 0 where
  pub configured_base : String
  pub tokens : Option (TokenProvider S)
  pub web : Web S

-- `io.ReadAll`
abbrev pub read_all : Body → Result String (List ℕ)
read_all body = elim body.broken [ none ↦ ok body.bytes | some e ↦ err e ]

module _ {S V : Type 0} (web : Web S) (decode : List ℕ → Result String V)
    (api_method : String) where
  abbrev pub labelled : String → String → String
  labelled what e = api_method <> (": " <> (what <> e))

  abbrev pub accepted_status : Response → List ℕ → Result TransferError (Unit {0})
  accepted_status response bytes =
      if eqb response.status 200
      then ok tt
      else err (
          failed (
            api_method
            <> (": HTTP "
                <> (web.decimal (pos response.status)
                    <> (": " <> truncate web.text_of_bytes bytes 200)))))

  abbrev pub accepted_envelope : Envelope → Result TransferError (Unit {0})
  accepted_envelope envelope =
      if envelope.envelope_ok then ok tt else err (slack_error api_method envelope.error)

  unfoldable pub read_reply : Response → Result TransferError V
  unfolding limit_reader truncate
  read_reply response = do
    bytes ←
        checked (labelled "read response: ") (read_all (limit_reader response.body (pos 1048576)))
    accepted_status response bytes
    envelope ← checked (labelled "parse response: ") (web.decode_envelope bytes)
    accepted_envelope envelope
    checked (labelled "parse response fields: ") (decode bytes)
