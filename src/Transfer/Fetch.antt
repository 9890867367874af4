-- ===== src/Transfer/Fetch.antt =====
-- `Client.FetchTo`: a download into a temporary file that is renamed to its target.
pub mod Capped
use slack_mcp_extender.Base.{
  ℕ, String, ◌<>◌, Bool, ◌&&◌, Option, none, some, List, [], ◌∷◌, length, eqb, if◌then◌else◌,
}
use slack_mcp_extender.Base.Int.{ℤ, pos, ltb_ℤ, add_one64}
use slack_mcp_extender.Base.Result.{Result, err, ok}
use slack_mcp_extender.Transfer.Types.{TransferError, too_large, failed}
use slack_mcp_extender.Transfer.Http.{Body, Response, limit_reader, truncate}

-- The calls that change files.
pub data FileCall : Type 0 where
  create_temp : String → FileCall
  write : String → List ℕ → FileCall
  close : String → FileCall
  chmod : String → FileCall
  rename : String → String → FileCall
  remove : String → FileCall

-- What the network and the file system answer: no error, an error's text, or a value. The token is
-- that of the client's provider; a client without one needs none.
pub record Answers : Type 0 where
  pub build_request : Option String
  pub token : Option String
  pub exchange : Result String Response
  pub dir_of_target : String
  pub created : Result String String
  pub write_error : Option String
  pub close_error : Option String
  pub chmod_error : Option String
  pub rename_error : Option String
  pub text_of_bytes : List ℕ → String
  pub decimal : ℕ → String
  pub decimal_cap : ℤ → String

abbrev pub Outcome : Type 0
Outcome = Result TransferError ℤ × List FileCall

abbrev pub tried : Answers → String → List ℕ → List FileCall → List FileCall
tried answers tmp bytes more =
    create_temp answers.dir_of_target ∷ write tmp bytes ∷ close tmp ∷ more

module _ (answers : Answers) (target : String) (max_size : ℤ) where
  abbrev pub after_rename : String → List ℕ → Option String → Outcome
  after_rename tmp bytes (some e) = (
    err (failed ("finalize download: " <> e)),
    tried answers tmp bytes (chmod tmp ∷ rename tmp target ∷ remove tmp ∷ []),
  )
  after_rename tmp bytes none =
      (ok (pos (length bytes)), tried answers tmp bytes (chmod tmp ∷ rename tmp target ∷ []))

  abbrev pub after_chmod : String → List ℕ → Option String → Outcome
  after_chmod tmp bytes (some e) =
      (err (failed ("chmod: " <> e)), tried answers tmp bytes (chmod tmp ∷ remove tmp ∷ []))
  after_chmod tmp bytes none = after_rename tmp bytes answers.rename_error

  abbrev pub after_close : String → List ℕ → Option String → Outcome
  after_close tmp bytes (some e) =
      (err (failed ("close temp file: " <> e)), tried answers tmp bytes (remove tmp ∷ []))
  after_close tmp bytes none = after_chmod tmp bytes answers.chmod_error

  -- The cap is enforced on what was written.
  unfoldable pub check_cap : String → List ℕ → Outcome
  check_cap tmp bytes =
      if ltb_ℤ (pos 0) max_size && ltb_ℤ max_size (pos (length bytes))
      then (
        err (
            too_large (
              "file exceeds the configured size cap (cap "
              <> (answers.decimal_cap max_size <> " bytes)"))),
        tried answers tmp bytes (remove tmp ∷ []),
      )
      else after_close tmp bytes answers.close_error

  -- `io.Copy` fails where writing does or the body breaks off.
  abbrev pub after_copy : String → List ℕ → Option String → Option String → Outcome
  after_copy tmp bytes none none = check_cap tmp bytes
  after_copy tmp bytes (some e) broken =
      (err (failed ("write download: " <> e)), tried answers tmp bytes (remove tmp ∷ []))
  after_copy tmp bytes none (some e) =
      (err (failed ("write download: " <> e)), tried answers tmp bytes (remove tmp ∷ []))

  unfoldable pub reader : Body → Body
  unfolding limit_reader
  reader body = if ltb_ℤ (pos 0) max_size then limit_reader body (add_one64 max_size) else body

  abbrev pub after_create : Body → Result String String → Outcome
  after_create body (err e) = (err (failed ("create temp file: " <> e)), [])
  after_create body (ok tmp) =
      after_copy tmp (reader body).bytes answers.write_error (reader body).broken

  unfoldable pub save_body : Response → Outcome
  unfolding check_cap reader truncate limit_reader
  save_body response =
      if eqb response.status 200 then after_create response.body answers.created else (
        err (
            failed (
              "download: HTTP "
              <> (answers.decimal response.status
                  <> (": "
                      <> truncate answers.text_of_bytes
                          (limit_reader response.body (pos 4096)).bytes 200)))),
        [],
      )

  abbrev pub after_exchange : Result String Response → Outcome
  after_exchange (err e) = (err (failed ("download: " <> e)), [])
  after_exchange (ok response) = save_body response

  abbrev pub after_token : Option String → Outcome
  after_token (some e) = (err (failed ("obtain token: " <> e)), [])
  after_token none = after_exchange answers.exchange

  abbrev pub after_build : Option String → Outcome
  after_build (some e) = (err (failed ("build download request: " <> e)), [])
  after_build none = after_token answers.token

  unfoldable pub fetch_to : Outcome
  unfolding save_body
  fetch_to = after_build answers.build_request
