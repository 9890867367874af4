-- ===== src/Transfer/Fetch/Capped.antt =====
-- What a download leaves behind.
use slack_mcp_extender.Base.{
  ℕ, suc, ◌≤◌, ◌<◌, String, ◌≡◌, refl, ap, true, Bool-cases, both_branches, inl, inr, Option, none,
  some, List, [], ◌∷◌, ◌++◌, length, leb, ltb, eqb, arith,
}
use slack_mcp_extender.Base.Int.{pos, ltb_ℤ, max_int64}
use slack_mcp_extender.Base.Result.{Result, err, ok}
use slack_mcp_extender.Transfer.Types.{TransferError}
use slack_mcp_extender.Transfer.Http.{Body, Response, take, limit_reader}
use slack_mcp_extender.Transfer.Fetch.{
  FileCall, chmod, rename, remove, Answers, Outcome, tried, after_rename, after_chmod, after_close,
  check_cap, after_copy, reader, after_create, save_body, after_exchange, after_token, after_build,
  fetch_to,
}

abbrev pub NoRename : List FileCall → Type 0
NoRename [] = Unit
NoRename (rename tmp target ∷ calls) = ⊥
NoRename (_ ∷ calls) = NoRename calls

-- What a download may end in: the whole body under its target; an error before there was a
-- temporary file; one after which that file is removed and nothing was renamed; or the failure of
-- the rename itself, after which it is removed too.
pub data IsClean (answers : Answers) (target : String) (max_size : ℕ) : Outcome → Type 0 where
  saved :
      {response : Response} {tmp : String}
      → answers.exchange ≡ ok response
      → answers.created ≡ ok tmp
      → response.body.broken ≡ none
      → length response.body.bytes ≤ max_size
      → IsClean answers target max_size (
        ok (pos (length response.body.bytes)),
        tried answers tmp response.body.bytes (chmod tmp ∷ rename tmp target ∷ []),
      )
  untouched : {e : TransferError} → IsClean answers target max_size (err e, [])
  cleaned :
      {e : TransferError} {tmp : String} {bytes : List ℕ} (more : List FileCall)
      → NoRename more
      → IsClean answers target max_size (err e, tried answers tmp bytes (more ++ (remove tmp ∷ [])))
  not_renamed :
      {e : TransferError} {tmp text : String} {bytes : List ℕ}
      → answers.rename_error ≡ some text
      → IsClean answers target max_size
          (err e, tried answers tmp bytes (chmod tmp ∷ rename tmp target ∷ remove tmp ∷ []))

length-take : (n : ℕ) (bytes : List ℕ) → leb n (length bytes) ≡ true → length (take n bytes) ≡ n
length-take ℕ.zero bytes h = refl
length-take (suc n) [] h = ground arith
length-take (suc n) (b ∷ bytes) h =
    let shorter : leb n (length bytes) ≡ true = ground arith in ap suc (length-take n bytes shorter)

module _ (answers : Answers) (target : String) (max_size : ℕ) where
  module _ (response : Response) (tmp : String) (exchanged : answers.exchange ≡ ok response)
      (made : answers.created ≡ ok tmp) (whole : response.body.broken ≡ none)
      (fits : length response.body.bytes ≤ max_size) where
    after_rename-IsClean :
        (e : Option String)
        → answers.rename_error ≡ e
        → IsClean answers target max_size
            (after_rename answers target (pos max_size) tmp response.body.bytes e)
    after_rename-IsClean none h = saved exchanged made whole fits
    after_rename-IsClean (some e) h = not_renamed h

    after_chmod-IsClean :
        (e : Option String)
        → IsClean answers target max_size
            (after_chmod answers target (pos max_size) tmp response.body.bytes e)
    after_chmod-IsClean none = after_rename-IsClean answers.rename_error refl
    after_chmod-IsClean (some e) = cleaned (chmod tmp ∷ []) tt

    after_close-IsClean :
        (e : Option String)
        → IsClean answers target max_size
            (after_close answers target (pos max_size) tmp response.body.bytes e)
    after_close-IsClean none = after_chmod-IsClean answers.chmod_error
    after_close-IsClean (some e) = cleaned [] tt

    check_cap-IsClean :
        IsClean answers target max_size
          (check_cap answers target (pos max_size) tmp response.body.bytes)
    unfolding check_cap
    check_cap-IsClean =
        both_branches (IsClean answers target max_size) _ (cleaned [] tt)
          (after_close-IsClean answers.close_error)

  -- One byte more than the cap is written at most, and then refused.
  over-IsClean :
      (tmp : String) (bytes : List ℕ)
      → 0 < max_size
      → length bytes ≡ suc max_size
      → IsClean answers target max_size (check_cap answers target (pos max_size) tmp bytes)
  unfolding check_cap
  over-IsClean tmp bytes positive over =
      let some_cap : ltb_ℤ (pos 0) (pos max_size) ≡ true = ground arith in
      let refused : ltb_ℤ (pos max_size) (pos (length bytes)) ≡ true = ground arith in
      rw (some_cap, refused) (cleaned [] tt)

  whole-IsClean :
      (response : Response) (tmp : String)
      → answers.exchange ≡ ok response
      → answers.created ≡ ok tmp
      → length response.body.bytes ≤ max_size
      → (e broken : Option String) → response.body.broken ≡ broken
      → IsClean answers target max_size
          (after_copy answers target (pos max_size) tmp response.body.bytes e broken)
  whole-IsClean response tmp exchanged made fits none none whole =
      check_cap-IsClean response tmp exchanged made whole fits
  whole-IsClean response tmp exchanged made fits (some e) broken h = cleaned [] tt
  whole-IsClean response tmp exchanged made fits none (some e) h = cleaned [] tt

  cut-IsClean :
      (tmp : String) (bytes : List ℕ)
      → 0 < max_size
      → length bytes ≡ suc max_size
      → (e : Option String)
      → IsClean answers target max_size (after_copy answers target (pos max_size) tmp bytes e none)
  cut-IsClean tmp bytes positive over none = over-IsClean tmp bytes positive over
  cut-IsClean tmp bytes positive over (some e) = cleaned [] tt

  module _ (positive : 0 < max_size) (bounded : max_size < max_int64) where
    reader_within :
        (body : Body)
        → reader answers target (pos max_size) body ≡ limit_reader body (pos (suc max_size))
    unfolding reader
    reader_within body =
        let some_cap : ltb_ℤ (pos 0) (pos max_size) ≡ true = ground arith in
        let no_wrap : ltb max_size max_int64 ≡ true = ground arith in rw (some_cap, no_wrap) refl

    read-IsClean :
        (response : Response) (tmp : String)
        → answers.exchange ≡ ok response
        → answers.created ≡ ok tmp
        → IsClean answers target max_size (
            after_copy answers target
              (pos max_size)
              tmp
              (limit_reader response.body (pos (suc max_size))).bytes
              answers.write_error
              (limit_reader response.body (pos (suc max_size))).broken)
    unfolding limit_reader
    read-IsClean response tmp exchanged made =
        elim (Bool-cases (leb (suc max_size) (length response.body.bytes))) [
          | inl t ↦ rw t (
              cut-IsClean tmp (take (suc max_size) response.body.bytes) positive
                (length-take (suc max_size) response.body.bytes t) answers.write_error)
          | inr f ↦ rw f (
              whole-IsClean response tmp exchanged made (ground arith) answers.write_error
                response.body.broken refl)
        ]

    after_create-IsClean :
        (response : Response) (created : Result String String)
        → answers.exchange ≡ ok response
        → answers.created ≡ created
        → IsClean answers target max_size
            (after_create answers target (pos max_size) response.body created)
    after_create-IsClean response (err e) exchanged made = untouched
    after_create-IsClean response (ok tmp) exchanged made =
        rw (reader_within response.body) (read-IsClean response tmp exchanged made)

    after_exchange-IsClean :
        (exchange : Result String Response)
        → answers.exchange ≡ exchange
        → IsClean answers target max_size (after_exchange answers target (pos max_size) exchange)
    unfolding save_body
    after_exchange-IsClean (err e) h = untouched
    after_exchange-IsClean (ok response) h =
        both_branches (IsClean answers target max_size) (eqb response.status 200)
          (after_create-IsClean response answers.created h refl) untouched

    after_token-IsClean :
        (token : Option String)
        → IsClean answers target max_size (after_token answers target (pos max_size) token)
    after_token-IsClean (some e) = untouched
    after_token-IsClean none = after_exchange-IsClean answers.exchange refl

    after_build-IsClean :
        (build : Option String)
        → IsClean answers target max_size (after_build answers target (pos max_size) build)
    after_build-IsClean (some e) = untouched
    after_build-IsClean none = after_token-IsClean answers.token

-- With a positive cap below the largest integer, a download ends with the whole body, no longer than
-- the cap, under its target, or with an error: before there is a temporary file, or with that file
-- removed, and without a rename unless the rename itself failed.
pub fetch_to-IsClean :
    (answers : Answers) (target : String) (max_size : ℕ)
    → 0 < max_size
    → max_size < max_int64
    → IsClean answers target max_size (fetch_to answers target (pos max_size))
unfolding fetch_to
fetch_to-IsClean answers target max_size positive bounded =
    after_build-IsClean answers target max_size positive bounded answers.build_request
