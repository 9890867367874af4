-- ===== src/Transfer/Service/Files.antt =====
-- The files whose bytes the requests of the client carry.
use slack_mcp_extender.Base.{ℕ, String, ◌≡◌, refl, List, ◌++◌, All, All-append, Option, none, some}
use slack_mcp_extender.Base.Int.{ℤ}
use slack_mcp_extender.Base.Result.{Result}
use slack_mcp_extender.Json.{Json}
use slack_mcp_extender.Transfer.Types.{UploadRequest, UploadResult, TransferError}
use slack_mcp_extender.Transfer.Io.{RequestBody, no_body, json_body, file_body, Request, Net}
use slack_mcp_extender.Transfer.Web.{Client}
use slack_mcp_extender.Transfer.Client.Asked.{Asked, stopped, asked, Called, once, twice}
use slack_mcp_extender.Transfer.Upload.{upload, bytes_request}
use slack_mcp_extender.Transfer.Upload.Ordered.{
  IsUpload, refused, no_url, with_url, Posted, not_posted, not_accepted, accepted, Completed,
  failed, shared, upload-IsUpload,
}

-- A body carries bytes of the file at this path, or of none.
abbrev pub CarriesOnly : String → RequestBody → Type 0
CarriesOnly path no_body = Unit
CarriesOnly path (json_body value) = Unit
CarriesOnly path (file_body carried size) = carried ≡ path

abbrev pub OnlyFile : String → Request → Type 0
OnlyFile path request = CarriesOnly path request.body

module _ {S : Type 0} (client : Client S) (path : String) where
  module _ {V : Type 0} (decode : List ℕ → Result String V) (method api_method : String)
      (query : List (String × String)) where
    Asked-OnlyFile :
        (value : Option Json) (r : Result TransferError V) (xs : List Request)
        → Asked client decode method api_method query value r xs
        → All (OnlyFile path) xs
    Asked-OnlyFile value r xs (stopped why) = tt
    Asked-OnlyFile none r xs (asked authorization a) = (tt, tt)
    Asked-OnlyFile (some value) r xs (asked authorization a) = (tt, tt)

    Called-OnlyFile :
        (value : Option Json) (r : Result TransferError V) (xs : List Request)
        → Called client decode method api_method query value r xs
        → All (OnlyFile path) xs
    Called-OnlyFile value r xs (once final a) = Asked-OnlyFile value r xs a
    Called-OnlyFile value r zs (twice {r = r'} {xs = xs} {ys = ys} auth provided a b) =
        All-append (OnlyFile path) xs ys (Asked-OnlyFile value r' xs a)
          (Asked-OnlyFile value r ys b)

module _ {S : Type 0} (client : Client S) (req : UploadRequest) where
  Completed-OnlyFile :
      {size : ℤ} {url : _} {r : Result TransferError UploadResult} {zs : List Request}
      → Completed client req size url r zs
      → All (OnlyFile req.path) zs
  Completed-OnlyFile (failed c) = Called-OnlyFile client req.path _ _ _ _ _ _ _ c
  Completed-OnlyFile (shared c) = Called-OnlyFile client req.path _ _ _ _ _ _ _ c

  Posted-OnlyFile :
      {size : ℤ} {url : _} {r : Result TransferError UploadResult} {ys : List Request}
      → Posted client req size url r ys
      → All (OnlyFile req.path) ys
  unfolding bytes_request
  Posted-OnlyFile (not_posted why) = tt
  Posted-OnlyFile (not_accepted why) = (refl, tt)
  Posted-OnlyFile (accepted a c) = (refl, Completed-OnlyFile c)

  IsUpload-OnlyFile :
      {r : Result TransferError UploadResult} {xs : List Request}
      → IsUpload client req r xs
      → All (OnlyFile req.path) xs
  IsUpload-OnlyFile (refused why) = tt
  IsUpload-OnlyFile (no_url c) = Called-OnlyFile client req.path _ _ _ _ _ _ _ c
  IsUpload-OnlyFile (with_url {xs = xs} {ys = ys} measured c p) =
      All-append (OnlyFile req.path) xs ys (Called-OnlyFile client req.path _ _ _ _ _ _ _ c)
        (Posted-OnlyFile p)

  pub upload-OnlyFile :
      (net : Net S)
      → (xs : List Request) × ((upload client req net).1.requests ≡ net.requests ++ xs)
        × All (OnlyFile req.path) xs
  upload-OnlyFile net =
      let ran = upload-IsUpload client req net in
      (ran.added, ran.extends, IsUpload-OnlyFile ran.holds)
