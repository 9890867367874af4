-- ===== src/Transport/Tokenfile/Saved.antt =====
-- What saving the tokens leaves in the state directory.
use slack_mcp_extender.Base.{String, ◌≡◌, refl, Option, none, some}
use slack_mcp_extender.Base.Result.{Result, err, ok}
use slack_mcp_extender.Transport.Tokenfile.{
  StoredTokens, StateDir, Disk, load_tokens, Saved, after_write, after_encode, after_mkdir,
  save_tokens,
}

-- The decoder reads back what the encoder writes.
abbrev pub Decodes : Disk → Type 0
Decodes disk =
    (tokens : StoredTokens) (text : String)
    → disk.encode tokens ≡ ok text
    → disk.decode text ≡ ok tokens

module _ (disk : Disk) (decodes : Decodes disk) (tokens : StoredTokens) (dir : StateDir) where
  -- An error leaves the stored text as it was; else the tokens are what can be loaded, and there is
  -- no temporary file.
  pub data IsSaved : Saved disk → Type 0 where
    failed : {e : String} {after : StateDir} → after.stored ≡ dir.stored → IsSaved (some e, after)
    saved :
        {after : StateDir}
        → (disk.read_error ≡ none → load_tokens disk after ≡ ok tokens)
        → after.temporary ≡ none
        → IsSaved (none, after)

  load_written :
      (text : String)
      → disk.encode tokens ≡ ok text
      → disk.read_error ≡ none
      → load_tokens disk (record { stored = some text; temporary = none }) ≡ ok tokens
  unfolding load_tokens
  load_written text h readable = rw readable (decodes tokens text h)

  after_write-IsSaved :
      (text : String)
      → disk.encode tokens ≡ ok text
      → (e : Option String) → IsSaved (after_write disk text e dir)
  after_write-IsSaved text h none = saved (load_written text h) refl
  after_write-IsSaved text h (some e) = failed refl

  after_encode-IsSaved :
      (r : Result String String)
      → disk.encode tokens ≡ r
      → (w : Option (String × Option String)) → IsSaved (after_encode disk r w dir)
  after_encode-IsSaved (err e) h w = failed refl
  after_encode-IsSaved (ok text) h none = after_write-IsSaved text h disk.rename_error
  after_encode-IsSaved (ok text) h (some (e, left)) = failed refl

  after_mkdir-IsSaved : (e : Option String) → IsSaved (after_mkdir disk e tokens dir)
  after_mkdir-IsSaved (some e) = failed refl
  after_mkdir-IsSaved none = after_encode-IsSaved (disk.encode tokens) refl disk.write_error

-- If the decoder reads back what the encoder writes, SaveTokens returns an error and keeps
-- tokens.json as it was, or returns none, and then LoadTokens, where it can read the file, returns
-- the tokens, and no temporary file is left.
pub save_tokens-IsSaved :
    (disk : Disk) (decodes : Decodes disk) (tokens : StoredTokens) (dir : StateDir)
    → IsSaved disk decodes tokens dir (save_tokens disk tokens dir)
unfolding save_tokens
save_tokens-IsSaved disk decodes tokens dir =
    after_mkdir-IsSaved disk decodes tokens dir disk.mkdir_error
