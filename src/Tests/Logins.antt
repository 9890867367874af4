-- ===== src/Tests/Logins.antt =====
-- A login whose first callback does not carry its state, and the saving of its tokens.
use slack_mcp_extender.Base.{
  String, ◌≡◌, refl, sym, ap, Bool, true, false, ◌&&◌, Option, none, some, List, [], ◌∷◌, In,
  if◌then◌else◌, ◌==◌, eqb, eq_iff, arith,
}
use slack_mcp_extender.Base.Int.{ℤ, pos, negsuc}
use slack_mcp_extender.Base.Result.{Result, ok, err}
use slack_mcp_extender.Transport.Forms.{Form}
use slack_mcp_extender.Transport.Tokenfile.{StoredTokens, StateDir, Disk, save_tokens}
use slack_mcp_extender.Transport.Tokenfile.Saved.{Decodes, IsSaved, save_tokens-IsSaved}
use slack_mcp_extender.Oauth.Callback.{
  Channels, arrivals, Selects, takes_code, takes_error, times_out,
}
use slack_mcp_extender.Oauth.Callback.Checked.{Grants, selected-Grants}
use slack_mcp_extender.Oauth.Login.{Browser, login}
use slack_mcp_extender.Oauth.Login.Bound.{Picks, IsBound, login-IsBound}
use slack_mcp_extender.Oauth.Login.Stored.{Starts, login-Starts}
use slack_mcp_extender.Tests.Tokens.{endpoint}
use slack_mcp_extender.Tests.Settings.{system, loaded}

-- A disk that writes one set of tokens.
abbrev tokens : StoredTokens
tokens = record {
  access_token = "new";
  refresh_token = "";
  token_type = "user";
  expires_at = pos 560;
}

abbrev is_560 : ℤ → Bool
is_560 (pos n) = eqb n 560
is_560 (negsuc n) = false

abbrev same : StoredTokens → Bool
same t =
    t.access_token == "new"
    && (t.refresh_token == "" && (t.token_type == "user" && is_560 t.expires_at))

abbrev encoded : Bool → Result String String
encoded b = if b then ok "{}" else err "not these"

abbrev disk : Disk
disk = record {
  encode = λ t. encoded (same t);
  decode = λ text. ok tokens;
  missing = "no such file or directory";
  read_error = none;
  mkdir_error = none;
  write_error = none;
  rename_error = none;
}

is_560-pos : (z : ℤ) → is_560 z ≡ true → z ≡ pos 560
is_560-pos (pos n) h = ap pos (ground arith)
is_560-pos (negsuc n) h = ground arith

four :
    (a b c d : Bool)
    → (a && (b && (c && d))) ≡ true
    → (a ≡ true) × (b ≡ true) × (c ≡ true) × (d ≡ true)
four true true true true h = (refl, refl, refl, refl)
four true true true false h = ground arith
four true true false d h = ground arith
four true false c d h = ground arith
four false b c d h = ground arith

same-tokens : (t : StoredTokens) → same t ≡ true → t ≡ tokens
same-tokens t h =
    let (a, r, y, e) =
      four (t.access_token == "new") (t.refresh_token == "") (t.token_type == "user")
        (is_560 t.expires_at) h in
    let a' : t.access_token ≡ "new" = ground (arith, eq_iff t.access_token "new") in
    let r' : t.refresh_token ≡ "" = ground (arith, eq_iff t.refresh_token "") in
    let y' : t.token_type ≡ "user" = ground (arith, eq_iff t.token_type "user") in
    let e' = is_560-pos t.expires_at e in
    λ i. record { access_token = a' i; refresh_token = r' i; token_type = y' i; expires_at = e' i }

abbrev kept : StoredTokens → Result String StoredTokens
kept t = ok t

decodes :
    (b : Bool) (t : StoredTokens) (text : String)
    → (b ≡ true → t ≡ tokens)
    → encoded b ≡ ok text
    → kept tokens ≡ kept t
decodes true t text k h = ap kept (sym (k refl))
decodes false t text k h = cc

disk-Decodes : Decodes disk
disk-Decodes t text h = decodes (same t) t text (same-tokens t) h

abbrev dir : StateDir
dir = record { stored = some "old"; temporary = none }

saves_tokens : save_tokens disk tokens dir ≡ (none, record dir { stored = some "{}" })
unfolding save_tokens
saves_tokens = refl

save_tokens-IsSaved_example : IsSaved disk disk-Decodes tokens dir (save_tokens disk tokens dir)
save_tokens-IsSaved_example = save_tokens-IsSaved disk disk-Decodes tokens dir

-- A request that is forged, and the one that is not.
abbrev queries : List Form
queries =
    (("state", "guess") ∷ ("code", "stolen") ∷ []) ∷ (("code", "c1") ∷ ("state", "s1") ∷ []) ∷ []

abbrev selects : Channels → Result String String
selects channels = elim channels.code [
  | some code ↦ ok code
  | none ↦ elim channels.error [ some e ↦ err e | none ↦ err "authorization timed out (5m0s)" ]
]

abbrev browser : Browser
browser = record {
  listen = λ port. ok 7777;
  decimal_port = λ port. "7777";
  cert_error = none;
  verifier = ok "v1";
  state = ok "s1";
  challenge = λ verifier. "hash";
  query_of_url = λ url. ok (("state", "fixed") ∷ []);
  escape = λ text. text;
  callbacks = λ params. queries;
  select = selects;
}

by_channels :
    (code error : Option String)
    → Selects "5m0s"
        (record { code = code; error = error })
        (selects (record { code = code; error = error }))
by_channels (some code) error = takes_code refl
by_channels none (some e) = takes_error refl
by_channels none none = times_out

browser-Picks : Picks "5m0s" browser
browser-Picks channels = by_channels channels.code channels.error

logs_in : (login system browser endpoint disk 500 loaded.oauth dir).1.stored ≡ some "{}"
unfolding login
logs_in = refl

login-IsBound_example :
    IsBound "5m0s" system browser browser-Picks endpoint disk 500 loaded.oauth dir
      (login system browser endpoint disk 500 loaded.oauth dir)
login-IsBound_example =
    login-IsBound "5m0s" system browser browser-Picks endpoint disk 500 loaded.oauth dir

selected-Grants_example : (query : Form) × In query queries × Grants "s1" query "c1"
unfolding arrivals
selected-Grants_example = selected-Grants (λ text. text) "s1" "5m0s" queries "c1" (takes_code refl)

abbrev after : StateDir
after = record { stored = some "{}"; temporary = none }

login_succeeds : login system browser endpoint disk 500 loaded.oauth dir ≡ (ok tt, after)
unfolding login
login_succeeds = refl

login-Starts_example : Starts disk after
login-Starts_example =
    login-Starts "5m0s" system browser browser-Picks endpoint disk 500 loaded.oauth disk-Decodes
      refl dir after login_succeeds
