-- ===== src/Oauth/Callback/Checked.antt =====
-- Where a code that the login uses comes from.
use slack_mcp_extender.Base.{
  String, ◌≡◌, ◌≢◌, refl, ap, subst, not, each_branch, Option, none, some, List, [], ◌∷◌, ◌⊎◌, inl,
  inr, In, ◌==◌, eq_iff, arith,
}
use slack_mcp_extender.Base.Result.{Result, err, ok}
use slack_mcp_extender.Transport.Forms.{Form, get}
use slack_mcp_extender.Oauth.Callback.{
  Handled, Channels, no_signals, callback, first, put, arrivals, Selects, takes_code,
}

-- The query of a callback that grants a code: with the expected state, and without an error.
pub record Grants (expected : String) (query : Form) (code : String) : Type 0 where
  pub state : get "state" query ≡ expected
  pub no_error : get "error" query ≡ ""
  pub code_given : get "code" query ≡ code
  pub filled : code ≢ ""

abbrev value_of : Result String String → String
value_of (err e) = ""
value_of (ok v) = v

abbrev given : Option String → String
given none = ""
given (some v) = v

some_injective : {x y : String} → some x ≡ some y → x ≡ y
some_injective h = ap given h

module _ (escape : String → String) (expected : String) where
  abbrev Sound : Form → Handled → Type 0
  Sound query handled = (code : String) → handled.signal ≡ ok code → Grants expected query code

  callback-Sound : (query : Form) → Sound query (callback escape expected query)
  unfolding callback
  callback-Sound query =
      each_branch (Sound query) (not (get "state" query == expected)) (λ t code h. cc)
        (λ s.
          each_branch (Sound query) (not (get "error" query == "")) (λ t code h. cc)
            (λ e.
              each_branch (Sound query) (get "code" query == "") (λ t code h. cc)
                (λ c code h. subst (Grants expected query) (ap value_of h) (record {
                  state = ground (arith, eq_iff (get "state" query) expected);
                  no_error = ground (arith, eq_iff (get "error" query) "");
                  code_given = refl;
                  filled = λ n. ground (arith, eq_iff (get "code" query) "");
                }))))

  -- A code in the channel was there, or was granted by one of the queries.
  abbrev Comes : List Form → Option String → Option String → Type 0
  Comes queries before after =
      (code : String)
      → after ≡ some code
      → (before ≡ some code) ⊎ ((query : Form) × In query queries × Grants expected query code)

  put-Comes :
      (query : Form) (signal : Result String String) (channels : Channels)
      → ((code : String) → signal ≡ ok code → Grants expected query code)
      → Comes (query ∷ []) channels.code (put escape expected signal channels).code
  put-Comes query (err e) channels sound = λ code h. inl h
  put-Comes query (ok c) channels sound = by_room channels.code
    where
      by_room :
          (before : Option String) → Comes (query ∷ []) before (first escape expected before c)
      by_room none code h = inr (query, inl refl, sound code (ap ok (some_injective h)))
      by_room (some earlier) code h = inl h

  arrivals-Comes :
      (queries : List Form) (channels : Channels)
      → Comes queries channels.code (arrivals escape expected queries channels).code
  unfolding arrivals
  arrivals-Comes [] channels code h = inl h
  arrivals-Comes (query ∷ queries) channels code h =
      let signal = (callback escape expected query).signal in
      elim (arrivals-Comes queries (put escape expected signal channels) code h) [
        | inl before ↦ elim (put-Comes query signal channels (callback-Sound query) code before) [
          | inl earlier ↦ inl earlier
          | inr (q, inl same, grants) ↦ inr (q, inl same, grants)
          | inr (q, inr never, grants) ↦ elim never [ ]
        ]
        | inr (q, later, grants) ↦ inr (q, inr later, grants)
      ]

  -- Of whatever queries reach the callback, a code that the login takes is granted by one of them,
  -- which carries the state that the login made up and no error.
  pub selected-Grants :
      (timeout : String) (queries : List Form) (code : String)
      → Selects timeout (arrivals escape expected queries no_signals) (ok code)
      → (query : Form) × In query queries × Grants expected query code
  selected-Grants timeout queries code (takes_code h) =
      elim (arrivals-Comes queries no_signals code h) [ inl never ↦ cc | inr found ↦ found ]
