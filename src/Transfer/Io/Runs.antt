-- ===== src/Transfer/Io/Runs.antt =====
-- What a call of the client adds to the requests, with a rule for each way to build one.
use slack_mcp_extender.Base.{
  ◌≡◌, refl, sym, ap, subst, ◌∙◌, List, [], ◌++◌, append-nil, append_assoc,
}
use slack_mcp_extender.Base.Result.{Result, err, ok}
use slack_mcp_extender.Transfer.Types.{TransferError}
use slack_mcp_extender.Transfer.Io.{Request, Net, Outcome, Io, lift, next, ◌>>=◌}

-- A claim about the result of a call and the requests that it sends.
abbrev pub Claim : Type 0 → Type 1
Claim V = Result TransferError V → List Request → Type 0

pub record Ran {S V : Type 0} (Q : Claim V) (before : Net S) (outcome : Outcome S V) : Type 0 where
  pub added : List Request
  pub extends : outcome.1.requests ≡ before.requests ++ added
  pub holds : Q outcome.0 added

abbrev pub Runs : {S V : Type 0} → Claim V → Io S V → Type 0
Runs Q m = (net : _) → Ran Q net (m net)

pub lift-Runs :
    {S V : Type 0} (Q : Claim V) (r : Result TransferError V) → Q r [] → Runs {S = S} Q (lift r)
lift-Runs Q r q net = record { added = []; extends = sym (append-nil _); holds = q }

module _ {S V W : Type 0} where
  module _ (Q : Claim V) (R : V → Claim W) (T : Claim W)
      (stops : (e : TransferError) (xs : List Request) → Q (err e) xs → T (err e) xs)
      (goes_on : (v : V) (r : Result TransferError W) (xs ys : List Request)
        → Q (ok v) xs
        → R v r ys
        → T r (xs ++ ys)) where
    after :
        (net : Net S) (outcome : Outcome S V) (f : V → Io S W)
        → Ran Q net outcome
        → ((v : V) → Runs (R v) (f v))
        → Ran T net (next f outcome)
    after net (err e, net') f ran k = record {
      added = ran.added;
      extends = ran.extends;
      holds = stops e ran.added ran.holds;
    }
    after net (ok v, net') f ran k =
        let more = k v net' in
        record {
          added = ran.added ++ more.added;
          extends =
              more.extends
              ∙ (ap (λ l. l ++ more.added) ran.extends
                  ∙ append_assoc net.requests ran.added more.added);
          holds = goes_on v (f v net').0 ran.added more.added ran.holds more.holds;
        }

    pub >>=-Runs :
        (m : Io S V) (f : V → Io S W) → Runs Q m → ((v : V) → Runs (R v) (f v)) → Runs T (m >>= f)
    >>=-Runs m f q k net = after net (m net) f (q net) k

-- No request is sent.
abbrev pub Silent : {V : Type 0} → Claim V
Silent r xs = xs ≡ []

lift-Silent : {S V : Type 0} (r : Result TransferError V) → Runs {S = S} Silent (lift r)
lift-Silent r = lift-Runs Silent r refl

-- A silent step before the others.
after_silent :
    {S V W : Type 0} (T : Claim W) (m : Io S V) (f : V → Io S W)
    → ((e : TransferError) → T (err e) [])
    → Runs Silent m
    → ((v : V) → Runs T (f v))
    → Runs T (m >>= f)
after_silent T m f stops =
    >>=-Runs Silent (λ v. T) T (λ e xs h. subst (T (err e)) (sym h) (stops e))
      (λ v r xs ys h t. subst (λ l. T r (l ++ ys)) (sym h) t) m f

-- A check before the others.
pub after_check :
    {S V W : Type 0} (T : Claim W) (r : Result TransferError V) (f : V → Io S W)
    → ((e : TransferError) → T (err e) [])
    → ((v : V) → Runs T (f v))
    → Runs T (lift r >>= f)
after_check T r f stops = after_silent T (lift r) f stops (lift-Silent r)

-- A check before the others, whose outcome tells why it stops.
pub after_check_with :
    {S V W : Type 0} (T : Claim W) (r : Result TransferError V) (f : V → Io S W)
    → ((e : TransferError) → r ≡ err e → T (err e) [])
    → ((v : V) → Runs T (f v))
    → Runs T (lift r >>= f)
after_check_with T (err e) f stops goes_on net = record {
  added = [];
  extends = sym (append-nil _);
  holds = stops e refl;
}
after_check_with T (ok v) f stops goes_on net = goes_on v net

-- The result is built after the last request.
pub then_return :
    {S V W : Type 0} (Q : Claim V) (T : Claim W) (w : W) (m : Io S V)
    → ((e : TransferError) (xs : List Request) → Q (err e) xs → T (err e) xs)
    → ((v : V) (xs : List Request) → Q (ok v) xs → T (ok w) xs)
    → Runs Q m
    → Runs T (m >>= λ _. lift (ok w))
then_return Q T w m stops returns q =
    >>=-Runs Q (λ v r ys. (r ≡ ok w) × (ys ≡ [])) T stops
      (λ v r xs ys h k.
        subst (λ l. T r l) (sym (ap (λ l. xs ++ l) k.1 ∙ append-nil xs))
          (subst (λ r. T r xs) (sym k.0) (returns v xs h)))
      m (λ _. lift (ok w)) q
      (λ v net. record { added = []; extends = sym (append-nil _); holds = (refl, refl) })
