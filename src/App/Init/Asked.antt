-- ===== src/App/Init/Asked.antt =====
-- The loop that asks until there is an answer, on every input.
use slack_mcp_extender.Base.{
  ℕ, suc, ◌<◌, String, ◌≡◌, ◌≢◌, refl, ap, ◌∙◌, false, Bool-cases, inl, inr, List, [], ◌∷◌, ◌++◌,
  All, length, ◌==◌, eq_iff, arith,
}
use slack_mcp_extender.Base.Result.{err, ok}
use slack_mcp_extender.Transport.Stream.{trim_space}
use slack_mcp_extender.App.Init.{out_of_fuel, ask_until}

abbrev pub Blank : String → Type 0
Blank line = trim_space line ≡ ""

-- Whether and how the loop ends on the lines that are left.
pub data Ends (lines : List String) : Type 0 where
  never : All Blank lines → ((n : ℕ) → (ask_until n lines).0 ≡ err out_of_fuel) → Ends lines
  answered :
      (skipped : List String) (line : String) (rest : List String)
      → lines ≡ skipped ++ (line ∷ rest)
      → All Blank skipped
      → trim_space line ≢ ""
      → ((n : ℕ) → length skipped < n → ask_until n lines ≡ (ok (trim_space line), rest))
      → Ends lines

ask_until-zero : (lines : List String) → (ask_until 0 lines).0 ≡ err out_of_fuel
unfolding ask_until
ask_until-zero lines = refl

ask_until-nil : (n : ℕ) → (ask_until n []).0 ≡ err out_of_fuel
unfolding ask_until
ask_until-nil ℕ.zero = refl
ask_until-nil (suc n) = ask_until-nil n

module _ (line : String) (lines : List String) where
  ask_until-skips : (n : ℕ) → Blank line → ask_until (suc n) (line ∷ lines) ≡ ask_until n lines
  unfolding ask_until
  ask_until-skips n h = rw h refl

  ask_until-filled :
      (n : ℕ)
      → (trim_space line == "") ≡ false
      → ask_until (suc n) (line ∷ lines) ≡ (ok (trim_space line), lines)
  unfolding ask_until
  ask_until-filled n f = rw (f, f) refl

  after_blank : Blank line → Ends lines → Ends (line ∷ lines)
  after_blank blank (never all never_ends) = never (blank, all) more
    where
      more : (n : ℕ) → (ask_until n (line ∷ lines)).0 ≡ err out_of_fuel
      more ℕ.zero = ask_until-zero (line ∷ lines)
      more (suc n) = ap (λ o. o.0) (ask_until-skips n blank) ∙ never_ends n
  after_blank blank (answered skipped found rest split all filled ends) =
      answered (line ∷ skipped) found rest (ap (λ l. line ∷ l) split) (blank, all) filled more
    where
      more :
          (n : ℕ)
          → length (line ∷ skipped) < n
          → ask_until n (line ∷ lines) ≡ (ok (trim_space found), rest)
      more ℕ.zero h = ground arith
      more (suc n) h = ask_until-skips n blank ∙ ends n (omega (arith, h))

-- The loop that asks for the client id, or for the secret, ends exactly where a line of the input
-- that is left is not blank: after the blank ones before it, with that line, trimmed. Where all are
-- blank, or there are none, it does not end after any number of rounds.
pub ask_until-Ends : (lines : List String) → Ends lines
ask_until-Ends [] = never tt ask_until-nil
ask_until-Ends (line ∷ lines) = elim (Bool-cases (trim_space line == "")) [
  | inl t ↦
      after_blank line lines (ground (arith, eq_iff (trim_space line) "")) (ask_until-Ends lines)
  | inr f ↦
      answered [] line lines refl tt (λ e. ground (arith, eq_iff (trim_space line) "")) (more f)
]
  where
    more :
        (trim_space line == "") ≡ false
        → (n : ℕ) → 0 < n
        → ask_until n (line ∷ lines) ≡ (ok (trim_space line), lines)
    more f ℕ.zero h = ground arith
    more f (suc n) h = ask_until-filled line lines n f
