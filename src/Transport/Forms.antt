-- ===== src/Transport/Forms.antt =====
-- `url.Values`: the values of each key, in their order, as a list of pairs.
use slack_mcp_extender.Base.{
  String, ◌≡◌, ◌≢◌, refl, sym, ◌∙◌, false, Bool-cases, inl, inr, Option, none, some, List, [], ◌∷◌,
  if◌then◌else◌, ◌==◌, eq_refl, eq_iff, arith,
}

abbrev pub Form : Type 0
Form = List (String × String)

unfoldable pub find : String → Form → Option String
find key [] = none
find key ((k, v) ∷ form) = let rest = find key form in if k == key then some v else rest

-- `Get`, which has "" where there is no value.
abbrev pub text : Option String → String
text none = ""
text (some v) = v

unfoldable pub get : String → Form → String
unfolding find
get key form = text (find key form)

abbrev pub without : String → Form → Form
without key [] = []
without key ((k, v) ∷ form) =
    let rest = without key form in if k == key then rest else (k, v) ∷ rest

-- `Set`, which replaces every value of the key.
unfoldable pub set : String → String → Form → Form
set key value form = (key, value) ∷ without key form

pub find-set : (key value : String) (form : Form) → find key (set key value form) ≡ some value
unfolding find set
find-set key value form = rw (eq_refl key) refl

distinct : (k key : String) → k ≢ key → (k == key) ≡ false
distinct k key n = elim (Bool-cases (k == key)) [
  | inl t ↦ elim (n (ground (arith, eq_iff k key))) [ ]
  | inr f ↦ f
]

module _ (key k : String) (n : key ≢ k) where
  find-without : (form : Form) → find k (without key form) ≡ find k form
  unfolding find
  find-without [] = refl
  find-without ((j, v) ∷ form) = elim (Bool-cases (j == key)) [
    | inl t ↦
        rw (t, distinct j k (λ e. n (sym (ground (arith, eq_iff j key)) ∙ e))) (find-without form)
    | inr f ↦ rw (f, find-without form) refl
  ]

  pub find-set_other : (value : String) (form : Form) → find k (set key value form) ≡ find k form
  unfolding find set
  find-set_other value form = rw (distinct key k n) (find-without form)
