-- ===== src/Github/CommentUrl/Built.antt =====
-- The URL that is built for a comment is read back.
use Prim.Native.Char.{Char, code}
use Prim.Native.String as Text
use rabbit_maximizer.Prelude.{
  ℕ, zero, suc, ◌+◌, ◌*◌, ◌-◌, ◌/◌, ◌%◌, ◌≤◌, ◌<◌, ◌≡◌, refl, sym, ap, ◌∙◌, subst, String, Bool,
  true, false, Option, none, some, List, [], ◌∷◌, ◌++◌, ◌==◌, ltb, str_eq, Bool-cases, inl, inr,
  arith,
}
use rabbit_maximizer.Github.Text.{RepoName, named, split_on, split_repo}
use rabbit_maximizer.Github.Urls.{
  ◌⧺◌, after_prefix, digit, decimal, decimal_with, build_comment_url,
}
use rabbit_maximizer.Github.CommentUrl.{
  is_digit, starts_digit, digits_value, parse_digits, skip_digits, comment_number,
  parse_comment_url,
}

-- A text of digits is read to its value, and begins with one of them.
abbrev IsNumeral : ℕ → ℕ → String → Type 0
IsNumeral k n s = (digits_value k s ≡ some n) × (starts_digit s ≡ true)

digit-IsNumeral : (k d : ℕ) → d < 10 → IsNumeral k (k * 10 + d) (digit d)
unfolding digits_value
digit-IsNumeral k zero h = (refl, refl)
digit-IsNumeral k (suc zero) h = (refl, refl)
digit-IsNumeral k (suc (suc zero)) h = (refl, refl)
digit-IsNumeral k (suc (suc (suc zero))) h = (refl, refl)
digit-IsNumeral k (suc (suc (suc (suc zero)))) h = (refl, refl)
digit-IsNumeral k (suc (suc (suc (suc (suc zero))))) h = (refl, refl)
digit-IsNumeral k (suc (suc (suc (suc (suc (suc zero)))))) h = (refl, refl)
digit-IsNumeral k (suc (suc (suc (suc (suc (suc (suc zero))))))) h = (refl, refl)
digit-IsNumeral k (suc (suc (suc (suc (suc (suc (suc (suc zero)))))))) h = (refl, refl)
digit-IsNumeral k (suc (suc (suc (suc (suc (suc (suc (suc (suc zero))))))))) h = (refl, refl)
digit-IsNumeral k (suc (suc (suc (suc (suc (suc (suc (suc (suc (suc n)))))))))) h =
    absurd (ground arith)

module _ (c : Char) (s : String) where
  digits-cons :
      (k n : ℕ)
      → digits_value k (Text.◌∷◌ c s) ≡ some n
      → (is_digit c ≡ true) × (digits_value (k * 10 + (code c - 48)) s ≡ some n)
  unfolding digits_value
  digits-cons k n h = elim (Bool-cases (is_digit c)) [
    | inl e ↦ (e, sym (rw e refl) ∙ h)
    | inr e ↦ absurd (missed (sym (rw e refl) ∙ h))
  ]
    where
      missed : Path (Option ℕ) none (some n) → ⊥
      missed e = cc

digits-append :
    (a b : String) (k n : ℕ) → digits_value k a ≡ some n → digits_value k (a ⧺ b) ≡ digits_value n b
unfolding digits_value
digits-append Text.[] b k n h = ap (λ z. digits_value z b) (some-value h)
  where
    some-value : some k ≡ some n → k ≡ n
    some-value e = cc
digits-append (Text.◌∷◌ c a) b k n h =
    let x = digits-cons c a k n h in rw x.0 (digits-append a b _ n x.1)

starts-append : (a b : String) → starts_digit a ≡ true → starts_digit (a ⧺ b) ≡ true
starts-append Text.[] b h = absurd (missed h)
  where
    missed : Path Bool false true → ⊥
    missed e = cc
starts-append (Text.◌∷◌ c a) b h = h

skip-append :
    (a b : String) (k n : ℕ)
    → digits_value k a ≡ some n
    → skip_digits b ≡ b
    → skip_digits (a ⧺ b) ≡ b
unfolding skip_digits digits_value
skip-append Text.[] b k n h e = e
skip-append (Text.◌∷◌ c a) b k n h e =
    let x = digits-cons c a k n h in rw x.0 (skip-append a b _ n x.1 e)

-- No slash stands among digits.
split-digits :
    (a b : String) (k n : ℕ)
    → digits_value k a ≡ some n
    → split_on b'/' b ≡ b ∷ []
    → split_on b'/' (a ⧺ b) ≡ (a ⧺ b) ∷ []
unfolding split_on digits_value
split-digits Text.[] b k n h e = e
split-digits (Text.◌∷◌ c a) b k n h e =
    let x = digits-cons c a k n h in
    let d = x.0 in
    let no : (code c == b'/') ≡ false = ground (arith, d) in
    rw (no, split-digits a b _ n x.1 e) refl

decimal-IsNumeral : (turns n : ℕ) → n < turns → IsNumeral 0 n (decimal_with turns n)
unfolding decimal_with
decimal-IsNumeral zero n h = absurd (ground arith)
decimal-IsNumeral (suc turns) n h = elim (Bool-cases (ltb n 10)) [
  | inl e ↦
      let last = digit-IsNumeral 0 n (ground (arith, e)) in
      let same : 0 * 10 + n ≡ n = omega arith in rw e (last.0 ∙ ap some same, last.1)
  | inr e ↦
      let big : 10 ≤ n = ground (arith, e) in
      let less : n / 10 < turns = omega (arith, big, h) in
      let low : n % 10 < 10 = omega arith in
      let whole : n / 10 * 10 + n % 10 ≡ n = omega arith in
      let rest = decimal-IsNumeral turns (n / 10) less in
      let last = digit-IsNumeral (n / 10) (n % 10) low in
      let lead = decimal_with turns (n / 10) in
      rw e (
        digits-append lead (digit (n % 10)) 0 (n / 10) rest.0 ∙ last.0 ∙ ap some whole,
        starts-append lead (digit (n % 10)) rest.1,
      )
]

-- A text has a part, whatever the separator.
split-cons : (sep : ℕ) (s : String) → (x : String) × (xs : List String) × (split_on sep s ≡ x ∷ xs)
unfolding split_on
split-cons sep Text.[] = (Text.[], [], refl)
split-cons sep (Text.◌∷◌ c s) =
    let rest = split-cons sep s in
    elim (Bool-cases (code c == sep)) [
      | inl e ↦ (Text.[], split_on sep s, rw e refl)
      | inr e ↦ (Text.◌∷◌ c rest.0, rest.1, rw (e, rest.2) refl)
    ]

split-append : (a b : String) → split_on b'/' (a ⧺ "/" ⧺ b) ≡ split_on b'/' a ++ split_on b'/' b
unfolding split_on
split-append Text.[] b = refl
split-append (Text.◌∷◌ c a) b = elim (Bool-cases (code c == b'/')) [
  | inl e ↦ rw (e, split-append a b) refl
  | inr e ↦ let first = split-cons b'/' a in rw (e, split-append a b, first.2) refl
]

-- A text that is one name has two parts, of which none is empty.
abbrev IsParts : List String → RepoName → Type 0
IsParts parts name =
    (parts ≡ name.owner ∷ name.repo ∷ [])
    × (str_eq name.owner "" ≡ false)
    × (str_eq name.repo "" ≡ false)

missed_name : {name : RepoName} → none ≡ some name → ⊥
missed_name e = cc

named-IsParts :
    (parts : List String) (name : RepoName) → named parts ≡ some name → IsParts parts name
named-IsParts [] name h = absurd (missed_name h)
named-IsParts (x ∷ []) name h = absurd (missed_name h)
named-IsParts (x ∷ y ∷ z ∷ zs) name h = absurd (missed_name h)
named-IsParts (x ∷ y ∷ []) name h = elim (Bool-cases (str_eq x "")) [
  | inl e ↦ absurd (missed_name (sym (rw e refl) ∙ h))
  | inr e ↦ elim (Bool-cases (str_eq y "")) [
    | inl e' ↦ absurd (missed_name (sym (rw (e, e') refl) ∙ h))
    | inr e' ↦
        let found : some (record { owner = x; repo = y }) ≡ some name = sym (rw (e, e') refl) ∙ h in
        subst (IsParts (x ∷ y ∷ [])) (name-same found) (refl, e, e')
  ]
]
  where
    name-same :
        some (record { owner = x; repo = y }) ≡ some name → record { owner = x; repo = y } ≡ name
    name-same e = cc

comment_number-built :
    (pr id : ℕ) → comment_number (decimal pr ⧺ "#issuecomment-" ⧺ decimal id) ≡ some id
unfolding comment_number parse_digits decimal skip_digits after_prefix
comment_number-built pr id =
    let p = decimal-IsNumeral (suc pr) pr (omega arith) in
    let i = decimal-IsNumeral (suc id) id (omega arith) in
    let tail = "#issuecomment-" ⧺ decimal id in
    let starts = starts-append (decimal pr) tail p.1 in
    let skipped = skip-append (decimal pr) tail 0 pr p.0 refl in rw (starts, skipped, i.1) i.0

append_empty : (s : String) → s ⧺ "" ≡ s
append_empty Text.[] = refl
append_empty (Text.◌∷◌ c s) = ap (λ z. Text.◌∷◌ c z) (append_empty s)

number-split :
    (pr id : ℕ)
    → split_on b'/' (decimal pr ⧺ "#issuecomment-" ⧺ decimal id)
      ≡ (decimal pr ⧺ "#issuecomment-" ⧺ decimal id) ∷ []
unfolding decimal split_on
number-split pr id =
    let p = decimal-IsNumeral (suc pr) pr (omega arith) in
    let i = decimal-IsNumeral (suc id) id (omega arith) in
    let whole : split_on b'/' (decimal id) ≡ decimal id ∷ [] =
      subst (λ z. split_on b'/' z ≡ z ∷ []) (append_empty (decimal id))
        (split-digits (decimal id) "" 0 id i.0 refl) in
    split-digits (decimal pr) ("#issuecomment-" ⧺ decimal id) 0 pr p.0 (rw whole refl)

-- The URL that is built for a comment of a pull request is parsed to the owner and the
-- repository that the name splits into and to the number of the comment.
pub parse_comment_url-build_comment_url :
    (full_name : String) (name : RepoName) (pr id : ℕ)
    → split_repo full_name ≡ some name
    → parse_comment_url (build_comment_url full_name pr id)
      ≡ some (record { owner = name.owner; repo = name.repo; comment_id = id })
unfolding parse_comment_url build_comment_url split_repo split_on
parse_comment_url-build_comment_url full_name name pr id h =
    let parts = named-IsParts (split_on b'/' full_name) name h in
    let rest = decimal pr ⧺ "#issuecomment-" ⧺ decimal id in
    let path = full_name ⧺ "/pull/" ⧺ rest in
    let split : split_on b'/' path ≡ name.owner ∷ name.repo ∷ "pull" ∷ rest ∷ [] =
      split-append full_name ("pull/" ⧺ rest)
      ∙ rw (parts.0, split-append "pull" rest, number-split pr id) refl in
    rw (split, parts.1, parts.2, comment_number-built pr id) refl
