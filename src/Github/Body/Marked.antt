-- ===== src/Github/Body/Marked.antt =====
-- A retrigger comment is known as our own, and its metadata cannot end the HTML comment that they
-- stand in.
use Prim.Native.Char.{Char, code}
use Prim.Native.String as Text
use rabbit_maximizer.Prelude.{
  ℕ, suc, ◌≤◌, ◌≡◌, refl, sym, ◌∙◌, String, Bool, true, false, Option, some, List, [], ◌∷◌, ◌++◌,
  ◌==◌, ==_iff, ◌&&◌, leb, Bool-cases, inl, inr, if-case, if◌then◌else◌, arith,
}
use rabbit_maximizer.Domain.{TriggerSource}
use rabbit_maximizer.Github.Urls.{◌⧺◌, after_prefix, includes, is_found}
use rabbit_maximizer.Github.Markers.{self_marker_prefix, has_own_retrigger_marker}
use rabbit_maximizer.Github.Body.{
  RetriggerDiagnosis, RunIdentity, join, escape_after, safe_json, json_comment, lead_lines,
  build_comment_body,
}

after_prefix-append : (p s : String) → after_prefix p (p ⧺ s) ≡ some s
unfolding after_prefix
after_prefix-append Text.[] s = refl
after_prefix-append (Text.◌∷◌ c p) s =
    let same : (code c == code c) ≡ true = (==_iff (code c) (code c)).1 refl in
    rw (same, after_prefix-append p s) refl

includes-found : (sub s : String) → is_found (after_prefix sub s) ≡ true → includes sub s ≡ true
unfolding includes
includes-found sub Text.[] h = h
includes-found sub (Text.◌∷◌ c s) h = rw h refl

includes-append : (sub a s : String) → includes sub s ≡ true → includes sub (a ⧺ s) ≡ true
unfolding includes
includes-append sub Text.[] s h = h
includes-append sub (Text.◌∷◌ c a) s h =
    if-case (λ b. b ≡ true) (is_found (after_prefix sub (Text.◌∷◌ c (a ⧺ s)))) true _ (λ e. refl)
      (λ e. includes-append sub a s h)

-- The last line is part of what the lines are joined to.
join-last :
    (sub sep : String) (xs : List String) (last : String)
    → includes sub last ≡ true
    → includes sub (join sep (xs ++ last ∷ [])) ≡ true
join-last sub sep [] last h = h
join-last sub sep (x ∷ []) last h =
    includes-append sub x (sep ⧺ last) (includes-append sub sep last h)
join-last sub sep (x ∷ y ∷ ys) last h =
    includes-append sub x (sep ⧺ join sep (y ∷ ys ++ last ∷ []))
      (includes-append sub sep (join sep (y ∷ ys ++ last ∷ [])) (join-last sub sep (y ∷ ys) last h))

-- An end of a comment, where so many dashes stand before the text.
closes : ℕ → String → Bool
closes dashes Text.[] = false
closes dashes (Text.◌∷◌ c s) =
    let more = closes (suc dashes) s in
    let rest = closes 0 s in
    if code c == b'-' then more else if code c == b'>' && leb 2 dashes then true else rest

closes-escape : (dashes : ℕ) (s : String) → closes dashes (escape_after dashes s) ≡ false
unfolding closes escape_after
closes-escape dashes Text.[] = refl
closes-escape dashes (Text.◌∷◌ c s) = elim (Bool-cases (code c == b'-')) [
  | inl e ↦ rw (e, e) (closes-escape (suc dashes) s)
  | inr e ↦ elim (Bool-cases (code c == b'>' && leb 2 dashes)) [
    | inl k ↦ rw (e, k) (closes-escape 0 s)
    | inr k ↦ rw (e, k, e, k) (closes-escape 0 s)
  ]
]

closes_mono : (m n : ℕ) (s : String) → m ≤ n → closes m s ≡ true → closes n s ≡ true
unfolding closes
closes_mono m n Text.[] le h = h
closes_mono m n (Text.◌∷◌ c s) le h = elim (Bool-cases (code c == b'-')) [
  | inl e ↦ rw e (closes_mono (suc m) (suc n) s (omega (arith, le)) (sym (rw e refl) ∙ h))
  | inr e ↦ elim (Bool-cases (code c == b'>' && leb 2 m)) [
    | inl k ↦ let k' : (code c == b'>' && leb 2 n) ≡ true = ground (arith, k, le) in rw (e, k') refl
    | inr k ↦
        let later : closes 0 s ≡ true = sym (rw (e, k) refl) ∙ h in
        rw e (
          if-case (λ b. b ≡ true) (code c == b'>' && leb 2 n) true (closes 0 s) (λ _. refl)
            (λ _. later))
  ]
]

found-cons :
    (d : Char) (p : String) (c : Char) (s : String)
    → is_found (after_prefix (Text.◌∷◌ d p) (Text.◌∷◌ c s)) ≡ true
    → ((code c == code d) ≡ true) × (is_found (after_prefix p s) ≡ true)
unfolding after_prefix
found-cons d p c s h = elim (Bool-cases (code d == code c)) [
  | inl e ↦ (ground (arith, e), sym (rw e refl) ∙ h)
  | inr e ↦ absurd (missed (sym (rw e refl) ∙ h))
]
  where
    missed : Path Bool false true → ⊥
    missed e = cc

-- A text that begins with the end of a comment closes it, whatever stands before.
closes-found :
    (dashes : ℕ) (s : String) → is_found (after_prefix "-->" s) ≡ true → closes dashes s ≡ true
unfolding closes after_prefix
closes-found dashes Text.[] h = absurd (missed h)
  where
    missed : Path Bool false true → ⊥
    missed e = cc
closes-found dashes (Text.◌∷◌ a Text.[]) h = absurd (missed (found-cons "-" "->" a Text.[] h).1)
  where
    missed : Path Bool false true → ⊥
    missed e = cc
closes-found dashes (Text.◌∷◌ a (Text.◌∷◌ b Text.[])) h =
    absurd
      (missed (found-cons "-" ">" b Text.[] (found-cons "-" "->" a (Text.◌∷◌ b Text.[]) h).1).1)
  where
    missed : Path Bool false true → ⊥
    missed e = cc
closes-found dashes (Text.◌∷◌ a (Text.◌∷◌ b (Text.◌∷◌ c s))) h =
    let x = found-cons "-" "->" a (Text.◌∷◌ b (Text.◌∷◌ c s)) h in
    let y = found-cons "-" ">" b (Text.◌∷◌ c s) x.1 in
    let z = found-cons ">" "" c s y.1 in
    let no : (code c == b'-') ≡ false = ground (arith, z.0) in
    let enough : (code c == b'>' && leb 2 (suc (suc dashes))) ≡ true = ground (arith, z.0) in
    rw (x.0, y.0, no, enough) refl

closes-includes : (s : String) → includes "-->" s ≡ true → closes 0 s ≡ true
unfolding includes closes
closes-includes Text.[] h = closes-found 0 Text.[] h
closes-includes (Text.◌∷◌ c s) h =
    elim (Bool-cases (is_found (after_prefix "-->" (Text.◌∷◌ c s)))) [
      | inl e ↦ closes-found 0 (Text.◌∷◌ c s) e
      | inr e ↦
          let later = closes-includes s (sym (rw e refl) ∙ h) in
          if-case (λ b. b ≡ true) (code c == b'-') (closes 1 s) _
            (λ _. closes_mono 0 1 s (omega arith) later)
            (λ _.
              if-case (λ b. b ≡ true) (code c == b'>' && leb 2 0) true (closes 0 s) (λ _. refl)
                (λ _. later))
    ]

safe_json-open : (raw_json : String) → includes "-->" (safe_json raw_json) ≡ false
unfolding safe_json
safe_json-open raw_json = elim (Bool-cases (includes "-->" (escape_after 0 raw_json))) [
  | inl e ↦
      absurd
        (disagree (sym (closes-escape 0 raw_json) ∙ closes-includes (escape_after 0 raw_json) e))
  | inr e ↦ e
]
  where
    disagree : Path Bool false true → ⊥
    disagree e = cc

json_comment-marked : (raw_json : String) → has_own_retrigger_marker (json_comment raw_json) ≡ true
unfolding has_own_retrigger_marker
json_comment-marked raw_json =
    let rest = "\n" ⧺ safe_json raw_json ⧺ "\n-->" in
    includes-found self_marker_prefix (self_marker_prefix ⧺ rest)
      (rw (after_prefix-append self_marker_prefix rest) refl)

-- Every body of a retrigger comment carries the marker by which the comment is known as our
-- own, and the metadata in it do not contain the end of the HTML comment that they stand in,
-- whatever their text.
pub build_comment_body-marked :
    (repo_url : String) (now : ℕ) (source_comment_url : Option String) (run_id : String)
    (trigger_source : TriggerSource) (diagnosis : Option RetriggerDiagnosis)
    (identity : RunIdentity) (raw_json : String)
    → (has_own_retrigger_marker (
          build_comment_body repo_url now source_comment_url run_id trigger_source diagnosis
            identity raw_json)
        ≡ true)
      × (includes "-->" (safe_json raw_json) ≡ false)
unfolding has_own_retrigger_marker build_comment_body
build_comment_body-marked repo_url now source_comment_url run_id trigger_source diagnosis identity
      raw_json =
    (
      join-last self_marker_prefix "\n"
          (lead_lines repo_url now source_comment_url run_id trigger_source diagnosis identity)
          (json_comment raw_json) (json_comment-marked raw_json),
      safe_json-open raw_json,
    )
