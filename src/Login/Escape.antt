-- ===== src/Login/Escape.antt =====
-- The escaped message of the login page.
use domain_ssl_checker.Base.{
  Text, Option, ℕ, if◌then◌else◌, some, ◌++◌, ◌∷◌, none, text_eq, [], ◌≡◌, ◌==◌, codes, sym, refl,
  any, append_assoc, ◌||◌, false, Bool-cases, arith, Bool, ◌∙◌, ap, inl, any-append, ==_iff, inr,
}
use domain_ssl_checker.Login.{safe_msg, replace_all}

-- A text of an element as a browser reads it: `&name;` for the four names that the escape writes.
-- `pending` is the name read so far.
abbrev pub entity : Text → Text
entity name =
    if text_eq name (codes "amp")
    then b'&' ∷ []
    else if text_eq name (codes "lt")
    then b'<' ∷ []
    else if text_eq name (codes "gt")
    then b'>' ∷ []
    else if text_eq name (codes "quot")
    then b'"' ∷ []
    else b'&' ∷ name ++ b';' ∷ []

abbrev pub read_entities : Option Text → Text → Text
read_entities none [] = []
read_entities (some name) [] = b'&' ∷ name
read_entities none (c ∷ cs) =
    let out = read_entities none cs in
    let started = read_entities (some []) cs in if c == b'&' then started else c ∷ out
read_entities (some name) (c ∷ cs) =
    let out = read_entities none cs in
    let longer = read_entities (some (name ++ c ∷ [])) cs in
    if c == b';' then entity name ++ out else longer

replace_all-append :
    (c : ℕ) (t xs ys : Text) → replace_all c t (xs ++ ys) ≡ replace_all c t xs ++ replace_all c t ys
replace_all-append c t [] ys = refl
replace_all-append c t (x ∷ xs) ys =
    rw (replace_all-append c t xs ys)
      (sym (append_assoc (if x == c then t else x ∷ []) (replace_all c t xs) (replace_all c t ys)))

safe_msg-append : (xs ys : Text) → safe_msg (xs ++ ys) ≡ safe_msg xs ++ safe_msg ys
unfolding safe_msg
safe_msg-append xs ys =
    rw (replace_all-append, replace_all-append, replace_all-append, replace_all-append) refl

-- The escape of one code unit.
abbrev pub safe_code : ℕ → Text
safe_code c =
    if c == b'&'
    then codes "&amp;"
    else if c == b'<'
    then codes "&lt;"
    else if c == b'>'
    then codes "&gt;"
    else if c == b'"'
    then codes "&quot;"
    else c ∷ []

-- A code unit is one of the four that are escaped, or none of them.
pub data Kind (c : ℕ) : Type 0 where
  amp : c ≡ 38 → Kind c
  lt : c ≡ 60 → Kind c
  gt : c ≡ 62 → Kind c
  quot : c ≡ 34 → Kind c
  plain : (c == 38) ≡ false → (c == 60) ≡ false → (c == 62) ≡ false → (c == 34) ≡ false → Kind c

Kind-cases : (c : ℕ) → Kind c
Kind-cases c = elim (Bool-cases (c == 38)) [
  | inl a ↦ amp ((==_iff c 38).0 a)
  | inr a ↦ elim (Bool-cases (c == 60)) [
    | inl b ↦ lt ((==_iff c 60).0 b)
    | inr b ↦ elim (Bool-cases (c == 62)) [
      | inl d ↦ gt ((==_iff c 62).0 d)
      | inr d ↦ elim (Bool-cases (c == 34)) [
        | inl e ↦ quot ((==_iff c 34).0 e)
        | inr e ↦ plain a b d e
      ]
    ]
  ]
]

safe_msg-one : (c : ℕ) → safe_msg (c ∷ []) ≡ safe_code c
unfolding safe_msg
safe_msg-one c = elim (Kind-cases c) [
  | amp e ↦ rw e refl
  | lt e ↦ rw e refl
  | gt e ↦ rw e refl
  | quot e ↦ rw e refl
  | plain a b d e ↦ rw a (rw b (rw d (rw e refl)))
]

read-safe_code :
    (c : ℕ) (s : Text) → read_entities none (safe_code c ++ s) ≡ c ∷ read_entities none s
read-safe_code c s = elim (Kind-cases c) [
  | amp e ↦ rw e refl
  | lt e ↦ rw e refl
  | gt e ↦ rw e refl
  | quot e ↦ rw e refl
  | plain a b d e ↦ ground arith
]

-- `<`, `>` and `"`
abbrev pub is_markup : ℕ → Bool
is_markup c = c == b'<' || c == b'>' || c == b'"'

no_markup : (c : ℕ) → any is_markup (safe_code c) ≡ false
no_markup c = elim (Kind-cases c) [
  | amp e ↦ rw e refl
  | lt e ↦ rw e refl
  | gt e ↦ rw e refl
  | quot e ↦ rw e refl
  | plain a b d e ↦ ground arith
]

safe_msg-cons : (c : ℕ) (cs : Text) → safe_msg (c ∷ cs) ≡ safe_code c ++ safe_msg cs
safe_msg-cons c cs = safe_msg-append (c ∷ []) cs ∙ rw (safe_msg-one c) refl

-- A browser that shows the escaped message shows the message, and the escaped message holds no
-- character that opens or closes a tag or a quoted value.
pub read-safe_msg :
    (msg : Text)
    → (read_entities none (safe_msg msg) ≡ msg) × (any is_markup (safe_msg msg) ≡ false)
unfolding safe_msg
read-safe_msg [] = (refl, refl)
read-safe_msg (c ∷ cs) =
    let rest = read-safe_msg cs in
    (
      ap (read_entities none) (safe_msg-cons c cs)
          ∙ read-safe_code c (safe_msg cs)
          ∙ ap (c ∷◌) rest.0,
      ap (any is_markup) (safe_msg-cons c cs)
          ∙ rw (any-append is_markup (safe_code c), no_markup c) rest.1,
    )
