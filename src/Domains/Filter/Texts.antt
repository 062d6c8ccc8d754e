-- ===== src/Domains/Filter/Texts.antt =====
-- The searches of `getFilteredDomains` in texts, described without a program: a text that stands within
-- another one, and the last two parts of a name with dots.
use mathlib.Core.Path.{subst}
use domain_ssl_checker.Domains.Filter.{tld_of, tld_of_parts, found_is, last_two}
use domain_ssl_checker.Base.{
  Text, List, ℕ, some, ◌≡◌, ◌++◌, ◌∷◌, [], refl, ap, sym, ◌∙◌, true, false, arith, is_prefix,
  includes, and_true, ==_iff, ==-self, Bool-cases, inl, inr, ◌⊎◌, ◌==◌, any, split, split_cons,
  join, codes, All, ltb, length, drop, ◌-◌, ◌+◌, text_eq, text_eq_iff, text_eq_self, split-last,
  append_assoc,
}

-- `q` stands somewhere in `t`.
abbrev pub Within : Text → Text → Type 0
Within q t = (pre : Text) × (post : Text) × (t ≡ pre ++ (q ++ post))

is_prefix_sound : (q t : Text) → is_prefix q t ≡ true → (post : Text) × (t ≡ q ++ post)
is_prefix_sound [] t h = (t, refl)
is_prefix_sound (x ∷ xs) [] h = absurd (ground (arith, h))
is_prefix_sound (x ∷ xs) (y ∷ ys) h =
    let (same, rest) = and_true (x == y) _ h in
    let (post, e) = is_prefix_sound xs ys rest in
    (post, ap (◌∷ ys) (sym ((==_iff x y).0 same)) ∙ ap (x ∷◌) e)

is_prefix-append : (q post : Text) → is_prefix q (q ++ post) ≡ true
is_prefix-append [] post = refl
is_prefix-append (x ∷ xs) post = rw (==-self x) (is_prefix-append xs post)

pub includes-Within : (t q : Text) → includes t q ≡ true → Within q t
includes-Within [] q h = let (post, e) = is_prefix_sound q [] h in ([], post, e)
includes-Within (x ∷ t) q h = elim (Bool-cases (is_prefix q (x ∷ t))) [
  | inl first ↦ let (post, e) = is_prefix_sound q (x ∷ t) first in ([], post, e)
  | inr later ↦
      let (pre, post, e) = includes-Within t q (ground arith) in (x ∷ pre, post, ap (x ∷◌) e)
]

includes-at : (pre q post : Text) → includes (pre ++ (q ++ post)) q ≡ true
includes-at [] [] [] = refl
includes-at [] [] (y ∷ post) = refl
includes-at [] (x ∷ q) post = rw (is_prefix-append (x ∷ q) post) refl
includes-at (x ∷ pre) q post = rw (includes-at pre q post) (ground arith)

pub Within-includes : (t q : Text) → Within q t → includes t q ≡ true
Within-includes t q (pre, post, e) = ap (λ u. includes u q) e ∙ includes-at pre q post

-- No dot stands in `t`.
abbrev pub NoDot : Text → Type 0
NoDot t = any (λ c. c == b'.') t ≡ false

-- The ending: a dot and the last two parts of a name, or all of a name of two parts.
pub record HasEnding (tld url : Text) : Type 0 where
  pub a : Text
  pub b : Text
  pub plain : NoDot a × NoDot b
  pub ending : tld ≡ b'.' ∷ (a ++ b'.' ∷ b)
  pub ends : (url ≡ a ++ b'.' ∷ b) ⊎ ((pre : Text) × (url ≡ pre ++ b'.' ∷ (a ++ b'.' ∷ b)))

-- A first part and the others
parts_of : (t : Text) → (p : Text) × (ps : List Text) × (split b'.' t ≡ p ∷ ps)
parts_of [] = ([], [], refl)
parts_of (x ∷ t) =
    let (p, ps, e) = parts_of t in
    elim (Bool-cases (x == b'.')) [
      | inl dot ↦ ([], split b'.' t, rw dot refl)
      | inr plain ↦ (x ∷ p, ps, rw (plain, e) refl)
    ]

split-cat : (pre rest : Text) → split b'.' (pre ++ b'.' ∷ rest) ≡ split b'.' pre ++ split b'.' rest
split-cat [] rest = refl
split-cat (x ∷ pre) rest =
    let (p, ps, e) = parts_of pre in
    elim (Bool-cases (x == b'.')) [
      | inl dot ↦ rw dot (ap ([] ∷◌) (split-cat pre rest))
      | inr plain ↦ rw plain (ap (split_cons x) (split-cat pre rest) ∙ rw e refl)
    ]

join_cons :
    (x : ℕ) (p : Text) (ps : List Text)
    → join (codes ".") ((x ∷ p) ∷ ps) ≡ x ∷ join (codes ".") (p ∷ ps)
join_cons x p [] = refl
join_cons x p (q ∷ ps) = refl

join_first :
    (p : Text) (ps : List Text) → join (codes ".") ([] ∷ p ∷ ps) ≡ b'.' ∷ join (codes ".") (p ∷ ps)
join_first p ps = refl

join-split : (t : Text) → join (codes ".") (split b'.' t) ≡ t
join-split [] = refl
join-split (x ∷ t) =
    let (p, ps, e) = parts_of t in
    elim (Bool-cases (x == b'.')) [
      | inl dot ↦ rw dot (
          ap (λ l. join (codes ".") ([] ∷ l)) e
          ∙ ap (b'.' ∷◌) (sym (ap (join (codes ".")) e) ∙ join-split t)
          ∙ ap (λ c. c ∷ t) (sym ((==_iff x b'.').0 dot)))
      | inr plain ↦ rw plain (
          ap (λ l. join (codes ".") (split_cons x l)) e
          ∙ join_cons x p ps
          ∙ ap (x ∷◌) (sym (ap (join (codes ".")) e) ∙ join-split t))
    ]

cons_NoDot :
    (x : ℕ) (ps : List Text) → (x == b'.') ≡ false → All NoDot ps → All NoDot (split_cons x ps)
cons_NoDot x [] h n = (rw h refl, tt)
cons_NoDot x (p ∷ ps) h n = (rw h n.0, n.1)

split-NoDot : (t : Text) → All NoDot (split b'.' t)
split-NoDot [] = (refl, tt)
split-NoDot (x ∷ t) = elim (Bool-cases (x == b'.')) [
  | inl dot ↦ rw dot (refl, split-NoDot t)
  | inr plain ↦ rw plain (cons_NoDot x (split b'.' t) plain (split-NoDot t))
]

length_two : (xs : List Text) (a b : Text) → length (xs ++ a ∷ b ∷ []) ≡ length xs + 2
length_two [] a b = refl
length_two (x ∷ xs) a b = let rest = length_two xs a b in omega arith

drop_front : (xs ys : List Text) → drop (length xs) (xs ++ ys) ≡ ys
drop_front [] ys = refl
drop_front (x ∷ xs) ys = drop_front xs ys

glue : (x t : Text) → (x ++ b'.' ∷ []) ++ t ≡ x ++ b'.' ∷ t
glue x t = append_assoc x (b'.' ∷ []) t

-- The last two of a list
last_two-append : (xs : List Text) (a b : Text) → last_two (xs ++ a ∷ b ∷ []) ≡ a ∷ b ∷ []
last_two-append xs a b =
    let size : length (xs ++ a ∷ b ∷ []) - 2 ≡ length xs = rw (length_two xs a b) (omega arith) in
    ap (λ n. drop n (xs ++ a ∷ b ∷ [])) size ∙ drop_front xs (a ∷ b ∷ [])

-- A list of two or more
ends_in_two :
    (a b : Text) (xs : List Text)
    → (front : List Text) × (y : Text) × (z : Text) × (a ∷ b ∷ xs ≡ front ++ y ∷ z ∷ [])
ends_in_two a b [] = ([], a, b, refl)
ends_in_two a b (c ∷ xs) =
    let (front, y, z, e) = ends_in_two b c xs in (a ∷ front, y, z, ap (a ∷◌) e)

All-last : (front : List Text) (y z : Text) → All NoDot (front ++ y ∷ z ∷ []) → NoDot y × NoDot z
All-last [] y z h = (h.0, h.1.0)
All-last (x ∷ front) y z h = All-last front y z h.1

join_front :
    (x : Text) (front : List Text) (y z : Text)
    → (pre : Text) × (join (codes ".") ((x ∷ front) ++ y ∷ z ∷ []) ≡ pre ++ b'.' ∷ (y ++ b'.' ∷ z))
join_front x [] y z = (x, glue x _ ∙ ap (λ u. x ++ b'.' ∷ u) (glue y z))
join_front x (w ∷ front) y z =
    let (pre, e) = join_front w front y z in
    (
      x ++ b'.' ∷ pre,
      glue x _
          ∙ ap (λ u. x ++ b'.' ∷ u) e
          ∙ sym (append_assoc x (b'.' ∷ pre) (b'.' ∷ (y ++ b'.' ∷ z))),
    )

tld_two :
    (xs : List Text) (a b : Text) → tld_of_parts (xs ++ a ∷ b ∷ []) ≡ some (b'.' ∷ (a ++ b'.' ∷ b))
tld_two xs a b =
    let long : ltb 1 (length (xs ++ a ∷ b ∷ [])) ≡ true = rw (length_two xs a b) (ground arith) in
    rw (long, last_two-append xs a b) (ap (λ t. some (b'.' ∷ t)) (glue a b))

-- A name of two or more parts ends as its parts do.
ends_as :
    (url : Text) (front : List Text) (a b : Text)
    → split b'.' url ≡ front ++ a ∷ b ∷ []
    → (url ≡ a ++ b'.' ∷ b) ⊎ ((pre : Text) × (url ≡ pre ++ b'.' ∷ (a ++ b'.' ∷ b)))
ends_as url [] a b e = inl (sym (join-split url) ∙ ap (join (codes ".")) e ∙ glue a b)
ends_as url (x ∷ front) a b e =
    let (pre, j) = join_front x front a b in
    inr (pre, sym (join-split url) ∙ ap (join (codes ".")) e ∙ j)

ending_of :
    (url tld : Text) (front : List Text) (a b : Text)
    → split b'.' url ≡ front ++ a ∷ b ∷ []
    → found_is (tld_of url) tld ≡ true
    → HasEnding tld url
unfolding tld_of
ending_of url tld front a b e h =
    let shown : tld_of_parts (split b'.' url) ≡ some (b'.' ∷ (a ++ b'.' ∷ b)) =
      ap tld_of_parts e ∙ tld_two front a b in
    let same : text_eq (b'.' ∷ (a ++ b'.' ∷ b)) tld ≡ true =
      sym (ap (λ o. found_is o tld) shown) ∙ h in
    record {
      a = a;
      b = b;
      plain = All-last front a b (subst (λ l. All NoDot l) e (split-NoDot url));
      ending = sym (text_eq_iff _ _ same);
      ends = ends_as url front a b e;
    }

pub found_is-HasEnding : (url tld : Text) → found_is (tld_of url) tld ≡ true → HasEnding tld url
unfolding tld_of
found_is-HasEnding url tld h = let (p, ps, e) = parts_of url in by_parts p ps e
  where
    by_parts : (p : Text) (ps : List Text) → split b'.' url ≡ p ∷ ps → HasEnding tld url
    by_parts p [] e =
        let none_found : found_is (tld_of url) tld ≡ false =
          ap (λ l. found_is (tld_of_parts l) tld) e in
        absurd (ground (arith, h, none_found))
    by_parts p (q ∷ xs) e =
        let (front, a, b, two) = ends_in_two p q xs in ending_of url tld front a b (e ∙ two) h

split_two : (a b : Text) → NoDot a → NoDot b → split b'.' (a ++ b'.' ∷ b) ≡ a ∷ b ∷ []
split_two a b n m = split-cat a b ∙ rw (split-last b'.' a n, split-last b'.' b m) refl

found_two :
    (url tld : Text) (front : List Text) (a b : Text)
    → split b'.' url ≡ front ++ a ∷ b ∷ []
    → tld ≡ b'.' ∷ (a ++ b'.' ∷ b)
    → found_is (tld_of url) tld ≡ true
unfolding tld_of
found_two url tld front a b e t =
    ap (λ l. found_is (tld_of_parts l) tld) e
    ∙ ap (λ o. found_is o tld) (tld_two front a b)
    ∙ ap (text_eq (b'.' ∷ (a ++ b'.' ∷ b))) t
    ∙ text_eq_self (b'.' ∷ (a ++ b'.' ∷ b))

pub HasEnding-found_is : (url tld : Text) → HasEnding tld url → found_is (tld_of url) tld ≡ true
HasEnding-found_is url tld h = elim h.ends [
  | inl all ↦
      found_two url tld [] h.a h.b (ap (split b'.') all ∙ split_two h.a h.b h.plain.0 h.plain.1)
        h.ending
  | inr (pre, more) ↦
      found_two url tld (split b'.' pre) h.a h.b
        (ap (split b'.') more
          ∙ split-cat pre (h.a ++ b'.' ∷ h.b)
          ∙ ap (split b'.' pre ++◌) (split_two h.a h.b h.plain.0 h.plain.1))
        h.ending
]
