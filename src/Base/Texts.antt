-- ===== src/Base/Texts.antt =====
-- Text as the list of its UTF-16 code units, where the program walks it.
use Prim.Native.Nat.{ℕ}
use Prim.Native.Char.{code}
use Prim.Native.String.{String}
use mathlib.Core.Path.{◌≡◌, refl, ap}
use mathlib.Core.Bool.{Bool, true, false, ◌&&◌, ◌||◌}
use mathlib.Core.Option.{Option, none, some}
use mathlib.Core.List.{List, [], ◌∷◌, ◌++◌, reverse}
use native.Mathlib.Omega.{arith}
use domain_ssl_checker.Base.Tests.{leb, ◌==◌, if◌then◌else◌, or_false, ==-self}
use domain_ssl_checker.Base.Lists.{any}

abbrev pub Text : Type 0
Text = List ℕ

-- A literal of the source; all of them are ASCII, so a character is one code unit.
abbrev pub codes : String → Text
codes String.[] = []
codes (String.◌∷◌ c s) = code c ∷ codes s

abbrev pub text_eq : Text → Text → Bool
text_eq [] [] = true
text_eq (x ∷ xs) (y ∷ ys) = x == y && text_eq xs ys
text_eq _ _ = false

pub text_eq_iff : (s t : Text) → text_eq s t ≡ true → s ≡ t
text_eq_iff [] [] h = refl
text_eq_iff [] (y ∷ ys) h = ground arith
text_eq_iff (x ∷ xs) [] h = ground arith
text_eq_iff (x ∷ xs) (y ∷ ys) h = ground (arith, text_eq_iff xs ys)

pub text_eq_self : (s : Text) → text_eq s s ≡ true
text_eq_self [] = refl
text_eq_self (x ∷ xs) = ground (arith, text_eq_self xs)

-- `s.startsWith(t)`, the prefix first
abbrev pub is_prefix : Text → Text → Bool
is_prefix [] s = true
is_prefix (x ∷ xs) [] = false
is_prefix (x ∷ xs) (y ∷ ys) = x == y && is_prefix xs ys

-- `s.includes(t)`
abbrev pub includes : Text → Text → Bool
includes [] t = is_prefix t []
includes (x ∷ s) t = is_prefix t (x ∷ s) || includes s t

-- A value that may be null, in a Boolean context: null and the empty text are falsy.
abbrev pub truthy : Option Text → Bool
truthy none = false
truthy (some []) = false
truthy (some (x ∷ xs)) = true

-- `o || d`
abbrev pub text_or : Option Text → Text → Text
text_or none d = d
text_or (some []) d = d
text_or (some (x ∷ xs)) d = x ∷ xs

-- `s.split(c)` for a separator of one code unit: never an empty array.
abbrev pub split_cons : ℕ → List Text → List Text
split_cons x [] = (x ∷ []) ∷ []
split_cons x (part ∷ parts) = (x ∷ part) ∷ parts

abbrev pub split : ℕ → Text → List Text
split c [] = [] ∷ []
split c (x ∷ xs) = if x == c then [] ∷ split c xs else split_cons x (split c xs)

-- `parts.join(sep)`
abbrev pub join : Text → List Text → Text
join sep [] = []
join sep (part ∷ []) = part
join sep (part ∷ next ∷ parts) = part ++ sep ++ join sep (next ∷ parts)

-- White space and line ends, as `trim` takes them.
abbrev pub is_space : ℕ → Bool
is_space c =
    (leb 9 c && leb c 13)
    || c == 32
    || c == 160
    || c == 5760
    || (leb 8192 c && leb c 8202)
    || c == 8232
    || c == 8233
    || c == 8239
    || c == 8287
    || c == 12288
    || c == 65279

abbrev pub trim_start : Text → Text
trim_start [] = []
trim_start (c ∷ s) = if is_space c then trim_start s else c ∷ s

-- `s.trim()`
abbrev pub trim : Text → Text
trim s = reverse (trim_start (reverse (trim_start s)))

pub split-last : (c : ℕ) (part : Text) → any (λ x. x == c) part ≡ false → split c part ≡ part ∷ []
split-last c [] h = refl
split-last c (x ∷ xs) h =
    let (e, rest) = or_false (x == c) _ h in rw e (ap (split_cons x) (split-last c xs rest))

pub split-append :
    (c : ℕ) (part rest : Text)
    → any (λ x. x == c) part ≡ false
    → split c (part ++ c ∷ rest) ≡ part ∷ split c rest
split-append c [] rest h = rw (==-self c) refl
split-append c (x ∷ xs) rest h =
    let (e, tail) = or_false (x == c) _ h in rw e (ap (split_cons x) (split-append c xs rest tail))
