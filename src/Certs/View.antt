-- ===== src/Certs/View.antt =====
-- What the details of a certificate show, from the answer of the server: the badge, the bar and the rows
-- that `openCertModal` builds, with their texts before they are escaped.
use domain_ssl_checker.Certs.Pairs.{fingerprint_text, serial_text}
use domain_ssl_checker.Durations.{fmt_time_remaining}
use domain_ssl_checker.Digits.{show}
use domain_ssl_checker.Base.{
  ℕ, ℤ, Text, String, Option, List, some, none, [], ◌∷◌, ◌||◌, ◌++◌, if◌then◌else◌, codes, text_eq,
  truthy, text_or, join, ltb, min, pos, negsuc, suc, zero,
}

infixl 5 ◌>>=◌
abbrev pub ◌>>=◌ {ℓ κ} : {A : Type ℓ} {B : Type κ} → Option A → (A → Option B) → Option B
none >>= f = none
some a >>= f = f a

-- The entries of `/api/domains/id/cert`; what is given as the days left is a whole number.
pub record CertAnswer : Type 0 where
  pub url : Option Text
  pub status : Option Text
  pub ssl_days_left : Option ℤ
  pub ssl_issuer : Option Text
  pub ssl_subject : Option Text
  pub ssl_valid_from : Option Text
  pub ssl_valid_until : Option Text
  pub ssl_expiry : Option Text
  pub ssl_tls_version : Option Text
  pub ssl_cipher : Option Text
  pub ssl_fingerprint : Option Text
  pub ssl_serial : Option Text
  pub ssl_sans : Option Text
  pub ssl_pem : Option Text
  pub notes : Option Text
  pub tags : Option Text

pub data CertClass : Type 0 where
  healthy warning expired error pending : CertClass

pub data BarColour : Type 0 where
  green yellow red : BarColour

-- A row: its label, its text, the time remaining beside it, and what its button copies.
pub record CertRow : Type 0 where
  pub label : String
  pub value : Text
  pub beside : Text
  pub copied : Option Text

pub data CertSection : Type 0 where
  identity validity security sans metadata : List CertRow → CertSection
  chain : Text → CertSection

pub record CertShown : Type 0 where
  -- The label and the class of the badge
  pub badge : Text × CertClass
  -- The width of the bar is this many parts of 365.
  pub bar : ℕ
  pub colour : BarColour
  pub sections : List CertSection

-- `statusMap[s] || s`
abbrev pub status_label : Text → Text
status_label s =
    if text_eq s (codes "healthy")
    then codes "Healthy >90d"
    else if text_eq s (codes "watch")
    then codes "Watch 60-90d"
    else if text_eq s (codes "caution")
    then codes "Caution 30-60d"
    else if text_eq s (codes "warning")
    then codes "Warning 7-30d"
    else if text_eq s (codes "critical")
    then codes "Critical <7d"
    else if text_eq s (codes "expired")
    then codes "Expired"
    else if text_eq s (codes "error")
    then codes "Error"
    else if text_eq s (codes "pending")
    then codes "Pending"
    else s

abbrev pub status_class : Text → CertClass
status_class s =
    if text_eq s (codes "healthy") || text_eq s (codes "watch")
    then healthy
    else if text_eq s (codes "caution") || text_eq s (codes "warning")
    then warning
    else if text_eq s (codes "critical") || text_eq s (codes "expired")
    then expired
    else if text_eq s (codes "error")
    then error
    else pending

-- `parseInt(d.ssl_days_left) || 0`
abbrev pub expiry_days : Option ℤ → ℤ
expiry_days none = pos 0
expiry_days (some n) = n

abbrev pub bar_of : ℤ → ℕ
bar_of (pos n) = min 365 n
bar_of (negsuc n) = 0

abbrev pub colour_of : ℤ → BarColour
colour_of (pos n) = if ltb 90 n then green else if ltb 30 n then yellow else red
colour_of (negsuc n) = red

abbrev pub slice_10 : ℕ → Text → Text
slice_10 zero t = []
slice_10 (suc n) [] = []
slice_10 (suc n) (c ∷ t) = c ∷ slice_10 n t

-- `s ? s.slice(0, 10) : 'N/A'`
abbrev pub day_or_na : Option Text → Text
day_or_na none = codes "N/A"
day_or_na (some []) = codes "N/A"
day_or_na (some (c ∷ cs)) = slice_10 10 (c ∷ cs)

-- `row(label, val, suffix)`: no row without a value
abbrev pub row_of : String → Text → Text → Option Text → List CertRow
row_of label [] beside copied = []
row_of label (c ∷ cs) beside copied =
    record { label = label; value = c ∷ cs; beside = beside; copied = copied } ∷ []

abbrev pub text_of : Option Text → Text
text_of t = text_or t []

-- `String(n)`
abbrev pub show_days : Option ℤ → Text
show_days none = codes "N/A"
show_days (some (pos n)) = show n
show_days (some (negsuc n)) = codes "-" ++ show (suc n)

abbrev pub identity_rows : CertAnswer → List CertRow
identity_rows d =
    row_of "Domain" (text_of d.url) [] (some (text_of d.url))
    ++ (row_of "Issuer" (text_or d.ssl_issuer (codes "N/A")) [] none
        ++ row_of "Subject" (text_or d.ssl_subject (codes "N/A")) []
            (if truthy d.ssl_subject then d.ssl_subject else none))

abbrev pub validity_rows : CertAnswer → List CertRow
validity_rows d =
    row_of "Valid From" (day_or_na d.ssl_valid_from) [] none
    ++ (row_of "Valid Until" (day_or_na d.ssl_valid_until) [] none
        ++ (row_of "Expiry Date" (text_or d.ssl_expiry (codes "N/A")) [] none
            ++ row_of "Days Left" (show_days d.ssl_days_left) (fmt_time_remaining d.ssl_days_left)
                none))

-- The rows of the security, of the fingerprint and the serial number as they are shown
abbrev pub security_rows : Text → Text → CertAnswer → List CertRow
security_rows fp serial d =
    row_of "TLS Version" (text_of d.ssl_tls_version) [] none
    ++ (row_of "Cipher" (text_of d.ssl_cipher) [] none
        ++ ((if truthy d.ssl_fingerprint
              then row_of "Fingerprint (SHA-256)" (text_or (some fp) (codes "N/A")) []
                  d.ssl_fingerprint
              else [])
            ++ (if truthy d.ssl_serial
                then row_of "Serial Number" (text_or (some serial) (codes "N/A")) [] none
                else [])))

abbrev pub security_of : Text → Text → CertAnswer → List CertSection
security_of fp serial d =
    if truthy d.ssl_tls_version
      || truthy d.ssl_cipher
      || truthy d.ssl_fingerprint
      || truthy d.ssl_serial
    then security (security_rows fp serial d) ∷ []
    else []

-- `sansDisplay` and `sansRaw`
abbrev pub sans_of : Text → Text → List CertSection
sans_of display raw =
    if text_eq display (codes "N/A")
    then []
    else if truthy (some display)
    then sans (row_of "SANs" display [] (some (text_or (some raw) display))) ∷ []
    else []

abbrev pub metadata_of : CertAnswer → List CertSection
metadata_of d =
    if truthy d.notes || truthy d.tags
    then metadata
        (row_of "Notes" (text_of d.notes) [] none ++ row_of "Tags" (text_of d.tags) [] none)
      ∷ []
    else []

abbrev pub chain_of : Option Text → List CertSection
chain_of pem = if truthy pem then chain (text_of pem) ∷ [] else []

module _ (lower upper : Text → Text) (parse : Text → Option (List Text)) where
  -- The names of a JSON array, or the text where it is no JSON array
  abbrev pub names_of : Text → Text × Text
  names_of t = elim (parse t) [
    | none ↦ (t, t)
    | some names ↦ (join (codes ", ") names, join (10 ∷ []) names)
  ]

  abbrev pub sans_section : Option Text → List CertSection
  sans_section none = []
  sans_section (some []) = []
  sans_section (some (c ∷ cs)) = let (display, raw) = names_of (c ∷ cs) in sans_of display raw

  abbrev pub sections_of : Text → Text → CertAnswer → List CertSection
  sections_of fp serial d =
      identity (identity_rows d) ∷ validity (validity_rows d) ∷ security_of fp serial d
      ++ (sans_section d.ssl_sans ++ (metadata_of d ++ chain_of d.ssl_pem))

  -- `none` where the handler fails, on a fingerprint without two letters beside each other
  unfoldable pub cert_view : CertAnswer → Option CertShown
  cert_view d = do
    fp ← fingerprint_text upper (text_of d.ssl_fingerprint)
    serial ← serial_text upper (text_of d.ssl_serial)
    let s = lower (text_or d.status (codes "pending"))
    let days = expiry_days d.ssl_days_left
    some (record {
      badge = (status_label s, status_class s);
      bar = bar_of days;
      colour = colour_of days;
      sections = sections_of fp serial d;
    })
