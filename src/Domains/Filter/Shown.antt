-- ===== src/Domains/Filter/Shown.antt =====
-- Which rows `getFilteredDomains` shows, said of the row's texts and of a table of the chips.
use domain_ssl_checker.Platform.{Platform}
use domain_ssl_checker.Domains.{ListType, Domain, ListState, status_of, status_is}
use domain_ssl_checker.Domains.Filter.Laws.{allowed, chip_statuses, allowed}
use domain_ssl_checker.Domains.Filter.Texts.{Within, HasEnding}
use domain_ssl_checker.Base.{
  String, str_eq, Text, List, ℕ, Bool, Option, some, ◌≡◌, ◌∷◌, [], true, ◌⊎◌, any, not, ◌||◌, ◌&&◌,
}

-- A query is found in a row: in its address, in its registrar or in its notes, in lower case.
pub data Found (lower : Text → Text) (q : Text) (d : Domain) : Type 0 where
  in_url : Within q (lower d.url) → Found lower q d
  in_registrar :
      (c : ℕ) (cs : Text)
      → d.manual_registrar ≡ some (c ∷ cs)
      → Within q (lower (c ∷ cs))
      → Found lower q d
  in_notes :
      (c : ℕ) (cs : Text) → d.notes ≡ some (c ∷ cs) → Within q (lower (c ∷ cs)) → Found lower q d

-- Each chip with the statuses of the rows that it shows
abbrev pub chip_table : List (String × String)
chip_table =
    ("healthy", "healthy")
    ∷ ("watch", "watch")
    ∷ ("watch", "warning")
    ∷ ("warning", "watch")
    ∷ ("warning", "warning")
    ∷ ("caution", "caution")
    ∷ ("critical", "critical")
    ∷ ("expired", "expired")
    ∷ ("error", "error")
    ∷ []

-- A chip of the table shows the rows of its statuses, any other chip all of them.
abbrev pub table_shows : String → Option String → Bool
table_shows chip status =
    not (any (λ (c, s). str_eq chip c) chip_table)
    || any (λ (c, s). str_eq chip c && status_is status s) chip_table

pub record Shown (p : Platform) (type : ListType) (s : ListState) (d : Domain) : Type 0 where
  pub searched : (p.lower s.search ≡ []) ⊎ Found p.lower (p.lower s.search) d
  pub chip : table_shows s.chip (status_of type d) ≡ true
  pub ending : (s.tld ≡ []) ⊎ HasEnding s.tld d.url

-- The chips of the program and of the table agree.
abbrev Agrees : String → Option String → Type 0
Agrees chip status =
    (str_eq chip "all" || allowed (chip_statuses chip) status) ≡ table_shows chip status

module _ (p : Platform) (type : ListType) (s : ListState) where
  abbrev query : Text
  query = p.lower s.search
