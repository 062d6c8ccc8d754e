-- ===== src/Imports.antt =====
-- The import dialog: `importDomains`, `doImport` and `handleImportResult`. `J` is what `JSON.parse`
-- gives, and `parse` is `none` where it throws.
pub mod Laws
use domain_ssl_checker.Base.{
  filter, String, Bool, List, Text, ℕ, if◌then◌else◌, false, map, true, Option, ◌∷◌, codes, str_eq,
  not, trim, [], ◌++◌, ◌==◌, split, length, join, some, none,
}
use domain_ssl_checker.Domains.{ListType, full, ssl_only}
use domain_ssl_checker.Digits.{show}

pub data ImportType : Type 0 where
  import_list : ListType → ImportType
  import_webapps : ImportType

-- `importDomains`: the type of the dialog, by the view.
unfoldable pub import_type : String → ImportType
import_type view =
    if str_eq view "webapps"
    then import_webapps
    else if str_eq view "sslcerts"
    then import_list ssl_only
    else import_list full

-- `endpoint`, and the key of the items in the body
abbrev pub is_webapp : ImportType → Bool
is_webapp (import_list type) = false
is_webapp import_webapps = true

pub data Items (J : Type 0) : Type 0 where
  parsed : J → Items J
  -- One object for each url, with the url as its name as well.
  urls : List Text → Items J

pub data ImportEffect (J : Type 0) : Type 0 where
  -- The upload of the file, and `POST` of the items; the Boolean says that they are web apps.
  uploaded : Bool → ImportEffect J
  posted : Bool → Items J → ImportEffect J
  -- "Paste JSON, one URL per line, or upload a file", "No valid entries found"
  nothing_given no_entries : ImportEffect J

abbrev pub is_entry : Text → Bool
is_entry [] = false
is_entry (c ∷ cs) = not (c == b'#')

-- `text.split('\n').map(...).filter(Boolean)`
unfoldable pub import_lines : Text → List Text
import_lines text = filter is_entry (map trim (split 10 text))

abbrev pub is_blank_text : Text → Bool
is_blank_text [] = true
is_blank_text (c ∷ cs) = false

module _ {J : Type 0} (parse : Text → Option J) where
  abbrev pub post_urls : Bool → List Text → ImportEffect J
  post_urls webapps [] = no_entries
  post_urls webapps (u ∷ us) = posted webapps (urls (u ∷ us))

  abbrev pub post_items : Bool → Text → ImportEffect J
  post_items webapps text = elim (parse text) [
    | none ↦ post_urls webapps (import_lines text)
    | some j ↦ posted webapps (parsed j)
  ]

  unfoldable pub do_import : ImportType → Bool → Text → ImportEffect J
  do_import type has_file json =
      if has_file
      then uploaded (is_webapp type)
      else if is_blank_text (trim json)
      then nothing_given
      else post_items (is_webapp type) (trim json)

-- The answer of an import. The lists may be missing.
pub record ImportResult : Type 0 where
  pub added : ℕ
  pub skipped : ℕ
  pub errors : List Text
  pub added_list : List Text
  -- The url and the reason
  pub skipped_list : List (Text × Text)

pub record Section : Type 0 where
  pub title : Text
  pub collapsed : Bool
  pub rows : List Text

pub record ImportReport : Type 0 where
  pub summary : Text
  pub details : List Section
  -- The view is loaded again: the web apps, or a list.
  pub reloads : Option ImportType

abbrev pub errors_part : List Text → List Text
errors_part [] = []
errors_part (e ∷ es) = (show (length (e ∷ es)) ++ codes " errors") ∷ []

-- The text under the form; 8212 is the dash.
unfoldable pub import_summary : ImportResult → Text
import_summary r =
    codes "Import complete "
    ++ 8212 ∷ codes " "
    ++ join (codes ", ") (
        (show r.added ++ codes " added")
        ∷ (show r.skipped ++ codes " skipped")
        ∷ errors_part r.errors)

abbrev pub section_if : String → Bool → List Text → List Section
section_if title collapsed [] = []
section_if title collapsed (t ∷ ts) =
    record {
      title = codes title ++ codes " (" ++ show (length (t ∷ ts)) ++ codes ")";
      collapsed = collapsed;
      rows = t ∷ ts;
    }
    ∷ []

abbrev pub reload_of : String → Option ImportType
reload_of view =
    if str_eq view "webapps"
    then some import_webapps
    else if str_eq view "domains"
    then some (import_list full)
    else if str_eq view "sslcerts"
    then some (import_list ssl_only)
    else none

-- `handleImportResult`, with the texts before they are escaped.
unfoldable pub handle_import_result : String → ImportResult → ImportReport
handle_import_result view r = record {
  summary = import_summary r;
  details =
      section_if "Added" false r.added_list
      ++ section_if "Skipped" true
          (map (λ s. s.0 ++ codes " " ++ 8212 ∷ codes " " ++ s.1) r.skipped_list)
      ++ section_if "Errors" true r.errors;
  reloads = reload_of view;
}
