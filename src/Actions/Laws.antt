-- ===== src/Actions/Laws.antt =====
-- The buttons of the certificates do for their list what those of the domains do for theirs.
use mathlib.Core.Option
use domain_ssl_checker.Actions.{dispatch, dispatch_list, dispatch_page}
use domain_ssl_checker.Actions.Commands.{
  Dataset, ShownPages, Command, for_list, download_template, list_template,
}
use domain_ssl_checker.Domains.{ListType, full, ssl_only}
use domain_ssl_checker.Base.{List, String, ◌∷◌, All, [], ◌≡◌, refl}

-- The actions of the domains, each with that of the certificates.
abbrev pub twins : List (String × String)
twins =
    ("check-all-full", "check-all-ssl")
    ∷ ("add-domain-full", "add-domain-ssl")
    ∷ ("bulk-check", "ssl-bulk-check")
    ∷ ("bulk-delete", "ssl-bulk-delete")
    ∷ ("bulk-deselect", "ssl-bulk-deselect")
    ∷ ("bulk-export", "ssl-bulk-export")
    ∷ ("bulk-notes", "ssl-bulk-notes")
    ∷ ("bulk-compare", "ssl-bulk-compare")
    ∷ ("bulk-tags", "ssl-bulk-tags")
    ∷ ("toggle-view-full", "toggle-view-ssl")
    ∷ ("toggle-columns-full", "toggle-columns-ssl")
    ∷ ("download-template", "download-template-ssl")
    ∷ ("page-first-full", "page-first-ssl")
    ∷ ("page-prev-full", "page-prev-ssl")
    ∷ ("page-next-full", "page-next-ssl")
    ∷ ("page-last-full", "page-last-ssl")
    ∷ []

abbrev pub other_list : ListType → ListType
other_list full = ssl_only
other_list ssl_only = full

-- The command for the other list.
abbrev pub mirrored : Command → Command
mirrored (for_list t c) = for_list (other_list t) c
mirrored (download_template (list_template t)) = download_template (list_template (other_list t))
mirrored c = c

abbrev pub swapped : ShownPages → ShownPages
swapped pg = record { full_page = pg.ssl_page; ssl_page = pg.full_page }

-- Each of the sixteen actions of the domains has a twin that gives the certificates the same command,
-- whatever their button holds, and with the pages of the two lists exchanged.
pub dispatch-twins :
    (d : Dataset) (pg : ShownPages)
    → All
        (λ (t : String × String).
          dispatch t.1 d (swapped pg) ≡ Option.map mirrored (dispatch t.0 d pg))
        twins
unfolding dispatch dispatch_list dispatch_page
dispatch-twins d pg = (
  refl,
  (
    refl,
    (
      refl,
      (
        refl,
        (
          refl,
          (
            refl,
            (refl, (refl, (refl, (refl, (refl, (refl, (refl, (refl, (refl, (refl, tt)))))))))),
          ),
        ),
      ),
    ),
  ),
)
