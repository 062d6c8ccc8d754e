-- ===== src/Ports.antt =====
-- The list of port checks: `applyPortFilters`, `renderPortPagination` and the page buttons. The
-- selection of ports stands in Selection.
pub mod Laws
pub mod Actions
use Prim.Native.Nat.{Ordering, compare}
use domain_ssl_checker.Platform.{Platform}
use domain_ssl_checker.Sorting.{sort_by}
use domain_ssl_checker.Domains.{Dir}
use domain_ssl_checker.Domains.Sort.{directed}
use domain_ssl_checker.Domains.Tld.{compare_text}
use domain_ssl_checker.Digits.{show}
use domain_ssl_checker.Webapps.Stats.{has_status}
use domain_ssl_checker.Base.{
  filter, Text, ℕ, List, Option, if◌then◌else◌, length, String, Bool, ◌==◌, truthy, not, ◌-◌, false,
  ◌*◌, some, includes, text_eq, ◌&&◌, ◌+◌, [], ◌||◌, codes, take, none, min, ltb, drop, leb,
}
use domain_ssl_checker.Webapps.{PageButton, page_after}
use domain_ssl_checker.Paging.{div_ceil}

-- The value of a column in a row.
pub data Cell : Type 0 where
  word : Text → Cell
  num : ℕ → Cell
  null : Cell

-- A row of `/api/port-checks`; `cell` is its value in each column.
pub record PortCheck : Type 0 where
  pub id : ℕ
  pub name : Option Text
  pub hostname : Option Text
  pub port : ℕ
  pub status : Option Text
  pub cell : String → Cell

-- `_portCache` and the globals beside it; `search` is lower case and trimmed.
pub record PortState : Type 0 where
  pub cached : List PortCheck
  pub status : Text
  pub search : Text
  pub key : String
  pub dir : Dir
  pub page : ℕ
  pub size : ℕ

-- What `renderPortPagination` writes.
pub record PortBar : Type 0 where
  pub from : ℕ
  pub to : ℕ
  pub total : ℕ
  pub visible : Bool
  pub at_first : Bool
  pub at_last : Bool

pub record PortShown : Type 0 where
  pub rows : List PortCheck
  pub count : ℕ
  pub count_all : ℕ
  pub count_up : ℕ
  pub count_down : ℕ
  pub count_unknown : ℕ
  -- `none` where no row is left.
  pub bar : Option PortBar

-- `c.status === s`
abbrev pub port_status_is : Text → PortCheck → Bool
port_status_is s c = has_status s c.status

abbrev pub has_word : Option Text → (Text → Bool) → Bool
has_word none q = false
has_word (some t) q = truthy (some t) && q t

-- `Math.ceil(n / size)`
abbrev pub port_pages : ℕ → ℕ → ℕ
port_pages n size = div_ceil n size

unfoldable pub port_bar : ℕ → ℕ → ℕ → PortBar
port_bar n page size = record {
  from = if n == 0 then 0 else (page - 1) * size + 1;
  to = min (page * size) n;
  total = n;
  visible = ltb size n;
  at_first = leb page 1;
  at_last = leb (port_pages n size) page;
}

module _ (p : Platform) where
  -- Texts in lower case, numbers, and null as the empty text, which counts as 0 beside a number. A
  -- column does not hold both numbers and other texts.
  abbrev pub compare_cells : Cell → Cell → Ordering
  compare_cells (word a) (word b) = compare_text (p.lower a) (p.lower b)
  compare_cells (word a) (num n) = if truthy (some a) then Ordering.eq else compare 0 n
  compare_cells (word a) null = compare_text (p.lower a) []
  compare_cells (num n) (word b) = if truthy (some b) then Ordering.eq else compare n 0
  compare_cells (num n) (num m) = compare n m
  compare_cells (num n) null = compare n 0
  compare_cells null (word b) = compare_text [] (p.lower b)
  compare_cells null (num m) = compare 0 m
  compare_cells null null = Ordering.eq

  abbrev pub matches_port : Text → PortCheck → Bool
  matches_port q c =
      has_word c.name (λ t. includes (p.lower t) q)
      || has_word c.hostname (λ t. includes (p.lower t) q)
      || text_eq (show c.port) q

  unfoldable pub filter_ports : PortState → List PortCheck
  filter_ports s =
      let by_status =
        if not (text_eq s.status (codes "all"))
        then filter (port_status_is s.status) s.cached
        else s.cached in
      if truthy (some s.search) then filter (matches_port s.search) by_status else by_status

  unfoldable pub sorted_ports : PortState → List PortCheck
  sorted_ports s =
      sort_by (λ a b. directed s.dir (compare_cells (a.cell s.key) (b.cell s.key))) (filter_ports s)

  unfoldable pub apply_port_filters : PortState → PortShown
  apply_port_filters s =
      let sorted = sorted_ports s in
      let total = length sorted in
      let start = (s.page - 1) * s.size in
      record {
        rows = take (min (start + s.size) total - start) (drop start sorted);
        count = total;
        count_all = length s.cached;
        count_up = length (filter (port_status_is (codes "up")) s.cached);
        count_down = length (filter (port_status_is (codes "down")) s.cached);
        count_unknown = length (
            filter
              (λ c. not (port_status_is (codes "up") c) && not (port_status_is (codes "down") c))
              s.cached);
        bar = if total == 0 then none else some (port_bar total s.page s.size);
      }

  -- The buttons first, previous, next and last: the new state and what is shown.
  unfoldable pub click_port_page : PageButton → PortState → PortState × PortShown
  click_port_page b s =
      let s' = record s { page = page_after b s.page } in (s', apply_port_filters s')
