-- ===== src/Selection/Range.antt =====
-- The rows that a shift-click reaches, by their positions in the list.
use domain_ssl_checker.Selection.{Selection}
