-- ===== src/Lib.antt =====
-- The browser's half of the domain and certificate monitor, ssl_domain_checker/static/app.js: what
-- the page decides between the server's answers and the rows, texts and requests that it produces.
--
-- The page keeps its state in global variables, one slot for each of its two lists, `full` (domains)
-- and `ssl_only` (certificates). A handler of an event changes them and writes into the page. Here
-- a handler is a function from the state, with what the server or the user gives it, to the new
-- state and to a record of what it writes.
--
-- - Base: Booleans, lists, texts as lists of code units, and the integers.
-- - Platform: case mapping, collation, dates and the clock, which the browser provides; every
--   definition that needs them takes them as an argument.
-- - Paging, Sorting: `Math.ceil` and `slice` of a page, and `Array.prototype.sort`.
-- - Domains: a row of the list and the state of a list. Filter is `getFilteredDomains`, Tld
--   `extractTlds`, Sort `_sortDomains`, and Pages `renderDomains`, `renderPagination`, `goToPage`
--   and the handlers of chips, selects, search box and sort headers.
--   Notes is the edit of the notes of a row in place. Below Filter, Texts says what `includes` and the
--   last parts of an address are, and Shown which rows are shown.
-- - Session: `saveViewPrefs`, `loadViewPrefs`, the cache of the lists and `loadDomains`, over the
--   items that the browser stores. JSON is a parameter with the law that what is written can be
--   read.
-- - Checks: `processBulkCheckQueue` and `bulkAction(type, 'check')`. A state is the page between two
--   events; the run of the queue is cut at its `await`, and an answer of the server resumes it.
-- - Deletes: `bulkAction(type, 'delete')`, with the server's answer on each id.
-- - Bulk: `openBulkTags`, `submitBulkTags` and `submitBulkNotes`, as the requests that they send.
-- - Confirm: `confirmDelete`, the click on its button, and `closeConfirmModal`.
-- - Api: `api`, with the CSRF token that the page holds; what the network answers is an input. Run has
--   sequences of calls.
-- - Views: `activateView` with its wrapper, the hash, the auto refresh, `checkSession` and
--   `applyRoleBasedUI`.
-- - Actions: the handler of the buttons, as the command that each of them gives.
-- - Menus, Resize: the menu of a row with its place on the screen (Place) and its keys (Arrows), and
--   the drag of the border of a column.
-- - Modals: the classes and styles that show the dialogs, and the key Escape.
-- - Keys: the other keys, on the two lists and on the settings' tabs.
-- - Login: ssl_domain_checker/static/login.js, with the escaped error in Escape.
-- - Manual: `manualCheck`, `checkAll` and `quickCheck`, cut at their `await`.
-- - Forms: the forms of users, domains, web apps and ports, the dialogs that fill them in
--   (DomainDialog, WebappDialog, PortForm, UserDialog), with `parseInt` in Numbers. Inputs has what the
--   inputs, areas, selects and time inputs of a form keep of a text that is assigned to them; the options
--   of the selects are those of ssl_domain_checker/templates/index.html.
-- - Settings: `populateSettingsForm`, `getSettingsFormData`, `updateUnsavedIndicator`, and the
--   submission of the settings; Others has the webhooks and the status page, Security the security
--   form, ApiKeys the API keys, and Trials the trials of SMTP and webhooks and the import.
-- - Imports: `importDomains`, `doImport` and `handleImportResult`.
-- - Dashboard: `filterDomainsFromDash`, `navigateToDomain`, the numbers of the expiry lists, in Cache
--   `loadDashboard` and the theme, and in Summary `renderDashboardSummary`.
-- - Fields: `validateField`, with its regular expressions as tests.
-- - Dates: the texts of dates, of passed times and of sizes; what `Date` computes is a parameter.
-- - Groups: `renderGroupedCards`, and the counts of `renderDomains` and `updateRiskBar`.
-- - Webapps: `applyWebAppFilters` with its sort in place, `renderWebAppPagination`, the handlers of
--   the web apps, in Stats `renderWebAppStats`, in Actions the actions of a row and of the
--   selection with the bulk edit, in Details `openWebAppDetail`, in Chart `loadWebappChart` and in
--   Axis the numbers and the axes of the chart.
-- - Users: `filteredUsers`, `clearUserFilters`, `toggleUserActive`, and in Load `loadUsers`.
-- - Logs: `logState`, its handlers, `refreshLogs` and `updateLogPagination`.
-- - Dns: `loadDnsChecks`, the form of a DNS check and the actions of the list.
-- - Ports: `applyPortFilters`, `renderPortPagination` and the page buttons of the ports, and in Actions the
--   load, the checks and the deletes.
-- - Backups: `_backupState`, its search and pages, in Shown what the list and its page bar show, and
--   in Actions what its buttons ask for.
-- - Selection: the Sets of selected rows, the handlers of their checkboxes, `updateBulkToolbar`.
-- - Status: `_sslStatusFromDays`, `_domainExpiryClass`, the labels and `renderExpiryBar`.
-- - Digits, Durations: the texts of durations, with a reader of such texts.
-- - Password: `validatePassword` and `validatePwTestInput`, and in Strength the strength that is shown
--   and the change of the own password.
-- - Certs: `openCertModal` and `closeCertModal`, with what they show in View and the fingerprint and
--   the serial number in Pairs.
-- - Templates: the email templates, their tabs and their form.
-- - Maintenance: the form and the actions of the maintenance windows.
--
-- Numbers are whole and not bounded: ids, counts, pages and days are far below 2 ^ 53, where the
-- numbers of JavaScript are exact. Where the page multiplies a rounded quotient and rounds again,
-- for the shares of the dashboard and the labels of the chart, Doubles has the two roundings of
-- IEEE 754, for quotients below 2 ^ 53. Fuel is given in two places: to `Digits.show` one more than the
-- number itself, an upper bound on its digits, and to `scale_from` of Doubles 110 steps, enough by
-- `scale_from-enough` for divisors up to 2 ^ 53.
--
-- Not modelled: the HTML of the page, timers and animations; the server, which is written in Python
-- and whose answers are inputs here.
pub mod Base
pub mod Platform
pub mod Paging
pub mod Sorting
pub mod Doubles
pub mod Domains
pub mod Selection
pub mod Status
pub mod Digits
pub mod Durations
pub mod Password
pub mod Session
pub mod Checks
pub mod Api
pub mod Views
pub mod Modals
pub mod Keys
pub mod Confirm
pub mod Login
pub mod Bulk
pub mod Forms
pub mod Imports
pub mod Settings
pub mod Manual
pub mod Groups
pub mod Dashboard
pub mod Fields
pub mod Dates
pub mod Maintenance
pub mod Templates
pub mod Dns
pub mod Webapps
pub mod Users
pub mod Backups
pub mod Deletes
pub mod Logs
pub mod Ports
pub mod Menus
pub mod Resize
pub mod Actions
pub mod Certs
