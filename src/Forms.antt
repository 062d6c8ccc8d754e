-- ===== src/Forms.antt =====
-- The forms of the page that add and change rows.
pub mod Numbers
pub mod UserForm
pub mod DomainForm
pub mod WebappForm
pub mod DomainDialog
pub mod WebappDialog
pub mod PortForm
pub mod UserDialog
pub mod Inputs
pub mod Laws
mod Tests
