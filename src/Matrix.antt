-- ===== src/Matrix.antt =====
-- public/javascripts/matrix.js: the form and the table of the matrix page.
pub mod Form
pub mod Selectors
pub mod Highlight
pub mod Columns
pub mod Page
