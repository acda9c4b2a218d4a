-- ===== src/Pagination.antt =====
-- public/javascripts/pagination.js, the plug-in that draws the page links of the index page.
pub mod Options
pub mod Pages
pub mod Window
pub mod Numbers
pub mod Template
pub mod Markup
pub mod Source
pub mod Hooks
pub mod Render
pub mod Container
pub mod Initialize
pub mod Calls
pub mod Late
pub mod Load
pub mod Instance
