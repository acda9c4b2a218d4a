-- ===== src/Index.antt =====
-- The index page, where the scripts meet: the page links of lib/pact_broker/ui/views/index/_pagination.haml
-- over the plug-in, and the menus of public/javascripts/index.js over the table.
pub mod Links
pub mod Settings
