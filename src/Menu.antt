-- ===== src/Menu.antt =====
-- public/javascripts/material-menu.js: menus that belong to an element of the page.
pub mod Items
pub mod Store
pub mod Place
pub mod Ready
pub mod Parents
pub mod Owners
