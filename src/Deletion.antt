-- ===== src/Deletion.antt =====
-- Deleting from the pages of the broker: public/javascripts/index.js and public/javascripts/pact.js.
pub mod Message
pub mod IndexPage
pub mod PactPage
