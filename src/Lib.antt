-- ===== src/Lib.antt =====
-- The browser code of the Pact Broker, the scripts under public/javascripts that are the project's own, and
-- parts of its server, under lib/pact_broker, that decide by themselves.
--
-- The server draws the pages; the scripts act on them. index.js (the index page) and pact.js (the page
-- of a pact) open a menu of material-menu.js and delete what is chosen there, through a confirmation and
-- a request. pagination.js, a reduced copy of a jQuery plug-in that the project maintains by itself, draws
-- the page links of the index page. matrix.js runs the form and the highlighting of the matrix page, and
-- clipboard.js the buttons that copy a text.
--
-- Files and sources:
--   Prelude, Prelude/*: tests on the native numbers, lists, texts and integers that all parts share.
--   Js: the values of JavaScript as the scripts tell them apart (`getObjectType`, `Helpers`, reading a
--   property). Objects are lists of fields; what is inherited is a parameter.
--   Pagination/*: public/javascripts/pagination.js. Options has the attributes and the defaults; Pages
--   `getTotalNumber`, `getTotalPage`, `getDataFragment`; Window the range of `render`; Numbers
--   `generatePageNumbersHTML` as items; Template `replaceVariables`; Markup `generateHTML`; Source
--   `getLocator`, `filterDataByLocator`, `parseDataSource`, `parameterChecker`; Hooks `callHook` and
--   `addHook`; Render `render`; Container what jQuery keeps for the container, and `uninstallPlugin`;
--   Initialize `initialize`; Calls `$.fn.pagination`, `$.fn.addHook`, `$.pagination`; Late the callback that
--   a function as `dataSource` calls after its start is over; Load the names that
--   these get; Instance the other methods of an instance.
--   Menu/*: public/javascripts/material-menu.js. Items has the items and their clicks; Store the menus by
--   parent, `init`, `openMenu`, `closeMenu` and the events; Place `updatePos`; Parents the calls of
--   `materialMenu` on a set of parents; Ready the titles and toolbars that are replaced when the page is
--   ready; Owners a page on which elements open a menu for what they stand for, with the interface
--   Entries (Owners/Projected) for what the entries of these menus call and ask.
--   Deletion/*: public/javascripts/index.js (IndexPage) and public/javascripts/pact.js (PactPage), with
--   `createErrorMessage`, which both have, in Message; PactPage/Options has the menus of the pact's page.
--   Matrix/*: public/javascripts/matrix.js. Form is the interface for what jQuery does to a field,
--   Selectors the code over it, Page the form from the moment when it is ready to its submission; Highlight
--   has the cells that are marked together, Columns the handlers that mark them.
--   Clipboard/*: public/javascripts/clipboard.js, over the interface Clipboard/Dom for the document;
--   Targets has all the buttons of a page.
--   Index/*: the composition on the index page. Settings has the menus of public/javascripts/index.js and
--   what their entries call; Links the script of lib/pact_broker/ui/views/index/_pagination.haml, which
--   calls the plug-in of pagination.js. `URL` is the interface UrlApi.
--   Network, Network/*: the groups of connected pacticipants, in Ruby: Groupify is
--   lib/pact_broker/relationships/groupify.rb, Service lib/pact_broker/groups/service.rb, over the items
--   of lib/pact_broker/domain/index_item.rb. An item is known by the identity of its object.
--   CanIDeploy, CanIDeploy/*: can-i-deploy queries, in Ruby. CanIDeploy has the selectors, rows and results
--   of lib/pact_broker/matrix/resolved_selector.rb, integration.rb and query_results.rb there; Summary is
--   deployment_status_summary.rb with reason.rb, Ignoring what repository.rb leaves out of consideration.
--   Examples/*: the theorems at concrete inputs.
--
-- State and errors. Shared state is explicit: a container, a store of menus and a page with its table are
-- records, a handler is a function from state to state, and what happens in a page is a list of events; what
-- concerns several menus, as a press on the document does, is an event for each.
-- Requests wait in the state until an event answers them, so answers come in any order. An error that is
-- thrown is a value; the texts of pagination.js stand without the prefix "Pagination: " that `throwError`
-- puts before them. A read that throws is `none`.
--
-- Bounds. All functions are total: loops run over lists, or count up to a bound. Only the loops of
-- Groupify run on fuel: each round takes an item out of those that are left, so that their number, and
-- one more, is enough. Numbers are naturals; page numbers, sizes and ranges that are negative or no
-- whole numbers are left out. A number of pages that is not finite, the quotient by 0, is `none`;
-- drawing with a page size of 0 is left out, and a start with it has the answer `left_out`.
-- `rangeStart` and the place of a menu are integers. Lengths are in quarters of a pixel.
--
-- Data that a function hands over come within the start, as its `delivers`, or later, as an event of
-- Pagination/Late; the modules of Calls are about what happens within the calls.
--
-- Not modelled: the libraries that the scripts call (jQuery, jquery-confirm, tablesorter, Bootstrap),
-- which are parameters or state; animations, of which only the end is an event; the code of pagination.js
-- that is commented out; the HAL browser under vendor, which is another project's; the sorting and the
-- tooltips of the matrix page, which are calls of libraries; a confirmation that opens above another one;
-- hooks with a name that every object has; the correction of a height below 0 by the browser; of the
-- can-i-deploy queries the texts of the selectors, the selectors that are inferred, and the filters of the
-- rows; and the rest of the server, whose resources and queries are the work of Webmachine, Roar and
-- Sequel.
pub mod Prelude
pub mod Js
pub mod Pagination
pub mod Menu
pub mod Deletion
pub mod Matrix
pub mod Clipboard
pub mod Index
pub mod Network
pub mod CanIDeploy
mod Examples
