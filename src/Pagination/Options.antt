-- ===== src/Pagination/Options.antt =====
-- The attributes of public/javascripts/pagination.js: the defaults with the caller's options laid
-- over them. Numbers are naturals, a text that may be left out is an `Option`, and an option that
-- may be a value or a function has a constructor for each.
use pact_broker.Prelude.{ℕ, String, Bool, true, false, Option, none, some}

-- A text with variables, or a function of the current page, the pages and the entries.
pub data Format : Type 0 where
  text : String → Format
  made : (ℕ → ℕ → ℕ → String) → Format

-- The same for the two formats that also receive their element as it is drawn.
pub data ElementFormat : Type 0 where
  text : String → ElementFormat
  made : (String → ℕ → ℕ → ℕ → String) → ElementFormat

-- A flag, or a function that returns one.
pub data Flag : Type 0 where
  flag : Bool → Flag
  asked : (Unit {0} → Bool) → Flag

pub record Attributes : Type 0 where
  pub total_number : ℕ
  pub page_number : ℕ
  pub page_size : ℕ
  pub page_range : Option ℕ
  pub show_previous : Bool
  pub show_next : Bool
  pub show_page_numbers : Bool
  pub show_navigator : Bool
  pub show_go_input : Bool
  pub show_go_button : Bool
  pub page_link : ℕ → ℕ → String
  pub prev_text : String
  pub next_text : String
  pub ellipsis_text : String
  pub go_button_text : String
  pub class_name : Option String
  pub class_prefix : String
  pub active_class_name : String
  pub disable_class_name : String
  pub ul_class_name : Option String
  pub inline_style : Bool
  pub format_navigator : Format
  pub format_go_input : ElementFormat
  pub format_go_button : ElementFormat
  pub position : String
  pub auto_hide_previous : Flag
  pub auto_hide_next : Flag
  pub header : Option Format
  pub footer : Option Format
  pub trigger_paging_on_init : Bool
  pub hide_when_less_than_one_page : Bool
  pub show_first_on_ellipsis_show : Bool
  pub show_last_on_ellipsis_show : Bool

-- `$.fn[pluginName].defaults`. The default `pageLink` returns `undefined`, which the markup prints.
abbrev pub defaults : Attributes
defaults = record {
  total_number = 0;
  page_number = 1;
  page_size = 10;
  page_range = some 2;
  show_previous = true;
  show_next = true;
  show_page_numbers = true;
  show_navigator = false;
  show_go_input = false;
  show_go_button = false;
  page_link = λ number size. "undefined";
  prev_text = "&laquo;";
  next_text = "&raquo;";
  ellipsis_text = "...";
  go_button_text = "Go";
  class_name = none;
  class_prefix = "paginationjs";
  active_class_name = "active";
  disable_class_name = "disabled";
  ul_class_name = none;
  inline_style = true;
  format_navigator = Format.text "<%= currentPage %> / <%= totalPage %>";
  format_go_input = ElementFormat.text "<%= input %>";
  format_go_button = ElementFormat.text "<%= button %>";
  position = "bottom";
  auto_hide_previous = flag false;
  auto_hide_next = flag false;
  header = none;
  footer = none;
  trigger_paging_on_init = true;
  hide_when_less_than_one_page = false;
  show_first_on_ellipsis_show = true;
  show_last_on_ellipsis_show = true;
}
