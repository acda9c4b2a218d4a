-- ===== src/Pagination/Markup.antt =====
-- The markup of the plug-in: `generateHTML` and the items of `generatePageNumbersHTML` of
-- public/javascripts/pagination.js. The text of the source is cut where a value is put in.
pub mod Navigation
pub mod Browsing
use pact_broker.Prelude.{
  ℕ, ◌+◌, ◌-◌, String, Bool, true, false, not, ◌||◌, ◌&&◌, Option, none, some, List, [], ◌∷◌, ◌++◌,
  map, leb, truthy, join, show, ◌<>◌, if◌then◌else◌,
}
use pact_broker.Pagination.Options.{Attributes, Format, ElementFormat, Flag, flag, asked}
use pact_broker.Pagination.Window.{Range}
use pact_broker.Pagination.Numbers.{Item, active, link, first, last, ellipsis, page_numbers}
use pact_broker.Pagination.Template.{Replace, replace_variables}

-- A text to which JavaScript would add `undefined`.
abbrev pub printed : Option String → String
printed none = "undefined"
printed (some s) = s

unfoldable pub item_html : Attributes → Item → String
item_html a (active i) = join (
    "<li class=\""
    ∷ a.class_prefix
    ∷ "-page J-paginationjs-page "
    ∷ a.active_class_name
    ∷ "\" data-num=\""
    ∷ show i
    ∷ "\"><a>"
    ∷ show i
    ∷ "</a></li>"
    ∷ [])
item_html a (link i) = join (
    "<li class=\""
    ∷ a.class_prefix
    ∷ "-page J-paginationjs-page\" data-num=\""
    ∷ show i
    ∷ "\"><a href=\""
    ∷ a.page_link i a.page_size
    ∷ "\">"
    ∷ show i
    ∷ "</a></li>"
    ∷ [])
item_html a first = join (
    "<li class=\""
    ∷ a.class_prefix
    ∷ "-page "
    ∷ a.class_prefix
    ∷ "-first J-paginationjs-page\" data-num=\"1\"><a href=\""
    ∷ a.page_link 1 a.page_size
    ∷ "\">1</a></li>"
    ∷ [])
item_html a (last n) = join (
    "<li class=\""
    ∷ a.class_prefix
    ∷ "-page "
    ∷ a.class_prefix
    ∷ "-last J-paginationjs-page\" data-num=\""
    ∷ show n
    ∷ "\"><a href=\""
    ∷ a.page_link n a.page_size
    ∷ "\">"
    ∷ show n
    ∷ "</a></li>"
    ∷ [])
item_html a ellipsis = join (
    "<li class=\"" ∷ a.class_prefix ∷ "-ellipsis " ∷ a.disable_class_name ∷ "\"><a>"
    ∷ a.ellipsis_text ∷ "</a></li>" ∷ [])

unfoldable pub page_numbers_html : Attributes → (total_page current_page : ℕ) → Range → String
unfolding item_html page_numbers
page_numbers_html a total_page current_page range =
    join (map (item_html a) (page_numbers a total_page current_page range))

-- What the Previous and the Next button are: left out, drawn with no link, or a link to a page.
pub data Button : Type 0 where
  hidden : Button
  disabled : Button
  to : ℕ → Button

abbrev pub flag_value : Flag → Bool
flag_value (flag b) = b
flag_value (asked f) = f tt

unfoldable pub previous_button : Attributes → (current_page : ℕ) → Button
previous_button a current_page =
    if not a.show_previous
    then hidden
    else if leb current_page 1
    then (if flag_value a.auto_hide_previous then hidden else disabled)
    else to (current_page - 1)

unfoldable pub next_button : Attributes → (total_page current_page : ℕ) → Button
next_button a total_page current_page =
    if not a.show_next
    then hidden
    else if leb total_page current_page
    then (if flag_value a.auto_hide_next then hidden else disabled)
    else to (current_page + 1)

-- The words in which the markup of the two buttons differs.
pub record Look : Type 0 where
  pub name : String
  pub hook : String
  pub title : String
  pub body : String

unfoldable pub button_html : Attributes → Look → Button → String
button_html a look hidden = ""
button_html a look disabled = join (
    "<li class=\"" ∷ a.class_prefix ∷ "-" ∷ look.name ∷ " " ∷ a.disable_class_name ∷ "\"><a>"
    ∷ look.body ∷ "</a></li>" ∷ [])
button_html a look (to n) = join (
    "<li class=\""
    ∷ a.class_prefix
    ∷ "-"
    ∷ look.name
    ∷ " "
    ∷ look.hook
    ∷ "\" data-num=\""
    ∷ show n
    ∷ "\" title=\""
    ∷ look.title
    ∷ "\"><a href=\""
    ∷ a.page_link n a.page_size
    ∷ "\">"
    ∷ look.body
    ∷ "</a></li>"
    ∷ [])

abbrev pub previous_look : Attributes → Look
previous_look a = record {
  name = "prev";
  hook = "J-paginationjs-previous";
  title = "Previous page";
  body = a.prev_text;
}

abbrev pub next_look : Attributes → Look
next_look a = record {
  name = "next";
  hook = "J-paginationjs-next";
  title = "Next page";
  body = a.next_text;
}

-- What the markup is made for.
pub record View : Type 0 where
  pub current_page : ℕ
  pub total_page : ℕ
  pub total_number : ℕ
  pub range : Range

abbrev pub format_text : Format → View → String
format_text (Format.text s) v = s
format_text (Format.made f) v = f v.current_page v.total_page v.total_number

abbrev pub element_format_text : ElementFormat → String → View → String
element_format_text (ElementFormat.text s) element v = s
element_format_text (ElementFormat.made f) element v =
    f element v.current_page v.total_page v.total_number

abbrev pub counts : View → List (String × String)
counts v =
    ("currentPage", show v.current_page)
    ∷ ("totalPage", show v.total_page)
    ∷ ("totalNumber", show v.total_number)
    ∷ []

abbrev pub go_input : String
go_input = "<input type=\"text\" class=\"J-paginationjs-go-pagenumber\">"

abbrev pub go_button : Attributes → String
go_button a = join (
    "<input type=\"button\" class=\"J-paginationjs-go-button\" value=\"" ∷ a.go_button_text ∷ "\">"
    ∷ [])

abbrev pub ul_html : Option String → String
ul_html none = "<ul>"
ul_html (some name) = if truthy name then join ("<ul class=\"" ∷ name ∷ "\">" ∷ []) else "<ul>"

module _ (replace : Replace) (a : Attributes) (v : View) where
  -- The header and the footer: nothing where there is no format or its text is empty.
  unfoldable pub banner_html : Option Format → String
  unfolding replace_variables
  banner_html none = ""
  banner_html (some format) =
      let template = format_text format v in
      if truthy template then printed (replace_variables replace template (counts v)) else ""

  unfoldable pub pages_html : String
  unfolding button_html previous_button next_button page_numbers_html
  pages_html =
      if a.show_previous || a.show_page_numbers || a.show_next
      then join (
          "<div class=\"paginationjs-pages\">"
          ∷ ul_html a.ul_class_name
          ∷ button_html a (previous_look a) (previous_button a v.current_page)
          ∷ (if a.show_page_numbers
              then page_numbers_html a v.total_page v.current_page v.range
              else "")
          ∷ button_html a (next_look a) (next_button a v.total_page v.current_page)
          ∷ "</ul></div>"
          ∷ [])
      else ""

  -- A block that is drawn if its option is set and its format is not empty.
  abbrev pub block_html :
      Bool → (template : String) → List (String × String) → (opening : List String) → String
  block_html shown template variables opening =
      if shown && truthy template
      then join opening <> printed (replace_variables replace template variables) <> "</div>"
      else ""

  unfoldable pub generate_html : String
  unfolding banner_html pages_html replace_variables
  generate_html = join (
      banner_html a.header
      ∷ pages_html
      ∷ block_html a.show_navigator (format_text a.format_navigator v) (counts v)
          ("<div class=\"" ∷ a.class_prefix ∷ "-nav J-paginationjs-nav\">" ∷ [])
      ∷ block_html a.show_go_input (element_format_text a.format_go_input go_input v)
          (counts v ++ ("input", go_input) ∷ [])
          ("<div class=\"" ∷ a.class_prefix ∷ "-go-input\">" ∷ [])
      ∷ block_html a.show_go_button (element_format_text a.format_go_button (go_button a) v)
          (counts v ++ ("button", go_button a) ∷ [])
          ("<div class=\"" ∷ a.class_prefix ∷ "-go-button\">" ∷ [])
      ∷ banner_html a.footer
      ∷ [])
