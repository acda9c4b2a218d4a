-- ===== src/Index/Links.antt =====
-- The script of lib/pact_broker/ui/views/index/_pagination.haml: the options with which the index page
-- calls the plug-in of public/javascripts/pagination.js.
pub mod Kept
use pact_broker.Prelude.{
  ℕ, String, Bool, true, false, Option, none, some, List, [], ◌∷◌, ◌≡◌, str_eq, join, show,
  if◌then◌else◌,
}
use pact_broker.Js.{undefined, number, array, end}
use pact_broker.Pagination.Options.{Attributes, Format, defaults}
use pact_broker.Pagination.Source.{Locator, Source}
use pact_broker.Pagination.Container.{Config}

-- `URL` of the browser and its `searchParams`, as they are documented: setting a parameter changes that
-- one, and a printed address has the parameters that it was printed with.
pub record UrlApi : Type 1 where
  pub Url : Type 0
  pub parse : String → Url
  pub print : Url → String
  pub set_param : (name value : String) → Url → Url
  pub param : Url → String → Option String
  pub param-set_param :
      (name value : String) (url : Url) (other : String)
      → param (set_param name value url) other
        ≡ (if str_eq name other then some value else param url other)
  pub param-parse-print :
      (url : Url) (name : String) → param (parse (print url)) name ≡ param url name

unfoldable pub create_footer :
    (current_page_size : ℕ) → (current_page total_page total_number : ℕ) → String
create_footer current_page_size current_page total_page total_number = join (
    "<div class='nav-footer'>"
    ∷ show current_page_size
    ∷ " of "
    ∷ show total_number
    ∷ " pacts</div>"
    ∷ [])

module _ (api : UrlApi) (location : String) where
  -- `window.location` with another page.
  unfoldable pub create_page_link : (page_number page_size : ℕ) → String
  create_page_link page_number page_size = api.print (
      api.set_param "pageSize" (show page_size)
        (api.set_param "page" (show page_number) (api.parse location)))

  -- The constants of the script are the arguments.
  unfoldable pub index_attributes :
      (page_number page_size total_number current_page_size : ℕ) → Attributes
  unfolding create_page_link create_footer
  index_attributes page_number page_size total_number current_page_size = record defaults {
    total_number = total_number;
    page_number = page_number;
    page_size = page_size;
    page_range = some 2;
    page_link = create_page_link;
    ul_class_name = some "pagination";
    footer = some (Format.made (create_footer current_page_size));
  }

  unfoldable pub index_config : (page_number page_size total_number current_page_size : ℕ) → Config
  unfolding index_attributes
  index_config page_number page_size total_number current_page_size = record {
    attributes = index_attributes page_number page_size total_number current_page_size;
    parameters = record {
      data_source = Source.value (array end);
      total_number = number total_number;
      total_number_locator = undefined;
      locator = Locator.value undefined;
      format_result = undefined;
    };
    hooks = λ name. none;
    disabled = false;
  }
