-- ===== src/Index/Links/Kept.antt =====
-- Where the page links lead.
use pact_broker.Prelude.{ℕ, String, some, ◌≡◌, str_eq, show, if◌then◌else◌}
use pact_broker.Index.Links.{UrlApi, create_page_link}

-- A page link has the given page and page size, and all other parameters of the address of the page, such as
-- the search, as they are.
pub param-create_page_link :
    (api : UrlApi) (location : String) (page_number page_size : ℕ) (name : String)
    → api.param (api.parse (create_page_link api location page_number page_size)) name ≡ (
        if str_eq "pageSize" name
        then some (show page_size)
        else if str_eq "page" name
        then some (show page_number)
        else api.param (api.parse location) name)
unfolding create_page_link
param-create_page_link api location page_number page_size name =
    rw (api.param-parse-print, api.param-set_param, api.param-set_param)
