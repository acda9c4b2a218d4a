-- ===== src/Examples/Addresses.antt =====
-- The page links of lib/pact_broker/ui/views/index/_pagination.haml at concrete inputs, with addresses that
-- are lists of names and values, written out one character at a time.
use pact_broker.Prelude.{
  ◌≡◌, refl, ap, ◌∙◌, String, Bool, Option, none, some, List, [], ◌∷◌, str_eq, if◌then◌else◌,
}
use Prim.Native.Char.{Char}
use pact_broker.Index.Links.{UrlApi, create_page_link}
use pact_broker.Index.Links.Kept.{param-create_page_link}

-- "x" stands before each character of a text, "n" after its last.
written : String → String → String
written String.[] rest = String.◌∷◌ "n" rest
written (String.◌∷◌ c s) rest = String.◌∷◌ "x" (String.◌∷◌ c (written s rest))

before_first : Char → List String → List String
before_first c [] = []
before_first c (s ∷ texts) = String.◌∷◌ c s ∷ texts

abbrev is_more : Char → Bool
is_more c = str_eq (String.◌∷◌ c String.[]) "x"

read : String → List String
read String.[] = []
read (String.◌∷◌ m String.[]) = if is_more m then [] else "" ∷ []
read (String.◌∷◌ m (String.◌∷◌ c s)) =
    if is_more m then before_first c (read s) else "" ∷ read (String.◌∷◌ c s)

print_all : List String → String
print_all [] = ""
print_all (s ∷ texts) = written s (print_all texts)

read_end : (rest : String) → read (String.◌∷◌ "n" rest) ≡ "" ∷ read rest
unfolding read
read_end String.[] = refl
read_end (String.◌∷◌ c s) = refl

read-written : (s rest : String) → read (written s rest) ≡ s ∷ read rest
unfolding read written before_first
read-written String.[] rest = read_end rest
read-written (String.◌∷◌ c s) rest = ap (before_first c) (read-written s rest)

read-print_all : (texts : List String) → read (print_all texts) ≡ texts
unfolding read print_all
read-print_all [] = refl
read-print_all (s ∷ texts) =
    read-written s (print_all texts) ∙ ap (λ l. s ∷ l) (read-print_all texts)

value_in : List String → String → Option String
value_in [] key = none
value_in (name ∷ []) key = none
value_in (name ∷ value ∷ texts) key = if str_eq name key then some value else value_in texts key

abbrev lists : UrlApi
unfolding value_in
lists = record {
  Url = List String;
  parse = read;
  print = print_all;
  set_param = λ name value texts. name ∷ value ∷ texts;
  param = value_in;
  param-set_param = λ name value texts key. refl;
  param-parse-print = λ texts key. ap (λ l. value_in l key) (read-print_all texts);
}

abbrev searched : String
searched = print_all ("search" ∷ "Foo" ∷ [])

param-create_page_link_example :
    lists.param (lists.parse (create_page_link lists searched 2 30)) "search"
    ≡ lists.param (lists.parse searched) "search"
param-create_page_link_example = param-create_page_link lists searched 2 30 "search"
