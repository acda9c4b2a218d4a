-- ===== src/Clipboard/Dom.antt =====
-- What public/javascripts/clipboard.js takes from the document. Elements are known by numbers.
use pact_broker.Prelude.{
  ap, refl, arith, max, suc, ◌<◌, ℕ, String, Bool, true, false, not, Option, none, some, List, [],
  ◌∷◌, ◌++◌, ◌≡◌, ◌==◌, any, keep, if◌then◌else◌,
}

-- What there is to see: the children of the body, the values of text areas, the area that is selected,
-- the ranges of the selection, and the clipboard.
pub record View (Range : Type 0) : Type 0 where
  pub body : List ℕ
  pub value : ℕ → String
  pub chosen : Option ℕ
  pub ranges : List Range
  pub clipboard : String

abbrev pub holds_child : {Range : Type 0} → ℕ → View Range → Bool
holds_child n v = any (λ m. m == n) v.body

-- The operations, and what their documentation says of each. What selecting an area and removing an
-- element do to the ranges is left open, and what setting ranges does to the selected area.
pub record Document : Type 1 where
  pub State : Type 0
  pub Range : Type 0
  pub view : State → View Range
  pub create_area : State → State × ℕ
  pub set_value : ℕ → String → State → State
  pub set_attribute : ℕ → (name value : String) → State → State
  pub set_style : ℕ → (name value : String) → State → State
  pub append_child : ℕ → State → State
  pub remove_child : ℕ → State → State
  pub select : ℕ → State → State
  pub exec_copy : State → State
  pub remove_all_ranges : State → State
  pub add_range : Range → State → State
  pub view-create : (s : State) → view (create_area s).0 ≡ view s
  pub new-create : (s : State) → holds_child (create_area s).1 (view s) ≡ false
  pub view-set_value :
      (n : ℕ) (text : String) (s : State)
      → view (set_value n text s)
        ≡ record (view s) { value = λ m. if m == n then text else (view s).value m }
  pub view-set_attribute :
      (n : ℕ) (name value : String) (s : State) → view (set_attribute n name value s) ≡ view s
  pub view-set_style :
      (n : ℕ) (name value : String) (s : State) → view (set_style n name value s) ≡ view s
  pub view-append_child :
      (n : ℕ) (s : State)
      → view (append_child n s) ≡ record (view s) { body = (view s).body ++ n ∷ [] }
  pub view-remove_child :
      (n : ℕ) (s : State)
      → view (remove_child n s) ≡ record (view s) {
        body = keep (λ m. not (m == n)) (view s).body;
        ranges = (view (remove_child n s)).ranges;
      }
  pub view-select :
      (n : ℕ) (s : State)
      → view (select n s) ≡ record (view s) { chosen = some n; ranges = (view (select n s)).ranges }
  pub view-exec_copy :
      (n : ℕ) (s : State)
      → (view s).chosen ≡ some n
      → holds_child n (view s) ≡ true
      → view (exec_copy s) ≡ record (view s) { clipboard = (view s).value n }
  pub view-remove_all_ranges :
      (s : State)
      → view (remove_all_ranges s)
        ≡ record (view s) { ranges = []; chosen = (view (remove_all_ranges s)).chosen }
  pub view-add_range :
      (r : Range) (s : State)
      → (view s).ranges ≡ []
      → view (add_range r s)
        ≡ record (view s) { ranges = r ∷ []; chosen = (view (add_range r s)).chosen }

-- A document that is no more than its view: the documented behaviour can be met. The ranges are
-- numbers, and selecting an area takes them away. A new element has a number above those in the body.
abbrev pub bound : List ℕ → ℕ
bound [] = 0
bound (n ∷ ns) = max n (bound ns)

pub above_bound : (n : ℕ) (ns : List ℕ) → bound ns < n → any (λ m. m == n) ns ≡ false
above_bound n [] h = refl
above_bound n (m ∷ ns) h = ground (arith, above_bound n ns)

abbrev pub copied_in : View ℕ → Option ℕ → View ℕ
copied_in v none = v
copied_in v (some n) = record v { clipboard = v.value n }

pub copied_in_lem :
    (v : View ℕ) (n : ℕ)
    → v.chosen ≡ some n
    → copied_in v v.chosen ≡ record v { clipboard = v.value n }
copied_in_lem v n h = ap (copied_in v) h

abbrev pub Plain : Type 0
Plain = View ℕ

abbrev pub plain_document : Document
plain_document = record {
  State = Plain;
  Range = ℕ;
  view = λ v. v;
  create_area = λ v. (v, suc (bound v.body));
  set_value = λ n t v. record v { value = λ m. if m == n then t else v.value m };
  set_attribute = λ n name value v. v;
  set_style = λ n name value v. v;
  append_child = λ n v. record v { body = v.body ++ n ∷ [] };
  remove_child = λ n v. record v { body = keep (λ m. not (m == n)) v.body };
  select = λ n v. record v { chosen = some n; ranges = [] };
  exec_copy = λ v. copied_in v v.chosen;
  remove_all_ranges = λ v. record v { ranges = [] };
  add_range = λ r v. record v { ranges = v.ranges ++ r ∷ [] };
  view-create = λ v. refl;
  new-create = λ v. above_bound (suc (bound v.body)) v.body (omega arith);
  view-set_value = λ n t v. refl;
  view-set_attribute = λ n name value v. refl;
  view-set_style = λ n name value v. refl;
  view-append_child = λ n v. refl;
  view-remove_child = λ n v. refl;
  view-select = λ n v. refl;
  view-exec_copy = λ n v h k. copied_in_lem v n h;
  view-remove_all_ranges = λ v. refl;
  view-add_range = λ r v h. ap (λ l. record v { ranges = l ++ r ∷ [] }) h;
}
