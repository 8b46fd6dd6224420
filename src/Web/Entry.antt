-- ===== src/Web/Entry.antt =====
-- web/frps/src/main.js and web/frpc/src/main.js: what the two dashboards import of element-ui, register with
-- Vue and put on its prototype; the elements in the templates of App.vue; and what becomes of a notice that
-- a page of frps asks for. What element-ui draws is third-party.
pub mod Notices
use frp.Prelude.{
  String, str_eq, Bool, true, false, ◌&&◌, ◌||◌, List, [], ◌∷◌, if◌then◌else◌, Option, none, some,
}
use frp.Web.Overview.{Effect, draw, warn}

-- A part of element-ui.
pub data Part : Type 0 where
  button form form_item row col table table_column popover menu submenu menu_item tag message_box
        message input :
      Part

-- A part as main.js names it.
abbrev pub part_name : Part → String
part_name button = "Button"
part_name form = "Form"
part_name form_item = "FormItem"
part_name row = "Row"
part_name col = "Col"
part_name table = "Table"
part_name table_column = "TableColumn"
part_name popover = "Popover"
part_name menu = "Menu"
part_name submenu = "Submenu"
part_name menu_item = "MenuItem"
part_name tag = "Tag"
part_name message_box = "MessageBox"
part_name message = "Message"
part_name input = "Input"

-- What a property of the prototype is set to: a part, or a function of one.
pub data Global : Type 0 where
  whole : Part → Global
  member : Part → String → Global

pub record Assignment : Type 0 where
  pub key : String
  pub global : Global

abbrev pub frps_imports : List Part
frps_imports =
    button ∷ form ∷ form_item ∷ row ∷ col ∷ table ∷ table_column ∷ popover ∷ menu ∷ submenu
    ∷ menu_item ∷ tag ∷ []

abbrev pub frps_uses : List Part
frps_uses =
    button ∷ form ∷ form_item ∷ row ∷ col ∷ table ∷ table_column ∷ popover ∷ menu ∷ submenu
    ∷ menu_item ∷ tag ∷ []

-- The assignments to Vue.prototype in main.js of frps: none.
abbrev pub frps_globals : List Assignment
frps_globals = []

abbrev pub frpc_imports : List Part
frpc_imports =
    button ∷ form ∷ form_item ∷ row ∷ col ∷ table ∷ table_column ∷ menu ∷ menu_item ∷ message_box
    ∷ message ∷ input ∷ []

abbrev pub frpc_uses : List Part
frpc_uses =
    button ∷ form ∷ form_item ∷ row ∷ col ∷ table ∷ table_column ∷ menu ∷ menu_item ∷ input ∷ []

abbrev pub frpc_globals : List Assignment
frpc_globals =
    record { key = "$msgbox"; global = whole message_box }
    ∷ record { key = "$confirm"; global = member message_box "confirm" }
    ∷ record { key = "$message"; global = whole message }
    ∷ []

-- The elements in the template of App.vue, in order.
abbrev pub frps_app : List Part
frps_app =
    row ∷ row ∷ col ∷ menu ∷ menu_item ∷ submenu ∷ menu_item ∷ menu_item ∷ menu_item ∷ menu_item
    ∷ menu_item ∷ menu_item ∷ menu_item ∷ col ∷ []

abbrev pub frpc_app : List Part
frpc_app = row ∷ row ∷ col ∷ menu ∷ menu_item ∷ menu_item ∷ menu_item ∷ col ∷ []

abbrev pub has_part : List Part → String → Bool
has_part [] name = false
has_part (p ∷ parts) name = str_eq (part_name p) name || has_part parts name

-- Every part of the second list is one of the first.
abbrev pub covers : List Part → List Part → Bool
covers parts [] = true
covers parts (p ∷ used) = has_part parts (part_name p) && covers parts used

-- The value of a property of the prototype.
abbrev pub find_global : List Assignment → String → Option Global
find_global [] key = none
find_global (a ∷ globals) key = if str_eq a.key key then some a.global else find_global globals key

-- What takes place of the effects that fetchData asks for: `this.$message` throws in the handler of
-- `catch` if nobody has set it, and what follows does not run.
unfoldable pub take_place : List Assignment → List Effect → List Effect
take_place globals [] = []
take_place globals (draw id pie ∷ es) = draw id pie ∷ take_place globals es
take_place globals (warn text ∷ es) = elim (find_global globals "$message") [
  | none ↦ []
  | some g ↦ warn text ∷ take_place globals es
]
