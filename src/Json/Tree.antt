-- ===== src/Json/Tree.antt =====
-- Trees as JSON values, for the interface `Json`.
use styio_platform.Base.{
  String, ◌≡◌, refl, Bool, true, false, Option, none, some, List, [], ◌∷◌, ◌==◌, if◌then◌else◌,
  Result, ok, err, arith, eq_iff,
}
use styio_platform.Base.Dict.{get}
use styio_platform.Json.{Json, ℤ}

mutual
  pub data Tree : Type 0 where
    null : Tree
    str : String → Tree
    num : ℤ → Tree
    bool : Bool → Tree
    arr : Items → Tree
    obj : Fields → Tree

  pub data Items : Type 0 where
    nil : Items
    cons : Tree → Items → Items

  pub data Fields : Type 0 where
    end : Fields
    entry : String → Tree → Fields → Fields

abbrev pub items : List Tree → Items
items [] = nil
items (v ∷ vs) = cons v (items vs)

abbrev pub fields : List (String × Tree) → Fields
fields [] = end
fields ((k, v) ∷ fs) = entry k v (fields fs)

abbrev pub entries_of : Items → List Tree
entries_of nil = []
entries_of (cons v vs) = v ∷ entries_of vs

abbrev pub find_field : Fields → String → Option Tree
find_field end k = none
find_field (entry j v fs) k = if j == k then some v else find_field fs k

abbrev pub set_field : Fields → String → Tree → Fields
set_field end k w = entry k w end
set_field (entry j v fs) k w = if j == k then entry k w fs else entry j v (set_field fs k w)

abbrev pub set_tree : Tree → String → Tree → Tree
set_tree (obj fs) k w = obj (set_field fs k w)
set_tree v k w = v

abbrev pub is_obj : Tree → Bool
is_obj (obj fs) = true
is_obj v = false

abbrev pub is_str : Tree → Bool
is_str (str s) = true
is_str v = false

abbrev pub is_arr : Tree → Bool
is_arr (arr vs) = true
is_arr v = false

abbrev pub is_num : Tree → Bool
is_num (num n) = true
is_num v = false

abbrev pub is_nothing : Tree → Bool
is_nothing null = true
is_nothing (arr nil) = true
is_nothing (obj end) = true
is_nothing v = false

abbrev pub find_tree : Tree → String → Option Tree
find_tree (obj fs) k = find_field fs k
find_tree v k = none

abbrev pub entries_tree : Tree → List Tree
entries_tree (arr vs) = entries_of vs
entries_tree v = []

abbrev pub get_str : Tree → Result String
get_str (str s) = ok s
get_str v = err "type must be string"

abbrev pub get_num : Tree → Result ℤ
get_num (num n) = ok n
get_num v = err "type must be number"

pub find_field-fields :
    (fs : List (String × Tree)) (k : String) → find_field (fields fs) k ≡ get k fs
unfolding get
find_field-fields [] k = refl
find_field-fields ((j, v) ∷ fs) k = ground (arith, find_field-fields fs k)

pub find_field-set_field :
    (fs : Fields) (w : Tree) (k j : String)
    → find_field (set_field fs k w) j ≡ (if k == j then some w else find_field fs j)
find_field-set_field end w k j = refl
find_field-set_field (entry i v fs) w k j =
    ground (arith, eq_iff i k, eq_iff i j, eq_iff k j, find_field-set_field fs w k j)

pub is_obj-set_tree : (v w : Tree) (k : String) → is_obj v ≡ true → is_obj (set_tree v k w) ≡ true
is_obj-set_tree (obj fs) w k h = refl
is_obj-set_tree v w k h = cc

pub find_tree-set_tree :
    (v w : Tree) (k j : String)
    → is_obj v ≡ true
    → find_tree (set_tree v k w) j ≡ (if k == j then some w else find_tree v j)
find_tree-set_tree (obj fs) w k j h = find_field-set_field fs w k j
find_tree-set_tree v w k j h = cc

pub get_str-is_str : (v : Tree) → is_str v ≡ true → (s : String) × (get_str v ≡ ok s)
unfolding get
get_str-is_str (str s) h = (s, refl)
get_str-is_str v h = cc

pub is_obj-fields : (fs : List (String × Tree)) → is_obj (obj (fields fs)) ≡ true
is_obj-fields fs = refl

pub find_tree-fields :
    (fs : List (String × Tree)) (k : String) → find_tree (obj (fields fs)) k ≡ get k fs
find_tree-fields fs k = find_field-fields fs k

pub is_str-str : (s : String) → is_str (str s) ≡ true
is_str-str s = refl

pub get_str-str : (s : String) → get_str (str s) ≡ ok s
unfolding get
get_str-str s = refl

pub is_str-fields : (fs : List (String × Tree)) → is_str (obj (fields fs)) ≡ false
is_str-fields fs = refl

pub is_num-num : (n : ℤ) → is_num (num n) ≡ true
is_num-num n = refl

abbrev pub tree_json : Json
tree_json = record {
  Value = Tree;
  null = Tree.null;
  string = str;
  number = num;
  boolean = bool;
  array = λ vs. arr (items vs);
  object = λ fs. obj (fields fs);
  set = set_tree;
  is_object = is_obj;
  is_string = is_str;
  is_array = is_arr;
  is_number_integer = is_num;
  is_empty = is_nothing;
  find = find_tree;
  entries = entries_tree;
  get_string = get_str;
  get_int = get_num;
  is_object-object = is_obj-fields;
  find-object = find_tree-fields;
  is_object-set = is_obj-set_tree;
  find-set = find_tree-set_tree;
  is_string-string = is_str-str;
  get_string-string = get_str-str;
  is_string-object = is_str-fields;
  is_number_integer-number = is_num-num;
  get_string-is_string = get_str-is_str;
}
