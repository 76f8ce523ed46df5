-- ===== src/Config/Sample.antt =====
-- A small document type, which shows that the laws assumed of toml_edit can hold.
use coolerocontrol.Base.{
  ℕ, String, Bool, true, false, Option, none, some, List, [], ◌∷◌, if◌then◌else◌, string_eq, ◌==◌,
  ◌≡◌, refl, ap, sym, ◌∙◌, inl, inr, Bool-cases, string_eq_iff,
}
use coolerocontrol.Base.Int.{ℤ}
use coolerocontrol.Config.Toml.{Toml, IsToml}

mutual
  pub data Node : Type 0 where
    absent : Node
    str : String → Node
    int : ℤ → Node
    real : ℕ → Node
    truth : Bool → Node
    list : Nodes → Node
    inline : Fields → Node
    block : Fields → Node
    blocks : Blocks → Node

  pub data Nodes : Type 0 where
    stop : Nodes
    more : Node → Nodes → Nodes

  pub data Fields : Type 0 where
    end : Fields
    field : String → Node → Fields → Fields

  pub data Blocks : Type 0 where
    no_block : Blocks
    next_block : Fields → Blocks → Blocks

abbrev is_absent : Node → Bool
is_absent absent = true
is_absent _ = false

abbrev nodes_of : List Node → Nodes
nodes_of [] = stop
nodes_of (n ∷ ns) = more n (nodes_of ns)

abbrev list_of : Nodes → List Node
list_of stop = []
list_of (more n ns) = n ∷ list_of ns

abbrev blocks_of : List Fields → Blocks
blocks_of [] = no_block
blocks_of (t ∷ ts) = next_block t (blocks_of ts)

abbrev tables_of : Blocks → List Fields
tables_of no_block = []
tables_of (next_block t ts) = t ∷ tables_of ts

abbrev read : Node → Option Node
read n = if is_absent n then none else some n

abbrev get_field : Fields → String → Option Node
get_field end k = none
get_field (field j n t) k = if j == k then read n else get_field t k

abbrev set_field : Fields → String → Node → Fields
set_field end k n = field k n end
set_field (field j m t) k n = if j == k then field j n t else field j m (set_field t k n)

abbrev entries : Fields → List (String × Node)
entries end = []
entries (field j n t) = if is_absent n then entries t else (j, n) ∷ entries t

abbrev str_of : Node → Option String
str_of (str s) = some s
str_of _ = none

abbrev int_of : Node → Option ℤ
int_of (int z) = some z
int_of _ = none

abbrev real_of : Node → Option ℕ
real_of (real x) = some x
real_of _ = none

abbrev truth_of : Node → Option Bool
truth_of (truth b) = some b
truth_of _ = none

abbrev array_of : Node → Option (List Node)
array_of (list ns) = some (list_of ns)
array_of _ = none

abbrev inline_of : Node → Option Fields
inline_of (inline t) = some t
inline_of _ = none

abbrev block_of : Node → Option Fields
block_of (block t) = some t
block_of _ = none

abbrev blocks_in : Node → Option (List Fields)
blocks_in (blocks ts) = some (tables_of ts)
blocks_in _ = none

abbrev get_in : Node → String → Option Node
get_in (inline t) k = get_field t k
get_in (block t) k = get_field t k
get_in _ k = none

abbrev indexable : Node → Bool
indexable absent = true
indexable (inline t) = true
indexable (block t) = true
indexable _ = false

abbrev place_in : Node → String → Node
place_in n k = elim (get_in n k) [ some i ↦ i | none ↦ absent ]

abbrev set_in : Node → String → Node → Node
set_in (inline t) k n = inline (set_field t k n)
set_in (block t) k n = block (set_field t k n)
set_in _ k n = inline (set_field end k n)

abbrev pub sample : Toml ℕ
sample = record {
  Table = Fields;
  Item = Node;
  new = end;
  get = get_field;
  iter = entries;
  insert = set_field;
  none_item = absent;
  string = str;
  integer = int;
  float = real;
  boolean = truth;
  array = λ ns. list (nodes_of ns);
  inline_table = inline;
  table = block;
  array_of_tables = λ ts. blocks (blocks_of ts);
  is_none = is_absent;
  as_str = str_of;
  as_integer = int_of;
  as_float = real_of;
  as_bool = truth_of;
  as_array = array_of;
  as_inline_table = inline_of;
  as_table = block_of;
  as_array_of_tables = blocks_in;
  item_get = get_in;
  is_indexable = indexable;
  index = place_in;
  set = set_in;
}

list_of-nodes_of : (ns : List Node) → list_of (nodes_of ns) ≡ ns
list_of-nodes_of [] = refl
list_of-nodes_of (n ∷ ns) = ap (λ xs. n ∷ xs) (list_of-nodes_of ns)

tables_of-blocks_of : (ts : List Fields) → tables_of (blocks_of ts) ≡ ts
tables_of-blocks_of [] = refl
tables_of-blocks_of (t ∷ ts) = ap (λ xs. t ∷ xs) (tables_of-blocks_of ts)

get_field-set_field :
    (t : Fields) (k j : String) (n : Node)
    → get_field (set_field t k n) j
      ≡ (if k == j then (if is_absent n then none else some n) else get_field t j)
get_field-set_field end k j n = refl
get_field-set_field (field i m t) k j n = elim (Bool-cases (i == k)) [
  | inl hit ↦
      let same : (i == j) ≡ (k == j) = ap (λ x. x == j) (string_eq_iff i k hit) in
      rw (hit, same) (elim (Bool-cases (k == j)) [ inl e ↦ rw e refl | inr e ↦ rw e refl ])
  | inr miss ↦
      rw (miss, get_field-set_field t k j n)
        (elim (Bool-cases (i == j)) [
          | inr far ↦ rw far refl
          | inl near ↦ elim (Bool-cases (k == j)) [
            | inr e ↦ rw (near, e) refl
            | inl e ↦
                let both : (i == k) ≡ true =
                  string_eq.eq_trans i j k near (string_eq.eq_sym k j e) in
                absurd (let clash : ◌≡◌ {A = Bool} true false = sym both ∙ miss in cc)
          ]
        ])
]

inline_of-inv : (n : Node) (t : Fields) → inline_of n ≡ some t → n ≡ inline t
inline_of-inv (inline s) t e = cc
inline_of-inv absent t e = cc
inline_of-inv (str s) t e = cc
inline_of-inv (int z) t e = cc
inline_of-inv (real x) t e = cc
inline_of-inv (truth b) t e = cc
inline_of-inv (list ns) t e = cc
inline_of-inv (block s) t e = cc
inline_of-inv (blocks ts) t e = cc

pub sample-IsToml : IsToml sample
sample-IsToml = record {
  get-new = λ k. refl;
  get-insert = get_field-set_field;
  is_none-none_item = refl;
  is_none-string = λ s. refl;
  is_none-integer = λ z. refl;
  is_none-float = λ x. refl;
  is_none-boolean = λ b. refl;
  is_none-array = λ is. refl;
  is_none-inline_table = λ t. refl;
  is_none-table = λ t. refl;
  is_none-array_of_tables = λ ts. refl;
  as_str-string = λ s. refl;
  as_integer-integer = λ z. refl;
  as_float-float = λ x. refl;
  as_bool-boolean = λ b. refl;
  as_array-array = λ ns. ap some (list_of-nodes_of ns);
  as_inline_table-inline_table = λ t. refl;
  as_inline_table_inv = inline_of-inv;
  as_table-table = λ t. refl;
  as_array_of_tables-array_of_tables = λ ts. ap some (tables_of-blocks_of ts);
  item_get-table = λ t k. refl;
  is_indexable-none_item = refl;
  is_indexable-inline_table = λ t. refl;
  is_indexable-table = λ t. refl;
  index-none_item = λ k. refl;
  index-inline_table = λ t k. refl;
  index-table = λ t k. refl;
  set-none_item = λ k i. refl;
  set-inline_table = λ t k i. refl;
  set-table = λ t k i. refl;
}
